-- ===== src/KernelLog/Offsets.antt =====
-- The sequence of slots that `next_write_entry` hands out, from the state of `kernel_log_init`.
use zeptux.Base.{
  ℕ, zero, suc, ◌-◌, ◌%◌, min, ◌≤◌, ◌<◌, ◌≡◌, ◌≢◌, ◌↔◌, inl, inr, ltb, if◌then◌else◌, arith,
  Bool-cases,
}
use zeptux.KernelLog.{
  KernelLogEntry, KernelLogState, global_init, kernel_log_init, next_write_entry,
  kernel_log_max_num_entries,
}

-- The state after `k` calls.
pub after : (ℕ → KernelLogEntry) → ℕ → KernelLogState
after behind zero = (kernel_log_init behind global_init).0
after behind (suc k) = (next_write_entry (after behind k)).1

-- The slot that call number `k` hands out, counted from 0.
pub slot : (ℕ → KernelLogEntry) → ℕ → ℕ
unfolding after
slot behind k = (next_write_entry (after behind k)).0

abbrev Filling : ℕ → KernelLogState → Type 0
Filling k s = (s.num_entries ≡ k) × (s.write_offset ≡ k) × (s.read_offset ≡ 0)

after-Filling : (behind : ℕ → KernelLogEntry) (k : ℕ) → k ≤ 1023 → Filling k (after behind k)
unfolding after next_write_entry kernel_log_init
after-Filling behind zero h = omega arith
after-Filling behind (suc k) h = ground (arith, after-Filling behind k)

abbrev Full : ℕ → KernelLogState → Type 0
Full k s =
    (s.num_entries ≡ 1023)
    × (s.write_offset ≡ (k - 1023) % 1023)
    × (s.read_offset ≡ (k - 1023) % 1023)

-- Once the buffer is full the two offsets move in lockstep.
after-Full : (behind : ℕ → KernelLogEntry) (k : ℕ) → 1023 < k → Full k (after behind k)
unfolding after next_write_entry
after-Full behind zero h = absurd (omega arith)
after-Full behind (suc k) h = elim (Bool-cases (ltb 1023 k)) [
  | inl later ↦ ground (arith, after-Full behind k)
  | inr first ↦ let e : k ≡ 1023 = ground arith in ground (arith, e, after-Filling behind k)
]

-- From `kernel_log_init` on, call number `k` of `next_write_entry`, counted from 0, is given
-- slot `k` up to and including call 1023, whose slot is one past the last of the array; from
-- then on the slots 1, 2, ... 1022, 0, 1, ...
pub slot-eq :
    (behind : ℕ → KernelLogEntry) (k : ℕ)
    → slot behind k ≡ (if ltb k 1024 then k else (k - 1023) % 1023)
unfolding slot next_write_entry
slot-eq behind k = elim (Bool-cases (ltb 1023 k)) [
  | inl later ↦ ground (arith, after-Full behind k)
  | inr first ↦ ground (arith, after-Filling behind k)
]

-- Exactly one call is given a slot outside of the array: the first one after it is full.
pub slot-lt_iff :
    (behind : ℕ → KernelLogEntry) (k : ℕ)
    → (slot behind k < kernel_log_max_num_entries) ↔ (k ≢ 1023)
slot-lt_iff behind k = ground (arith, slot-eq behind k)

-- What a reader that starts at `read_offset` needs: at most 1023 entries, counted as the calls,
-- and a read offset within the array.
pub after-bounds :
    (behind : ℕ → KernelLogEntry) (k : ℕ)
    → ((after behind k).num_entries ≡ min k kernel_log_max_num_entries)
      × ((after behind k).read_offset < kernel_log_max_num_entries)
after-bounds behind k = elim (Bool-cases (ltb 1023 k)) [
  | inl later ↦ ground (arith, after-Full behind k)
  | inr first ↦ ground (arith, after-Filling behind k)
]
