-- ===== src/KernelLog/Entries.antt =====
-- What one call of `log_vprintf` does to the entries, and when it does nothing.
use zeptux.Base.{
  ℕ, ◌≤◌, ◌<◌, min, ◌-◌, false, List, [], ◌≡◌, ◌≢◌, ◌⊎◌, inl, inr, ltb, ◌==◌, if◌then◌else◌, arith,
  bit_and, length, get_or, ==_self, sym,
}
use mathlib.Core.Path.{subst₂}
use zeptux.Format.Defs.{Arg}
use zeptux.Format.Output.{Rendered, render, vsnprintf-Written}
use zeptux.KernelLog.{
  KernelLogState, KernelGlobal, early, has_ring_buffer, Logged, logged, next_write_entry,
  KernelLogEntry, write_entry, maybe_echo_log, echo_text, log_vprintf, store_entry, kernel_log_mask,
  kernel_log_buf_size,
}

-- A message below the kernel's level leaves no trace.
pub log_vprintf-filtered :
    (s : KernelLogState) (global : KernelGlobal) (flags : ℕ) (fmt : List ℕ) (args : List Arg)
    → bit_and flags kernel_log_mask < bit_and global.log_level kernel_log_mask
    → log_vprintf s global flags fmt args ≡ logged s []
unfolding log_vprintf
log_vprintf-filtered s global flags fmt args h = ground arith

-- The entry that a message of text `out` leaves in slot `i`: its flags, and a buffer with the
-- text cut to 499 bytes and terminated; every other entry as before.
pub record Stored (entries : ℕ → KernelLogEntry) (i flags : ℕ) (out : List ℕ) (result : Logged)
    : Type 0 where
  pub final : KernelLogState
  pub echo : List ℕ
  pub returns : result ≡ logged final echo
  pub flags_stored : (final.entries i).flags ≡ flags
  pub text_stored :
      (j : ℕ)
      → j < length out
      → j < kernel_log_buf_size - 1
      → get_or (final.entries i).buf j 0 ≡ get_or out j 0
  pub terminated : get_or (final.entries i).buf (min (length out) (kernel_log_buf_size - 1)) 0 ≡ 0
  pub others : (j : ℕ) → i ≢ j → final.entries j ≡ entries j

abbrev pub CanEcho : KernelGlobal → Type 0
CanEcho global = (global.stage ≡ early) ⊎ (global.stage ≡ has_ring_buffer)

echoes :
    (t : KernelLogState) (global : KernelGlobal) (flags : ℕ) (buf : List ℕ)
    → CanEcho global
    → maybe_echo_log t global flags buf
      ≡ logged t (if global.log_echo then echo_text flags buf else [])
unfolding maybe_echo_log
echoes t global flags buf (inl e) = rw e (ground arith)
echoes t global flags buf (inr e) = rw e (ground arith)

next_write_entry-slot :
    (s : KernelLogState)
    → ((next_write_entry s).0 ≡ s.write_offset) × ((next_write_entry s).1.entries ≡ s.entries)
unfolding next_write_entry
next_write_entry-slot s = (ground arith, ground arith)

write_entry-Stored :
    (s : KernelLogState) (i : ℕ) (global : KernelGlobal) (flags : ℕ) (fmt : List ℕ)
    (args : List Arg) (out : List ℕ)
    → CanEcho global
    → length (s.entries i).buf ≡ kernel_log_buf_size
    → render fmt args ≡ Rendered.text out
    → Stored s.entries i flags out (write_entry s i global flags fmt args)
unfolding write_entry
write_entry-Stored s i global flags fmt args out stage size e =
    let w =
      vsnprintf-Written (s.entries i).buf kernel_log_buf_size fmt args out (omega arith)
        (omega arith) e in
    let t = store_entry s i flags w.final in
    let here : t.entries i
        ≡ record { timestamp = (s.entries i).timestamp; flags = flags; buf = w.final } =
      rw (==_self i) in
    record {
      final = t;
      echo = if global.log_echo then echo_text flags w.final else [];
      returns = rw (w.returns, write_entry) (echoes t global flags w.final stage);
      flags_stored = rw here;
      text_stored = λ j a b. rw here (w.text_part j a b);
      terminated = rw here w.terminated;
      others = λ j ne. let no : (i == j) ≡ false = ground arith in rw no;
    }

-- A message of level high enough, in one of the two stages that the echo supports, whose format
-- stands for the text `out`, goes to the slot at the write offset, whose buffer has its 500
-- bytes: its flags, and the text cut to 499 bytes with a terminator. Every other entry stays as
-- it was.
pub log_vprintf-Stored :
    (s : KernelLogState) (global : KernelGlobal) (flags : ℕ) (fmt : List ℕ) (args : List Arg)
    (out : List ℕ)
    → bit_and global.log_level kernel_log_mask ≤ bit_and flags kernel_log_mask
    → CanEcho global
    → length (s.entries s.write_offset).buf ≡ kernel_log_buf_size
    → render fmt args ≡ Rendered.text out
    → Stored s.entries s.write_offset flags out (log_vprintf s global flags fmt args)
unfolding log_vprintf
log_vprintf-Stored s global flags fmt args out level stage size e =
    let (slot, same) = next_write_entry-slot s in
    let pass : ltb (bit_and flags kernel_log_mask) (bit_and global.log_level kernel_log_mask)
        ≡ false =
      ground arith in
    let t = (next_write_entry s).1 in
    let i = (next_write_entry s).0 in
    rw pass (
      subst₂ (λ es k. Stored es k flags out (write_entry t i global flags fmt args)) same slot
        (write_entry-Stored t i global flags fmt args out stage
          (subst₂ (λ es k. length (es k).buf ≡ kernel_log_buf_size) (sym same) (sym slot) size) e))
