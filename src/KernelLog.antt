-- ===== src/KernelLog.antt =====
-- kernel/log.c and include/log.h: the ring buffer of log entries, and its consumer `log_vprintf`.
pub mod Offsets
pub mod Entries
pub mod Tests
use zeptux.Base.{
  ℕ, zero, suc, ◌+◌, ◌%◌, ◌^◌, Bool, true, false, List, ◌==◌, ltb, if◌then◌else◌, bit_and, ◌++◌, [],
  ◌∷◌, replicate,
}
use zeptux.Format.Defs.{Arg}
use zeptux.Format.Loop.{Printed, vsnprintf}

abbrev pub kernel_log_max_num_entries : ℕ
kernel_log_max_num_entries = 1023

abbrev pub kernel_log_buf_size : ℕ
kernel_log_buf_size = 500

-- `BIT_MASK_BELOW(10)`
abbrev pub kernel_log_mask : ℕ
kernel_log_mask = 1023

abbrev pub kernel_log_debug : ℕ
kernel_log_debug = 1

-- `struct kernel_log_entry`; `buf` is the array of 500 bytes.
pub record KernelLogEntry : Type 0 where
  pub timestamp : ℕ
  pub flags : ℕ
  pub buf : List ℕ

-- `struct kernel_log_state`. `entries` is what lies in memory from the array's start on.
pub record KernelLogState : Type 0 where
  pub num_entries : ℕ
  pub read_offset : ℕ
  pub write_offset : ℕ
  pub entries : ℕ → KernelLogEntry

-- `enum kernel_stage`
pub data KernelStage : Type 0 where
  early has_ring_buffer has_interrupt_handler has_multi_core loaded : KernelStage

-- `struct kernel_global`
pub record KernelGlobal : Type 0 where
  pub stage : KernelStage
  pub log_echo : Bool
  pub log_level : ℕ

-- `global_init`
unfoldable pub global_init : KernelGlobal
global_init = record { stage = early; log_echo = true; log_level = kernel_log_debug }

-- `kernel_log_init` allocates a state with 1023 entries, all zeros, and moves the kernel to its second
-- stage. What lies behind the entries, `behind`, is not the log's.
unfoldable pub kernel_log_init : (ℕ → KernelLogEntry) → KernelGlobal → KernelLogState × KernelGlobal
kernel_log_init behind global = (
  record {
    num_entries = 0;
    read_offset = 0;
    write_offset = 0;
    entries = λ i.
        if ltb i kernel_log_max_num_entries
        then record { timestamp = 0; flags = 0; buf = replicate kernel_log_buf_size 0 }
        else behind i;
  },
  record global { stage = has_ring_buffer },
)

-- The index of the entry that is returned, and the new state.
pub next_write_entry : KernelLogState → ℕ × KernelLogState
next_write_entry s =
    if ltb s.num_entries kernel_log_max_num_entries
    then (
      s.write_offset,
      record s { num_entries = s.num_entries + 1; write_offset = s.write_offset + 1 },
    )
    else (
      s.write_offset,
      record s {
        write_offset = (s.write_offset + 1) % kernel_log_max_num_entries;
        read_offset = (s.read_offset + 1) % kernel_log_max_num_entries;
      },
    )

-- The bytes of `buf` before its terminator.
pub c_string : List ℕ → List ℕ
c_string [] = []
c_string (c ∷ r) = let rest = c ∷ c_string r in if c == 0 then [] else rest

-- "TRACE: ", "DEBUG: ", "INFO:  ", "WARN:  ", "ERROR: ", "CRIT:  "; any other level has none.
level_text : ℕ → List ℕ
level_text level =
    if level == 0
    then b'T' ∷ b'R' ∷ b'A' ∷ b'C' ∷ b'E' ∷ b':' ∷ b' ' ∷ []
    else if level == 1
    then b'D' ∷ b'E' ∷ b'B' ∷ b'U' ∷ b'G' ∷ b':' ∷ b' ' ∷ []
    else if level == 2
    then b'I' ∷ b'N' ∷ b'F' ∷ b'O' ∷ b':' ∷ b' ' ∷ b' ' ∷ []
    else if level == 3
    then b'W' ∷ b'A' ∷ b'R' ∷ b'N' ∷ b':' ∷ b' ' ∷ b' ' ∷ []
    else if level == 4
    then b'E' ∷ b'R' ∷ b'R' ∷ b'O' ∷ b'R' ∷ b':' ∷ b' ' ∷ []
    else if level == 5
    then b'C' ∷ b'R' ∷ b'I' ∷ b'T' ∷ b':' ∷ b' ' ∷ b' ' ∷ []
    else []

-- What is echoed for an entry.
pub echo_text : ℕ → List ℕ → List ℕ
unfolding level_text c_string
echo_text flags buf = level_text (bit_and flags kernel_log_mask) ++ (c_string buf ++ 10 ∷ [])

-- What the call leaves: the state and the characters echoed to the early console; a panic; or
-- an undefined read of an argument.
pub data Logged : Type 0 where
  logged : KernelLogState → List ℕ → Logged
  panicked : Logged
  undefined : Logged

-- Only the first two stages can echo.
pub maybe_echo_log : KernelLogState → KernelGlobal → ℕ → List ℕ → Logged
unfolding echo_text
maybe_echo_log s global flags buf =
    let echoed : Logged = elim global.stage [
      | early ↦ logged s (echo_text flags buf)
      | has_ring_buffer ↦ logged s (echo_text flags buf)
      | _ ↦ panicked
    ] in
    if global.log_echo then echoed else logged s []

-- `entries[i]` with new flags and a new buffer.
abbrev pub store_entry : KernelLogState → ℕ → ℕ → List ℕ → KernelLogState
store_entry s i flags buf = record s {
  entries = λ j.
      if i == j
      then record { timestamp = (s.entries i).timestamp; flags = flags; buf = buf }
      else s.entries j;
}

-- The rest of the call, for the slot `i`.
pub write_entry : KernelLogState → ℕ → KernelGlobal → ℕ → List ℕ → List Arg → Logged
unfolding maybe_echo_log
write_entry s i global flags fmt args =
    elim (vsnprintf (s.entries i).buf kernel_log_buf_size fmt args) [
      | Printed.printed buf _ ↦ maybe_echo_log (store_entry s i flags buf) global flags buf
      | Printed.undefined ↦ undefined
      | Printed.out_of_fuel ↦ undefined
    ]

pub log_vprintf : KernelLogState → KernelGlobal → ℕ → List ℕ → List Arg → Logged
unfolding next_write_entry write_entry
log_vprintf s global flags fmt args =
    if ltb (bit_and flags kernel_log_mask) (bit_and global.log_level kernel_log_mask)
    then logged s []
    else let (i, s) = next_write_entry s in write_entry s i global flags fmt args
