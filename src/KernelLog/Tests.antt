-- ===== src/KernelLog/Tests.antt =====
-- The theorems on the log at concrete values.
use zeptux.Base.{ℕ, List, [], ◌∷◌, ◌≡◌, inl, refl, arith}
use zeptux.Format.Defs.{word}
use zeptux.Format.Meaning.{
  meaning, spec, flag, width_from, place, size, spec_end, number_text, numeral,
}
use zeptux.Format.Output.{prepend, render_loop, text, render}
use zeptux.KernelLog.{KernelLogEntry, KernelLogState, global_init, kernel_log_init, log_vprintf}
use zeptux.KernelLog.Offsets.{slot, slot-eq}
use zeptux.KernelLog.Entries.{Stored, log_vprintf-Stored}

-- What lies behind the entries.
abbrev junk : ℕ → KernelLogEntry
junk i = record { timestamp = i; flags = 7; buf = [] }

slot-eq_example : slot junk 1500 ≡ 477
slot-eq_example = slot-eq junk 1500

abbrev empty_log : KernelLogState
empty_log = (kernel_log_init junk global_init).0

abbrev format_a : List ℕ
format_a = b'a' ∷ b'%' ∷ b'u' ∷ []

rendered : render format_a (word 42 ∷ []) ≡ text (b'a' ∷ b'4' ∷ b'2' ∷ [])
unfolding render render_loop prepend meaning spec flag width_from place size spec_end number_text
    numeral
rendered = refl

log_vprintf-Stored_example :
    Stored empty_log.entries 0 2
      (b'a' ∷ b'4' ∷ b'2' ∷ [])
      (log_vprintf empty_log global_init 2 format_a (word 42 ∷ []))
unfolding global_init kernel_log_init
log_vprintf-Stored_example =
    log_vprintf-Stored empty_log global_init 2 format_a (word 42 ∷ []) (b'a' ∷ b'4' ∷ b'2' ∷ [])
      (omega arith) (inl refl) refl rendered
