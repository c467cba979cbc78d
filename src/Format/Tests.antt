-- ===== src/Format/Tests.antt =====
-- The theorems on text output at concrete values.
use zeptux.Base.{ℕ, ◌-◌, ◌≤◌, ◌^◌, ◌*◌, List, [], ◌∷◌, ◌≡◌, ◌≢◌, refl, arith}
use zeptux.Format.Defs.{str, word}
use zeptux.Format.Loop.{Printed, vsnprintf}
use zeptux.Format.Meaning.{
  meaning, spec, flag, width_from, place, size, spec_end, number_text, numeral,
}
use zeptux.Format.Output.{
  prepend, render_loop, text, render, Written, vsnprintf-Written, vsnprintf-ends,
}
use zeptux.Format.Human.{scale, scale_loop}

-- "a%u"
abbrev format_a : List ℕ
format_a = b'a' ∷ b'%' ∷ b'u' ∷ []

rendered : render format_a (word 42 ∷ []) ≡ text (b'a' ∷ b'4' ∷ b'2' ∷ [])
unfolding render render_loop prepend meaning spec flag width_from place size spec_end number_text
    numeral
rendered = refl

-- "%05d|%-3s|%lx" with -7, "ab" and 2 ^ 32.
rendered_more :
    render
      (b'%' ∷ b'0' ∷ b'5' ∷ b'd' ∷ b'|' ∷ b'%' ∷ b'-' ∷ b'3' ∷ b's' ∷ b'|' ∷ b'%' ∷ b'l' ∷ b'x'
        ∷ [])
      (word (2 ^ 64 - 7) ∷ str (b'a' ∷ b'b' ∷ []) ∷ word (2 ^ 32) ∷ [])
    ≡ text (
        b'-' ∷ b'0' ∷ b'0' ∷ b'0' ∷ b'7' ∷ b'|' ∷ b'a' ∷ b'b' ∷ b' ' ∷ b'|' ∷ b'1' ∷ b'0' ∷ b'0'
        ∷ b'0' ∷ b'0' ∷ b'0' ∷ b'0' ∷ b'0' ∷ b'0' ∷ [])
unfolding render render_loop prepend meaning spec flag width_from place size spec_end number_text
    numeral
rendered_more = refl

vsnprintf-Written_example :
    Written
      (7 ∷ 7 ∷ 7 ∷ [])
      3
      (b'a' ∷ b'4' ∷ b'2' ∷ [])
      (vsnprintf (7 ∷ 7 ∷ 7 ∷ []) 3 format_a (word 42 ∷ []))
vsnprintf-Written_example =
    vsnprintf-Written (7 ∷ 7 ∷ 7 ∷ []) 3 format_a (word 42 ∷ []) (b'a' ∷ b'4' ∷ b'2' ∷ [])
      (omega arith) (omega arith) rendered

vsnprintf-ends_example : vsnprintf (7 ∷ []) 1 format_a [] ≢ Printed.out_of_fuel
vsnprintf-ends_example = vsnprintf-ends (7 ∷ []) 1 format_a []

gib : 3 ≤ (scale (3 * 2 ^ 29)).unit_index
unfolding scale scale_loop
gib = omega arith
