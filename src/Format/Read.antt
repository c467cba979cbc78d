-- ===== src/Format/Read.antt =====
-- The code reads a directive as it is spelt.
use zeptux.Base.{
  ℕ, ◌+◌, ◌-◌, ◌*◌, Bool, true, false, ◌||◌, Option, none, some, List, [], ◌∷◌, ◌==◌, if◌then◌else◌,
  ◌≡◌, inl, inr, refl, sym, ap, ◌∙◌, arith, Bool-cases,
}
use zeptux.Format.Defs.{Arg}
use zeptux.Format.Loop.{Directive, directive, read_width, head_char, tail_chars, is_digit}
use zeptux.Format.Convert.{conversion}
use zeptux.Format.Meaning.{Padding, Spec, flag, place, width_from, size, spec_end, spec, meaning}
use zeptux.Format.Agree.{pad_char_of, is_behind, bits_of, directive_of, conversion-meaning}

abbrev decimals : List ℕ
decimals = 48 ∷ 49 ∷ 50 ∷ 51 ∷ 52 ∷ 53 ∷ 54 ∷ 55 ∷ 56 ∷ 57 ∷ []

place-digit : (c : ℕ) → is_digit c ≡ true → place c decimals 0 ≡ some (c - 48)
unfolding place
place-digit c d = ground (arith, d)

place-other : (c : ℕ) → is_digit c ≡ false → place c decimals 0 ≡ none
unfolding place
place-other c d = ground (arith, d)

-- One round of the reading of a width.
width_round :
    (w c : ℕ) (r : List ℕ) (o : Option ℕ)
    → place c decimals 0 ≡ o
    → width_from w (c ∷ r)
      ≡ (elim o as (λ _. ℕ × List ℕ) [ none ↦ (w, c ∷ r) | some d ↦ width_from (10 * w + d) r ])
unfolding width_from
width_round w c r o e =
    ap (λ t. elim t as (λ _. ℕ × List ℕ) [ none ↦ (w, c ∷ r) | some d ↦ width_from (10 * w + d) r ])
      e

read_width-width_from : (w : ℕ) (fmt : List ℕ) → read_width w fmt ≡ width_from w fmt
unfolding read_width width_from
read_width-width_from w [] = refl
read_width-width_from w (c ∷ r) = elim (Bool-cases (is_digit c)) [
  | inl d ↦
      let same : w * 10 + (c - 48) ≡ 10 * w + (c - 48) = omega arith in
      rw d (
        read_width-width_from (w * 10 + (c - 48)) r
        ∙ ap (λ t. width_from t r) same
        ∙ sym (width_round w c r (some (c - 48)) (place-digit c d)))
  | inr other ↦ rw other (sym (width_round w c r none (place-other c other)))
]

-- What `directive` does behind the flag.
behind_flag : ℕ → Bool → List ℕ → Directive
behind_flag pad_char pad_left fmt =
    let (pad_count, fmt) = read_width 0 fmt in
    let chr = head_char fmt in
    let is64 = chr == b'l' || chr == b'L' in
    let fmt = if is64 then tail_chars fmt else fmt in
    record {
      pad_char = pad_char;
      pad_count = pad_count;
      pad_left = pad_left;
      is64 = is64;
      chr = head_char fmt;
      rest = tail_chars fmt;
    }

directive-behind_flag :
    (fmt : List ℕ)
    → directive fmt ≡ behind_flag (pad_char_of (flag fmt).0) (is_behind (flag fmt).0) (flag fmt).1
unfolding directive behind_flag flag
directive-behind_flag [] = refl
directive-behind_flag (c ∷ r) = elim (Bool-cases (c == b'-')) [
  | inl minus ↦ rw minus refl
  | inr other ↦ elim (Bool-cases (c == b'0')) [
    | inl zero_flag ↦ let e : c ≡ b'0' = ground arith in rw e refl
    | inr no_zero ↦ elim (Bool-cases (c == b' ')) [
      | inl space ↦ let e : c ≡ b' ' = ground arith in rw e refl
      | inr none_of ↦ rw (other, no_zero, none_of) refl
    ]
  ]
]

-- The directive with the letter at the head of what is left.
ended : Padding → ℕ → Bool → List ℕ → Directive
ended padding width is64 fmt = directive_of padding width is64 (head_char fmt) (tail_chars fmt)

-- The code reads `s`, with `l` or not.
record IsRead (d : Directive) (s : Spec) : Type 0 where
  is64 : Bool
  reads : d ≡ directive_of s.padding s.width is64 s.letter s.rest
  bits : s.bits ≡ bits_of is64

spec_end-IsRead :
    (padding : Padding) (width : ℕ) (is64 : Bool) (fmt : List ℕ)
    → IsRead (ended padding width is64 fmt) (spec_end padding width (bits_of is64) fmt)
unfolding spec_end ended
spec_end-IsRead padding width is64 [] = record { is64 = is64; reads = refl; bits = refl }
spec_end-IsRead padding width is64 (c ∷ r) = record { is64 = is64; reads = refl; bits = refl }

size-IsRead :
    (padding : Padding) (width : ℕ) (fmt : List ℕ)
    → IsRead
        (let is64 = head_char fmt == b'l' || head_char fmt == b'L' in
          ended padding width is64 (if is64 then tail_chars fmt else fmt))
        (spec_end padding width (size fmt).0 (size fmt).1)
unfolding size
size-IsRead padding width [] = spec_end-IsRead padding width false []
size-IsRead padding width (c ∷ r) = elim (Bool-cases (c == b'l' || c == b'L')) [
  | inl long ↦ rw long (spec_end-IsRead padding width true r)
  | inr short ↦ rw short (spec_end-IsRead padding width false (c ∷ r))
]

behind_flag-IsRead :
    (padding : Padding) (fmt : List ℕ)
    → IsRead (behind_flag (pad_char_of padding) (is_behind padding) fmt) (
        let (width, g) = width_from 0 fmt in
        let (bits, h) = size g in spec_end padding width bits h)
unfolding behind_flag ended
behind_flag-IsRead padding fmt =
    rw (behind_flag, read_width-width_from 0 fmt)
      (size-IsRead padding (width_from 0 fmt).0 (width_from 0 fmt).1)

directive-IsRead : (fmt : List ℕ) → IsRead (directive fmt) (spec fmt)
unfolding spec
directive-IsRead fmt = rw (directive-behind_flag fmt) (behind_flag-IsRead (flag fmt).0 (flag fmt).1)

pub directive_rest : (fmt : List ℕ) → (directive fmt).rest ≡ (spec fmt).rest
directive_rest fmt = ap (λ (d : Directive). d.rest) (directive-IsRead fmt).reads

pub conversion-spec :
    (fmt : List ℕ) (args : List Arg) → conversion (directive fmt) args ≡ meaning (spec fmt) args
conversion-spec fmt args =
    let s = spec fmt in
    let r = directive-IsRead fmt in
    ap (λ d. conversion d args) r.reads
    ∙ conversion-meaning s.padding s.width r.is64 s.letter s.rest args
    ∙ ap (λ b. meaning (record s { bits = b }) args) (sym r.bits)
