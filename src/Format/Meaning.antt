-- ===== src/Format/Meaning.antt =====
-- What a format stands for, apart from how the code reads it: `%`, a flag, the decimal digits of a
-- width, an `l`, and a letter.
use zeptux.Base.{
  ℕ, zero, suc, ◌+◌, ◌-◌, ◌*◌, ◌/◌, ◌%◌, ◌^◌, Bool, true, false, ◌||◌, Option, none, some, List, [],
  ◌∷◌, ◌++◌, ◌==◌, ltb, leb, if◌then◌else◌, length, get_or, replicate,
}
use zeptux.Format.Defs.{Arg, word, str}

-- "0123456789abcdef"
abbrev pub hex_digits : List ℕ
hex_digits = 48 ∷ 49 ∷ 50 ∷ 51 ∷ 52 ∷ 53 ∷ 54 ∷ 55 ∷ 56 ∷ 57 ∷ 97 ∷ 98 ∷ 99 ∷ 100 ∷ 101 ∷ 102 ∷ []

-- A number by its digits, at most `most` of them.
unfoldable pub numeral : ℕ → ℕ → ℕ → List ℕ
numeral zero base val = []
numeral (suc most) base val =
    let higher = numeral most base (val / base) in
    if ltb val base
    then get_or hex_digits val 0 ∷ []
    else higher ++ get_or hex_digits (val % base) 0 ∷ []

-- Where the padding goes, and which.
pub data Padding : Type 0 where
  behind before zeros : Padding

-- A sign, and a size.
abbrev pub Number : Type 0
Number = Bool × ℕ

abbrev pub unsigned : ℕ → ℕ → Number
unsigned bits val = (false, val % 2 ^ bits)

-- Two's complement.
abbrev pub signed : ℕ → ℕ → Number
signed bits val =
    if ltb (val % 2 ^ bits) (2 ^ (bits - 1))
    then (false, val % 2 ^ bits)
    else (true, 2 ^ bits - val % 2 ^ bits)

abbrev pub padded : Padding → ℕ → List ℕ → List ℕ
padded behind width body = body ++ replicate (width - length body) b' '
padded before width body = replicate (width - length body) b' ' ++ body
padded zeros width body = replicate (width - length body) b' ' ++ body

-- Zeros go between the sign and the digits, spaces before the sign or behind the digits.
unfoldable pub number_text : ℕ → Padding → ℕ → Number → List ℕ
number_text base padding width (minus, size) =
    let digits = numeral 64 base size in
    let sign = if minus then b'-' ∷ [] else [] in
    elim padding [
      | behind ↦ padded behind width (sign ++ digits)
      | before ↦ padded before width (sign ++ digits)
      | zeros ↦ sign ++ (replicate (width - length sign - length digits) b'0' ++ digits)
    ]

-- A directive, and what follows it.
pub record Spec : Type 0 where
  pub padding : Padding
  pub width : ℕ
  pub bits : ℕ
  pub letter : ℕ
  pub rest : List ℕ

unfoldable pub flag : List ℕ → Padding × List ℕ
flag [] = (before, [])
flag (c ∷ r) =
    if c == b'-'
    then (behind, r)
    else if c == b'0'
    then (zeros, r)
    else if c == b' '
    then (before, r)
    else (before, c ∷ r)

-- The place of a character in a text.
unfoldable pub place : ℕ → List ℕ → ℕ → Option ℕ
place c [] i = none
place c (d ∷ ds) i = let later = place c ds (i + 1) in if c == d then some i else later

-- The digits, as far as they go, spell the width behind `w`.
unfoldable pub width_from : ℕ → List ℕ → ℕ × List ℕ
width_from w [] = (w, [])
width_from w (c ∷ r) = elim (place c (48 ∷ 49 ∷ 50 ∷ 51 ∷ 52 ∷ 53 ∷ 54 ∷ 55 ∷ 56 ∷ 57 ∷ []) 0) [
  | none ↦ (w, c ∷ r)
  | some d ↦ width_from (10 * w + d) r
]

unfoldable pub size : List ℕ → ℕ × List ℕ
size [] = (32, [])
size (c ∷ r) = if c == b'l' || c == b'L' then (64, r) else (32, c ∷ r)

unfoldable pub spec_end : Padding → ℕ → ℕ → List ℕ → Spec
spec_end padding width bits [] = record {
  padding = padding;
  width = width;
  bits = bits;
  letter = 0;
  rest = [];
}
spec_end padding width bits (c ∷ r) = record {
  padding = padding;
  width = width;
  bits = bits;
  letter = c;
  rest = r;
}

-- From behind the `%`.
unfoldable pub spec : List ℕ → Spec
unfolding flag width_from size spec_end
spec fmt =
    let (padding, f) = flag fmt in
    let (width, g) = width_from 0 f in let (bits, h) = size g in spec_end padding width bits h

-- What one directive appends, and the arguments left; or the format ends in it; or C leaves open what
-- happens, as the width or the
-- length of a string is no int, or the argument is missing or of the other type.
pub data Conversion : Type 0 where
  stop : Conversion
  text : List ℕ → List Arg → Conversion
  undefined : Conversion

abbrev pub word_text : (ℕ → List ℕ) → List Arg → Conversion
word_text render [] = Conversion.undefined
word_text render (word val ∷ args) = Conversion.text (render val) args
word_text render (str s ∷ args) = Conversion.undefined

abbrev pub string_text : (List ℕ → List ℕ) → List Arg → Conversion
string_text render [] = Conversion.undefined
string_text render (word val ∷ args) = Conversion.undefined
string_text render (str s ∷ args) =
    if ltb (length s) (2 ^ 31) then Conversion.text (render s) args else Conversion.undefined

unfoldable pub meaning : Spec → List Arg → Conversion
unfolding number_text
meaning s args =
    if leb (2 ^ 31) s.width
    then Conversion.undefined
    else if s.letter == 0
    then Conversion.stop
    else if s.letter == b'D' || s.letter == b'd'
    then word_text (λ val. number_text 10 s.padding s.width (signed s.bits val)) args
    else if s.letter == b'U' || s.letter == b'u'
    then word_text (λ val. number_text 10 s.padding s.width (unsigned s.bits val)) args
    else if s.letter == b'P' || s.letter == b'p'
    then word_text (λ val. number_text 16 s.padding s.width (unsigned 64 val)) args
    else if s.letter == b'X' || s.letter == b'x'
    then word_text (λ val. number_text 16 s.padding s.width (unsigned s.bits val)) args
    else if s.letter == b'S' || s.letter == b's'
    then string_text (padded s.padding s.width) args
    else if s.letter == b'%'
    then Conversion.text (b'%' ∷ []) args
    else Conversion.text
        (37 ∷ 102 ∷ 111 ∷ 114 ∷ 109 ∷ 97 ∷ 116 ∷ 32 ∷ 101 ∷ 114 ∷ 114 ∷ 111 ∷ 114 ∷ 37 ∷ []) args
