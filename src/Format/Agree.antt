-- ===== src/Format/Agree.antt =====
-- The code reads a format as what it stands for, and computes the texts of its directives.
use native.Mathlib.Nat.{
  div-lt_iff_lt-mul, le_trans, le_of_eq, le-add_right, mul-le-mul_left, mod-lt, pow-suc,
  div-eq_of_lt, mod-eq_of_lt,
}
use mathlib.Core.List.{append-nil}
use zeptux.Base.{
  ℕ, zero, suc, ◌-◌, ◌/◌, ◌%◌, ◌^◌, ◌≤◌, ◌<◌, Bool, true, false, ◌&&◌, ◌||◌, List, [], ◌∷◌, ◌++◌,
  ◌==◌, ltb, leb, if◌then◌else◌, length, get_or, ◌≡◌, refl, sym, ap, ap₂, ◌∙◌, arith, Bool-cases,
  inl, inr,
}
use zeptux.Format.Defs.{
  VsnprintfFormat, Arg, word, str, digit_char, digit_loop, val_chars, narrow_int, narrow_uint,
}
use zeptux.Format.Loop.{Directive}
use zeptux.Format.Render.{uint_text, int_text, str_text, pad_text}
use zeptux.Format.Convert.{conversion, argument_text}
use zeptux.Format.Meaning.{
  hex_digits, numeral, Padding, behind, before, zeros, Number, unsigned, signed, padded,
  number_text, Conversion, word_text, string_text, meaning,
}

digit_char-hex : (d : ℕ) → d < 16 → digit_char d ≡ get_or hex_digits d 0
digit_char-hex zero lt = refl
digit_char-hex (suc zero) lt = refl
digit_char-hex (suc (suc zero)) lt = refl
digit_char-hex (suc (suc (suc zero))) lt = refl
digit_char-hex (suc (suc (suc (suc zero)))) lt = refl
digit_char-hex (suc (suc (suc (suc (suc zero))))) lt = refl
digit_char-hex (suc (suc (suc (suc (suc (suc zero)))))) lt = refl
digit_char-hex (suc (suc (suc (suc (suc (suc (suc zero))))))) lt = refl
digit_char-hex (suc (suc (suc (suc (suc (suc (suc (suc zero)))))))) lt = refl
digit_char-hex (suc (suc (suc (suc (suc (suc (suc (suc (suc zero))))))))) lt = refl
digit_char-hex (suc (suc (suc (suc (suc (suc (suc (suc (suc (suc zero)))))))))) lt = refl
digit_char-hex (suc (suc (suc (suc (suc (suc (suc (suc (suc (suc (suc zero))))))))))) lt = refl
digit_char-hex (suc (suc (suc (suc (suc (suc (suc (suc (suc (suc (suc (suc zero)))))))))))) lt =
    refl
digit_char-hex (suc (suc (suc (suc (suc (suc (suc (suc (suc (suc (suc (suc (suc zero)))))))))))))
      lt =
    refl
digit_char-hex
      (suc (suc (suc (suc (suc (suc (suc (suc (suc (suc (suc (suc (suc (suc zero)))))))))))))) lt =
    refl
digit_char-hex
      (suc (suc (suc (suc (suc (suc (suc (suc (suc (suc (suc (suc (suc (suc (suc zero)))))))))))))))
      lt =
    refl
digit_char-hex
      (suc
        (suc (suc (suc (suc (suc (suc (suc (suc (suc (suc (suc (suc (suc (suc (suc d))))))))))))))))
      lt =
    absurd (omega arith)

append_nil_front : (xs : List ℕ) (c : ℕ) (cs : List ℕ) → (xs ++ c ∷ []) ++ cs ≡ xs ++ c ∷ cs
append_nil_front [] c cs = refl
append_nil_front (x ∷ xs) c cs = ap (λ ys. x ∷ ys) (append_nil_front xs c cs)

digit_loop-numeral :
    (fuel base val : ℕ) (cs : List ℕ)
    → 2 ≤ base
    → base ≤ 16
    → val < 2 ^ fuel
    → digit_loop fuel base val cs ≡ (if val == 0 then cs else numeral fuel base val ++ cs)
unfolding digit_loop numeral
digit_loop-numeral zero base val cs lo hi h = let z : (val == 0) ≡ true = ground arith in rw z refl
digit_loop-numeral (suc fuel) base val cs lo hi h = elim (Bool-cases (ltb 0 val)) [
  | inr done ↦ let z : (val == 0) ≡ true = ground arith in rw (done, z) refl
  | inl more ↦
      let nz : (val == 0) ≡ false = ground arith in
      let pos : 0 < base = le_trans (le-add_right 1 1) lo in
      let q : val / base < 2 ^ fuel =
        (div-lt_iff_lt-mul pos).1
          (le_trans (le_trans h (le_of_eq (pow-suc 2 fuel))) (mul-le-mul_left (2 ^ fuel) lo)) in
      let ih = digit_loop-numeral fuel base (val / base) (digit_char (val % base) ∷ cs) lo hi q in
      let d : digit_char (val % base) ≡ get_or hex_digits (val % base) 0 =
        digit_char-hex (val % base) (le_trans (mod-lt val pos) hi) in
      elim (Bool-cases (ltb val base)) [
        | inl one ↦
            let lt : val < base = ground arith in
            let low : (val / base == 0) ≡ true = ap (λ (t : ℕ). t == 0) (div-eq_of_lt lt) in
            let same : val % base ≡ val = mod-eq_of_lt lt in
            rw (more, nz, one) (ih ∙ rw (low, d, same) refl)
        | inr many ↦
            let high : (val / base == 0) ≡ false = elim (Bool-cases (val / base == 0)) [
              | inr e ↦ e
              | inl e ↦
                  let small = (div-lt_iff_lt-mul {x = val} {y = 1} pos).0 (ground arith) in
                  absurd (ground (arith, small))
            ] in
            rw (more, nz, many)
              (ih
                ∙ rw (high, d)
                    (sym (
                      append_nil_front (numeral fuel base (val / base))
                        (get_or hex_digits (val % base) 0) cs)))
      ]
]

numeral-zero : (most base : ℕ) → 0 < base → numeral (suc most) base 0 ≡ b'0' ∷ []
unfolding numeral
numeral-zero most base pos = let l : ltb 0 base ≡ true = ground arith in rw l refl

sub_zero : (n : ℕ) → n - 0 ≡ n
sub_zero n = omega arith

val_chars-numeral :
    (base val : ℕ) → 2 ≤ base → base ≤ 16 → val < 2 ^ 64 → val_chars base val ≡ numeral 64 base val
unfolding val_chars
val_chars-numeral base val lo hi h =
    digit_loop-numeral 64 base val (if val == 0 then b'0' ∷ [] else []) lo hi h
    ∙ elim (Bool-cases (val == 0)) [
      | inl z ↦
          let zero : val ≡ 0 = ground arith in
          rw z (sym (ap (numeral 64 base) zero ∙ numeral-zero 63 base (omega arith)))
      | inr z ↦ rw z (append-nil (numeral 64 base val))
    ]

-- The format of a padding.
abbrev pub pad_char_of : Padding → ℕ
pad_char_of behind = b' '
pad_char_of before = b' '
pad_char_of zeros = b'0'

abbrev pub is_behind : Padding → Bool
is_behind behind = true
is_behind before = false
is_behind zeros = false

abbrev format_of : ℕ → Bool → Padding → ℕ → VsnprintfFormat
format_of base minus padding width = record {
  base = base;
  neg = minus;
  pad_char = pad_char_of padding;
  pad_count = width;
  pad_left = is_behind padding;
}

uint_text-number_text :
    (base val width : ℕ) (minus : Bool) (padding : Padding)
    → 2 ≤ base
    → base ≤ 16
    → val < 2 ^ 64
    → uint_text val (format_of base minus padding width)
      ≡ number_text base padding width (minus, val)
unfolding uint_text pad_text number_text
uint_text-number_text base val width minus padding lo hi h =
    rw (val_chars-numeral base val lo hi h) (by_padding minus padding)
  where
    by_padding :
        (minus : Bool) (padding : Padding)
        → (if minus && (pad_char_of padding == b'0')
            then b'-'
              ∷ pad_text (is_behind padding) (pad_char_of padding) (width - 1) (numeral 64 base val)
            else pad_text
                (is_behind padding)
                (pad_char_of padding)
                width
                (if minus then b'-' ∷ numeral 64 base val else numeral 64 base val))
          ≡ number_text base padding width (minus, val)
    by_padding true behind = refl
    by_padding true before = refl
    by_padding true zeros = refl
    by_padding false behind = refl
    by_padding false before = refl
    by_padding false zeros = rw (sub_zero width) refl

-- The bits of an argument.
abbrev pub bits_of : Bool → ℕ
bits_of is64 = if is64 then 64 else 32

int_text-minus :
    (w val : ℕ) (padding : Padding) (width bits : ℕ)
    → 2 ^ 63 ≤ w
    → w < 2 ^ 64
    → signed bits val ≡ (true, 2 ^ 64 - w)
    → int_text w (format_of 10 false padding width) ≡ number_text 10 padding width (signed bits val)
unfolding int_text
int_text-minus w val padding width bits lo hi e =
    let l : leb (2 ^ 63) w ≡ true = ground arith in
    rw l (
      uint_text-number_text 10 (2 ^ 64 - w) width true padding (omega arith) (omega arith)
        (omega arith)
      ∙ ap (number_text 10 padding width) (sym e))

int_text-plus :
    (w val : ℕ) (padding : Padding) (width bits : ℕ)
    → w < 2 ^ 63
    → signed bits val ≡ (false, w)
    → int_text w (format_of 10 false padding width) ≡ number_text 10 padding width (signed bits val)
unfolding int_text
int_text-plus w val padding width bits hi e =
    let l : leb (2 ^ 63) w ≡ false = ground arith in
    rw l (
      uint_text-number_text 10 w width false padding (omega arith) (omega arith) (omega arith)
      ∙ ap (number_text 10 padding width) (sym e))

pair : {a b : Bool} {x y : ℕ} → a ≡ b → x ≡ y → ◌≡◌ {A = Number} (a, x) (b, y)
pair p q = ap₂ (λ a x. (a, x)) p q

int_text-signed :
    (val : ℕ) (is64 : Bool) (padding : Padding) (width : ℕ)
    → int_text
        (if is64 then val % 2 ^ 64 else narrow_int (val % 2 ^ 64))
        (format_of 10 false padding width)
      ≡ number_text 10 padding width (signed (bits_of is64) val)
int_text-signed val true padding width = elim (Bool-cases (ltb (val % 2 ^ 64) (2 ^ 63))) [
  | inl plus ↦ int_text-plus (val % 2 ^ 64) val padding width 64 (ground arith) (rw plus refl)
  | inr minus ↦
      int_text-minus (val % 2 ^ 64) val padding width 64 (ground arith) (omega arith)
        (rw minus refl)
]
int_text-signed val false padding width = elim (Bool-cases (ltb (val % 2 ^ 32) (2 ^ 31))) [
  | inl plus ↦
      int_text-plus (narrow_int (val % 2 ^ 64)) val padding width 32 (ground arith)
        (rw plus (pair refl (ground arith)))
  | inr minus ↦
      int_text-minus (narrow_int (val % 2 ^ 64)) val padding width 32 (ground arith) (ground arith)
        (rw minus (pair refl (ground arith)))
]

uint_text-unsigned :
    (base val : ℕ) (is64 : Bool) (padding : Padding) (width : ℕ)
    → 2 ≤ base
    → base ≤ 16
    → uint_text
        (if is64 then val % 2 ^ 64 else narrow_uint (val % 2 ^ 64))
        (format_of base false padding width)
      ≡ number_text base padding width (unsigned (bits_of is64) val)
uint_text-unsigned base val true padding width lo hi =
    uint_text-number_text base (val % 2 ^ 64) width false padding lo hi (omega arith)
uint_text-unsigned base val false padding width lo hi =
    uint_text-number_text base (val % 2 ^ 64 % 2 ^ 32) width false padding lo hi (omega arith)
    ∙ ap (λ t. number_text base padding width (false, t)) (omega arith)

str_text-padded :
    (s : List ℕ) (base width : ℕ) (padding : Padding)
    → str_text s (format_of base false padding width) ≡ padded padding width s
unfolding str_text pad_text
str_text-padded s base width behind = refl
str_text-padded s base width before = refl
str_text-padded s base width zeros = refl

-- The directive that the code reads for a spec.
abbrev pub directive_of : Padding → ℕ → Bool → ℕ → List ℕ → Directive
directive_of padding width is64 letter rest = record {
  pad_char = pad_char_of padding;
  pad_count = width;
  pad_left = is_behind padding;
  is64 = is64;
  chr = letter;
  rest = rest;
}

argument_text-word_text :
    (f g : ℕ → List ℕ) (args : List Arg)
    → ((val : ℕ) → f (val % 2 ^ 64) ≡ g val)
    → argument_text f args ≡ word_text g args
argument_text-word_text f g [] h = refl
argument_text-word_text f g (word val ∷ args) h = ap (λ t. Conversion.text t args) (h val)
argument_text-word_text f g (str s ∷ args) h = refl

if-ext :
    {A : Type 0} (b : Bool) {x y u v : A}
    → x ≡ u
    → y ≡ v
    → (if b then x else y) ≡ (if b then u else v)
if-ext true p q = p
if-ext false p q = q

string_text-ext :
    (f g : List ℕ → List ℕ) (args : List Arg)
    → ((s : List ℕ) → f s ≡ g s)
    → string_text f args ≡ string_text g args
string_text-ext f g [] h = refl
string_text-ext f g (word val ∷ args) h = refl
string_text-ext f g (str s ∷ args) h =
    if-ext (ltb (length s) (2 ^ 31)) (ap (λ t. Conversion.text t args) (h s)) refl

pub conversion-meaning :
    (padding : Padding) (width : ℕ) (is64 : Bool) (letter : ℕ) (rest : List ℕ) (args : List Arg)
    → conversion (directive_of padding width is64 letter rest) args
      ≡ meaning
          (record {
            padding = padding;
            width = width;
            bits = bits_of is64;
            letter = letter;
            rest = rest;
          })
          args
unfolding conversion meaning
conversion-meaning padding width is64 letter rest args = if-ext (leb (2 ^ 31) width) refl (
    if-ext (letter == 0) refl (
      if-ext (letter == b'D' || letter == b'd')
        (argument_text-word_text
          (λ v. int_text (if is64 then v else narrow_int v) (format_of 10 false padding width))
          (λ v. number_text 10 padding width (signed (bits_of is64) v)) args
          (λ val. int_text-signed val is64 padding width))
        (if-ext (letter == b'U' || letter == b'u')
          (argument_text-word_text
            (λ v. uint_text (if is64 then v else narrow_uint v) (format_of 10 false padding width))
            (λ v. number_text 10 padding width (unsigned (bits_of is64) v)) args
            (λ val. uint_text-unsigned 10 val is64 padding width (omega arith) (omega arith)))
          (if-ext (letter == b'P' || letter == b'p')
            (argument_text-word_text (λ v. uint_text v (format_of 16 false padding width))
              (λ v. number_text 16 padding width (unsigned 64 v)) args
              (λ val. uint_text-unsigned 16 val true padding width (omega arith) (omega arith)))
            (if-ext (letter == b'X' || letter == b'x')
              (argument_text-word_text
                (λ v.
                  uint_text (if is64 then v else narrow_uint v) (format_of 16 false padding width))
                (λ v. number_text 16 padding width (unsigned (bits_of is64) v)) args
                (λ val. uint_text-unsigned 16 val is64 padding width (omega arith) (omega arith)))
              (if-ext (letter == b'S' || letter == b's')
                (string_text-ext (λ s. str_text s (format_of 10 false padding width))
                  (padded padding width) args (λ s. str_text-padded s 10 width padding))
                refl))))))
