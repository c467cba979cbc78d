-- ===== src/Format/Convert.antt =====
-- One conversion of `vsnprintf`: the text that the code computes, and that the buffer gets it.
use zeptux.Base.{
  ℕ, ◌%◌, ◌^◌, leb, ltb, length, Bool, true, false, ◌||◌, List, [], ◌∷◌, ◌==◌, if◌then◌else◌, ◌≡◌,
  refl, ap,
}
use zeptux.Format.Defs.{VsnprintfState, putc, puts, Arg, word, str, narrow_int, narrow_uint}
use zeptux.Format.Loop.{
  Directive, options, format_error, Converted, convert, convert_word, convert_str,
}
use zeptux.Format.Meaning.{Conversion, string_text}
use zeptux.Format.Render.{
  strlen-length, putc-puts, str_text, uint_text, int_text, puts_format-puts, uint64-puts,
  int64-puts,
}

-- The text for the next argument, a uint64_t.
abbrev pub argument_text : (ℕ → List ℕ) → List Arg → Conversion
argument_text render [] = Conversion.undefined
argument_text render (word val ∷ args) = Conversion.text (render (val % 2 ^ 64)) args
argument_text render (str s ∷ args) = Conversion.undefined

-- What one conversion appends, as the code computes it.
unfoldable pub conversion : Directive → List Arg → Conversion
conversion d args =
    if leb (2 ^ 31) d.pad_count
    then Conversion.undefined
    else if d.chr == 0
    then Conversion.stop
    else if d.chr == b'D' || d.chr == b'd'
    then argument_text (λ val. int_text (if d.is64 then val else narrow_int val) (options d 10))
        args
    else if d.chr == b'U' || d.chr == b'u'
    then argument_text (λ val. uint_text (if d.is64 then val else narrow_uint val) (options d 10))
        args
    else if d.chr == b'P' || d.chr == b'p'
    then argument_text (λ val. uint_text val (options d 16)) args
    else if d.chr == b'X' || d.chr == b'x'
    then argument_text (λ val. uint_text (if d.is64 then val else narrow_uint val) (options d 16))
        args
    else if d.chr == b'S' || d.chr == b's'
    then string_text (λ s. str_text s (options d 10)) args
    else if d.chr == b'%'
    then Conversion.text (b'%' ∷ []) args
    else Conversion.text format_error args

unfoldable pub applied : VsnprintfState → Conversion → Converted
applied s Conversion.stop = Converted.stop
applied s (Conversion.text out args) = Converted.next (puts s out) args
applied s Conversion.undefined = Converted.undefined

if-ap :
    {A B : Type 0} (f : A → B) (b : Bool) {x y : A} {u v : B}
    → u ≡ f x
    → v ≡ f y
    → (if b then u else v) ≡ f (if b then x else y)
if-ap f true p q = p
if-ap f false p q = q

applied-undefined : (s : VsnprintfState) → Converted.undefined ≡ applied s Conversion.undefined
unfolding applied
applied-undefined s = refl

applied-stop : (s : VsnprintfState) → Converted.stop ≡ applied s Conversion.stop
unfolding applied
applied-stop s = refl

applied-text :
    (s t : VsnprintfState) (out : List ℕ) (args : List Arg)
    → t ≡ puts s out
    → Converted.next t args ≡ applied s (Conversion.text out args)
unfolding applied
applied-text s t out args e = ap (λ u. Converted.next u args) e

word-applied :
    (s : VsnprintfState) (put : ℕ → VsnprintfState) (render : ℕ → List ℕ) (args : List Arg)
    → ((val : ℕ) → put val ≡ puts s (render val))
    → convert_word put args ≡ applied s (argument_text render args)
unfolding convert_word applied
word-applied s put render [] h = refl
word-applied s put render (word val ∷ args) h = ap (λ t. Converted.next t args) (h (val % 2 ^ 64))
word-applied s put render (str x ∷ args) h = refl

string-applied :
    (s : VsnprintfState) (put : List ℕ → VsnprintfState) (render : List ℕ → List ℕ)
    (args : List Arg)
    → ((val : List ℕ) → put val ≡ puts s (render val))
    → convert_str put args ≡ applied s (string_text render args)
unfolding convert_str applied
string-applied s put render [] h = refl
string-applied s put render (word val ∷ args) h = refl
string-applied s put render (str x ∷ args) h = rw (strlen-length x) (
    if-ap (applied s) (ltb (length x) (2 ^ 31)) (applied-text s (put x) (render x) args (h x))
      (applied-undefined s))

-- The conversions on the buffer append the text of the conversion.
pub convert-applied :
    (s : VsnprintfState) (d : Directive) (args : List Arg)
    → convert s d args ≡ applied s (conversion d args)
unfolding convert conversion
convert-applied s d args =
    let f = applied s in
    if-ap f (leb (2 ^ 31) d.pad_count) (applied-undefined s) (
      if-ap f (d.chr == 0) (applied-stop s) (
        if-ap f (d.chr == b'D' || d.chr == b'd')
          (word-applied s _ _ args
            (λ val. int64-puts s (if d.is64 then val else narrow_int val) (options d 10)))
          (if-ap f (d.chr == b'U' || d.chr == b'u')
            (word-applied s _ _ args
              (λ val. uint64-puts s (if d.is64 then val else narrow_uint val) (options d 10)))
            (if-ap f (d.chr == b'P' || d.chr == b'p')
              (word-applied s _ _ args (λ val. uint64-puts s val (options d 16)))
              (if-ap f (d.chr == b'X' || d.chr == b'x')
                (word-applied s _ _ args
                  (λ val. uint64-puts s (if d.is64 then val else narrow_uint val) (options d 16)))
                (if-ap f (d.chr == b'S' || d.chr == b's')
                  (string-applied s _ _ args (λ t. puts_format-puts s t (options d 10)))
                  (if-ap f (d.chr == b'%')
                    (applied-text s (putc s b'%') (b'%' ∷ []) args (putc-puts s b'%'))
                    (applied-text s (puts s format_error) format_error args refl))))))))
