-- ===== src/Format/Render.antt =====
-- What `vsnprintf` would write with room for all of it, as a text; and that the conversions
-- append exactly their text.
use zeptux.Base.{
  ℕ, zero, suc, ◌-◌, ◌^◌, Bool, true, false, not, ◌&&◌, List, [], ◌∷◌, ◌++◌, ◌==◌, ltb, leb,
  if◌then◌else◌, length, replicate, ◌≡◌, refl, ap, ◌∙◌, arith, Bool-cases, inl, inr,
}
use zeptux.Format.Defs.{
  VsnprintfState, VsnprintfFormat, strlen, putc, putc_repeat, puts, puts_format, val_chars, uint64,
  int64,
}

pub puts-append : (s : VsnprintfState) (xs ys : List ℕ) → puts (puts s xs) ys ≡ puts s (xs ++ ys)
unfolding puts
puts-append s [] ys = refl
puts-append s (x ∷ xs) ys = puts-append (putc s x) xs ys

putc_repeat-puts : (s : VsnprintfState) (c k : ℕ) → putc_repeat s c k ≡ puts s (replicate k c)
unfolding putc_repeat puts
putc_repeat-puts s c zero = refl
putc_repeat-puts s c (suc k) = putc_repeat-puts (putc s c) c k

pub putc-puts : (s : VsnprintfState) (c : ℕ) → putc s c ≡ puts s (c ∷ [])
unfolding puts
putc-puts s c = refl

pub strlen-length : (xs : List ℕ) → strlen xs ≡ length xs
unfolding strlen
strlen-length [] = refl
strlen-length (x ∷ xs) = omega (arith, strlen-length xs)

-- `body` padded to `width` on one side.
unfoldable pub pad_text : Bool → ℕ → ℕ → List ℕ → List ℕ
pad_text left c width body =
    let padding = replicate (width - length body) c in
    if left then body ++ padding else padding ++ body

-- The sign goes before zeros, and behind spaces.
unfoldable pub uint_text : ℕ → VsnprintfFormat → List ℕ
unfolding pad_text val_chars
uint_text val f =
    let chars = val_chars f.base val in
    if f.neg && (f.pad_char == b'0')
    then b'-' ∷ pad_text f.pad_left f.pad_char (f.pad_count - 1) chars
    else pad_text f.pad_left f.pad_char f.pad_count (if f.neg then b'-' ∷ chars else chars)

unfoldable pub int_text : ℕ → VsnprintfFormat → List ℕ
unfolding uint_text
int_text val f =
    if leb (2 ^ 63) val then uint_text (2 ^ 64 - val) (record f { neg = true }) else uint_text val f

unfoldable pub str_text : List ℕ → VsnprintfFormat → List ℕ
unfolding pad_text
str_text text f = pad_text f.pad_left b' ' f.pad_count text

-- The common tail of the conversions: text, then padding, or the other way round.
placed : VsnprintfState → Bool → ℕ → ℕ → ℕ → List ℕ → VsnprintfState
placed s left c width len body =
    let s = if left then puts s body else s in
    let s = if ltb len width then putc_repeat s c (width - len) else s in
    if not left then puts s body else s

padding-puts :
    (s : VsnprintfState) (c width len : ℕ)
    → (if ltb len width then putc_repeat s c (width - len) else s)
      ≡ puts s (replicate (width - len) c)
unfolding puts
padding-puts s c width len = elim (Bool-cases (ltb len width)) [
  | inl pad ↦ rw pad (putc_repeat-puts s c (width - len))
  | inr none_left ↦ let e : width - len ≡ 0 = ground arith in rw (none_left, e)
]

placed-pad_text :
    (s : VsnprintfState) (left : Bool) (c width len : ℕ) (body : List ℕ)
    → len ≡ length body
    → placed s left c width len body ≡ puts s (pad_text left c width body)
unfolding placed pad_text
placed-pad_text s true c width len body e = rw e (
    padding-puts (puts s body) c width (length body)
    ∙ puts-append s body (replicate (width - length body) c))
placed-pad_text s false c width len body e = rw e (
    ap (λ t. puts t body) (padding-puts s c width (length body))
    ∙ puts-append s (replicate (width - length body) c) body)

pub puts_format-puts :
    (s : VsnprintfState) (text : List ℕ) (f : VsnprintfFormat)
    → puts_format s text f ≡ puts s (str_text text f)
unfolding puts_format str_text placed
puts_format-puts s text f =
    placed-pad_text s f.pad_left b' ' f.pad_count (strlen text) text (strlen-length text)

pub uint64-puts :
    (s : VsnprintfState) (val : ℕ) (f : VsnprintfFormat) → uint64 s val f ≡ puts s (uint_text val f)
unfolding uint64 uint_text placed
uint64-puts s val f = elim (Bool-cases f.neg) [
  | inl neg ↦ elim (Bool-cases (f.pad_char == b'0')) [
    | inl zeros ↦
        rw (neg, zeros)
          (placed-pad_text (putc s b'-') f.pad_left f.pad_char (f.pad_count - 1) _
              (val_chars f.base val) refl
            ∙ ap (λ t. puts t padded) (putc-puts s b'-')
            ∙ puts-append s (b'-' ∷ []) padded)
    | inr other ↦
        rw (neg, other)
          (placed-pad_text s f.pad_left f.pad_char f.pad_count _ (b'-' ∷ val_chars f.base val) refl)
  ]
  | inr pos ↦
      rw pos (placed-pad_text s f.pad_left f.pad_char f.pad_count _ (val_chars f.base val) refl)
]
  where
    padded : List ℕ
    padded = pad_text f.pad_left f.pad_char (f.pad_count - 1) (val_chars f.base val)

pub int64-puts :
    (s : VsnprintfState) (val : ℕ) (f : VsnprintfFormat) → int64 s val f ≡ puts s (int_text val f)
unfolding int64 int_text
int64-puts s val f = elim (Bool-cases (leb (2 ^ 63) val)) [
  | inl minus ↦ rw minus (uint64-puts s (2 ^ 64 - val) (record f { neg = true }))
  | inr plus ↦ rw plus (uint64-puts s val f)
]
