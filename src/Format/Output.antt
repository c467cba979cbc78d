-- ===== src/Format/Output.antt =====
-- `vsnprintf` writes the text that the format stands for, cut to the buffer; it always comes to an
-- end.
use native.Mathlib.Nat.{le_trans}
use zeptux.Base.{
  ℕ, zero, suc, ◌+◌, ◌-◌, ◌*◌, ◌%◌, ◌^◌, subst, ◌≤◌, ◌<◌, Bool, true, false, not, ◌&&◌, ◌||◌, List,
  [], ◌∷◌, ◌++◌, ◌==◌, ltb, leb, if◌then◌else◌, length, get_or, set, get_or-set, length-set, min,
  ◌≡◌, ◌≢◌, refl, ap, sym, ◌∙◌, arith, Bool-cases, inl, inr,
}
use zeptux.Format.Defs.{VsnprintfState, putc, puts, Arg}
use zeptux.Format.Loop.{
  directive, read_width, head_char, tail_chars, Converted, Printed, printed, finish, format_loop,
  vsnprintf,
}
use zeptux.Format.Render.{puts-append}
use zeptux.Format.Meaning.{Conversion, spec, meaning}
use zeptux.Format.Read.{directive_rest, conversion-spec}
use zeptux.Format.Convert.{applied, convert-applied}

-- The text of a whole format.
pub data Rendered : Type 0 where
  text : List ℕ → Rendered
  undefined : Rendered
  out_of_fuel : Rendered

unfoldable pub prepend : List ℕ → Rendered → Rendered
prepend xs (text ys) = text (xs ++ ys)
prepend xs undefined = undefined
prepend xs out_of_fuel = out_of_fuel

unfoldable pub render_loop : ℕ → List ℕ → List Arg → Rendered
render_loop zero fmt args = out_of_fuel
render_loop (suc fuel) [] args = text []
render_loop (suc fuel) (chr ∷ fmt) args =
    let plain = prepend (chr ∷ []) (render_loop fuel fmt args) in
    let d = spec fmt in
    let converted : Rendered = elim (meaning d args) [
      | Conversion.stop ↦ text []
      | Conversion.text out args' ↦ prepend out (render_loop fuel d.rest args')
      | Conversion.undefined ↦ undefined
    ] in
    if chr == 0 then text [] else if chr == b'%' then converted else plain

unfoldable pub render : List ℕ → List Arg → Rendered
unfolding render_loop prepend
render fmt args = render_loop (length fmt + 1) fmt args

finish_with : VsnprintfState → Rendered → Printed
finish_with s (text out) = finish (puts s out)
finish_with s undefined = Printed.undefined
finish_with s out_of_fuel = Printed.out_of_fuel

finish_with-prepend :
    (s : VsnprintfState) (xs : List ℕ) (r : Rendered)
    → finish_with (puts s xs) r ≡ finish_with s (prepend xs r)
unfolding finish_with prepend
finish_with-prepend s xs (text ys) = ap finish (puts-append s xs ys)
finish_with-prepend s xs undefined = refl
finish_with-prepend s xs out_of_fuel = refl

-- The loop on the buffer appends the text of the format.
format_loop-render :
    (fuel : ℕ) (s : VsnprintfState) (fmt : List ℕ) (args : List Arg)
    → format_loop fuel s fmt args ≡ finish_with s (render_loop fuel fmt args)
unfolding format_loop render_loop finish_with putc puts
format_loop-render zero s fmt args = refl
format_loop-render (suc fuel) s [] args = unfold puts in refl
format_loop-render (suc fuel) s (chr ∷ fmt) args = elim (Bool-cases (chr == 0)) [
  | inl end ↦ rw end (unfold puts in refl)
  | inr more ↦ elim (Bool-cases (chr == b'%')) [
    | inl percent ↦
        rw (more, percent, convert-applied s (directive fmt) args, conversion-spec fmt args)
          (step (format_loop-render fuel) (meaning (spec fmt) args))
    | inr plain ↦
        rw (more, plain)
          (format_loop-render fuel (putc s chr) fmt args
            ∙ finish_with-prepend s (chr ∷ []) (render_loop fuel fmt args))
  ]
]
  where
    step :
        ((s' : VsnprintfState) (fmt' : List ℕ) (args' : List Arg)
          → format_loop fuel s' fmt' args' ≡ finish_with s' (render_loop fuel fmt' args'))
        → (c : Conversion)
        → ◌≡◌ {A = Printed}
            (elim (applied s c) as (λ _. Printed) [
              | Converted.stop ↦ finish s
              | Converted.next s' args' ↦ format_loop fuel s' (directive fmt).rest args'
              | Converted.undefined ↦ Printed.undefined
            ])
            (finish_with s (elim c as (λ _. Rendered) [
              | Conversion.stop ↦ text []
              | Conversion.text out args' ↦ prepend out (render_loop fuel (spec fmt).rest args')
              | Conversion.undefined ↦ undefined
            ]))
    step ih Conversion.stop = unfold applied puts in refl
    step ih (Conversion.text out args') =
        unfold applied in
        (ih (puts s out) (directive fmt).rest args'
          ∙ finish_with-prepend s out (render_loop fuel (directive fmt).rest args')
          ∙ ap (λ r. finish_with s (prepend out (render_loop fuel r args'))) (directive_rest fmt))
    step ih Conversion.undefined = unfold applied in refl

length-read_width : (w : ℕ) (fmt : List ℕ) → length (read_width w fmt).1 ≤ length fmt
unfolding read_width
length-read_width w [] = omega arith
length-read_width w (c ∷ r) = ground (arith, length-read_width (w * 10 + (c - b'0')) r)

length-tail_chars : (fmt : List ℕ) → length (tail_chars fmt) ≤ length fmt
length-tail_chars [] = omega arith
length-tail_chars (c ∷ r) = omega arith

length-tail_if : (b : Bool) (fmt : List ℕ) → length (if b then tail_chars fmt else fmt) ≤ length fmt
length-tail_if true fmt = length-tail_chars fmt
length-tail_if false fmt = omega arith

length-directive : (fmt : List ℕ) → length (directive fmt).rest ≤ length fmt
unfolding directive
length-directive fmt =
    let b : Bool = head_char fmt == b'-' in
    let f : List ℕ = if b then tail_chars fmt else fmt in
    let c : Bool = not b && (head_char f == b'0' || head_char f == b' ') in
    let g : List ℕ = if c then tail_chars f else f in
    let h : List ℕ = (read_width 0 g).1 in
    let d : Bool = head_char h == b'l' || head_char h == b'L' in
    le_trans (length-tail_chars (if d then tail_chars h else h)) (
      le_trans (length-tail_if d h)
        (le_trans (length-read_width 0 g) (le_trans (length-tail_if c f) (length-tail_if b fmt))))

length-spec : (fmt : List ℕ) → length (spec fmt).rest ≤ length fmt
length-spec fmt = subst (λ r. length r ≤ length fmt) (directive_rest fmt) (length-directive fmt)

abbrev Ends : Rendered → Type 0
Ends (text out) = Unit {0}
Ends undefined = Unit {0}
Ends out_of_fuel = ⊥

prepend-Ends : (xs : List ℕ) (r : Rendered) → Ends r → Ends (prepend xs r)
unfolding prepend
prepend-Ends xs (text ys) h = tt
prepend-Ends xs undefined h = tt
prepend-Ends xs out_of_fuel h = h

-- Every round of the loop takes a character, so the fuel is enough.
render_loop-Ends :
    (fuel : ℕ) (fmt : List ℕ) (args : List Arg)
    → length fmt < fuel
    → Ends (render_loop fuel fmt args)
unfolding render_loop
render_loop-Ends zero fmt args h = absurd (omega arith)
render_loop-Ends (suc fuel) [] args h = tt
render_loop-Ends (suc fuel) (chr ∷ fmt) args h = elim (Bool-cases (chr == 0)) [
  | inl end ↦ rw (end, Ends) tt
  | inr more ↦ elim (Bool-cases (chr == b'%')) [
    | inl percent ↦
        rw (more, percent, Ends)
          (step (meaning (spec fmt) args)
            (λ args'. render_loop-Ends fuel (spec fmt).rest args' (omega (arith, length-spec fmt))))
    | inr plain ↦
        rw (more, plain, Ends)
          (prepend-Ends (chr ∷ []) _ (render_loop-Ends fuel fmt args (omega arith)))
  ]
]
  where
    step :
        (c : Conversion)
        → ((args' : List Arg) → Ends (render_loop fuel (spec fmt).rest args'))
        → Ends (elim c as (λ _. Rendered) [
          | Conversion.stop ↦ text []
          | Conversion.text out args' ↦ prepend out (render_loop fuel (spec fmt).rest args')
          | Conversion.undefined ↦ undefined
        ])
    step Conversion.stop ih = tt
    step (Conversion.text out args') ih = prepend-Ends out _ (ih args')
    step Conversion.undefined ih = tt

-- The fields after the text `out` has been put in.
record Put (s : VsnprintfState) (out : List ℕ) (t : VsnprintfState) : Type 0 where
  n_same : t.n ≡ s.n
  counted : t.count ≡ s.count + length out
  length_same : length t.buf ≡ length s.buf
  content :
      (i : ℕ)
      → get_or t.buf i 0 ≡ (
          if (leb s.count i && ltb i (s.count + length out)) && ltb i (s.n - 1)
          then get_or out (i - s.count) 0
          else get_or s.buf i 0)

puts-Put : (s : VsnprintfState) (out : List ℕ) → s.n ≤ length s.buf → Put s out (puts s out)
unfolding puts putc
puts-Put s [] h = record {
  n_same = refl;
  counted = omega arith;
  length_same = refl;
  content = λ i. ground arith;
}
puts-Put s (c ∷ out) h =
    let len = length-set s.buf s.count c in
    let ih = puts-Put (putc s c) out (ground arith) in
    record {
      n_same = ih.n_same;
      counted = omega (arith, ih.counted);
      length_same = ground (arith, ih.length_same);
      content = λ i. ground (arith, ih.content i, get_or-set s.buf s.count i c 0);
    }

abbrev start : List ℕ → ℕ → VsnprintfState
start buf n = record { buf = buf; n = n; count = 0 }

vsnprintf-finish :
    (buf : List ℕ) (n : ℕ) (fmt : List ℕ) (args : List Arg)
    → 0 < n
    → vsnprintf buf n fmt args ≡ finish_with (start buf n) (render fmt args)
unfolding vsnprintf render
vsnprintf-finish buf n fmt args pos = elim (Bool-cases (n == 0)) [
  | inl zero_size ↦ absurd (ground arith)
  | inr sized ↦ rw sized (format_loop-render (length fmt + 1) (start buf n) fmt args)
]

-- What `buf` is after a call that stands for the text `out`.
pub record Written (buf : List ℕ) (n : ℕ) (out : List ℕ) (result : Printed) : Type 0 where
  pub final : List ℕ
  pub returns : result ≡ printed final (length out % 2 ^ 32)
  pub same_length : length final ≡ length buf
  pub text_part : (i : ℕ) → i < length out → i < n - 1 → get_or final i 0 ≡ get_or out i 0
  pub terminated : get_or final (min (length out) (n - 1)) 0 ≡ 0
  pub untouched : (i : ℕ) → min (length out) (n - 1) < i → get_or final i 0 ≡ get_or buf i 0

finish-Written :
    (buf : List ℕ) (n : ℕ) (out : List ℕ)
    → 0 < n
    → n ≤ length buf
    → Written buf n out (finish (puts (start buf n) out))
unfolding finish
finish-Written buf n out pos fits = record {
  final = set t.buf offset 0;
  returns = ap (λ (c : ℕ). printed (set t.buf offset 0) (c % 2 ^ 32)) (omega (arith, put.counted));
  same_length = length-set t.buf offset 0 ∙ put.length_same;
  text_part = λ i a b. ground (arith, at i, put.content i, where_end);
  terminated = ground (arith, at (min (length out) (n - 1)), where_end);
  untouched = λ i a. ground (arith, at i, put.content i, where_end);
}
  where
    t : VsnprintfState
    t = puts (start buf n) out

    put : Put (start buf n) out t
    put = puts-Put (start buf n) out fits

    offset : ℕ
    offset = if ltb t.count (t.n - 1) then t.count else t.n - 1

    where_end : offset ≡ min (length out) (n - 1)
    where_end = ground (arith, put.counted, put.n_same)

    at : (i : ℕ) → get_or (set t.buf offset 0) i 0 ≡ (if offset == i then 0 else get_or t.buf i 0)
    at i = get_or-set t.buf offset i 0 0 (omega (arith, where_end, put.length_same))

-- `vsnprintf` into a buffer of at least `n` bytes, `n` not 0, with a format that stands for the
-- text `out`: the buffer gets the text, cut to `n - 1` bytes, and the terminator, nothing behind
-- it changes, and the result, an int, has the low 32 bits of the length of the whole text. A
-- format with a width of 2 ^ 31 or more, or with an argument that is missing, of the other type or
-- a string of 2 ^ 31 bytes or more, stands for no text.
pub vsnprintf-Written :
    (buf : List ℕ) (n : ℕ) (fmt : List ℕ) (args : List Arg) (out : List ℕ)
    → 0 < n
    → n ≤ length buf
    → render fmt args ≡ text out
    → Written buf n out (vsnprintf buf n fmt args)
unfolding finish_with
vsnprintf-Written buf n fmt args out pos fits e =
    rw (vsnprintf-finish buf n fmt args pos, e) (finish-Written buf n out pos fits)

Ends-finish_with :
    (s : VsnprintfState) (r : Rendered) → Ends r → finish_with s r ≢ Printed.out_of_fuel
unfolding finish_with finish
Ends-finish_with s (text out) h e = cc
Ends-finish_with s undefined h e = cc
Ends-finish_with s out_of_fuel h e = h

-- `vsnprintf` ends before its fuel does, whatever the format and the arguments are.
pub vsnprintf-ends :
    (buf : List ℕ) (n : ℕ) (fmt : List ℕ) (args : List Arg)
    → vsnprintf buf n fmt args ≢ Printed.out_of_fuel
vsnprintf-ends buf zero fmt args e = unfold vsnprintf in cc
vsnprintf-ends buf (suc n) fmt args e =
    Ends-finish_with (start buf (suc n)) (render fmt args)
      (unfold render in render_loop-Ends (length fmt + 1) fmt args (omega arith))
      (sym (vsnprintf-finish buf (suc n) fmt args (omega arith)) ∙ e)
