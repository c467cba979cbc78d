-- ===== src/Format/Loop.antt =====
-- The loop of `vsnprintf` over the format string, and `bytes_to_human`.
use zeptux.Base.{
  ℕ, zero, suc, ◌+◌, ◌-◌, ◌*◌, ◌%◌, ◌^◌, Bool, false, not, ◌&&◌, ◌||◌, List, [], ◌∷◌, ◌==◌, ltb,
  leb, if◌then◌else◌, length, set,
}
use zeptux.Format.Defs.{
  strlen, VsnprintfState, VsnprintfFormat, putc, puts, puts_format, uint64, int64, Arg, word, str,
  narrow_int, narrow_uint,
}

-- What stands between a `%` and its conversion character, the character, and what follows.
pub record Directive : Type 0 where
  pub pad_char : ℕ
  pub pad_count : ℕ
  pub pad_left : Bool
  pub is64 : Bool
  pub chr : ℕ
  pub rest : List ℕ

-- `*fmt++`: at the end of the string, its terminator.
abbrev pub head_char : List ℕ → ℕ
head_char [] = 0
head_char (c ∷ r) = c

abbrev pub tail_chars : List ℕ → List ℕ
tail_chars [] = []
tail_chars (c ∷ r) = r

abbrev pub is_digit : ℕ → Bool
is_digit c = leb b'0' c && leb c b'9'

-- `while (chr >= '0' && chr <= '9') { ... }`: the width, with what is left from `chr` on.
unfoldable pub read_width : ℕ → List ℕ → ℕ × List ℕ
read_width pad_count [] = (pad_count, [])
read_width pad_count (c ∷ r) =
    let more = read_width (pad_count * 10 + (c - b'0')) r in
    if is_digit c then more else (pad_count, c ∷ r)

-- From behind the `%`.
unfoldable pub directive : List ℕ → Directive
unfolding read_width
directive fmt =
    let pad_left = head_char fmt == b'-' in
    let fmt = if pad_left then tail_chars fmt else fmt in
    let chr = head_char fmt in
    let flag = not pad_left && (chr == b'0' || chr == b' ') in
    let pad_char = if flag then chr else b' ' in
    let fmt = if flag then tail_chars fmt else fmt in
    let (pad_count, fmt) = read_width 0 fmt in
    let chr = head_char fmt in
    let is64 = chr == b'l' || chr == b'L' in
    let fmt = if is64 then tail_chars fmt else fmt in
    record {
      pad_char = pad_char;
      pad_count = pad_count;
      pad_left = pad_left;
      is64 = is64;
      chr = head_char fmt;
      rest = tail_chars fmt;
    }

abbrev pub options : Directive → ℕ → VsnprintfFormat
options d base = record {
  base = base;
  neg = false;
  pad_char = d.pad_char;
  pad_count = d.pad_count;
  pad_left = d.pad_left;
}

-- One conversion ends the loop, goes on with the arguments left, or reads an argument that is
-- missing or of the other type, which C leaves undefined.
pub data Converted : Type 0 where
  stop : Converted
  next : VsnprintfState → List Arg → Converted
  undefined : Converted

unfoldable pub convert_word : (ℕ → VsnprintfState) → List Arg → Converted
convert_word put [] = undefined
convert_word put (word val ∷ args) = next (put (val % 2 ^ 64)) args
convert_word put (str s ∷ args) = undefined

-- A string of which the length is no int is left out: it counts as undefined.
unfoldable pub convert_str : (List ℕ → VsnprintfState) → List Arg → Converted
convert_str put [] = undefined
convert_str put (word val ∷ args) = undefined
convert_str put (str s ∷ args) = if ltb (strlen s) (2 ^ 31) then next (put s) args else undefined

-- "%format error%"
abbrev pub format_error : List ℕ
format_error = 37 ∷ 102 ∷ 111 ∷ 114 ∷ 109 ∷ 97 ∷ 116 ∷ 32 ∷ 101 ∷ 114 ∷ 114 ∷ 111 ∷ 114 ∷ 37 ∷ []

-- The `switch` on the conversion character. A width that is no int has overflowed before it, which C
-- leaves undefined.
unfoldable pub convert : VsnprintfState → Directive → List Arg → Converted
unfolding convert_word convert_str
convert s d args =
    if leb (2 ^ 31) d.pad_count
    then undefined
    else if d.chr == 0
    then stop
    else if d.chr == b'D' || d.chr == b'd'
    then convert_word (λ val. int64 s (if d.is64 then val else narrow_int val) (options d 10)) args
    else if d.chr == b'U' || d.chr == b'u'
    then convert_word (λ val. uint64 s (if d.is64 then val else narrow_uint val) (options d 10))
        args
    else if d.chr == b'P' || d.chr == b'p'
    then convert_word (λ val. uint64 s val (options d 16)) args
    else if d.chr == b'X' || d.chr == b'x'
    then convert_word (λ val. uint64 s (if d.is64 then val else narrow_uint val) (options d 16))
        args
    else if d.chr == b'S' || d.chr == b's'
    then convert_str (λ text. puts_format s text (options d 10)) args
    else if d.chr == b'%'
    then next (putc s b'%') args
    else next (puts s format_error) args

-- How `vsnprintf` ends: with the buffer and the int it returns, as its 32 bits; undefined; or the
-- model's fuel has run out.
pub data Printed : Type 0 where
  printed : List ℕ → ℕ → Printed
  undefined : Printed
  out_of_fuel : Printed

-- `out:`, the terminator behind what was placed.
unfoldable pub finish : VsnprintfState → Printed
finish s =
    let offset = if ltb s.count (s.n - 1) then s.count else s.n - 1 in
    printed (set s.buf offset 0) (s.count % 2 ^ 32)

unfoldable pub format_loop : ℕ → VsnprintfState → List ℕ → List Arg → Printed
format_loop zero s fmt args = out_of_fuel
format_loop (suc fuel) s [] args = finish s
format_loop (suc fuel) s (chr ∷ fmt) args =
    let plain = format_loop fuel (putc s chr) fmt args in
    let d = directive fmt in
    let conversion : Printed = elim (convert s d args) [
      | Converted.stop ↦ finish s
      | Converted.next s' args' ↦ format_loop fuel s' d.rest args'
      | Converted.undefined ↦ Printed.undefined
    ] in
    if chr == 0 then finish s else if chr == b'%' then conversion else plain

-- The fuel is one more than the characters of the format.
unfoldable pub vsnprintf : List ℕ → ℕ → List ℕ → List Arg → Printed
unfolding format_loop finish
vsnprintf buf n fmt args =
    if n == 0
    then printed buf 0
    else format_loop (length fmt + 1) (record { buf = buf; n = n; count = 0 }) fmt args
