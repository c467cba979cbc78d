-- ===== src/Format/Defs.antt =====
-- lib/format.c over include/string.h: vsnprintf into a bounded buffer, and bytes_to_human. A C
-- string is the list of its bytes before the terminator.
use zeptux.Base.{
  ℕ, zero, suc, ◌+◌, ◌-◌, ◌/◌, ◌%◌, ◌^◌, Bool, true, not, ◌&&◌, List, [], ◌∷◌, ◌==◌, ltb, leb,
  if◌then◌else◌, length, set,
}

-- include/consts.h
abbrev pub uint64_max_chars : ℕ
uint64_max_chars = 20

unfoldable pub strlen : List ℕ → ℕ
strlen [] = 0
strlen (c ∷ str) = strlen str + 1

-- `struct vsnprintf_state`; `buf` is the caller's array.
pub record VsnprintfState : Type 0 where
  pub buf : List ℕ
  pub n : ℕ
  pub count : ℕ

-- `struct vsnprintf_format`; the width `pad_count`, an int, is not negative, but where 1 is taken off
-- for a sign: 0 stands for -1 then, as both pad nothing.
pub record VsnprintfFormat : Type 0 where
  pub base : ℕ
  pub neg : Bool
  pub pad_char : ℕ
  pub pad_count : ℕ
  pub pad_left : Bool

-- `digits[d]`, in "0123456789abcdef"
abbrev pub digit_char : ℕ → ℕ
digit_char d = if ltb d 10 then b'0' + d else b'a' + (d - 10)

-- A byte goes in only where one is left for the terminator; the count goes up all the same.
unfoldable pub putc : VsnprintfState → ℕ → VsnprintfState
putc s chr = record s {
  buf = if ltb s.count (s.n - 1) then set s.buf s.count chr else s.buf;
  count = s.count + 1;
}

unfoldable pub putc_repeat : VsnprintfState → ℕ → ℕ → VsnprintfState
putc_repeat s chr zero = s
putc_repeat s chr (suc n) = putc_repeat (putc s chr) chr n

unfoldable pub puts : VsnprintfState → List ℕ → VsnprintfState
puts s [] = s
puts s (c ∷ str) = puts (putc s c) str

unfoldable pub puts_format : VsnprintfState → List ℕ → VsnprintfFormat → VsnprintfState
puts_format s str format =
    let s = if format.pad_left then puts s str else s in
    let len = strlen str in
    let s = if ltb len format.pad_count then putc_repeat s b' ' (format.pad_count - len) else s in
    if not format.pad_left then puts s str else s

-- `for (; val > 0; val /= base, i--) val_buf[i] = digits[val % base];`, on fuel: the bytes are
-- written from the end of `val_buf` towards its start.
unfoldable pub digit_loop : ℕ → ℕ → ℕ → List ℕ → List ℕ
digit_loop zero base val val_buf = val_buf
digit_loop (suc fuel) base val val_buf =
    let rest = digit_loop fuel base (val / base) (digit_char (val % base) ∷ val_buf) in
    if ltb 0 val then rest else val_buf

-- The used end of `val_buf`. A uint64_t has at most 64 digits in any base.
unfoldable pub val_chars : ℕ → ℕ → List ℕ
val_chars base val = digit_loop 64 base val (if val == 0 then b'0' ∷ [] else [])

unfoldable pub uint64 : VsnprintfState → ℕ → VsnprintfFormat → VsnprintfState
unfolding val_chars
uint64 s val format =
    let zero_sign = format.neg && (format.pad_char == b'0') in
    let chars = val_chars format.base val in
    let chars = if format.neg && not zero_sign then b'-' ∷ chars else chars in
    let s = if zero_sign then putc s b'-' else s in
    let pad_count = if zero_sign then format.pad_count - 1 else format.pad_count in
    let s = if format.pad_left then puts s chars else s in
    let chars_output = length chars in
    let s =
      if ltb chars_output pad_count
      then putc_repeat s format.pad_char (pad_count - chars_output)
      else s in
    if not format.pad_left then puts s chars else s

-- An int64_t is its bit pattern: `val < 0` is the top bit, and `-val` wraps.
unfoldable pub int64 : VsnprintfState → ℕ → VsnprintfFormat → VsnprintfState
unfolding uint64
int64 s val format =
    if leb (2 ^ 63) val
    then uint64 s (2 ^ 64 - val) (record format { neg = true })
    else uint64 s val format

-- What `va_arg` yields: a 64-bit word, or a string.
pub data Arg : Type 0 where
  word : ℕ → Arg
  str : List ℕ → Arg

-- `(int)val` widened to int64_t again, and `(uint)val` widened to uint64_t.
abbrev pub narrow_int : ℕ → ℕ
narrow_int val =
    if leb (2 ^ 31) (val % 2 ^ 32) then val % 2 ^ 32 + (2 ^ 64 - 2 ^ 32) else val % 2 ^ 32

abbrev pub narrow_uint : ℕ → ℕ
narrow_uint val = val % 2 ^ 32
