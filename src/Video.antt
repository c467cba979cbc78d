-- ===== src/Video.antt =====
-- early/video.c: text on the screen, through a buffer of one row more than the screen has. The
-- buffer and the memory of the screen are their bytes; `curr_col` is an int and is assumed not to
-- reach 2 ^ 31, which takes as many characters without a newline.
pub mod Rows
pub mod Tests
use zeptux.Base.{
  ℕ, zero, suc, ◌+◌, ◌-◌, ◌*◌, ◌%◌, Bool, true, false, List, [], ◌∷◌, ◌++◌, Option, some, none,
  ◌==◌, ltb, if◌then◌else◌, set, take, replicate,
}

abbrev pub rows : ℕ
rows = 25

abbrev pub cols : ℕ
cols = 80

abbrev pub memory_size : ℕ
memory_size = 4000

-- One row more.
abbrev pub buffer_size : ℕ
buffer_size = 4160

pub record Video : Type 0 where
  pub buffer : List ℕ
  pub screen : List ℕ
  pub curr_row : ℕ
  pub curr_col : ℕ

abbrev pub drop : ℕ → List ℕ → List ℕ
drop zero xs = xs
drop (suc n) [] = []
drop (suc n) (x ∷ xs) = drop n xs

-- The index that `get_buf` points at.
unfoldable pub buf_index : Video → ℕ
buf_index v = 2 * (v.curr_row * cols + v.curr_col % cols)

-- The character and its colour.
unfoldable pub write_cell : Video → ℕ → Video
unfolding buf_index
write_cell v chr = record v { buffer = set (set v.buffer (buf_index v) chr) (buf_index v + 1) 15 }

-- Column 78 gets a '.', and those behind it nothing.
unfoldable pub video_putc : Video → ℕ → Video
video_putc v chr =
    let w =
      if v.curr_col == cols - 2
      then write_cell v 46
      else if ltb (cols - 2) v.curr_col
      then v
      else write_cell v chr in
    record w { curr_col = w.curr_col + 1 }

unfoldable pub scroll_down : Video → Video
scroll_down v = record v {
  buffer = take memory_size (drop (2 * cols) v.buffer) ++ replicate (2 * cols) 0;
}

unfoldable pub flush : Video → Video
flush v = record v { screen = take memory_size v.buffer }

unfoldable pub newline : Video → Video
newline v =
    let w = if v.curr_row == rows then scroll_down v else record v { curr_row = v.curr_row + 1 } in
    flush (record w { curr_col = 0 })

-- The loop of `puttab`, with the rounds left.
unfoldable pub put_spaces : ℕ → Video → Video
put_spaces zero v = v
put_spaces (suc n) v = put_spaces n (video_putc v 32)

unfoldable pub puttab : Video → Video
puttab v = put_spaces 8 v

unfoldable pub early_video_init : Video → Video
early_video_init v = record v { buffer = replicate buffer_size 0 }

-- `case '\n':`, `case '\t':` and `default:`
unfoldable pub put_char : Video → ℕ → Video
put_char v chr = if chr == 10 then newline v else if chr == 9 then puttab v else video_putc v chr

-- The loop ends at the NUL, or at the end of the list.
unfoldable pub put_chars : Video → List ℕ → Video
put_chars v [] = v
put_chars v (chr ∷ str) = let rest = put_chars (put_char v chr) str in if chr == 0 then v else rest

-- `none` is NULL.
unfoldable pub early_video_puts : Video → Option (List ℕ) → Video
early_video_puts v none = v
early_video_puts v (some str) = put_chars v str

abbrev pub early_video_size : ℕ
early_video_size = memory_size
