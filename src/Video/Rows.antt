-- ===== src/Video/Rows.antt =====
-- The buffer is never left, and what a line of text puts into its row.
use zeptux.Base.{
  ℕ, zero, suc, ◌+◌, ◌-◌, ◌*◌, ◌%◌, ◌≤◌, ◌<◌, false, ◌&&◌, List, [], ◌∷◌, ◌++◌, Option, some, none,
  ◌≡◌, ◌≢◌, refl, inl, inr, ap, ap₂, ◌∙◌, arith, ◌==◌, ltb, leb, if◌then◌else◌, if-elim, Bool-cases,
  length, length-append, length-set, length-replicate, get_or, get_or-set, set, take, replicate,
}
use zeptux.Video.{
  Video, rows, cols, memory_size, buffer_size, drop, buf_index, write_cell, video_putc, scroll_down,
  flush, newline, put_spaces, puttab, put_char, put_chars, early_video_puts,
}

pub record IsVideo (v : Video) : Type 0 where
  pub buffer : length v.buffer ≡ buffer_size
  pub row : v.curr_row ≤ rows

length-take : (n : ℕ) (xs : List ℕ) → n ≤ length xs → length (take n xs) ≡ n
length-take zero xs h = refl
length-take (suc n) [] h = absurd (omega arith)
length-take (suc n) (x ∷ xs) h = ap suc (length-take n xs (omega arith))

length-drop : (n : ℕ) (xs : List ℕ) → length (drop n xs) ≡ length xs - n
length-drop zero xs = omega arith
length-drop (suc n) [] = omega arith
length-drop (suc n) (x ∷ xs) = omega (arith, length-drop n xs)

buf_index-lt : (v : Video) → IsVideo v → buf_index v + 1 < buffer_size
unfolding buf_index
buf_index-lt v ok = omega (arith, ok.row)

write_cell-IsVideo : (v : Video) (chr : ℕ) → IsVideo v → IsVideo (write_cell v chr)
unfolding write_cell
write_cell-IsVideo v chr ok = record {
  buffer =
      length-set (set v.buffer (buf_index v) chr) (buf_index v + 1) 15
      ∙ length-set v.buffer (buf_index v) chr
      ∙ ok.buffer;
  row = ok.row;
}

video_putc-IsVideo : (v : Video) (chr : ℕ) → IsVideo v → IsVideo (video_putc v chr)
unfolding video_putc
video_putc-IsVideo v chr ok =
    let w =
      if-elim IsVideo (v.curr_col == cols - 2) (λ e. write_cell-IsVideo v 46 ok)
        (λ e.
          if-elim IsVideo (ltb (cols - 2) v.curr_col) (λ f. ok)
            (λ f. write_cell-IsVideo v chr ok)) in
    record { buffer = w.buffer; row = w.row }

length-scrolled :
    (n k : ℕ) (xs : List ℕ)
    → length xs ≡ n + k
    → length (take n (drop k xs) ++ replicate k 0) ≡ n + k
length-scrolled n k xs e =
    let d = length-drop k xs in
    omega (
      arith,
      length-append (take n (drop k xs)) (replicate k 0),
      length-take n (drop k xs) (omega arith),
      length-replicate {A = ℕ} k 0,
    )

scroll_down-IsVideo : (v : Video) → IsVideo v → IsVideo (scroll_down v)
unfolding scroll_down
scroll_down-IsVideo v ok = record {
  buffer = length-scrolled memory_size (2 * cols) v.buffer ok.buffer;
  row = ok.row;
}

newline-IsVideo : (v : Video) → IsVideo v → IsVideo (newline v)
unfolding newline flush
newline-IsVideo v ok =
    let w =
      if-elim IsVideo (v.curr_row == rows) (λ e. scroll_down-IsVideo v ok)
        (λ e. record { buffer = ok.buffer; row = ground (arith, ok.row) }) in
    record { buffer = w.buffer; row = w.row }

put_spaces-IsVideo : (n : ℕ) (v : Video) → IsVideo v → IsVideo (put_spaces n v)
unfolding put_spaces
put_spaces-IsVideo zero v ok = ok
put_spaces-IsVideo (suc n) v ok =
    put_spaces-IsVideo n (video_putc v 32) (video_putc-IsVideo v 32 ok)

put_char-IsVideo : (v : Video) (chr : ℕ) → IsVideo v → IsVideo (put_char v chr)
unfolding put_char puttab
put_char-IsVideo v chr ok =
    if-elim IsVideo (chr == 10) (λ e. newline-IsVideo v ok)
      (λ e.
        if-elim IsVideo (chr == 9) (λ f. put_spaces-IsVideo 8 v ok)
          (λ f. video_putc-IsVideo v chr ok))

put_chars-IsVideo : (v : Video) (str : List ℕ) → IsVideo v → IsVideo (put_chars v str)
unfolding put_chars
put_chars-IsVideo v [] ok = ok
put_chars-IsVideo v (chr ∷ str) ok =
    if-elim IsVideo (chr == 0) (λ e. ok)
      (λ e. put_chars-IsVideo (put_char v chr) str (put_char-IsVideo v chr ok))

-- Whatever is printed, the row stays at most 25, the buffer keeps its 4160 bytes, and the two bytes
-- that the next character is written to are in the buffer.
pub early_video_puts-IsVideo :
    (v : Video) (str : Option (List ℕ))
    → IsVideo v
    → IsVideo (early_video_puts v str) × (buf_index (early_video_puts v str) + 1 < buffer_size)
unfolding early_video_puts
early_video_puts-IsVideo v none ok = (ok, buf_index-lt v ok)
early_video_puts-IsVideo v (some str) ok =
    let done = put_chars-IsVideo v str ok in (done, buf_index-lt (put_chars v str) done)

-- A character of the row that is written to.
abbrev pub cell : Video → ℕ → ℕ
cell v col = get_or v.buffer (2 * (v.curr_row * cols + col)) 0

-- What column `c` shows after the characters `str` were put from column `k` on, where it showed `d`.
abbrev pub shown : List ℕ → ℕ → ℕ → ℕ → ℕ
shown str k c d =
    if leb k c && ltb c (k + length str) && ltb c (cols - 2)
    then get_or str (c - k) 0
    else if (c == cols - 2) && leb k c && ltb c (k + length str)
    then 46
    else d

abbrev pub IsText : List ℕ → Type 0
IsText [] = Unit
IsText (c ∷ str) = (c ≢ 0) × (c ≢ 9) × (c ≢ 10) × IsText str

-- Two bytes at an even place change one character.
get_or-pair :
    (b : List ℕ) (x y chr : ℕ)
    → 2 * x + 1 < length b
    → get_or (set (set b (2 * x) chr) (2 * x + 1) 15) (2 * y) 0
      ≡ (if x == y then chr else get_or b (2 * y) 0)
get_or-pair b x y chr lt =
    let outer =
      get_or-set (set b (2 * x) chr) (2 * x + 1) (2 * y) 15 0
        (omega (arith, length-set b (2 * x) chr)) in
    let inner = get_or-set b (2 * x) (2 * y) chr 0 (omega arith) in
    let odd : (2 * x + 1 == 2 * y) ≡ false = ground arith in outer ∙ rw odd (inner ∙ ground arith)

cell-write_cell :
    (v : Video) (chr c : ℕ)
    → IsVideo v
    → v.curr_col < cols
    → c < cols
    → cell (write_cell v chr) c ≡ (if v.curr_col == c then chr else cell v c)
unfolding write_cell buf_index
cell-write_cell v chr c ok lt lc =
    let z : v.curr_col % cols ≡ v.curr_col = omega arith in
    let x = v.curr_row * cols + v.curr_col in
    let y = v.curr_row * cols + c in
    let same : (x == y) ≡ (v.curr_col == c) = ground arith in
    rw z (get_or-pair v.buffer x y chr (omega (arith, ok.buffer, ok.row)) ∙ rw same refl)

cell-video_putc :
    (v : Video) (chr c : ℕ)
    → IsVideo v
    → c < cols
    → cell (video_putc v chr) c ≡ (
        if v.curr_col == c
        then (if ltb c (cols - 2) then chr else if c == cols - 2 then 46 else cell v c)
        else cell v c)
unfolding video_putc
cell-video_putc v chr c ok lc =
    let Shown : Video → Type 0 = λ w. cell w c ≡ (
      if v.curr_col == c
      then (if ltb c (cols - 2) then chr else if c == cols - 2 then 46 else cell v c)
      else cell v c) in
    if-elim Shown (v.curr_col == cols - 2)
      (λ e. cell-write_cell v 46 c ok (ground arith) lc ∙ ground arith)
      (λ e.
        if-elim Shown (ltb (cols - 2) v.curr_col) (λ f. ground arith)
          (λ f. cell-write_cell v chr c ok (ground arith) lc ∙ ground arith))

video_putc_place :
    (v : Video) (chr : ℕ)
    → ((video_putc v chr).curr_row ≡ v.curr_row) × ((video_putc v chr).curr_col ≡ v.curr_col + 1)
unfolding video_putc write_cell
video_putc_place v chr = ground arith

put_char_text : (v : Video) (chr : ℕ) → chr ≢ 9 → chr ≢ 10 → put_char v chr ≡ video_putc v chr
unfolding put_char
put_char_text v chr tab line =
    let a : (chr == 10) ≡ false = ground arith in
    let b : (chr == 9) ≡ false = ground arith in rw (a, b) refl

shown_step :
    (chr : ℕ) (str : List ℕ) (k c d : ℕ)
    → shown str
        (k + 1)
        c
        (if k == c then (if ltb c (cols - 2) then chr else if c == cols - 2 then 46 else d) else d)
      ≡ shown (chr ∷ str) k c d
shown_step chr str k c d = elim (Bool-cases (ltb k c)) [
  | inl behind ↦ let e : c - k ≡ suc (c - (k + 1)) = ground arith in rw e (ground arith)
  | inr before ↦ elim (Bool-cases (k == c)) [
    | inl same ↦ let e : c - k ≡ 0 = ground arith in rw e (ground arith)
    | inr other ↦ ground arith
  ]
]

-- In a buffer of 4160 bytes, after a text without NUL, tabulator and newline was printed, a column
-- of the row that is written to shows its character of the text where it is before column 78 and the
-- text reaches it, a '.' where it is column 78, the last but one, and the text reaches it, and else
-- what it showed: column 79, the last one, never changes.
pub put_chars-shown :
    (v : Video) (str : List ℕ) (c : ℕ)
    → IsVideo v
    → IsText str
    → c < cols
    → cell (put_chars v str) c ≡ shown str v.curr_col c (cell v c)
unfolding put_chars
put_chars-shown v [] c ok text lc = ground arith
put_chars-shown v (chr ∷ str) c ok (nul, tab, line, text) lc =
    let z : (chr == 0) ≡ false = ground arith in
    let w = video_putc v chr in
    let (row, col) = video_putc_place v chr in
    let rest = put_chars-shown w str c (video_putc-IsVideo v chr ok) text lc in
    rw (z, put_char_text v chr tab line)
      (rest
        ∙ ap₂ (λ (k d : ℕ). shown str k c d) col (cell-video_putc v chr c ok lc)
        ∙ shown_step chr str v.curr_col c (cell v c))
