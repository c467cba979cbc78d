-- ===== src/Video/Tests.antt =====
-- A blank screen, and a word on it.
use zeptux.Base.{ℕ, ◌+◌, ◌<◌, List, [], ◌∷◌, some, ◌≡◌, arith, length-replicate, replicate}
use zeptux.Video.{Video, buffer_size, buf_index, early_video_puts, put_chars}
use zeptux.Video.Rows.{IsVideo, cell, shown, IsText, early_video_puts-IsVideo, put_chars-shown}

unfoldable blank : Video
blank = record { buffer = replicate 4160 0; screen = []; curr_row = 24; curr_col = 70 }

blank-IsVideo : IsVideo blank
unfolding blank
blank-IsVideo = record { buffer = length-replicate {A = ℕ} 4160 0; row = omega arith }

-- "Hello word\n"
abbrev hello : List ℕ
hello = 72 ∷ 101 ∷ 108 ∷ 108 ∷ 111 ∷ 32 ∷ 119 ∷ 111 ∷ 114 ∷ 100 ∷ []

early_video_puts-IsVideo_example :
    IsVideo (early_video_puts blank (some hello))
    × (buf_index (early_video_puts blank (some hello)) + 1 < buffer_size)
early_video_puts-IsVideo_example = early_video_puts-IsVideo blank (some hello) blank-IsVideo

hello-IsText : IsText hello
hello-IsText = ground arith

put_chars-shown_example :
    cell (put_chars blank hello) 78 ≡ shown hello blank.curr_col 78 (cell blank 78)
put_chars-shown_example = put_chars-shown blank hello 78 blank-IsVideo hello-IsText (omega arith)
