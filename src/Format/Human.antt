-- ===== src/Format/Human.antt =====
-- `bytes_to_human`: the choice of the unit and of the digit behind the point.
use zeptux.Base.{
  ℕ, zero, suc, ◌+◌, ◌-◌, ◌*◌, ◌/◌, ◌%◌, ◌^◌, ◌≤◌, ◌<◌, ◌||◌, List, [], ◌∷◌, ◌==◌, ltb, leb,
  if◌then◌else◌, ◌≡◌, ◌⊎◌, refl, arith, if-elim,
}
use zeptux.Format.Defs.{word, str}
use zeptux.Format.Loop.{Printed, vsnprintf}

-- The variables of the loop over the units.
pub record Scale : Type 0 where
  pub unit_index : ℕ
  pub num_units : ℕ
  pub unit_mult : ℕ

-- The rounds left, from unit `i` on; a loop that runs out leaves `unit_index` as it was, 0.
unfoldable pub scale_loop : ℕ → ℕ → ℕ → ℕ → Scale
scale_loop zero i num_units unit_mult = record {
  unit_index = 0;
  num_units = num_units;
  unit_mult = unit_mult;
}
scale_loop (suc left) i num_units unit_mult =
    let more = scale_loop left (i + 1) (num_units / 1024) (unit_mult * 1024 % 2 ^ 64) in
    if ltb num_units 1024
    then record { unit_index = i; num_units = num_units; unit_mult = unit_mult }
    else more

-- `ARRAY_COUNT(units)` is 5.
unfoldable pub scale : ℕ → Scale
unfolding scale_loop
scale bytes = scale_loop 5 0 bytes 1

-- The digit behind the point.
unfoldable pub fract : ℕ → Scale → ℕ
fract bytes s =
    let remaining = (bytes + 2 ^ 64 - s.num_units * s.unit_mult % 2 ^ 64) % 2 ^ 64 in
    let remaining = remaining * 1024 % 2 ^ 64 in
    let remaining = remaining / s.unit_mult in if leb 1000 remaining then 9 else remaining / 100

-- "bytes", "KiB", "MiB", "GiB", "TiB"
unfoldable pub unit_name : ℕ → List ℕ
unit_name i =
    if i == 0
    then b'b' ∷ b'y' ∷ b't' ∷ b'e' ∷ b's' ∷ []
    else if i == 1
    then b'K' ∷ b'i' ∷ b'B' ∷ []
    else if i == 2
    then b'M' ∷ b'i' ∷ b'B' ∷ []
    else if i == 3
    then b'G' ∷ b'i' ∷ b'B' ∷ []
    else b'T' ∷ b'i' ∷ b'B' ∷ []

-- "%5lu %s" and "%3lu.%lu %s"
abbrev pub whole_format : List ℕ
whole_format = b'%' ∷ b'5' ∷ b'l' ∷ b'u' ∷ b' ' ∷ b'%' ∷ b's' ∷ []

abbrev pub fract_format : List ℕ
fract_format = b'%' ∷ b'3' ∷ b'l' ∷ b'u' ∷ b'.' ∷ b'%' ∷ b'l' ∷ b'u' ∷ b' ' ∷ b'%' ∷ b's' ∷ []

unfoldable pub bytes_to_human : ℕ → List ℕ → ℕ → Printed
unfolding scale fract unit_name
bytes_to_human bytes buf buf_size =
    let s = scale bytes in
    let unit = str (unit_name s.unit_index) in
    if ltb s.unit_index 3 || (bytes % s.unit_mult == 0)
    then vsnprintf buf buf_size whole_format (word s.num_units ∷ unit ∷ [])
    else vsnprintf buf buf_size fract_format (word s.num_units ∷ word (fract bytes s) ∷ unit ∷ [])

abbrev pub IsScale : ℕ → Scale → Type 0
IsScale bytes s =
    (s.unit_mult ≡ 1024 ^ s.unit_index)
    × (s.num_units ≡ bytes / 1024 ^ s.unit_index)
    × (s.num_units < 1024)
    × ((s.unit_index ≡ 0) ⊎ (0 < s.num_units))

-- Below 1 PiB the whole units are the bytes divided by the unit that is chosen, fewer than 1024
-- of them, and at least one of any unit but bytes.
pub scale-IsScale : (bytes : ℕ) → bytes < 2 ^ 50 → IsScale bytes (scale bytes)
unfolding scale
scale-IsScale bytes h =
    let P = IsScale bytes in
    if-elim P (ltb bytes 1024) (λ a. ground arith)
      λ a.
        if-elim P (ltb (bytes / 1024) 1024) (λ b. ground arith)
          λ b.
            if-elim P (ltb (bytes / 1024 / 1024) 1024) (λ c. ground arith)
              λ c.
                if-elim P (ltb (bytes / 1024 / 1024 / 1024) 1024) (λ d. ground arith)
                  λ d.
                    if-elim P (ltb (bytes / 1024 / 1024 / 1024 / 1024) 1024) (λ e. ground arith)
                      λ e. absurd (ground arith)

-- From 1 PiB on the loop finds no unit: the number of whole PiB is printed as bytes.
pub scale_overflows :
    (bytes : ℕ)
    → 2 ^ 50 ≤ bytes
    → ((scale bytes).unit_index ≡ 0) × ((scale bytes).num_units ≡ bytes / 2 ^ 50)
unfolding scale
scale_overflows bytes h =
    let P = λ (s : Scale). (s.unit_index ≡ 0) × (s.num_units ≡ bytes / 2 ^ 50) in
    if-elim P (ltb bytes 1024) (λ a. absurd (ground arith))
      λ a.
        if-elim P (ltb (bytes / 1024) 1024) (λ b. absurd (ground arith))
          λ b.
            if-elim P (ltb (bytes / 1024 / 1024) 1024) (λ c. absurd (ground arith))
              λ c.
                if-elim P (ltb (bytes / 1024 / 1024 / 1024) 1024) (λ d. absurd (ground arith))
                  λ d.
                    if-elim P (ltb (bytes / 1024 / 1024 / 1024 / 1024) 1024)
                      (λ e. absurd (ground arith)) λ e. (refl, omega arith)

-- The digit `d` against what is over, in units of `m` bytes.
abbrev pub Near : ℕ → Scale → Type 0
Near bytes s =
    (fract bytes s ≤ 9)
    × (10 * (bytes - s.num_units * s.unit_mult) < (fract bytes s + 1) * s.unit_mult)
    × (100 * (fract bytes s * s.unit_mult) ≤ 1024 * (bytes - s.num_units * s.unit_mult))

abbrev in_gib : ℕ → Scale
in_gib bytes = record { unit_index = 3; num_units = bytes / 2 ^ 30; unit_mult = 2 ^ 30 }

abbrev in_tib : ℕ → Scale
in_tib bytes = record { unit_index = 4; num_units = bytes / 2 ^ 40; unit_mult = 2 ^ 40 }

Near-gib : (bytes : ℕ) → bytes < 2 ^ 50 → Near bytes (in_gib bytes)
unfolding fract
Near-gib bytes h = (ground arith, ground arith, ground arith)

Near-tib : (bytes : ℕ) → bytes < 2 ^ 50 → Near bytes (in_tib bytes)
unfolding fract
Near-tib bytes h = (ground arith, ground arith, ground arith)

-- Where a digit behind the point is printed (GiB and TiB), it is at most 9, and it differs from
-- the tenths of a unit that are over by less than one.
pub fract-Near :
    (bytes : ℕ) → bytes < 2 ^ 50 → 3 ≤ (scale bytes).unit_index → Near bytes (scale bytes)
unfolding scale
fract-Near bytes h =
    let P = λ (s : Scale). 3 ≤ s.unit_index → Near bytes s in
    if-elim P (ltb bytes 1024) (λ a l. absurd (omega arith))
      λ a.
        if-elim P (ltb (bytes / 1024) 1024) (λ b l. absurd (omega arith))
          λ b.
            if-elim P (ltb (bytes / 1024 / 1024) 1024) (λ c l. absurd (omega arith))
              λ c.
                if-elim P (ltb (bytes / 1024 / 1024 / 1024) 1024)
                  (λ d l. rw (← div3 bytes) at (Near-gib bytes h))
                  λ d.
                    if-elim P (ltb (bytes / 1024 / 1024 / 1024 / 1024) 1024)
                      (λ e l. rw (← div4 bytes) at (Near-tib bytes h)) λ e. absurd (ground arith)
  where
    div3 : (n : ℕ) → n / 1024 / 1024 / 1024 ≡ n / 2 ^ 30
    div3 n = omega arith

    div4 : (n : ℕ) → n / 1024 / 1024 / 1024 / 1024 ≡ n / 2 ^ 40
    div4 n = omega arith
