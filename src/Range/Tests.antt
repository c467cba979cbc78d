-- ===== src/Range/Tests.antt =====
-- Ranges of each kind.
use zeptux.Base.{◌^◌, ◌≡◌, refl}
use zeptux.Range.{RangePair, separate, adjacent, overlap, range_within, range_compare}

abbrev low : RangePair
low = record { from = 0; to = 9 }

abbrev next : RangePair
next = record { from = 10; to = 12 }

abbrev high : RangePair
high = record { from = 20; to = 2 ^ 63 }

abbrev middle : RangePair
middle = record { from = 5; to = 30 }

compared :
    (range_compare low next ≡ adjacent)
    × (range_compare low middle ≡ overlap)
    × (range_compare low high ≡ separate)
unfolding range_compare range_within
compared = (refl, refl, refl)
