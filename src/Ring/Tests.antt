-- ===== src/Ring/Tests.antt =====
-- A ring list of two elements.
use zeptux.Base.{[], ◌∷◌, some, ◌≡◌, ◌==◌, if◌then◌else◌, refl, arith}
use zeptux.Ring.{ListHeap, list_count, count_from}
use zeptux.Ring.Chain.{IsRing}

-- The list at 100, with the elements 1 and 2.
abbrev two : ListHeap
two = record {
  prev = λ a. if a == 1 then 100 else if a == 2 then 1 else 2;
  next = λ a. if a == 100 then 1 else if a == 1 then 2 else 100;
}

two-IsRing : IsRing two 100 (1 ∷ 2 ∷ [])
two-IsRing = (
  (refl, refl, (refl, refl, (refl, refl))),
  ((λ e. absurd (omega arith)), ((λ e. absurd (omega arith)), tt)),
  (((λ e. absurd (omega arith)), tt), (tt, tt)),
)

two-count : list_count 5 two 100 ≡ some 2
unfolding list_count count_from
two-count = refl
