-- ===== src/EarlyAlloc/Reserve.antt =====
-- Taking the pages that are in use already: `alloc_init_pages` as one list of requests, and when
-- the early page allocator can meet such a list.
use zeptux.Base.{
  ℕ, suc, ◌+◌, ◌*◌, ◌%◌, ◌^◌, ◌≤◌, ◌<◌, Bool, true, false, ◌&&◌, ◌||◌, List, [], ◌∷◌, Option, some,
  none, ◌>>=◌, ◌≡◌, ◌⊎◌, refl, sym, ap, ◌∙◌, subst, ◌==◌, if◌then◌else◌, arith, inl, inr,
  Option-cases, Bool-cases, if-elim, length, get_or, get_or-set, length-set,
}
use zeptux.Bitmap.View.{is_set-member, member-set}
use zeptux.EarlyAlloc.{
  EarlyPageAllocSpan, EarlyPageAllocState, EarlyAllocType, no_span, span_at, in_span, find_span,
  phys_to_span_offset, mark_span, mark_page_allocated, alloc_in, alloc_at,
}
use zeptux.EarlyAlloc.Laws.{
  SpanIsValid, AllValid, taken, mark_page_allocated-fields, mark_span-fields, mark_span-SpanIsValid,
}

-- The span of an address, and the page in the span.
unfoldable pub locate : List EarlyPageAllocSpan → ℕ → Option (ℕ × ℕ)
locate spans pa = page_in (find_span spans pa)
  where
    page_in : Option ℕ → Option (ℕ × ℕ)
    page_in (some i) = some (i, phys_to_span_offset (get_or spans i no_span) pa)
    page_in none = none

abbrev pub Request : Type 0
Request = ℕ × EarlyAllocType

unfoldable pub take_all : List Request → EarlyPageAllocState → Option EarlyPageAllocState
take_all [] s = some s
take_all ((pa, ty) ∷ rs) s = alloc_at s pa ty >>= take_all rs

abbrev is_place : Option (ℕ × ℕ) → ℕ → ℕ → Bool
is_place none i j = false
is_place (some (k, o)) i j = (k == i) && (o == j)

-- Page `j` of span `i` is one of those asked for.
abbrev pub asked : List EarlyPageAllocSpan → List Request → ℕ → ℕ → Bool
asked spans [] i j = false
asked spans ((pa, ty) ∷ rs) i j = is_place (locate spans pa) i j || asked spans rs i j

-- Each request is for a free page of some span, and none is for the page of a later one.
abbrev pub CanMeet : EarlyPageAllocState → List Request → Type 0
CanMeet s [] = Unit {0}
CanMeet s ((pa, ty) ∷ rs) =
    (i : ℕ) × (j : ℕ) × (locate s.spans pa ≡ some (i, j))
    × (taken (span_at s i) j ≡ false)
    × (asked s.spans rs i j ≡ false)
    × CanMeet s rs

-- All of them are met.
pub record Met (s : EarlyPageAllocState) (rs : List Request) (t : EarlyPageAllocState)
    : Type 0 where
  pub could : CanMeet s rs
  pub now : (i j : ℕ) → taken (span_at t i) j ≡ (asked s.spans rs i j || taken (span_at s i) j)
  pub counted : t.num_allocated_pages ≡ (s.num_allocated_pages + length rs) % 2 ^ 64
  pub valid : AllValid t.spans

abbrev pub TakeResult : EarlyPageAllocState → List Request → Option EarlyPageAllocState → Type 0
TakeResult s rs none = ¬ CanMeet s rs
TakeResult s rs (some t) = Met s rs t

-- Page `offset` of span `i` is marked, and the spans stay where they are.
record Marked (s : EarlyPageAllocState) (i offset : ℕ) (t : EarlyPageAllocState) : Type 0 where
  now : (k j : ℕ) → taken (span_at t k) j ≡ ((i == k) && (offset == j) || taken (span_at s k) j)
  start : (k : ℕ) → (span_at t k).start ≡ (span_at s k).start
  pages : (k : ℕ) → (span_at t k).num_pages ≡ (span_at s k).num_pages
  same_length : length t.spans ≡ length s.spans
  counted : t.num_allocated_pages ≡ (s.num_allocated_pages + 1) % 2 ^ 64
  valid : AllValid t.spans

mark_page_allocated-Marked :
    (s : EarlyPageAllocState) (i offset : ℕ) (ty : EarlyAllocType)
    → AllValid s.spans
    → i < length s.spans
    → offset < (span_at s i).num_pages
    → Marked s i offset (mark_page_allocated s i offset ty)
mark_page_allocated-Marked s i offset ty v lt inside =
    let span = span_at s i in
    let ok = v i lt in
    let (spans_eq, count_eq) = mark_page_allocated-fields s i offset ty in
    let (bitmap_eq, start_eq, pages_eq) = mark_span-fields span offset ty in
    let marked = mark_span span offset ty in
    let after : (k : ℕ)
        → span_at (mark_page_allocated s i offset ty) k ≡ (if i == k then marked else span_at s k) =
      λ k. ap (λ ss. get_or ss k no_span) spans_eq ∙ get_or-set s.spans i k marked no_span lt in
    let bit : (j : ℕ) → taken marked j ≡ (offset == j || taken span j) = λ j. rw bitmap_eq (
      member-set span.alloc_bitmap offset j
        (omega (arith, ok.bitmap.size, ok.bitmap.enough, ok.bits, inside))) in
    let split : (P : EarlyPageAllocSpan → Type 0) (k : ℕ)
        → ((i == k) ≡ true → P marked)
        → ((i == k) ≡ false → P (span_at s k))
        → P (span_at (mark_page_allocated s i offset ty) k) =
      λ P k a b. subst P (sym (after k)) (if-elim P (i == k) a b) in
    record {
      now = λ k j.
          split (λ x. taken x j ≡ ((i == k) && (offset == j) || taken (span_at s k) j)) k
            (λ e.
              let same : i ≡ k = ground arith in
              rw e (bit j ∙ ap (λ n. (offset == j) || taken (span_at s n) j) same))
            (λ e. rw e refl);
      start = λ k.
          split (λ x. x.start ≡ (span_at s k).start) k
            (λ e. start_eq ∙ ap (λ n. (span_at s n).start) (ground arith)) (λ e. refl);
      pages = λ k.
          split (λ x. x.num_pages ≡ (span_at s k).num_pages) k
            (λ e. pages_eq ∙ ap (λ n. (span_at s n).num_pages) (ground arith)) (λ e. refl);
      same_length = ap length spans_eq ∙ length-set s.spans i marked;
      counted = count_eq;
      valid = λ k h.
          split SpanIsValid k (λ e. mark_span-SpanIsValid span offset ty ok inside)
            (λ e. v k (omega (arith, h, ap length spans_eq, length-set s.spans i marked)));
    }

-- The span `k` is one of them, with the address in it.
abbrev Holds : List EarlyPageAllocSpan → ℕ → ℕ → Type 0
Holds spans pa k =
    (k < length spans)
    × ((get_or spans k no_span).start ≤ pa)
    × (pa < (get_or spans k no_span).start + (get_or spans k no_span).num_pages * 4096)

-- The address lies in the span that is found.
find_span-inside :
    (spans : List EarlyPageAllocSpan) (pa i : ℕ) → find_span spans pa ≡ some i → Holds spans pa i
unfolding find_span
find_span-inside [] pa i e = cc
find_span-inside (span ∷ spans) pa i e = elim (Bool-cases (in_span span pa)) [
  | inl here ↦
      let z : 0 ≡ i = ground arith in
      subst (Holds (span ∷ spans) pa) z (omega arith, ground arith, ground arith)
  | inr later ↦ elim (Option-cases (find_span spans pa)) [
    | inl nowhere ↦ absurd (ground arith)
    | inr (k, there) ↦
        let z : suc k ≡ i = ground arith in
        let (a, b, c) = find_span-inside spans pa k there in
        subst (Holds (span ∷ spans) pa) z (omega arith, b, c)
  ]
]

offset_inside :
    (span : EarlyPageAllocSpan) (pa : ℕ)
    → span.start ≤ pa
    → pa < span.start + span.num_pages * 4096
    → phys_to_span_offset span pa < span.num_pages
unfolding phys_to_span_offset
offset_inside span pa low high = omega arith

-- Only where the spans lie counts.
find_span_same :
    (ss ts : List EarlyPageAllocSpan) (pa : ℕ)
    → length ss ≡ length ts
    → ((k : ℕ) → (get_or ts k no_span).start ≡ (get_or ss k no_span).start)
    → ((k : ℕ) → (get_or ts k no_span).num_pages ≡ (get_or ss k no_span).num_pages)
    → find_span ts pa ≡ find_span ss pa
unfolding find_span
find_span_same [] [] pa l a b = refl
find_span_same [] (t ∷ ts) pa l a b = absurd (omega arith)
find_span_same (s ∷ ss) [] pa l a b = absurd (omega arith)
find_span_same (s ∷ ss) (t ∷ ts) pa l a b =
    let ih = find_span_same ss ts pa (omega arith) (λ k. a (suc k)) (λ k. b (suc k)) in
    rw (a 0, b 0, ih) refl

locate_same :
    {s t : EarlyPageAllocState} {i offset : ℕ}
    → Marked s i offset t
    → (pa : ℕ) → locate t.spans pa ≡ locate s.spans pa
unfolding phys_to_span_offset locate
locate_same {s} {t} m pa =
    let e = find_span_same s.spans t.spans pa (sym m.same_length) m.start m.pages in
    elim (Option-cases (find_span s.spans pa)) [
      | inl z ↦ rw (e, z) refl
      | inr (k, z) ↦ rw (e, z, m.start k) refl
    ]

asked_same :
    {s t : EarlyPageAllocState} {i offset : ℕ}
    → Marked s i offset t
    → (rs : List Request) (k j : ℕ) → asked t.spans rs k j ≡ asked s.spans rs k j
asked_same m [] k j = refl
asked_same m ((pa, ty) ∷ rs) k j = rw (locate_same m pa, asked_same m rs k j) refl

module _ {s t : EarlyPageAllocState} {i offset : ℕ} (m : Marked s i offset t) where
  -- Requests that could be met before, and are for other pages, still can.
  CanMeet-later :
      (rs : List Request) → CanMeet s rs → asked s.spans rs i offset ≡ false → CanMeet t rs
  CanMeet-later [] h out = tt
  CanMeet-later ((pa, ty) ∷ rs) (k, j, at, clear, once, rest) out = (
    k,
    j,
    locate_same m pa ∙ at,
    ground (arith, m.now k j, at),
    asked_same m rs k j ∙ once,
    CanMeet-later rs rest ground arith,
  )

  CanMeet-earlier :
      (rs : List Request) → CanMeet t rs → CanMeet s rs × (asked s.spans rs i offset ≡ false)
  CanMeet-earlier [] h = (tt, refl)
  CanMeet-earlier ((pa, ty) ∷ rs) (k, j, at, clear, once, rest) =
      let (a, b) = CanMeet-earlier rs rest in
      let here = sym (locate_same m pa) ∙ at in
      (
        (k, j, here, ground (arith, m.now k j), sym (asked_same m rs k j) ∙ once, a),
        ground (arith, m.now k j, here),
      )

  -- One request that is met, and then the others.
  Met-cons :
      (pa : ℕ) (ty : EarlyAllocType) (rs : List Request) (r : Option EarlyPageAllocState)
      → locate s.spans pa ≡ some (i, offset)
      → taken (span_at s i) offset ≡ false
      → TakeResult t rs r
      → TakeResult s ((pa, ty) ∷ rs) r
  Met-cons pa ty rs none at clear cannot = λ (k, j, at', clear', once, rest).
      cannot (CanMeet-later rs rest (ground (arith, once, at, at')))
  Met-cons pa ty rs (some u) at clear met =
      let (could, once) = CanMeet-earlier rs met.could in
      record {
        could = (i, offset, at, clear, once, could);
        now = λ k j. ground (arith, met.now k j, asked_same m rs k j, m.now k j, at);
        counted = omega (arith, met.counted, m.counted);
        valid = met.valid;
      }

-- Page `offset` of the span `i` is where the address lies, or it lies nowhere.
alloc_at-cases :
    (s : EarlyPageAllocState) (pa : ℕ) (ty : EarlyAllocType)
    → AllValid s.spans
    → ((locate s.spans pa ≡ none) × (alloc_at s pa ty ≡ none))
      ⊎ ((i : ℕ) × (offset : ℕ) × (locate s.spans pa ≡ some (i, offset))
          × (((taken (span_at s i) offset ≡ true) × (alloc_at s pa ty ≡ none))
              ⊎ ((t : EarlyPageAllocState) × (alloc_at s pa ty ≡ some t)
                  × (taken (span_at s i) offset ≡ false)
                  × Marked s i offset t)))
unfolding locate alloc_at alloc_in
alloc_at-cases s pa ty v = elim (Option-cases (find_span s.spans pa)) [
  | inl nowhere ↦ inl (rw nowhere refl, rw (nowhere, alloc_at) refl)
  | inr (i, here) ↦
      let (lt, low, high) = find_span-inside s.spans pa i here in
      let span = span_at s i in
      let offset = phys_to_span_offset span pa in
      let inside : offset < span.num_pages = offset_inside span pa low high in
      let same = is_set-member span.alloc_bitmap offset in
      inr (
        i,
        offset,
        rw here refl,
        elim (Bool-cases (taken span offset)) [
          | inl full ↦ inl (full, rw (here, alloc_at, alloc_in, same, full) refl)
          | inr free ↦ inr (
            mark_page_allocated s i offset ty,
            rw (here, alloc_at, alloc_in, same, free) refl,
            free,
            mark_page_allocated-Marked s i offset ty v lt inside,
          )
        ],
      )
]

pub take_all-TakeResult :
    (rs : List Request) (s : EarlyPageAllocState)
    → AllValid s.spans
    → s.num_allocated_pages < 2 ^ 64
    → TakeResult s rs (take_all rs s)
unfolding take_all
take_all-TakeResult [] s v small = record {
  could = tt;
  now = λ i j. refl;
  counted = omega arith;
  valid = v;
}
take_all-TakeResult ((pa, ty) ∷ rs) s v small = elim (alloc_at-cases s pa ty v) [
  | inl (nowhere, e) ↦
      rw (e, take_all) (λ (k, j, at, clear, once, others). ground (arith, nowhere, at))
  | inr (i, offset, at, inl (full, e)) ↦
      rw (e, take_all) (λ (k, j, at', clear, once, others). ground (arith, at, at', full, clear))
  | inr (i, offset, at, inr (t, e, free, m)) ↦
      let rest = take_all-TakeResult rs t m.valid (omega (arith, m.counted)) in
      rw (e, take_all) (Met-cons m pa ty rs (take_all rs t) at free rest)
]
