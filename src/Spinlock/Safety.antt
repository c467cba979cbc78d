-- ===== src/Spinlock/Safety.antt =====
-- What holds in every state that threads reach with one lock.
use zeptux.Base.{
  ℕ, zero, suc, ◌≤◌, false, some, none, List, [], ◌∷◌, ◌⊎◌, inl, inr, ◌≡◌, ◌≢◌, ◌↔◌, refl, ap,
  arith, ◌==◌, length,
}
use zeptux.Spinlock.{
  Pc, idle, exchanging, loading, critical, is_critical, next_access, acquire_exchange, acquire_load,
  atomic_exchange_acquire, atomic_load_relaxed, atomic_store_release, spinlock_release,
  spinlock_acquire, System, turn, run, Reach, start, later,
}

-- Nobody holds the lock and the word is 0, or one thread does and the word is 1.
abbrev Held : System → Type 0
Held s = (i : ℕ) × ((s.word ≡ 1) × (s.pc i ≡ critical) × ((j : ℕ) → s.pc j ≡ critical → j ≡ i))

abbrev Inv : System → Type 0
Inv s = ((s.word ≡ 0) × ((j : ℕ) → s.pc j ≢ critical)) ⊎ Held s

Pc-cases : (p : Pc) → (p ≡ idle) ⊎ (p ≡ exchanging) ⊎ (p ≡ loading) ⊎ (p ≡ critical)
Pc-cases idle = inl refl
Pc-cases exchanging = inr (inl refl)
Pc-cases loading = inr (inr (inl refl))
Pc-cases critical = inr (inr (inr refl))

turn-Inv : (s : System) (i : ℕ) → Inv s → Inv (turn s i)
unfolding turn next_access acquire_exchange acquire_load spinlock_release atomic_exchange_acquire
    atomic_load_relaxed atomic_store_release
turn-Inv s i (inl (free, nobody)) = elim (Pc-cases (s.pc i)) [
  | inl e ↦ inl (ground arith, λ j c. ground (arith, nobody j))
  | inr (inl e) ↦ inr (i, (ground arith, ground arith, λ j c. ground (arith, nobody j)))
  | inr (inr (inl e)) ↦ inl (ground arith, λ j c. ground (arith, nobody j))
  | inr (inr (inr e)) ↦ absurd (nobody i e)
]
turn-Inv s i (inr (k, (one, at, only))) = elim (Pc-cases (s.pc i)) [
  | inl e ↦ inr (k, (ground arith, ground arith, λ j c. ground (arith, only j)))
  | inr (inl e) ↦ inr (k, (ground arith, ground arith, λ j c. ground (arith, only j)))
  | inr (inr (inl e)) ↦ inr (k, (ground arith, ground arith, λ j c. ground (arith, only j)))
  | inr (inr (inr e)) ↦ inl (ground arith, λ j c. ground (arith, only j, only i e))
]

pub Reach-Inv : {s : System} → Reach s → Inv s
Reach-Inv start = inl (refl, λ j. ground arith)
Reach-Inv (later {s} r i) = turn-Inv s i (Reach-Inv r)

-- In a state that threads reach, two threads in the critical section are one and the same.
pub mutual_exclusion :
    {s : System} → Reach s → (i j : ℕ) → s.pc i ≡ critical → s.pc j ≡ critical → i ≡ j
mutual_exclusion r i j a b = elim (Reach-Inv r) [
  | inl (free, nobody) ↦ absurd (nobody i a)
  | inr (k, (one, at, only)) ↦ ground (arith, only i a, only j b)
]

-- In a state that threads reach, the word of the lock is 0 or 1, and it is 1 just when a thread is
-- in the critical section.
pub word-Held :
    {s : System} → Reach s → (s.word ≤ 1) × ((s.word ≡ 1) ↔ ((i : ℕ) × (s.pc i ≡ critical)))
word-Held {s} r = elim (Reach-Inv r) [
  | inl (free, nobody) ↦ (omega arith, (λ one. absurd (omega arith), λ (i, c). absurd (nobody i c)))
  | inr (k, (one, at, only)) ↦ (omega arith, (λ same. (k, at), λ some_thread. one))
]

-- From a state that threads reach, any thread gets into the critical section in three turns at
-- most, if the threads take their turns in the right order: no deadlock.
pub enters :
    {s : System}
    → Reach s
    → (i : ℕ) → (is : List ℕ) × (length is ≤ 3) × ((run s is).pc i ≡ critical)
unfolding run turn next_access acquire_exchange acquire_load spinlock_release
    atomic_exchange_acquire atomic_load_relaxed atomic_store_release
enters {s} r i = elim (Reach-Inv r) [
  | inl (free, nobody) ↦ elim (Pc-cases (s.pc i)) [
    | inl e ↦ (i ∷ i ∷ [], omega arith, ground arith)
    | inr (inl e) ↦ (i ∷ [], omega arith, ground arith)
    | inr (inr (inl e)) ↦ (i ∷ i ∷ [], omega arith, ground arith)
    | inr (inr (inr e)) ↦ ([], omega arith, e)
  ]
  | inr (k, (one, at, only)) ↦ elim (Pc-cases (s.pc i)) [
    | inl e ↦ (k ∷ i ∷ i ∷ [], omega arith, ground arith)
    | inr (inl e) ↦ (k ∷ i ∷ [], omega arith, ground arith)
    | inr (inr (inl e)) ↦ (k ∷ i ∷ i ∷ [], omega arith, ground arith)
    | inr (inr (inr e)) ↦ ([], omega arith, e)
  ]
]

-- The accesses of one thread that nobody disturbs, from its exchange on.
unfoldable pub alone : ℕ → ℕ → Pc → ℕ × Pc
alone zero word pc = (word, pc)
alone (suc n) word pc = let (w, p) = next_access word pc in alone n w p

acquire_load-held : (word : ℕ) → word ≢ 0 → next_access word loading ≡ (word, loading)
unfolding next_access acquire_load atomic_load_relaxed
acquire_load-held word held = let z : (word == 0) ≡ false = ground arith in rw z refl

acquire_exchange-held : (word : ℕ) → word ≢ 0 → next_access word exchanging ≡ (1, loading)
unfolding next_access acquire_exchange atomic_exchange_acquire
acquire_exchange-held word held = let z : (word == 0) ≡ false = ground arith in rw z refl

alone-loading : (n word : ℕ) → word ≢ 0 → alone n word loading ≡ (word, loading)
unfolding alone
alone-loading zero word held = refl
alone-loading (suc n) word held = rw (acquire_load-held word held) (alone-loading n word held)

alone-lost : (n word : ℕ) → word ≢ 0 → alone (suc n) word exchanging ≡ (1, loading)
unfolding alone
alone-lost n word held =
    rw (acquire_exchange-held word held) (alone-loading n 1 (λ z. omega (arith, z)))

alone-exchanging : (n word : ℕ) → word ≢ 0 → is_critical (alone n word exchanging).1 ≡ false
unfolding alone
alone-exchanging zero word held = refl
alone-exchanging (suc n) word held = ap (λ (p : ℕ × Pc). is_critical p.1) (alone-lost n word held)

-- `spinlock_acquire` in one piece gives what the accesses of an undisturbed thread give: where it
-- returns a word, the first access takes the lock and leaves that word; where it does not
-- return, no number of accesses takes the lock.
pub spinlock_acquire-alone :
    (word : ℕ)
    → ((w : ℕ) → spinlock_acquire word ≡ some w → alone 1 word exchanging ≡ (w, critical))
      × (spinlock_acquire word ≡ none → (n : ℕ) → is_critical (alone n word exchanging).1 ≡ false)
unfolding spinlock_acquire alone next_access acquire_exchange acquire_load atomic_exchange_acquire
    atomic_load_relaxed
spinlock_acquire-alone word =
    (λ w e. ground arith, λ e n. alone-exchanging n word (λ z. ground arith))
