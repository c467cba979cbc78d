-- ===== src/Spinlock.antt =====
-- arch/x86_64/include/spinlock.h, over the atomics of include/atomic.h: the word of one lock, and
-- where each thread stands. A step is one atomic access, and the threads interleave in any order.
-- The word is one location, so every thread sees its accesses in one order.
pub mod Safety
pub mod Tests
use zeptux.Base.{
  ℕ, zero, suc, ◌<◌, Bool, true, false, Option, some, none, List, [], ◌∷◌, ◌==◌, if◌then◌else◌,
}

-- What each atomic access gives, and the word after it.
unfoldable pub atomic_load_relaxed : ℕ → ℕ × ℕ
atomic_load_relaxed word = (word, word)

unfoldable pub atomic_exchange_acquire : ℕ → ℕ → ℕ × ℕ
atomic_exchange_acquire word val = (word, val)

unfoldable pub atomic_store_release : ℕ → ℕ → ℕ
atomic_store_release word val = val

abbrev pub empty_spinlock : ℕ
empty_spinlock = 0

-- Where a thread stands: outside; before the exchange of `spinlock_acquire`; in its loop of loads;
-- in the critical section, where its next access is that of `spinlock_release`.
pub data Pc : Type 0 where
  idle exchanging loading critical : Pc

abbrev pub is_critical : Pc → Bool
is_critical critical = true
is_critical _ = false

unfoldable pub acquire_exchange : ℕ → ℕ × Pc
unfolding atomic_exchange_acquire
acquire_exchange word =
    let (old, new) = atomic_exchange_acquire word 1 in (new, if old == 0 then critical else loading)

unfoldable pub acquire_load : ℕ → ℕ × Pc
unfolding atomic_load_relaxed
acquire_load word =
    let (seen, same) = atomic_load_relaxed word in (same, if seen == 0 then exchanging else loading)

unfoldable pub spinlock_release : ℕ → ℕ
unfolding atomic_store_release
spinlock_release word = atomic_store_release word 0

-- The next access of a thread; a thread outside calls `spinlock_acquire`.
unfoldable pub next_access : ℕ → Pc → ℕ × Pc
unfolding acquire_exchange acquire_load spinlock_release
next_access word idle = (word, exchanging)
next_access word exchanging = acquire_exchange word
next_access word loading = acquire_load word
next_access word critical = (spinlock_release word, idle)

-- A thread that nobody disturbs: `none` where the loop of loads would go on for ever.
unfoldable pub spinlock_acquire : ℕ → Option ℕ
spinlock_acquire word = if word == 0 then some 1 else none

pub record System : Type 0 where
  pub word : ℕ
  pub pc : ℕ → Pc

unfoldable pub turn : System → ℕ → System
unfolding next_access
turn s i =
    let (word, pc) = next_access s.word (s.pc i) in
    record { word = word; pc = λ j. if i == j then pc else s.pc j }

-- The threads named in the list take a turn, one after the other.
unfoldable pub run : System → List ℕ → System
run s [] = s
run s (i ∷ is) = run (turn s i) is

abbrev pub unlocked : System
unlocked = record { word = empty_spinlock; pc = λ _. idle }

-- The states that any number of threads reach.
pub data Reach : System → Type 0 where
  start : Reach unlocked
  later : {s : System} → Reach s → (i : ℕ) → Reach (turn s i)
