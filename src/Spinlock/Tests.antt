-- ===== src/Spinlock/Tests.antt =====
-- Runs of the lock by two threads.
use zeptux.Base.{ℕ, ◌≤◌, List, [], ◌∷◌, ◌≡◌, refl, length}
use zeptux.Spinlock.{
  critical, loading, next_access, acquire_exchange, acquire_load, atomic_exchange_acquire,
  atomic_load_relaxed, atomic_store_release, spinlock_release, System, turn, run, unlocked, Reach,
  start, later,
}
use zeptux.Spinlock.Safety.{mutual_exclusion, enters}

-- Thread 0 has the lock, and thread 1 waits for it.
abbrev contended : System
contended = turn (turn (turn (turn unlocked 0) 0) 1) 1

contended-Reach : Reach contended
contended-Reach = later (later (later (later start 0) 0) 1) 1

contended_waits : (contended.pc 0 ≡ critical) × (contended.pc 1 ≡ loading) × (contended.word ≡ 1)
unfolding turn next_access acquire_exchange atomic_exchange_acquire
contended_waits = (refl, refl, refl)

handed_over : (run contended (0 ∷ 1 ∷ 1 ∷ [])).pc 1 ≡ critical
unfolding run turn next_access acquire_exchange acquire_load spinlock_release
    atomic_exchange_acquire atomic_load_relaxed atomic_store_release
handed_over = refl

mutual_exclusion_example : ◌≡◌ {A = ℕ} 0 0
unfolding turn next_access acquire_exchange atomic_exchange_acquire
mutual_exclusion_example = mutual_exclusion contended-Reach 0 0 refl refl

enters_example : (is : List ℕ) × (length is ≤ 3) × ((run contended is).pc 1 ≡ critical)
enters_example = enters contended-Reach 1
