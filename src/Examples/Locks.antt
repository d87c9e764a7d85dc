-- ===== src/Examples/Locks.antt =====
-- The mutex of the pool: Server/thread_pool.c.
use progetto.Prelude.{◌<◌, arith, refl, Bool, some, ◌≡◌, assign, none, zero, suc, false, ℕ}
use progetto.ThreadPool.Locking.{
  Locks, Turns, acquires, stays, goes, ended, unlocked, enabling, outside, inside, lock, main_lock,
  Place, enable_fails,
}
use progetto.ThreadPool.Locking.Exclusion.{IsNew, Turns-excludes, holds_lock}
use progetto.ThreadPool.Locking.Lost.{Turns-lost}
use progetto.ThreadPool.Locking.Return.{Turns-obtains}

-- The main thread is thread 0, and the others are workers.
abbrev new_places : ℕ → Place
new_places zero = outside
new_places (suc i) = unlocked

abbrev new_locks : Locks
new_locks = record { owner = none; places = new_places }

new_places_lem : (i : ℕ) → i < 2 → holds_lock (new_places i) ≡ 0
new_places_lem zero lt = refl
new_places_lem (suc i) lt = refl

new_locks-IsNew : IsNew 2 new_locks
new_locks-IsNew = (refl, new_places_lem)

-- A worker has locked the mutex.
abbrev with_lock : Locks
with_lock = record { owner = some 1; places = assign new_places 1 enabling }

-- It has, in a run in which `pthread_setcancelstate` may fail or not.
locks : {fallible : Bool} → Turns fallible 2 new_locks with_lock
locks = goes stays (acquires 1 (omega arith) lock refl)

Turns-excludes_example : ◌≡◌ {A = ℕ} 1 1
unfolding assign
Turns-excludes_example =
    Turns-excludes 2 new_locks-IsNew (locks {fallible = false}) 1 1 (omega arith) (omega arith) refl
      refl

Turns-obtains_example :
    (t : Locks) × Turns false 2 new_locks t × (t.owner ≡ some 0) × (t.places 0 ≡ inside)
unfolding assign
Turns-obtains_example = Turns-obtains 2 new_locks-IsNew locks 0 (omega arith) main_lock

-- The main thread is still outside, after the worker has left with the mutex.
abbrev left_locked : Locks
left_locked = record with_lock { places = assign with_lock.places 1 ended }

Turns-lost_example : (left_locked.owner ≡ some 1) × (left_locked.places 1 ≡ ended)
unfolding assign
Turns-lost_example = Turns-lost 2 1 new_locks-IsNew locks (omega arith) enable_fails stays
