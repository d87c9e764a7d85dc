-- ===== src/ThreadPool/Locking.antt =====
-- `queue_mutex`, as Server/thread_pool.c locks it: `thread_pool_worker` with its cancellation and
-- `thread_cleanup`, and the functions of the main thread. The steps of System are what happens
-- between an acquisition and the next release.
pub mod Exclusion
pub mod Lost
pub mod Return
use progetto.Prelude.{ℕ, ◌<◌, ◌≡◌, Bool, true, Option, none, some, assign}

-- Where a thread is. A worker is about to lock the mutex, makes itself cancellable, tests the queue,
-- sleeps in `pthread_cond_wait`, is woken or cancelled there and wants the mutex back, runs
-- `thread_cleanup`, makes itself uncancellable, takes a task or leaves, is at its task, updates the
-- statistics, or has ended. The main thread is outside or inside a critical section.
pub data Place : Type 0 where
  unlocked : Place
  enabling : Place
  testing : Place
  sleeping : Place
  rejoining : Place
  cancelled : Place
  cleaning : Place
  disabling : Place
  choosing : Place
  working : Place
  recording : Place
  ended : Place
  outside : Place
  inside : Place

-- Lines 35 and 98, the two ways out of `pthread_cond_wait`, and the main thread's lock.
pub data Acquires : Place → Place → Type 0 where
  lock : Acquires unlocked enabling
  lock_again : Acquires working recording
  wait_over : Acquires rejoining testing
  wait_cancelled : Acquires cancelled cleaning
  main_lock : Acquires outside inside

-- With the mutex held.
pub data Continues : Place → Place → Type 0 where
  enable : Continues enabling testing
  pass : Continues testing disabling
  disable : Continues disabling choosing

-- The wait, `thread_cleanup`, lines 64, 82 and 119, and the main thread's unlock.
pub data Releases : Place → Place → Type 0 where
  wait : Releases testing sleeping
  thread_cleanup : Releases cleaning ended
  shut : Releases choosing ended
  run : Releases choosing working
  unlock : Releases recording unlocked
  main_unlock : Releases inside outside

pub data Sleeps : Place → Place → Type 0 where
  woken : Sleeps sleeping rejoining
  cancel : Sleeps sleeping cancelled

-- The `break`s after `pthread_setcancelstate` failed, which leave the loop and the thread: the
-- clean-up handler is taken off and not run.
pub data Breaks : Place → Place → Type 0 where
  enable_fails : Breaks enabling ended
  disable_fails : Breaks disabling ended

pub record Locks : Type 0 where
  pub owner : Option ℕ
  pub places : ℕ → Place

-- A step of one of `n` threads; `fallible` is whether `pthread_setcancelstate` may fail.
pub data Turn (fallible : Bool) (n : ℕ) (s : Locks) : Locks → Type 0 where
  acquires :
      (j : ℕ) {to : Place}
      → j < n
      → Acquires (s.places j) to
      → s.owner ≡ none
      → Turn fallible n s (record { owner = some j; places = assign s.places j to })
  continues :
      (j : ℕ) {to : Place}
      → j < n
      → Continues (s.places j) to
      → Turn fallible n s (record s { places = assign s.places j to })
  releases :
      (j : ℕ) {to : Place}
      → j < n
      → Releases (s.places j) to
      → Turn fallible n s (record { owner = none; places = assign s.places j to })
  sleeps :
      (j : ℕ) {to : Place}
      → j < n
      → Sleeps (s.places j) to
      → Turn fallible n s (record s { places = assign s.places j to })
  breaks :
      (j : ℕ) {to : Place}
      → fallible ≡ true
      → j < n
      → Breaks (s.places j) to
      → Turn fallible n s (record s { places = assign s.places j to })

pub data Turns (fallible : Bool) (n : ℕ) (start : Locks) : Locks → Type 0 where
  stays : Turns fallible n start start
  goes : {s t : Locks} → Turns fallible n start s → Turn fallible n s t → Turns fallible n start t
