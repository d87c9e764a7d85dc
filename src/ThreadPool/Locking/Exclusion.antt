-- ===== src/ThreadPool/Locking/Exclusion.antt =====
-- One thread at a time is between an acquisition of the mutex and its release.
use progetto.Prelude.{
  ◌≢◌, Bool, assign_other, ℕ, ◌<◌, ◌≡◌, ◌∙◌, arith, refl, ap, sym, Option, none, some, assign,
  assign_self,
}
use native.Mathlib.Decide.{ℕ_discrete}
use mathlib.Core.Option.{some-injective}
use progetto.ThreadPool.Locking.{
  disable_fails, enable_fails, Breaks, Place, unlocked, enabling, testing, sleeping, rejoining,
  cancelled, cleaning, disabling, choosing, working, recording, ended, outside, inside, Acquires,
  Continues, Releases, Sleeps, lock, lock_again, wait_over, wait_cancelled, main_lock, enable, pass,
  disable, wait, thread_cleanup, shut, run, unlock, main_unlock, woken, cancel, Locks, Turn, Turns,
  acquires, continues, releases, sleeps, breaks, stays, goes,
}

-- Whether a thread is between an acquisition and a release.
abbrev pub holds_lock : Place → ℕ
holds_lock unlocked = 0
holds_lock enabling = 1
holds_lock testing = 1
holds_lock sleeping = 0
holds_lock rejoining = 0
holds_lock cancelled = 0
holds_lock cleaning = 1
holds_lock disabling = 1
holds_lock choosing = 1
holds_lock working = 0
holds_lock recording = 1
holds_lock ended = 0
holds_lock outside = 0
holds_lock inside = 1

pub acquires_lem : {p q : Place} → Acquires p q → (holds_lock p ≡ 0) × (holds_lock q ≡ 1)
acquires_lem lock = (refl, refl)
acquires_lem lock_again = (refl, refl)
acquires_lem wait_over = (refl, refl)
acquires_lem wait_cancelled = (refl, refl)
acquires_lem main_lock = (refl, refl)

pub continues_lem : {p q : Place} → Continues p q → (holds_lock p ≡ 1) × (holds_lock q ≡ 1)
continues_lem enable = (refl, refl)
continues_lem pass = (refl, refl)
continues_lem disable = (refl, refl)

pub releases_lem : {p q : Place} → Releases p q → (holds_lock p ≡ 1) × (holds_lock q ≡ 0)
releases_lem wait = (refl, refl)
releases_lem thread_cleanup = (refl, refl)
releases_lem shut = (refl, refl)
releases_lem run = (refl, refl)
releases_lem unlock = (refl, refl)
releases_lem main_unlock = (refl, refl)

pub sleeps_lem : {p q : Place} → Sleeps p q → (holds_lock p ≡ 0) × (holds_lock q ≡ 0)
sleeps_lem woken = (refl, refl)
sleeps_lem cancel = (refl, refl)

-- Threads before their first step.
abbrev pub IsNew : ℕ → Locks → Type 0
IsNew n s = (s.owner ≡ none) × ((i : ℕ) → i < n → holds_lock (s.places i) ≡ 0)

pub breaks_lem : {p q : Place} → Breaks p q → (holds_lock p ≡ 1) × (holds_lock q ≡ 0)
breaks_lem enable_fails = (refl, refl)
breaks_lem disable_fails = (refl, refl)

-- A thread between an acquisition and a release owns the mutex.
abbrev pub IsOwned : ℕ → Locks → Type 0
IsOwned n s = (i : ℕ) → i < n → holds_lock (s.places i) ≡ 1 → s.owner ≡ some i

module _ (n : ℕ) (s : Locks) (v : IsOwned n s) where
  -- Thread `j` moves, and `i` is one that owns the mutex if it is thread `j`, or if it did before.
  moved-IsOwned :
      (owner : Option ℕ) (j : ℕ) (to : Place)
      → (holds_lock to ≡ 1 → owner ≡ some j)
      → ((i : ℕ) → i ≢ j → s.owner ≡ some i → owner ≡ some i)
      → IsOwned n (record { owner = owner; places = assign s.places j to })
  moved-IsOwned owner j to own other i lt h = elim (ℕ_discrete i j) [
    | yes here ↦
        own (
          sym (ap holds_lock (assign_self s.places j to))
          ∙ ap (λ k. holds_lock (assign s.places j to k)) (sym here)
          ∙ h)
        ∙ ap some (sym here)
    | no apart ↦
        other i apart (v i lt (sym (ap holds_lock (assign_other s.places j to i apart)) ∙ h))
  ]

  pub Turn-IsOwned : {fallible : Bool} {t : Locks} → Turn fallible n s t → IsOwned n t
  Turn-IsOwned (acquires j {to} lt a e) =
      moved-IsOwned (some j) j to (λ h. refl) (λ i apart owns. cc)
  Turn-IsOwned (continues j {to} lt c) =
      moved-IsOwned s.owner j to (λ h. v j lt (continues_lem c).0) (λ i apart owns. owns)
  Turn-IsOwned (releases j {to} lt r) =
      moved-IsOwned none j to (λ h. absurd (omega (arith, h, (releases_lem r).1)))
        (λ i apart owns. absurd (apart (some-injective _ _ (sym owns ∙ v j lt (releases_lem r).0))))
  Turn-IsOwned (sleeps j {to} lt r) =
      moved-IsOwned s.owner j to (λ h. absurd (omega (arith, h, (sleeps_lem r).1)))
        (λ i apart owns. owns)
  Turn-IsOwned (breaks j {to} h lt b) =
      moved-IsOwned s.owner j to (λ h'. absurd (omega (arith, h', (breaks_lem b).1)))
        (λ i apart owns. owns)

pub Turns-IsOwned :
    (n : ℕ) {fallible : Bool} {start s : Locks}
    → IsOwned n start
    → Turns fallible n start s
    → IsOwned n s
Turns-IsOwned n owned stays = owned
Turns-IsOwned n owned (goes {s = s} before turn) =
    Turn-IsOwned n s (Turns-IsOwned n owned before) turn

pub new-IsOwned : (n : ℕ) (s : Locks) → IsNew n s → IsOwned n s
new-IsOwned n s new i lt h = absurd (omega (arith, h, new.1 i lt))

-- From threads before their first step, in every interleaving of their steps, also where
-- `pthread_setcancelstate` fails, two threads between an acquisition of `queue_mutex` and its release
-- are the same thread.
pub Turns-excludes :
    (n : ℕ) {fallible : Bool} {start s : Locks}
    → IsNew n start
    → Turns fallible n start s
    → (i j : ℕ) → i < n
    → j < n
    → holds_lock (s.places i) ≡ 1
    → holds_lock (s.places j) ≡ 1
    → i ≡ j
Turns-excludes n {start = start} new before i j below below' h h' =
    let owned = Turns-IsOwned n (new-IsOwned n start new) before in
    some-injective _ _ (sym (owned i below h) ∙ owned j below' h')
