-- ===== src/ThreadPool/Locking/Lost.antt =====
-- What comes after a `pthread_setcancelstate` that failed.
use native.Mathlib.Decide.{ℕ_discrete}
use progetto.Prelude.{
  assign_self, assign_other, ◌∙◌, ap, arith, assign, sym, ◌<◌, refl, true, some, ◌≡◌, Bool, ℕ,
}
use mathlib.Core.Option.{some-injective}
use progetto.ThreadPool.Locking.{
  Locks, Turn, Turns, acquires, continues, releases, sleeps, breaks, stays, goes, ended, cancelled,
  unlocked, enabling, testing, sleeping, rejoining, cleaning, disabling, choosing, working,
  recording, outside, inside, lock, lock_again, wait_over, wait_cancelled, main_lock, enable, pass,
  disable, wait, thread_cleanup, shut, run, unlock, main_unlock, woken, cancel, enable_fails,
  disable_fails, Place, Acquires, Continues, Releases, Sleeps, Breaks,
}
use progetto.ThreadPool.Locking.Exclusion.{
  breaks_lem, Turn-IsOwned, releases_lem, new-IsOwned, Turns-IsOwned, IsNew, IsOwned,
}

-- Whether a thread has ended.
abbrev has_ended : Place → ℕ
has_ended unlocked = 0
has_ended enabling = 0
has_ended testing = 0
has_ended sleeping = 0
has_ended rejoining = 0
has_ended cancelled = 0
has_ended cleaning = 0
has_ended disabling = 0
has_ended choosing = 0
has_ended working = 0
has_ended recording = 0
has_ended ended = 1
has_ended outside = 0
has_ended inside = 0

Acquires-live : {p q : Place} → Acquires p q → has_ended p ≡ 0
Acquires-live lock = refl
Acquires-live lock_again = refl
Acquires-live wait_over = refl
Acquires-live wait_cancelled = refl
Acquires-live main_lock = refl

Continues-live : {p q : Place} → Continues p q → has_ended p ≡ 0
Continues-live enable = refl
Continues-live pass = refl
Continues-live disable = refl

Releases-live : {p q : Place} → Releases p q → has_ended p ≡ 0
Releases-live wait = refl
Releases-live thread_cleanup = refl
Releases-live shut = refl
Releases-live run = refl
Releases-live unlock = refl
Releases-live main_unlock = refl

Sleeps-live : {p q : Place} → Sleeps p q → has_ended p ≡ 0
Sleeps-live woken = refl
Sleeps-live cancel = refl

Breaks-live : {p q : Place} → Breaks p q → has_ended p ≡ 0
Breaks-live enable_fails = refl
Breaks-live disable_fails = refl

Breaks-ended : {p q : Place} → Breaks p q → q ≡ ended
Breaks-ended enable_fails = refl
Breaks-ended disable_fails = refl

module _ (n : ℕ) (s : Locks) (v : IsOwned n s) (j : ℕ) (owns : s.owner ≡ some j)
    (over : s.places j ≡ ended) where
  -- Another thread moves, so that thread `j` is still the one that has ended.
  moved-ended : (i : ℕ) (to : Place) → has_ended (s.places i) ≡ 0 → assign s.places i to j ≡ ended
  moved-ended i to live = elim (ℕ_discrete j i) [
    | yes here ↦
        absurd (omega (arith, ap has_ended over, ap (λ k. has_ended (s.places k)) here, live))
    | no apart ↦ assign_other s.places i to j apart ∙ over
  ]

  pub Turn-lost :
      {fallible : Bool} {t : Locks}
      → Turn fallible n s t
      → (t.owner ≡ some j) × (t.places j ≡ ended)
  Turn-lost (acquires i {to} lt a e) = cc
  Turn-lost (continues i {to} lt c) = (owns, moved-ended i to (Continues-live c))
  Turn-lost (releases i {to} lt r) =
      let same : i ≡ j = some-injective _ _ (sym (v i lt (releases_lem r).0) ∙ owns) in
      absurd
        (omega (arith, ap has_ended over, ap (λ k. has_ended (s.places k)) same, Releases-live r))
  Turn-lost (sleeps i {to} lt r) = (owns, moved-ended i to (Sleeps-live r))
  Turn-lost (breaks i {to} h lt b) = (owns, moved-ended i to (Breaks-live b))

still_lost :
    (n : ℕ) {fallible : Bool} {start s : Locks} (j : ℕ)
    → IsOwned n start
    → start.owner ≡ some j
    → start.places j ≡ ended
    → Turns fallible n start s
    → (s.owner ≡ some j) × (s.places j ≡ ended)
still_lost n j owned owns over stays = (owns, over)
still_lost n j owned owns over (goes {s = s} before turn) =
    let (now, gone) = still_lost n j owned owns over before in
    Turn-lost n s (Turns-IsOwned n owned before) j now gone turn

-- If `pthread_setcancelstate` fails for a worker, in a state that threads before their first step
-- reach, the worker ends with `queue_mutex` locked: it owns the mutex after every interleaving of
-- the steps that follow.
pub Turns-lost :
    (n : ℕ) {start s t : Locks} (j : ℕ) {to : Place}
    → IsNew n start
    → Turns true n start s
    → j < n
    → Breaks (s.places j) to
    → Turns true n (record s { places = assign s.places j to }) t
    → (t.owner ≡ some j) × (t.places j ≡ ended)
Turns-lost n {start} {s} j {to} new before lt b after =
    let owned = Turns-IsOwned n (new-IsOwned n start new) before in
    still_lost n j (Turn-IsOwned n s owned (breaks j refl lt b)) (owned j lt (breaks_lem b).0)
      (assign_self s.places j to ∙ Breaks-ended b) after
