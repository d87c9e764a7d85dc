-- ===== src/ThreadPool/Locking/Return.antt =====
-- Whoever holds the mutex gives it back, where `pthread_setcancelstate` does not fail.
use progetto.Prelude.{
  zero, subst, assign_other, ◌≢◌, suc, status_sum-cases, assign-keeps, ℕ, ◌<◌, ◌≡◌, ◌∙◌, ◌⊎◌, inl,
  inr, arith, refl, ap, sym, false, Option, none, some, assign, assign_self, status_sum,
  status_sum-assign,
}
use mathlib.Core.Option.{some-injective}
use progetto.ThreadPool.Locking.{
  ended, cancelled, cleaning, recording, inside, main_unlock, outside, unlock, run, working,
  disable, choosing, thread_cleanup, rejoining, pass, disabling, sleeping, enable, Continues,
  testing, enabling, Releases, Acquires, unlocked, Place, Locks, Turn, Turns, acquires, continues,
  releases, sleeps, breaks, stays, goes,
}
use progetto.ThreadPool.Locking.Exclusion.{
  sleeps_lem, releases_lem, continues_lem, holds_lock, acquires_lem, IsNew,
}

-- The owner is a thread that is there, and the only one between an acquisition and a release.
pub record IsHeld (n : ℕ) (s : Locks) : Type 0 where
  pub free : s.owner ≡ none → status_sum holds_lock n s.places ≡ 0
  pub held :
      (j : ℕ)
      → s.owner ≡ some j
      → (j < n) × (holds_lock (s.places j) ≡ 1) × (status_sum holds_lock n s.places ≡ 1)

owner-cases : (o : Option ℕ) → (o ≡ none) ⊎ ((j : ℕ) × (o ≡ some j))
owner-cases none = inl refl
owner-cases (some j) = inr (j, refl)

module _ (n : ℕ) (s : Locks) (v : IsHeld n s) where
  -- A step in which a thread neither acquires nor releases.
  same-IsHeld :
      (j : ℕ) (to : Place)
      → j < n
      → holds_lock to ≡ holds_lock (s.places j)
      → IsHeld n (record s { places = assign s.places j to })
  same-IsHeld j to lt same =
      let moved = status_sum-assign holds_lock n j s.places to lt in
      record {
        free = λ e. omega (arith, v.free e, moved, same);
        held = λ i e.
            let (below, holder, one) = v.held i e in
            (
              below,
              assign-keeps holds_lock s.places j to same i ∙ holder,
              omega (arith, one, moved, same),
            );
      }

  Turn-IsHeld : {t : Locks} → Turn false n s t → IsHeld n t
  Turn-IsHeld (acquires j {to} lt a e) =
      let (was, is) = acquires_lem a in
      let moved = status_sum-assign holds_lock n j s.places to lt in
      record {
        free = λ e'. cc;
        held = λ i e'.
            let same : j ≡ i = some-injective _ _ e' in
            (
              omega (arith, same, lt),
              ap (λ k. holds_lock (assign s.places j to k)) (sym same)
                  ∙ ap holds_lock (assign_self s.places j to)
                  ∙ is,
              omega (arith, v.free e, moved, was, is),
            );
      }
  Turn-IsHeld (continues j {to} lt c) =
      let (was, is) = continues_lem c in same-IsHeld j to lt (is ∙ sym was)
  Turn-IsHeld (releases j {to} lt r) =
      let (was, is) = releases_lem r in
      let moved = status_sum-assign holds_lock n j s.places to lt in
      record {
        free = λ e. elim (owner-cases s.owner) [
          | inl none_owns ↦ omega (arith, v.free none_owns, moved, was, is)
          | inr (i, owns) ↦ (let (_, _, one) = v.held i owns in omega (arith, one, moved, was, is))
        ];
        held = λ i e. cc;
      }
  Turn-IsHeld (sleeps j {to} lt r) =
      let (was, is) = sleeps_lem r in same-IsHeld j to lt (is ∙ sym was)
  Turn-IsHeld (breaks j h lt b) = cc

pub new-IsHeld : (n : ℕ) (s : Locks) → IsNew n s → IsHeld n s
new-IsHeld n s new = record {
  free = λ e. elim (status_sum-cases holds_lock n s.places) [
    | inl (zero_sum, _) ↦ zero_sum
    | inr (i, lt, pos) ↦ absurd (omega (arith, pos, new.1 i lt))
  ];
  held = λ j e. let f = sym new.0 ∙ e in cc;
}

pub Turns-IsHeld : (n : ℕ) {start s : Locks} → IsHeld n start → Turns false n start s → IsHeld n s
Turns-IsHeld n held stays = held
Turns-IsHeld n held (goes {s = s} before turn) = Turn-IsHeld n s (Turns-IsHeld n held before) turn

-- How many of its own steps a holder is from the release at most.
abbrev to_release : Place → ℕ
to_release enabling = 4
to_release testing = 3
to_release disabling = 2
to_release _ = 1

to_release_most : (p : Place) → to_release p < 5
to_release_most unlocked = omega arith
to_release_most enabling = omega arith
to_release_most testing = omega arith
to_release_most sleeping = omega arith
to_release_most rejoining = omega arith
to_release_most cancelled = omega arith
to_release_most cleaning = omega arith
to_release_most disabling = omega arith
to_release_most choosing = omega arith
to_release_most working = omega arith
to_release_most recording = omega arith
to_release_most ended = omega arith
to_release_most outside = omega arith
to_release_most inside = omega arith

-- A holder releases the mutex, or comes closer to it.
holds_lock-cases :
    (p : Place)
    → holds_lock p ≡ 1
    → ((q : Place) × Releases p q) ⊎ ((q : Place) × Continues p q × (to_release q < to_release p))
holds_lock-cases enabling h = inr (testing, enable, omega arith)
holds_lock-cases testing h = inr (disabling, pass, omega arith)
holds_lock-cases cleaning h = inl (ended, thread_cleanup)
holds_lock-cases disabling h = inr (choosing, disable, omega arith)
holds_lock-cases choosing h = inl (working, run)
holds_lock-cases recording h = inl (unlocked, unlock)
holds_lock-cases inside h = inl (outside, main_unlock)
holds_lock-cases unlocked h = absurd (omega (arith, h))
holds_lock-cases sleeping h = absurd (omega (arith, h))
holds_lock-cases rejoining h = absurd (omega (arith, h))
holds_lock-cases cancelled h = absurd (omega (arith, h))
holds_lock-cases working h = absurd (omega (arith, h))
holds_lock-cases ended h = absurd (omega (arith, h))
holds_lock-cases outside h = absurd (omega (arith, h))

-- A run that goes on to a state with a free mutex, in steps of thread `j` only.
abbrev Frees : ℕ → Locks → ℕ → Locks → Type 0
Frees n start j s =
    (t : Locks) × Turns false n start t
    × (t.owner ≡ none)
    × ((i : ℕ) → i ≢ j → t.places i ≡ s.places i)

module _ (n : ℕ) {start : Locks} (j : ℕ) (lt : j < n) where
  frees :
      (fuel : ℕ) (s : Locks)
      → Turns false n start s
      → holds_lock (s.places j) ≡ 1
      → to_release (s.places j) < fuel
      → Frees n start j s
  frees zero s before holder enough = absurd (omega (arith, enough))
  frees (suc fuel) s before holder enough = elim (holds_lock-cases (s.places j) holder) [
    | inl (q, r) ↦
        (_, goes before (releases j lt r), refl, λ i apart. assign_other s.places j q i apart)
    | inr (q, c, closer) ↦
        (let here = assign_self s.places j q in
          let (t, after, free, others) =
            frees fuel (record s { places = assign s.places j q }) (goes before (continues j lt c))
              (ap holds_lock here ∙ (continues_lem c).1)
              (omega (arith, ap to_release here, closer, enough)) in
          (t, after, free, λ i apart. others i apart ∙ assign_other s.places j q i apart))
  ]

-- From threads before their first step, if `pthread_setcancelstate` does not fail, after every
-- interleaving a thread that wants `queue_mutex` can still get it: the run can go on until it owns
-- the mutex at the place behind its lock.
pub Turns-obtains :
    (n : ℕ) {start s : Locks}
    → IsNew n start
    → Turns false n start s
    → (i : ℕ) {to : Place} → i < n
    → Acquires (s.places i) to
    → (t : Locks) × Turns false n start t × (t.owner ≡ some i) × (t.places i ≡ to)
Turns-obtains n {start} {s} new before i {to} lt a = elim (owner-cases s.owner) [
  | inl free ↦ (_, goes before (acquires i lt a free), refl, assign_self s.places i to)
  | inr (j, owns) ↦
      (let (below, holder, _) = (Turns-IsHeld n (new-IsHeld n start new) before).held j owns in
        let apart : i ≢ j = λ same.
          omega (arith, holder, (acquires_lem a).0, ap (λ k. holds_lock (s.places k)) same) in
        let (t, after, free, others) =
          frees n j below 5 s before holder (to_release_most (s.places j)) in
        let wants = subst (λ p. Acquires p to) (sym (others i apart)) a in
        (_, goes after (acquires i lt wants free), refl, assign_self t.places i to))
]
