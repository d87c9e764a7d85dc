-- ===== src/ThreadPool/Scale/Range.antt =====
-- The number of threads stays between its limits, whatever the system answers.
use progetto.Prelude.{
  inr, inl, ltb, true, Bool-cases, none, ap, [], refl, zero, length-set, ◌∙◌, set, some, ◌∷◌, suc,
  arith, ◌<◌, Bool, Option, List, ◌≡◌, length, ◌+◌, ℕ, ◌≤◌,
}
use progetto.ThreadPool.State.{ThreadPool}
use progetto.ThreadPool.Scale.{
  wants_growth, rescale, wants_shrinking, grow, create_threads, shrink, ScaleCalls, auto_scale,
}
use progetto.Config.{thread_pool_scale_interval}

-- The count is within the limits, and the array of thread ids has room for the maximum.
pub record InRange (pool : ThreadPool) : Type 0 where
  pub at_least : pool.min_threads ≤ pool.thread_count
  pub at_most : pool.thread_count ≤ pool.max_threads
  pub room : length pool.threads ≡ pool.max_threads

-- All that `create_threads` changes are the count, by at most the rounds that it has, and the ids
-- in the array.
pub record Grows (k : ℕ) (pool grown : ThreadPool) : Type 0 where
  pub more : pool.thread_count ≤ grown.thread_count
  pub few : grown.thread_count ≤ pool.thread_count + k
  pub threads_length : length grown.threads ≡ length pool.threads
  pub others : grown ≡ record pool { threads = grown.threads; thread_count = grown.thread_count }

pub create_threads-Grows :
    (k i : ℕ) (creates : List (Option ℕ)) (pool : ThreadPool)
    → Grows k pool (create_threads k i creates pool)
unfolding create_threads
create_threads-Grows zero i creates pool = record {
  more = omega arith;
  few = omega arith;
  threads_length = refl;
  others = refl;
}
create_threads-Grows (suc k) i [] pool = record {
  more = omega arith;
  few = omega arith;
  threads_length = refl;
  others = refl;
}
create_threads-Grows (suc k) i (none ∷ creates) pool = record {
  more = omega arith;
  few = omega arith;
  threads_length = refl;
  others = refl;
}
create_threads-Grows (suc k) i (some thread ∷ creates) pool =
    let next = record pool {
      threads = set pool.threads i thread;
      thread_count = pool.thread_count + 1;
    } in
    let later = create_threads-Grows k (i + 1) creates next in
    record {
      more = omega (arith, later.more);
      few = omega (arith, later.few);
      threads_length = later.threads_length ∙ length-set pool.threads i thread;
      others = later.others;
    }

Grows-InRange :
    {k : ℕ} {pool grown : ThreadPool}
    → Grows k pool grown
    → pool.thread_count + k ≤ pool.max_threads
    → InRange pool
    → InRange grown
Grows-InRange {pool} {grown} g fits v = record {
  at_least = omega (arith, g.more, ap (λ p. p.min_threads) g.others);
  at_most = omega (arith, g.few, ap (λ p. p.max_threads) g.others);
  room = omega (arith, g.threads_length, ap (λ p. p.max_threads) g.others);
}

grow-InRange :
    (pool : ThreadPool) (creates : List (Option ℕ))
    → pool.thread_count < pool.max_threads
    → InRange pool
    → InRange (grow pool creates)
unfolding grow
grow-InRange pool creates below v =
    Grows-InRange (create_threads-Grows _ pool.thread_count creates pool) (ground arith) v

shrink-InRange :
    (pool : ThreadPool) (cancels : List Bool)
    → pool.min_threads < pool.thread_count
    → InRange pool
    → InRange (shrink pool cancels).pool
unfolding shrink
shrink-InRange pool cancels above v = ground arith

pub wants_growth-lt :
    (pool : ThreadPool) → wants_growth pool ≡ true → pool.thread_count < pool.max_threads
unfolding wants_growth
wants_growth-lt pool h = ground arith

pub wants_shrinking-lt :
    (pool : ThreadPool) → wants_shrinking pool ≡ true → pool.min_threads < pool.thread_count
unfolding wants_shrinking
wants_shrinking-lt pool h = ground arith

rescale-InRange :
    (pool : ThreadPool) (calls : ScaleCalls) → InRange pool → InRange (rescale pool calls).pool
unfolding rescale
rescale-InRange pool calls v = elim (Bool-cases (wants_growth pool)) [
  | inl up ↦ rw up (grow-InRange pool calls.creates (wants_growth-lt pool up) v)
  | inr level ↦ elim (Bool-cases (wants_shrinking pool)) [
    | inl down ↦
        rw (level, down) (shrink-InRange pool calls.cancels (wants_shrinking-lt pool down) v)
    | inr keep ↦ rw (level, keep) v
  ]
]

-- Scaling keeps the number of threads between the minimum and the maximum, whichever calls fail.
pub auto_scale-InRange :
    (pool : ThreadPool) (calls : ScaleCalls) → InRange pool → InRange (auto_scale pool calls).pool
unfolding auto_scale
auto_scale-InRange pool calls v =
    let w = rescale-InRange pool calls v in
    elim (Bool-cases (ltb calls.now (pool.last_scale_time + thread_pool_scale_interval))) [
      | inl early ↦ rw early v
      | inr due ↦ rw due (record { at_least = w.at_least; at_most = w.at_most; room = w.room })
    ]
