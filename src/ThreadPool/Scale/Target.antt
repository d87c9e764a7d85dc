-- ===== src/ThreadPool/Scale/Target.antt =====
-- Which number of threads the pool goes to, in exact arithmetic.
use progetto.Prelude.{
  true, false, inr, inl, Bool-cases, zero, set, ◌-◌, ◌&&◌, suc, Bool, length, ◌+◌, arith, ◌*◌, none,
  All, leb, ltb, some, List, if◌then◌else◌, Option, ◌≡◌, ◌<◌, ℕ, ◌≤◌, [], ◌∷◌,
}
use progetto.ThreadPool.State.{ThreadPool}
use progetto.ThreadPool.Scale.{
  shrunk_count, grown_count, shrink, create_threads, grow, wants_growth, wants_shrinking, rescale,
  ScaleCalls, auto_scale,
}
use progetto.ThreadPool.Scale.Range.{InRange, wants_growth-lt}
use progetto.ThreadPool.Load.{load_ratio_exact}
use progetto.Config.{thread_pool_scale_interval}

abbrev pub Succeeds : Option ℕ → Type 0
Succeeds none = ⊥
Succeeds (some thread) = Unit

-- Grow by a half at a load of 60 % or more and a queue of more than ten, shrink by a quarter below
-- 30 % and with fewer than two queued; never within two seconds of the last time.
abbrev pub target : ThreadPool → ℕ → ℕ
target pool now =
    if ltb now (pool.last_scale_time + 2)
    then pool.thread_count
    else if leb (3 * pool.thread_count) (5 * pool.active_threads)
        && ltb 10 pool.queue_size
        && ltb pool.thread_count pool.max_threads
    then grown_count pool.thread_count pool.max_threads
    else if ltb (10 * pool.active_threads) (3 * pool.thread_count)
        && ltb pool.queue_size 2
        && ltb pool.min_threads pool.thread_count
    then shrunk_count pool.thread_count pool.min_threads
    else pool.thread_count

create_threads-count :
    (k i : ℕ) (creates : List (Option ℕ)) (pool : ThreadPool)
    → All Succeeds creates
    → k ≤ length creates
    → (create_threads k i creates pool).thread_count ≡ pool.thread_count + k
unfolding create_threads
create_threads-count zero i creates pool h enough = omega arith
create_threads-count (suc k) i [] pool h enough = absurd (omega arith)
create_threads-count (suc k) i (none ∷ creates) pool h enough = absurd h.0
create_threads-count (suc k) i (some thread ∷ creates) pool h enough = omega (
  arith,
  create_threads-count k (i + 1) creates
      (record pool { threads = set pool.threads i thread; thread_count = pool.thread_count + 1 })
      h.1,
)

module _ (pool : ThreadPool) (calls : ScaleCalls) where
  -- The load is one that the float test gets right, and threads can be created.
  pub record Scalable : Type 0 where
    pub running : 0 < pool.thread_count
    pub limit : pool.max_threads ≤ 32
    pub busy : pool.active_threads ≤ 64
    pub created : All Succeeds calls.creates
    pub enough : pool.max_threads ≤ length calls.creates

  grow_count :
      Scalable
      → InRange pool
      → pool.thread_count < pool.max_threads
      → (grow pool calls.creates).thread_count ≡ grown_count pool.thread_count pool.max_threads
  unfolding grow
  grow_count s v below =
      let more : pool.thread_count ≤ grown_count pool.thread_count pool.max_threads =
        ground arith in
      omega (
        arith,
        create_threads-count (grown_count pool.thread_count pool.max_threads - pool.thread_count)
            pool.thread_count calls.creates pool s.created (ground arith),
      )

  wants_growth_exact :
      Scalable
      → InRange pool
      → wants_growth pool ≡ (
          leb (3 * pool.thread_count) (5 * pool.active_threads)
          && ltb 10 pool.queue_size
          && ltb pool.thread_count pool.max_threads)
  unfolding wants_growth
  wants_growth_exact s v =
      rw (load_ratio_exact pool.active_threads pool.thread_count s.running (omega arith) s.busy).0

  wants_shrinking_exact :
      Scalable
      → InRange pool
      → wants_shrinking pool ≡ (
          ltb (10 * pool.active_threads) (3 * pool.thread_count)
          && ltb pool.queue_size 2
          && ltb pool.min_threads pool.thread_count)
  unfolding wants_shrinking
  wants_shrinking_exact s v =
      rw (load_ratio_exact pool.active_threads pool.thread_count s.running (omega arith) s.busy).1

  rescale_count :
      (a b : Bool)
      → wants_growth pool ≡ a
      → wants_shrinking pool ≡ b
      → Scalable
      → InRange pool
      → (rescale pool calls).pool.thread_count ≡ (
          if a
          then grown_count pool.thread_count pool.max_threads
          else if b
          then shrunk_count pool.thread_count pool.min_threads
          else pool.thread_count)
  unfolding rescale shrink
  rescale_count true b up down s v = rw up (grow_count s v (wants_growth-lt pool up))
  rescale_count false true up down s v = rw (up, down)
  rescale_count false false up down s v = rw (up, down)

  -- Where every thread that is wanted can be created, the limits are 32 threads at most and no more
  -- than 64 threads are active, scaling leaves the number of threads that `target` states.
  pub auto_scale-target :
      Scalable → InRange pool → (auto_scale pool calls).pool.thread_count ≡ target pool calls.now
  unfolding auto_scale
  auto_scale-target s v =
      let counted = rescale_count _ _ (wants_growth_exact s v) (wants_shrinking_exact s v) s v in
      elim (Bool-cases (ltb calls.now (pool.last_scale_time + thread_pool_scale_interval))) [
        | inl early ↦ rw early
        | inr due ↦ rw due counted
      ]

-- Below the maximum, a step up adds a thread at least and at most half of them, rounded up, and
-- stays at or below the maximum.
pub grown_count_bounds :
    (c max_threads : ℕ)
    → 0 < c
    → c < max_threads
    → (c < grown_count c max_threads)
      × (2 * grown_count c max_threads ≤ 3 * c + 1)
      × (grown_count c max_threads ≤ max_threads)
grown_count_bounds c max_threads pos below = (ground arith, ground arith, ground arith)

-- Above a positive minimum, a step down takes one thread at least, leaves three quarters of them
-- but for a rounding of half a thread, and stays at or above the minimum.
pub shrunk_count_bounds :
    (c min_threads : ℕ)
    → 0 < min_threads
    → min_threads < c
    → (shrunk_count c min_threads < c)
      × (3 * c ≤ 4 * shrunk_count c min_threads + 2)
      × (min_threads ≤ shrunk_count c min_threads)
shrunk_count_bounds c min_threads pos above = (ground arith, ground arith, ground arith)
