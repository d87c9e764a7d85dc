-- ===== src/ThreadPool/Scale/Keeping.antt =====
-- Scaling leaves the queue and the counters of the workers alone.
use progetto.Prelude.{refl, inr, inl, ap, ◌+◌, ltb, Option, Bool-cases, List, ℕ, ◌≡◌}
use progetto.ThreadPool.State.{ThreadPool}
use progetto.ThreadPool.Scale.{
  wants_shrinking, wants_growth, shrink, create_threads, grow, rescale, ScaleCalls, auto_scale,
}
use progetto.ThreadPool.Scale.Range.{create_threads-Grows}
use progetto.Config.{thread_pool_scale_interval}

-- What the workers see of a pool is the same.
pub record SameWork (before after : ThreadPool) : Type 0 where
  pub tasks : after.tasks ≡ before.tasks
  pub shutdown : after.shutdown ≡ before.shutdown
  pub active_threads : after.active_threads ≡ before.active_threads
  pub queue_size : after.queue_size ≡ before.queue_size

create_threads-SameWork :
    (k i : ℕ) (creates : List (Option ℕ)) (pool : ThreadPool)
    → SameWork pool (create_threads k i creates pool)
create_threads-SameWork k i creates pool =
    let same = (create_threads-Grows k i creates pool).others in
    record {
      tasks = ap (λ p. p.tasks) same;
      shutdown = ap (λ p. p.shutdown) same;
      active_threads = ap (λ p. p.active_threads) same;
      queue_size = ap (λ p. p.queue_size) same;
    }

rescale-SameWork :
    (pool : ThreadPool) (calls : ScaleCalls) → SameWork pool (rescale pool calls).pool
unfolding rescale grow shrink
rescale-SameWork pool calls = elim (Bool-cases (wants_growth pool)) [
  | inl up ↦ rw up (create_threads-SameWork _ pool.thread_count calls.creates pool)
  | inr level ↦ elim (Bool-cases (wants_shrinking pool)) [
    | inl down ↦
        rw (level, down)
          (record { tasks = refl; shutdown = refl; active_threads = refl; queue_size = refl })
    | inr keep ↦
        rw (level, keep)
          (record { tasks = refl; shutdown = refl; active_threads = refl; queue_size = refl })
  ]
]

pub auto_scale-SameWork :
    (pool : ThreadPool) (calls : ScaleCalls) → SameWork pool (auto_scale pool calls).pool
unfolding auto_scale
auto_scale-SameWork pool calls =
    let w = rescale-SameWork pool calls in
    elim (Bool-cases (ltb calls.now (pool.last_scale_time + thread_pool_scale_interval))) [
      | inl early ↦
          rw early
            (record { tasks = refl; shutdown = refl; active_threads = refl; queue_size = refl })
      | inr due ↦ rw due (record {
        tasks = w.tasks;
        shutdown = w.shutdown;
        active_threads = w.active_threads;
        queue_size = w.queue_size;
      })
    ]
