-- ===== src/ThreadPool/Scale.antt =====
-- `thread_pool_auto_scale`.
pub mod Keeping
pub mod Range
pub mod Target
use progetto.Prelude.{
  ◌/◌, ◌*◌, ltb, set, if◌then◌else◌, get_or, ◌-◌, ◌+◌, ◌&&◌, ℕ, zero, suc, Bool, true, false, List,
  [], ◌∷◌, Option, none, some,
}
use progetto.ThreadPool.State.{ThreadPool}
use progetto.ThreadPool.Load.{load_ratio, above_scale_up, below_scale_down}
use progetto.Config.{
  thread_pool_queue_high_water, thread_pool_queue_low_water, thread_pool_scale_interval,
}

-- What the calls of the system give: `time`, for each `pthread_create` the new thread or a failure,
-- and for each `pthread_cancel` whether it succeeded. Where a list ends the calls fail.
pub record ScaleCalls : Type 0 where
  pub now : ℕ
  pub creates : List (Option ℕ)
  pub cancels : List Bool

-- The pool, and the threads that were asked to end.
pub record Scaled : Type 0 where
  pub pool : ThreadPool
  pub cancelled : List ℕ

abbrev pub grown_count : ℕ → ℕ → ℕ
grown_count current max_threads =
    if ltb max_threads ((current * 3 + 1) / 2) then max_threads else (current * 3 + 1) / 2

abbrev pub shrunk_count : ℕ → ℕ → ℕ
shrunk_count current min_threads =
    if ltb ((current * 3 + 1) / 4) min_threads then min_threads else (current * 3 + 1) / 4

-- The loop from `i` on, with so many rounds left; a failure ends it.
unfoldable pub create_threads : ℕ → ℕ → List (Option ℕ) → ThreadPool → ThreadPool
create_threads zero i creates pool = pool
create_threads (suc k) i [] pool = pool
create_threads (suc k) i (none ∷ creates) pool = pool
create_threads (suc k) i (some thread ∷ creates) pool =
    create_threads k (i + 1) creates
      (record pool { threads = set pool.threads i thread; thread_count = pool.thread_count + 1 })

-- The loop down to `lowest`, with `k` rounds left, so at index `lowest + k - 1`.
unfoldable pub cancel_threads : ℕ → ℕ → List Bool → List ℕ → List ℕ
cancel_threads zero lowest cancels threads = []
cancel_threads (suc k) lowest [] threads = []
cancel_threads (suc k) lowest (false ∷ cancels) threads = []
cancel_threads (suc k) lowest (true ∷ cancels) threads =
    get_or threads (lowest + k) 0 ∷ cancel_threads k lowest cancels threads

unfoldable pub grow : ThreadPool → List (Option ℕ) → ThreadPool
unfolding create_threads
grow pool creates =
    create_threads (grown_count pool.thread_count pool.max_threads - pool.thread_count)
      pool.thread_count creates pool

unfoldable pub shrink : ThreadPool → List Bool → Scaled
unfolding cancel_threads
shrink pool cancels =
    let lowest = shrunk_count pool.thread_count pool.min_threads in
    record {
      pool = record pool { thread_count = lowest };
      cancelled = cancel_threads (pool.thread_count - lowest) lowest cancels pool.threads;
    }

unfoldable pub wants_growth : ThreadPool → Bool
unfolding load_ratio above_scale_up
wants_growth pool =
    above_scale_up (load_ratio pool.active_threads pool.thread_count)
    && ltb thread_pool_queue_high_water pool.queue_size
    && ltb pool.thread_count pool.max_threads

unfoldable pub wants_shrinking : ThreadPool → Bool
unfolding load_ratio below_scale_down
wants_shrinking pool =
    below_scale_down (load_ratio pool.active_threads pool.thread_count)
    && ltb pool.queue_size thread_pool_queue_low_water
    && ltb pool.min_threads pool.thread_count

unfoldable pub rescale : ThreadPool → ScaleCalls → Scaled
rescale pool calls =
    if wants_growth pool
    then record { pool = grow pool calls.creates; cancelled = [] }
    else if wants_shrinking pool
    then shrink pool calls.cancels
    else record { pool = pool; cancelled = [] }

-- On a pool that is not NULL; on NULL the function does nothing. The test is
-- `now - last_scale_time < THREAD_POOL_SCALE_INTERVAL`.
unfoldable pub auto_scale : ThreadPool → ScaleCalls → Scaled
auto_scale pool calls =
    if ltb calls.now (pool.last_scale_time + thread_pool_scale_interval)
    then record { pool = pool; cancelled = [] }
    else record {
      pool = record (rescale pool calls).pool { last_scale_time = calls.now };
      cancelled = (rescale pool calls).cancelled;
    }
