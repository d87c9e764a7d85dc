-- ===== src/ThreadPool/State.antt =====
-- `thread_pool_t`, and `thread_pool_get_load_percentage`.
use native.Mathlib.Nat.{le_of_mul-le-mul_right}
use progetto.Prelude.{
  arith, ◌+◌, none, ◌/◌, ◌==◌, if◌then◌else◌, ◌*◌, some, ◌≤◌, ◌<◌, Option, List, ℕ, Bool,
}
use progetto.ThreadPool.TaskList.{TaskList}

-- Counters and times are natural numbers that do not wrap: the counts are bounded by the requests
-- served, and the clock is monotonic. `threads` is the array of `max_threads` thread ids.
pub record ThreadPool : Type 0 where
  pub threads : List ℕ
  pub thread_count : ℕ
  pub min_threads : ℕ
  pub max_threads : ℕ
  pub tasks : TaskList
  pub shutdown : Bool
  pub active_threads : ℕ
  pub queue_size : ℕ
  pub total_tasks_completed : ℕ
  pub last_scale_time : ℕ
  pub total_task_time_ms : ℕ
  pub min_task_time_ms : ℕ
  pub max_task_time_ms : ℕ

-- `none` is a NULL pool.
unfoldable pub get_load_percentage : Option ThreadPool → ℕ
get_load_percentage none = 0
get_load_percentage (some pool) =
    if pool.thread_count == 0 then 0 else pool.active_threads * 100 / pool.thread_count

-- With a thread at least, the percentage is the exact load rounded down, and at most 100 unless
-- more threads are active than the pool counts.
pub get_load_percentage_bounds :
    (pool : ThreadPool)
    → 0 < pool.thread_count
    → (get_load_percentage (some pool) * pool.thread_count ≤ pool.active_threads * 100)
      × (pool.active_threads * 100 < (get_load_percentage (some pool) + 1) * pool.thread_count)
      × (pool.active_threads ≤ pool.thread_count → get_load_percentage (some pool) ≤ 100)
unfolding get_load_percentage
get_load_percentage_bounds pool pos = (
  ground arith,
  ground arith,
  λ h. le_of_mul-le-mul_right {n = 100} {k = pool.thread_count} (ground arith) pos,
)
