-- ===== src/ThreadPool/Metrics.antt =====
-- The time of a task, and the statistics that a worker keeps (Server/thread_pool.c:94-117).
pub mod History
pub mod Report
use progetto.Prelude.{ltb, ◌||◌, ◌/◌, ◌==◌, arith, leb, if◌then◌else◌, ◌≤◌, ◌+◌, ◌<◌, ◌-◌, ◌*◌, ℕ}
use progetto.ThreadPool.State.{ThreadPool}

-- `struct timespec`, with `tv_nsec` below 10 ^ 9.
pub record Timespec : Type 0 where
  pub tv_sec : ℕ
  pub tv_nsec : ℕ

-- Both differences are signed and C divides towards zero. CLOCK_MONOTONIC does not go back, so the
-- sum is not negative.
unfoldable pub task_time : Timespec → Timespec → ℕ
task_time start end =
    let seconds = (end.tv_sec - start.tv_sec) * 1000 in
    if leb start.tv_nsec end.tv_nsec
    then seconds + (end.tv_nsec - start.tv_nsec) / 1000000
    else seconds - (start.tv_nsec - end.tv_nsec) / 1000000

abbrev pub nanoseconds : Timespec → ℕ
nanoseconds t = t.tv_sec * 1000000000 + t.tv_nsec

-- Between two times of a clock that does not go back, the time in milliseconds is exact up to a
-- millisecond.
pub task_time_bounds :
    (start end : Timespec)
    → start.tv_nsec < 1000000000
    → end.tv_nsec < 1000000000
    → nanoseconds start ≤ nanoseconds end
    → (task_time start end * 1000000 < nanoseconds end - nanoseconds start + 1000000)
      × (nanoseconds end - nanoseconds start < task_time start end * 1000000 + 1000000)
unfolding task_time
task_time_bounds start end hs he le = ground arith

-- The update of the statistics by a worker that has run a task for `t` milliseconds.
unfoldable pub record_time : ThreadPool → ℕ → ThreadPool
record_time pool t = record pool {
  total_tasks_completed = pool.total_tasks_completed + 1;
  total_task_time_ms = pool.total_task_time_ms + t;
  min_task_time_ms =
      if pool.min_task_time_ms == 0 || ltb t pool.min_task_time_ms
      then t
      else pool.min_task_time_ms;
  max_task_time_ms = if ltb pool.max_task_time_ms t then t else pool.max_task_time_ms;
}
