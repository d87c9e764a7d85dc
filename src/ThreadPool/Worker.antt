-- ===== src/ThreadPool/Worker.antt =====
-- One round of `thread_pool_worker`, cut where it releases the lock.
use progetto.Prelude.{◌+◌, false, not, ◌-◌, if◌then◌else◌, ℕ, Bool, none, some}
use progetto.ThreadPool.TaskList.{Ptr, Task, take_task, free_task}
use progetto.ThreadPool.State.{ThreadPool}
use progetto.ThreadPool.Metrics.{record_time}

pub data Round : Type 0 where
  waits : Round
  leaves : Round
  runs : Ptr → Task → ThreadPool → Round
  faults : Round

-- `pool->queue_head == NULL && !pool->shutdown`
unfoldable pub must_wait : ThreadPool → Bool
must_wait pool = elim pool.tasks.queue_head [ none ↦ not pool.shutdown | some a ↦ false ]

-- Lines 46 to 82: `waits` while the queue is empty and the pool is not shutting down.
unfoldable pub begin_round : ThreadPool → Round
begin_round pool =
    if must_wait pool
    then waits
    else if pool.shutdown
    then leaves
    else elim (take_task pool.tasks) [
      | none ↦ faults
      | some (p, task, tasks) ↦ runs p task (record pool {
        tasks = tasks;
        queue_size = pool.queue_size - 1;
        active_threads = pool.active_threads + 1;
      })
    ]

-- Lines 98 to 121, after the task at `p` ran for `t` milliseconds. Both counters are positive where
-- they are decremented.
unfoldable pub end_round : ThreadPool → Ptr → ℕ → ThreadPool
end_round pool p t = record (record_time pool t) {
  active_threads = pool.active_threads - 1;
  tasks = free_task pool.tasks p;
}
