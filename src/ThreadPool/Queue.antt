-- ===== src/ThreadPool/Queue.antt =====
-- `thread_pool_add_task`.
use progetto.Prelude.{◌+◌, if◌then◌else◌, ℕ, Option, none, some}
use progetto.ThreadPool.TaskList.{Ptr, append_task}
use progetto.ThreadPool.State.{ThreadPool}
use progetto.ThreadPool.Scale.{Scaled, ScaleCalls, auto_scale}

-- The return value, or a fault of the code: a NULL or dangling pointer is followed.
pub data Added : Type 0 where
  queued : Scaled → Added
  rejected : Added
  fault : Added

-- Under the lock: the task goes to the end of the queue.
unfoldable pub enqueue : ThreadPool → Ptr → ℕ → ℕ → Option ThreadPool
enqueue pool task function argument = elim (append_task pool.tasks task function argument) [
  | none ↦ none
  | some tasks ↦ some (record pool { tasks = tasks; queue_size = pool.queue_size + 1 })
]

-- What stands when the lock is released: lines 360 to 413.
pub data Admission : Type 0 where
  entered : ThreadPool → Admission
  turned_away : Admission
  dangling : Admission

-- `task` is what `malloc` returns; `none` for a pointer is NULL. A rejected task is freed, and the
-- pool is as it was.
unfoldable pub admit : Option ThreadPool → Option ℕ → ℕ → Option Ptr → Admission
admit none function argument task = turned_away
admit (some pool) none argument task = turned_away
admit (some pool) (some function) argument none = turned_away
admit (some pool) (some function) argument (some task) =
    if pool.shutdown
    then turned_away
    else elim (enqueue pool task function argument) [ none ↦ dangling | some pool' ↦ entered pool' ]

-- Here the pool is scaled with no step of another thread between.
unfoldable pub add_task : Option ThreadPool → Option ℕ → ℕ → Option Ptr → ScaleCalls → Added
add_task pool function argument task calls = elim (admit pool function argument task) [
  | entered pool' ↦ queued (auto_scale pool' calls)
  | turned_away ↦ rejected
  | dangling ↦ fault
]
