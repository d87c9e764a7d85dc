-- ===== src/Examples/Workers.antt =====
-- The workers of the pool, asleep, at work and at the end: Server/thread_pool.c.
use progetto.ThreadPool.System.Working.{rests, Drains, work}
use progetto.ThreadPool.System.Refinement.{Jobs, Stands, Acts, no_jobs, Reach-Acts}
use progetto.ThreadPool.System.Joining.{Reach-free_tasks}
use progetto.ThreadPool.System.Invariant.{contents}
use progetto.ThreadPool.TaskList.{Cells, TaskList}
use progetto.ThreadPool.Lifetime.{free_tasks, drained}
use progetto.ThreadPool.Lifetime.Destruction.{Emptied}
use progetto.Prelude.{◌++◌, status_sum, ℕ, true, some, [], ◌∷◌, ◌*◌, ◌≤◌, ◌<◌, ◌≡◌, refl, arith}
use progetto.Examples.Pool.{
  start, start-IsStart, with_task, Reach-with_task, at_work, Reach-at_work,
}
use progetto.Examples.Threads.{pool}
use progetto.ThreadPool.System.{System, Reach, goes, gone, shut_down, awaken}
use progetto.ThreadPool.System.Counting.{busy}
use progetto.ThreadPool.System.Wakeups.{Alert, Reach-Alert}
use progetto.ThreadPool.System.Draining.{Fate, Drains-Fate, Reach-Drains}
use progetto.ThreadPool.System.Joining.{Ends, Reach-Ends, remaining}
use progetto.ThreadPool.Metrics.History.{Summary, sum, least, greatest}
use progetto.ThreadPool.Metrics.Report.{
  Report, TaskTimes, IsExact, print_stats, print_stats-IsExact,
}

Reach-Alert_example : Alert 8 with_task.pool with_task.workers
Reach-Alert_example = Reach-Alert 8 start-IsStart Reach-with_task

Reach-Drains_test :
    (t : System) × Drains 8 with_task (work with_task) t
    × (t.started ≡ (1, 2) ∷ [])
    × (status_sum busy 8 t.workers ≡ 0)
Reach-Drains_test = Reach-Drains 8 0 start-IsStart Reach-with_task refl (omega arith) (λ e. cc)

Drains-Fate_example : Fate 8 with_task 0 with_task
Drains-Fate_example =
    Drains-Fate 8 0 0 start-IsStart Reach-with_task refl (omega arith) (λ e. cc) rests

-- The pool shuts down while a worker is at its task.
abbrev closing : System
closing = record at_work {
  pool = record at_work.pool { shutdown = true };
  workers = λ i. awaken (at_work.workers i);
}

Reach-closing : Reach 8 start closing
Reach-closing = goes Reach-at_work shut_down

Reach-Ends_test :
    (t : System) × Ends 8 closing (status_sum remaining 8 closing.workers) t
    × ((i : ℕ) → i < 8 → t.workers i ≡ gone)
    × (t.started ≡ closing.started)
    × ((k : ℕ) (u : System) → Ends 8 closing k u → k ≤ 2 * 8)
Reach-Ends_test = Reach-Ends 8 start-IsStart Reach-closing refl

two_tasks : Summary pool (5 ∷ 3 ∷ [])
unfolding sum least greatest
two_tasks = record { completed = refl; total = refl; shortest = refl; longest = refl }

print_stats-IsExact_test :
    (r : Report) × (times : TaskTimes) × (print_stats (some pool) ≡ some r)
    × (r.total_tasks ≡ 2)
    × (r.task_times ≡ some times)
    × IsExact (5 ∷ 3 ∷ []) times
print_stats-IsExact_test = print_stats-IsExact pool (5 ∷ 3 ∷ []) two_tasks (omega arith)

Reach-free_tasks_example :
    (cells : Cells) × (after : TaskList) × ((1, 2) ∷ [] ≡ [] ++ contents cells)
    × (free_tasks 1 with_task.pool.tasks ≡ drained after)
    × Emptied with_task.pool.tasks cells after
Reach-free_tasks_example = Reach-free_tasks 8 start-IsStart Reach-with_task

Reach-Acts_example : (a : Jobs) × Stands at_work a × Acts (no_jobs start) a
Reach-Acts_example = Reach-Acts 8 start-IsStart Reach-at_work
