-- ===== src/ThreadPool/Lifetime/Destruction.antt =====
-- Destruction of a pool: every queued task is freed once.
use progetto.Prelude.{
  false, ap, refl, [], sym, ◌∙◌, arith, ◌∷◌, length, zero, some, All, suc, none, ◌≡◌, ◌≤◌, ℕ,
}
use progetto.ThreadPool.Lifetime.{nothing, Held, destroy, free_tasks, drained}
use progetto.ThreadPool.TaskList.{free_task, Fresh, Distinct, Task, Ptr, Cells, TaskList, Chain}
use progetto.ThreadPool.TaskList.Ends.{free_task_self, free_task-Chain, free_task_other}
use progetto.ThreadPool.State.{ThreadPool}
use progetto.ThreadPool.Lifetime.Creation.{join_threads-running}

-- The queue is empty, the tasks that it had are freed, and no other address is.
pub record Emptied (q : TaskList) (cs : Cells) (after : TaskList) : Type 0 where
  pub empty : after.queue_head ≡ none
  pub freed : All (λ c. after.heap c.0 ≡ none) cs
  pub kept : (p : Ptr) → Fresh p cs → after.heap p ≡ q.heap p

free_tasks-next :
    (n : ℕ) (q : TaskList) {a : Ptr} {t : Task}
    → q.queue_head ≡ some a
    → q.heap a ≡ some t
    → free_tasks (suc n) q ≡ free_tasks n (free_task (record q { queue_head = t.next }) a)
unfolding free_tasks
free_tasks-next n q e cell = rw (e, cell)

free_tasks_done : (n : ℕ) (q : TaskList) → q.queue_head ≡ none → free_tasks n q ≡ drained q
unfolding free_tasks
free_tasks_done zero q e = rw e
free_tasks_done (suc n) q e = rw e

-- The loop of `thread_pool_destroy` ends after as many rounds as tasks are queued, frees each of
-- them, and never follows a pointer to freed memory.
pub free_tasks-Emptied :
    (n : ℕ) (q : TaskList) (cs : Cells)
    → Chain q.heap q.queue_head cs
    → Distinct cs
    → length cs ≤ n
    → (after : TaskList) × (free_tasks n q ≡ drained after) × Emptied q cs after
free_tasks-Emptied n q [] chain distinct enough =
    (q, free_tasks_done n q chain, record { empty = chain; freed = tt; kept = λ p fresh. refl })
free_tasks-Emptied zero q (c ∷ cs) chain distinct enough = absurd (omega arith)
free_tasks-Emptied (suc n) q ((a, f, x) ∷ cs) (head, (link, cell, rest)) distinct enough =
    let q' = free_task (record q { queue_head = link }) a in
    let (after, e, d) =
      free_tasks-Emptied n q' cs
        (free_task-Chain (record q { queue_head = link }) a cs distinct.0 rest) distinct.1
        (omega arith) in
    (
      after,
      free_tasks-next n q head cell ∙ e,
      record {
        empty = d.empty;
        freed = (d.kept a distinct.0 ∙ free_task_self (record q { queue_head = link }) a, d.freed);
        kept = λ p fresh.
            d.kept p fresh.1
            ∙ free_task_other (record q { queue_head = link }) a p (λ same. fresh.0 (sym same));
      },
    )

-- If the pool counts all its threads, and not more than its maximum, nothing of it is held after
-- `thread_pool_destroy`.
pub destroy-nothing :
    (n : ℕ) (pool : ThreadPool) (held : Held)
    → held.running ≡ pool.thread_count
    → pool.thread_count ≤ pool.max_threads
    → (destroy n pool held).1 ≡ nothing
unfolding destroy
destroy-nothing n pool held counted most =
    ap (λ k. record { array = false; mutex = false; cond = false; running = k })
      (ground (
        arith,
        join_threads-running pool.thread_count held,
        join_threads-running pool.max_threads held,
      ))
