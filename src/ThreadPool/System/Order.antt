-- ===== src/ThreadPool/System/Order.antt =====
-- What holds after any interleaving of the main thread and the workers.
use progetto.Prelude.{
  status_sum-assign, ap, ◌≢◌, ◌<◌, append-nil, ◌+◌, ◌-◌, some, none, inr, inl, true, false,
  Bool-cases, ◌∙◌, refl, sym, arith, ℕ, ◌≡◌, List, [], ◌∷◌, ◌++◌, length,
}
use progetto.ThreadPool.TaskList.{IsTaskList, take_task, TaskList, Task, Ptr, Cells}
use progetto.ThreadPool.System.{idle, running, System, IsStart, Reach, stays, goes}
use progetto.ThreadPool.System.Invariant.{Inv, IsStart-Inv, contents}
use progetto.ThreadPool.System.Steps.{Step-Inv}
use progetto.ThreadPool.System.Rounds.{enqueue_lem}
use progetto.ThreadPool.System.Counting.{busy, busy_count}
use progetto.ThreadPool.Worker.{begin_round, runs, waits, leaves, must_wait}
use progetto.ThreadPool.State.{ThreadPool}
use progetto.ThreadPool.TaskList.Ends.{
  append_task-IsTaskList, Fresh-of_unused, take_task-IsTaskList,
}
use progetto.ThreadPool.Queue.{admit, queued, rejected, add_task}
use progetto.ThreadPool.Scale.{auto_scale, Scaled, ScaleCalls}
use progetto.ThreadPool.System.Flags.{begin_round-waits, begin_round-leaves}

pub Reach-Inv : (n : ℕ) {start s : System} → IsStart start → Reach n start s → Inv n s
Reach-Inv n {start} i stays = IsStart-Inv n start i
Reach-Inv n i (goes {s = s} r step) = Step-Inv s (Reach-Inv n i r) step

length-contents : (cs : Cells) → length (contents cs) ≡ length cs
length-contents [] = refl
length-contents (c ∷ cs) = ground (arith, length-contents cs)

-- After any interleaving, the accepted tasks are the started ones in the order of acceptance and
-- then the waiting ones, which are `queue_size` many; `active_threads` is the number of workers
-- that run a task.
pub Reach-fifo :
    (n : ℕ) {start s : System}
    → IsStart start
    → Reach n start s
    → (waiting : List (ℕ × ℕ)) × (s.added ≡ s.started ++ waiting)
      × (s.pool.queue_size ≡ length waiting)
      × (s.pool.active_threads ≡ busy_count n s.workers)
Reach-fifo n i r =
    let v = Reach-Inv n i r in
    (contents v.cells, sym v.fifo, v.size ∙ sym (length-contents v.cells), v.active)

-- What a worker that looks at the queue does.
pub data Looks (s : System) : Type 0 where
  left : s.pool.shutdown ≡ true → begin_round s.pool ≡ leaves → Looks s
  slept : s.pool.shutdown ≡ false → s.added ≡ s.started → begin_round s.pool ≡ waits → Looks s
  began :
      {p : Ptr} {t : Task} {pool : ThreadPool} (later : List (ℕ × ℕ))
      → s.pool.shutdown ≡ false
      → s.added ≡ s.started ++ (t.function, t.argument) ∷ later
      → begin_round s.pool ≡ runs p t pool
      → pool.queue_size ≡ length later
      → Looks s

begin_round-begins :
    (pool : ThreadPool) {a p : Ptr} {t : Task} {tasks : TaskList}
    → pool.shutdown ≡ false
    → pool.tasks.queue_head ≡ some a
    → take_task pool.tasks ≡ some (p, t, tasks)
    → begin_round pool
      ≡ runs p t (record pool {
        tasks = tasks;
        queue_size = pool.queue_size - 1;
        active_threads = pool.active_threads + 1;
      })
unfolding begin_round must_wait
begin_round-begins pool h e took = ground arith

open-Looks :
    (s : System) (open_pool : s.pool.shutdown ≡ false) (cells : Cells)
    → IsTaskList s.pool.tasks cells
    → s.pool.queue_size ≡ length cells
    → s.started ++ contents cells ≡ s.added
    → Looks s
open-Looks s open_pool [] is size fifo =
    slept open_pool (sym fifo ∙ append-nil s.started) (begin_round-waits s.pool open_pool is.chain)
open-Looks s open_pool ((a, f, x) ∷ cs) is size fifo =
    let (task, tasks, took, ef, ex, _, rest) = take_task-IsTaskList s.pool.tasks cs a f x is in
    began (contents cs) open_pool (rw (ef, ex) (sym fifo))
      (begin_round-begins s.pool open_pool is.chain.0 took)
      (omega (arith, size, length-contents cs))

-- After any interleaving, a worker that looks at the queue leaves if the pool shuts down, waits if
-- no task waits, and else runs the accepted task that is the oldest of those not started: it never
-- follows a NULL or a dangling pointer.
pub Reach-Looks : (n : ℕ) {start s : System} → IsStart start → Reach n start s → Looks s
Reach-Looks n {start} {s} i r =
    let v = Reach-Inv n i r in
    elim (Bool-cases s.pool.shutdown) [
      | inl h ↦ left h (begin_round-leaves s.pool h)
      | inr h ↦ open-Looks s h v.cells v.list v.size v.fifo
    ]

-- After any interleaving, a running worker's task is allocated, no other worker has it, and at
-- least one thread is counted as active: what `end_round` frees is freed once, and its counter
-- stays above 0.
pub Reach-running :
    (n : ℕ) {start s : System} (i : ℕ) {p f x : ℕ}
    → IsStart start
    → Reach n start s
    → i < n
    → s.workers i ≡ running p f x
    → (s.pool.tasks.heap p ≢ none)
      × (0 < s.pool.active_threads)
      × ((j g y : ℕ) → s.workers j ≡ running p g y → i ≡ j)
Reach-running n {s = s} i {p} {f} {x} is r lt e =
    let v = Reach-Inv n is r in
    (
      v.owned.in_use i p f x e,
      omega (arith, v.active, status_sum-assign busy n i s.workers idle lt, ap busy e),
      λ j g y run. v.owned.unshared i j p f x g y e run,
    )

-- After any interleaving, `add_task` rejects a task if the pool shuts down, and else accepts it: it
-- never follows a dangling tail pointer. `malloc` gives an address not in use.
pub Reach-add_task :
    (n : ℕ) {start s : System} (p f x : ℕ) (calls : ScaleCalls)
    → IsStart start
    → Reach n start s
    → s.pool.tasks.heap p ≡ none
    → (s.pool.shutdown ≡ true → add_task (some s.pool) (some f) x (some p) calls ≡ rejected)
      × (s.pool.shutdown ≡ false
          → (r : Scaled) × (add_task (some s.pool) (some f) x (some p) calls ≡ queued r))
unfolding add_task admit
Reach-add_task n {s = s} p f x calls is r unused =
    let v = Reach-Inv n is r in
    let fresh =
      Fresh-of_unused s.pool.tasks.heap s.pool.tasks.queue_head v.cells p v.list.chain unused in
    let (q, appended, _) = append_task-IsTaskList s.pool.tasks p f x v.cells v.list fresh in
    let entered = enqueue_lem s.pool p f x q appended in
    (
      λ h. ground arith,
      λ h. (
        auto_scale (record s.pool { tasks = q; queue_size = s.pool.queue_size + 1 }) calls,
        ground arith,
      ),
    )
