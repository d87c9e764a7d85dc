-- ===== src/ThreadPool/System/Rounds.antt =====
-- What `admit` and `begin_round` do to a pool whose queue stands for a list of tasks.
use mathlib.Core.Option.{some-injective}
use native.Mathlib.Decide.{ℕ_discrete}
use progetto.Prelude.{
  assign, length, ◌-◌, ap, inr, inl, ◌∙◌, ◌⊎◌, sym, arith, ◌+◌, Option, some, none, ℕ, ◌≡◌, ◌≢◌, [],
  ◌∷◌,
}
use progetto.ThreadPool.TaskList.{
  take_task, append_task, TaskList, Task, Ptr, Cells, IsTaskList, Fresh,
}
use progetto.ThreadPool.System.{Status, running}
use progetto.ThreadPool.Queue.{entered, admit, enqueue}
use progetto.ThreadPool.Worker.{runs, begin_round}
use progetto.ThreadPool.State.{ThreadPool}
use progetto.ThreadPool.TaskList.Ends.{take_task-IsTaskList, take_task-none}

pub enqueue_lem :
    (pool : ThreadPool) (p f x : ℕ) (tasks : TaskList)
    → append_task pool.tasks p f x ≡ some tasks
    → enqueue pool p f x ≡ some (record pool { tasks = tasks; queue_size = pool.queue_size + 1 })
unfolding enqueue
enqueue_lem pool p f x tasks e = ground arith

-- A task that enters the pool is at the end of its queue.
pub admit-entered :
    (pool : ThreadPool) (p f x : ℕ) {pool' : ThreadPool} (tasks : TaskList)
    → append_task pool.tasks p f x ≡ some tasks
    → admit (some pool) (some f) x (some p) ≡ entered pool'
    → pool' ≡ record pool { tasks = tasks; queue_size = pool.queue_size + 1 }
unfolding admit
admit-entered pool p f x tasks e h = let into = enqueue_lem pool p f x tasks e in ground arith

pub assign-running :
    (w : ℕ → Status) (i : ℕ) (st : Status) (j : ℕ) {p f x : ℕ}
    → assign w i st j ≡ running p f x
    → ((j ≡ i) × (st ≡ running p f x)) ⊎ ((j ≢ i) × (w j ≡ running p f x))
unfolding assign
assign-running w i st j e = elim (ℕ_discrete j i) [
  | yes same ↦ inl (ground arith)
  | no other ↦ inr (ground arith)
]

-- The parts of a round that begins.
begin_round-runs :
    (pool : ThreadPool) {p : Ptr} {t : Task} {pool' : ThreadPool}
    (o : Option (Ptr × Task × TaskList))
    → take_task pool.tasks ≡ o
    → begin_round pool ≡ runs p t pool'
    → (tasks : TaskList) × (o ≡ some (p, t, tasks))
      × (pool' ≡ record pool {
        tasks = tasks;
        queue_size = pool.queue_size - 1;
        active_threads = pool.active_threads + 1;
      })
unfolding begin_round
begin_round-runs pool none e h = absurd (ground arith)
begin_round-runs pool (some (p', t', tasks)) e h = (tasks, ground arith, ground arith)

-- A round that begins takes the first task of the queue.
pub record Takes (pool : ThreadPool) (cs : Cells) (p : Ptr) (t : Task) (pool' : ThreadPool)
    : Type 0 where
  pub rest : Cells
  pub first : cs ≡ (p, t.function, t.argument) ∷ rest
  pub list : IsTaskList pool'.tasks rest
  pub heap : pool'.tasks.heap ≡ pool.tasks.heap
  pub size : pool'.queue_size ≡ length rest
  pub active : pool'.active_threads ≡ pool.active_threads + 1
  pub in_use : pool.tasks.heap p ≢ none
  pub apart : Fresh p rest

module _ (pool : ThreadPool) {p : Ptr} {t : Task} {pool' : ThreadPool} where
  pub begin_round-Takes :
      (cs : Cells)
      → IsTaskList pool.tasks cs
      → pool.queue_size ≡ length cs
      → begin_round pool ≡ runs p t pool'
      → Takes pool cs p t pool'
  begin_round-Takes [] is size h =
      let (_, taken, _) = begin_round-runs pool none (take_task-none pool.tasks is) h in cc
  begin_round-Takes ((a, f, x) ∷ cs) is size h =
      let (task, tasks, took, ef, ex, same_heap, rest) =
        take_task-IsTaskList pool.tasks cs a f x is in
      let (tasks', same, after) = begin_round-runs pool _ took h in
      let taken = some-injective _ _ same in
      let at = ap (λ z. z.0) taken in
      let held = ap (λ z. z.1) taken in
      let left = ap (λ z. z.2) taken ∙ sym (ap (λ q. q.tasks) after) in
      record {
        rest = cs;
        first = rw (← at, ← held, ef, ex);
        list = rw (← left) rest;
        heap = ap (λ q. q.heap) (sym left) ∙ same_heap;
        size = omega (arith, ap (λ q. q.queue_size) after, size);
        active = ap (λ q. q.active_threads) after;
        in_use = λ gone_p. ground (arith, is.chain.1.1, at, gone_p);
        apart = rw (← at) is.distinct.0;
      }
