-- ===== src/Examples/Pool.antt =====
-- The queue and its workers: Server/thread_pool.c.
use mathlib.Core.Option.{some-injective}
use progetto.ThreadPool.Lifetime.{
  nothing, join_threads, finish_create, start_threads, drained, ready, Held, CreateCalls,
  create_with_limits, free_tasks, failed,
}
use progetto.Prelude.{
  assign, inl, false, arith, length, ◌<◌, some, ◌++◌, ◌≢◌, true, none, ◌∷◌, [], List, ◌≡◌, ℕ, refl,
}
use progetto.Examples.Threads.{pool}
use progetto.ThreadPool.Scale.{Scaled, ScaleCalls}
use progetto.ThreadPool.System.{
  unheard, goes, add, take, stays, Reach, running, idle, System, IsStart,
}
use progetto.ThreadPool.State.{ThreadPool}
use progetto.ThreadPool.TaskList.{append_task, IsTaskList, take_task, TaskList, Task, update}
use progetto.ThreadPool.Queue.{admit, queued, rejected, enqueue, add_task}
use progetto.ThreadPool.Worker.{must_wait, begin_round}
use progetto.ThreadPool.System.Order.{
  Reach-add_task, Reach-fifo, Reach-fifo, Reach-running, Reach-Looks, Looks,
}
use progetto.ThreadPool.TaskList.Ends.{append_task-IsTaskList, take_task-IsTaskList}
use progetto.ThreadPool.System.Counting.{busy_count}
use progetto.ThreadPool.Lifetime.Creation.{create_with_limits_ready}
use progetto.ThreadPool.Lifetime.Destruction.{free_tasks-Emptied, Emptied}
use progetto.Network.Accept.{accept_new_connection, Acceptor, AcceptCalls}
use progetto.Network.Accept.Ownership.{accept_new_connection-Handed, Handed, Allocates}

abbrev empty_list : TaskList
empty_list = record { heap = λ p. none; queue_head = none; queue_tail = none }

abbrev pub one_list : TaskList
one_list = record {
  heap = update (λ p. none) 10 (some (record { function = 1; argument = 2; next = none }));
  queue_head = some 10;
  queue_tail = some 10;
}

one_list-IsTaskList : IsTaskList one_list ((10, 1, 2) ∷ [])
unfolding update
one_list-IsTaskList = record {
  chain = (refl, (none, refl, refl));
  tail = refl;
  distinct = (tt, tt);
}

append_task-IsTaskList_test :
    (q : TaskList) × (append_task one_list 20 3 4 ≡ some q)
    × IsTaskList q ((10, 1, 2) ∷ (20, 3, 4) ∷ [])
append_task-IsTaskList_test =
    append_task-IsTaskList one_list 20 3 4 ((10, 1, 2) ∷ []) one_list-IsTaskList
      (λ e. absurd (omega arith), tt)

take_task-IsTaskList_test :
    (t : Task) × (q : TaskList) × (take_task one_list ≡ some (10, t, q))
    × (t.function ≡ 1)
    × (t.argument ≡ 2)
    × (q.heap ≡ one_list.heap)
    × IsTaskList q []
take_task-IsTaskList_test = take_task-IsTaskList one_list [] 10 1 2 one_list-IsTaskList

abbrev pub calls : ScaleCalls
calls = record { now = 101; creates = []; cancels = [] }

abbrev pub start : System
start = record {
  pool = record pool { queue_size = 0; active_threads = 0 };
  workers = λ i. idle;
  added = [];
  started = [];
}

pub start-IsStart : IsStart start
start-IsStart = record {
  head = refl;
  tail = refl;
  no_queue = refl;
  no_active = refl;
  resting = λ i. inl refl;
  none_added = refl;
  none_started = refl;
}

abbrev pub loaded : ThreadPool
loaded = record start.pool { tasks = one_list; queue_size = 1 }

abbrev pub with_task : System
with_task = record start { pool = loaded; added = (1, 2) ∷ [] }

pub Reach-with_task : Reach 8 start with_task
unfolding admit enqueue append_task
Reach-with_task = goes stays (add 10 1 2 {pool = loaded} refl refl (unheard (λ i lt e. cc)))

abbrev pub working : ThreadPool
working = record loaded {
  tasks = record one_list { queue_head = none; queue_tail = none };
  queue_size = 0;
  active_threads = 1;
}

abbrev pub at_work : System
at_work = record with_task {
  pool = working;
  workers = assign start.workers 0 (running 10 1 2);
  started = (1, 2) ∷ [];
}

pub Reach-at_work : Reach 8 start at_work
unfolding begin_round must_wait take_task update
Reach-at_work = goes Reach-with_task (
    take 0 {p = 10} {t = record { function = 1; argument = 2; next = none }} {pool = working}
      (omega arith) refl refl)

Reach-fifo_example :
    (waiting : List (ℕ × ℕ)) × ((1, 2) ∷ [] ≡ at_work.started ++ waiting)
    × (0 ≡ length waiting)
    × (1 ≡ busy_count 8 at_work.workers)
Reach-fifo_example = Reach-fifo 8 start-IsStart Reach-at_work

Reach-Looks_example : Looks with_task
Reach-Looks_example = Reach-Looks 8 start-IsStart Reach-with_task

Reach-running_example :
    (at_work.pool.tasks.heap 10 ≢ none)
    × (0 < 1)
    × ((j g y : ℕ) → at_work.workers j ≡ running 10 g y → 0 ≡ j)
unfolding assign
Reach-running_example =
    Reach-running 8 0 {f = 1} {x = 2} start-IsStart Reach-at_work (omega arith) refl

Reach-add_task_example :
    (loaded.shutdown ≡ true → add_task (some loaded) (some 3) 4 (some 20) calls ≡ rejected)
    × (loaded.shutdown ≡ false
        → (r : Scaled) × (add_task (some loaded) (some 3) 4 (some 20) calls ≡ queued r))
unfolding update
Reach-add_task_example = Reach-add_task 8 20 3 4 calls start-IsStart Reach-with_task refl

free_tasks-Emptied_test :
    (after : TaskList) × (free_tasks 1 one_list ≡ drained after)
    × Emptied one_list ((10, 1, 2) ∷ []) after
free_tasks-Emptied_test =
    free_tasks-Emptied 1 one_list ((10, 1, 2) ∷ []) one_list-IsTaskList.chain
      one_list-IsTaskList.distinct (omega arith)

abbrev third_fails : CreateCalls
third_fails = record {
  array_allocated = true;
  mutex_ready = true;
  cond_ready = true;
  creates = some 7 ∷ some 8 ∷ none ∷ [];
  now = 50;
}

create_with_limits_ready_test :
    (p : ThreadPool) × (h : Held) × (create_with_limits
        (λ p. none)
        2
        4
        2
        (record third_fails { creates = some 7 ∷ some 8 ∷ [] })
      ≡ ready p h)
create_with_limits_ready_test =
    create_with_limits_ready (λ p. none) 2 4 2
      (record third_fails { creates = some 7 ∷ some 8 ∷ [] }) (omega arith) (omega arith) refl refl
      refl (tt, (tt, tt)) (omega arith)

third_fails_test : create_with_limits (λ p. none) 2 4 3 third_fails ≡ failed nothing
unfolding create_with_limits start_threads finish_create join_threads
third_fails_test = refl

abbrev acceptor : Acceptor
acceptor = record { pool = some loaded; integers = λ p. none; closed = [] }

abbrev accepts : AcceptCalls
accepts = record { client_fd = some 9; fd_ptr = some 30; task = some 20; scaling = calls }

accepts-Allocates : Allocates with_task acceptor accepts
unfolding update
accepts-Allocates = record { integer = λ p e. refl; task = λ p e. rw (← some-injective _ _ e) refl }

accept_new_connection-Handed_test :
    (after : Acceptor) × (accept_new_connection acceptor accepts ≡ some after)
    × Handed acceptor 9 after
accept_new_connection-Handed_test =
    accept_new_connection-Handed 8 acceptor accepts start-IsStart Reach-with_task refl refl
      accepts-Allocates
