-- ===== src/Examples/Service.antt =====
-- A connection through the whole server: Server/network.c and Server/thread_pool.c.
use mathlib.Core.Option.{some-injective}
use progetto.Prelude.{
  true, assign, status_sum, ℕ, none, some, List, [], ◌∷◌, ◌++◌, ◌+◌, ◌≡◌, refl, arith, count,
  length,
}
use progetto.Examples.Pool.{start, start-IsStart, calls}
use progetto.Network.Accept.{
  Acceptor, AcceptCalls, accept_new_connection, store, handle_client_task,
}
use progetto.Network.Accept.Ownership.{Allocates}
use progetto.Service.{
  Service, Reaches, IsFresh, begins, moves, connect, begin, called, free, acceptor,
}
use progetto.Service.Counts.{arguments, held_by, holds}
use progetto.Service.Accepting.{Accepts, accept_new_connection-Accepts}
use progetto.Service.Descriptors.{Reaches-reads, Reaches-descriptors, Reaches-unclosed}
use progetto.Service.Finishing.{Fate, Serves-Fate, Reaches-Serves}
use progetto.Service.Stopping
use progetto.Service.Stopping.{Stops-Fate}
use progetto.ThreadPool.System.{shut_down, awaken}
use progetto.Service.{threads}
use progetto.Service.Progress.{rests, Serves, service_work}
use progetto.ThreadPool.State.{ThreadPool}
use progetto.ThreadPool.TaskList.{TaskList, Task, update, append_task, take_task}
use progetto.ThreadPool.Queue.{admit, enqueue}
use progetto.ThreadPool.Worker.{begin_round, must_wait}
use progetto.ThreadPool.System.{unheard, running}

abbrev pub fresh : Service
fresh = record { sys = start; integers = λ a. none; duties = λ i. free; accepted = []; closed = [] }

pub fresh-IsFresh : IsFresh fresh
fresh-IsFresh = record {
  pool = start-IsStart;
  no_integer = λ a. refl;
  no_duty = λ i. refl;
  none_accepted = refl;
  none_closed = refl;
}

abbrev pub task : Task
task = record { function = 1; argument = 30; next = none }

abbrev pub queue : TaskList
queue = record {
  heap = update (λ p. none) 20 (some task);
  queue_head = some 20;
  queue_tail = some 20;
}

abbrev pub loaded : ThreadPool
loaded = record start.pool { tasks = queue; queue_size = 1 }

-- The connection with descriptor 9 waits.
abbrev pub connected : Service
connected = record fresh {
  sys = record start { pool = loaded; added = (1, 30) ∷ [] };
  integers = store (λ a. none) 30 (some 9);
  accepted = 9 ∷ [];
}

Reaches-connected : Reaches 8 fresh connected
unfolding admit enqueue append_task
Reaches-connected =
    moves begins (connect 9 30 20 {pool = loaded} refl refl refl (unheard (λ i lt e. cc)))

abbrev pub working : ThreadPool
working = record loaded {
  tasks = record queue { queue_head = none; queue_tail = none };
  queue_size = 0;
  active_threads = 1;
}

-- Worker 0 has its task.
abbrev pub at_work : Service
at_work = record connected {
  sys = record connected.sys {
    pool = working;
    workers = assign start.workers 0 (running 20 1 30);
    started = (1, 30) ∷ [];
  };
  duties = assign fresh.duties 0 (called 30);
}

Reaches-at_work : Reaches 8 fresh at_work
unfolding begin_round must_wait take_task update
Reaches-at_work =
    moves Reaches-connected (begin 0 {p = 20} {t = task} {pool = working} (omega arith) refl refl)

Reaches-reads_example :
    (fd : ℕ) × (after : Acceptor) × (handle_client_task (acceptor at_work) 30 ≡ some (fd, after))
    × (at_work.integers 30 ≡ some fd)
    × (after.integers 30 ≡ none)
    × ((tasks : List (ℕ × ℕ))
        → (1, 30) ∷ [] ≡ (1, 30) ∷ [] ++ tasks
        → count 30 (arguments tasks) ≡ 0)
unfolding assign
Reaches-reads_example = Reaches-reads 8 0 fresh-IsFresh Reaches-at_work (omega arith) refl

Reaches-descriptors_example :
    (waiting : List (ℕ × ℕ)) × ((1, 30) ∷ [] ≡ (1, 30) ∷ [] ++ waiting)
    × (1
        ≡ 0
          + (held_by 9 at_work.integers (arguments waiting)
              + status_sum (holds 9 at_work.integers) 8 at_work.duties))
Reaches-descriptors_example = Reaches-descriptors 8 9 fresh-IsFresh Reaches-at_work

Reaches-unclosed_test :
    (waiting : List (ℕ × ℕ)) × ((1, 30) ∷ [] ≡ [] ++ waiting)
    × (length waiting ≡ 1)
    × ((fd : ℕ) → count fd (9 ∷ []) ≡ 0 + held_by fd connected.integers (arguments waiting))
Reaches-unclosed_test = Reaches-unclosed 8 fresh-IsFresh Reaches-connected refl

Reaches-Serves_test :
    (t : Service) × Serves 8 at_work (service_work 8 at_work) t
    × (t.accepted ≡ 9 ∷ [])
    × ((fd : ℕ) → count fd t.closed ≡ count fd (9 ∷ []))
unfolding assign
Reaches-Serves_test = Reaches-Serves 8 0 fresh-IsFresh Reaches-at_work refl (omega arith) (λ e. cc)

Serves-Fate_example : Fate 8 at_work 0 at_work
unfolding assign
Serves-Fate_example =
    Serves-Fate 8 0 0 fresh-IsFresh Reaches-at_work refl (omega arith) (λ e. cc) rests

abbrev accepts : AcceptCalls
accepts = record { client_fd = some 12; fd_ptr = some 31; task = some 21; scaling = calls }

accepts-Allocates : Allocates connected.sys (acceptor connected) accepts
unfolding update store
accepts-Allocates = record {
  integer = λ p e. rw (← some-injective _ _ e) refl;
  task = λ p e. rw (← some-injective _ _ e) refl;
}

accept_new_connection-Accepts_example :
    Accepts 8 connected 12 (accept_new_connection (acceptor connected) accepts)
accept_new_connection-Accepts_example =
    accept_new_connection-Accepts 8 accepts fresh-IsFresh Reaches-connected refl accepts-Allocates

-- The pool shuts down while worker 0 has its task.
abbrev closing : Service
closing = record at_work {
  sys = record at_work.sys {
    pool = record working { shutdown = true };
    workers = λ i. awaken (at_work.sys.workers i);
  };
}

Reaches-closing : Reaches 8 fresh closing
Reaches-closing = moves Reaches-at_work (threads shut_down refl)

Stops-Fate_example : Stopping.Fate 8 closing 0 closing
Stops-Fate_example = Stops-Fate 8 0 fresh-IsFresh Reaches-closing refl Stopping.rests
