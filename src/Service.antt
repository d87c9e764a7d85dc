-- ===== src/Service.antt =====
-- The server at work: the main thread accepts connections and hands them to the pool
-- (`accept_new_connection`, Server/network.c), and the workers serve and close them
-- (`handle_client_task`), in any interleaving.
pub mod Counts
pub mod Books
pub mod Invariant
pub mod Duties
pub mod Moves
pub mod Descriptors
pub mod Accepting
pub mod Advances
pub mod Progress
pub mod Finishing
pub mod Stopping
pub mod Startup
pub mod Delivery
use progetto.Prelude.{
  assign, Option, ℕ, Bool, true, false, List, [], ◌∷◌, ◌++◌, ◌<◌, ◌≡◌, none, some,
}
use progetto.Network.Accept.{Acceptor, store, handle_client_task, handle_client_task_address}
use progetto.ThreadPool.TaskList.{Ptr, Task}
use progetto.ThreadPool.State.{ThreadPool}
use progetto.ThreadPool.Queue.{admit, entered}
use progetto.ThreadPool.Worker.{begin_round, end_round, runs}
use progetto.ThreadPool.System.{
  System, Status, idle, running, Signalled, Step, IsStart, add, scale, take, finish, leave, create,
  sleep, wake, cancel, shut_down,
}

-- What a worker has done of its task: it has no task, has called `handle_client_task` with the
-- address of an integer, has read the descriptor from there and freed the integer, or has returned.
pub data Duty : Type 0 where
  free : Duty
  called : (argument : Ptr) → Duty
  serving : (client_fd : ℕ) → Duty
  returned : Duty

-- The pool with its threads, the allocated integers, what each worker does, and the descriptors
-- that `accept` gave and that were closed, newest first.
pub record Service : Type 0 where
  pub sys : System
  pub integers : Ptr → Option ℕ
  pub duties : ℕ → Duty
  pub accepted : List ℕ
  pub closed : List ℕ

abbrev pub acceptor : Service → Acceptor
acceptor s = record { pool = some s.sys.pool; integers = s.integers; closed = s.closed }

-- A step of the pool in which no task enters, begins or ends.
abbrev pub quiet : {n : ℕ} {s t : System} → Step n s t → Bool
quiet (add _ _ _ _ _ _) = false
quiet (take _ _ _ _) = false
quiet (finish _ _ _ _) = false
quiet _ = true

-- `connect` is an accepted connection whose task enters the pool, and `turn_down` one that is
-- closed, since memory is short or the pool shuts down. `close_fd` is the `close` at the end of
-- `process_single_request_and_close`, which a connection reaches when its last `send` returns.
pub data Move (n : ℕ) (s : Service) : Service → Type 0 where
  connect :
      (client_fd : ℕ) (fd_ptr p : Ptr) {pool : ThreadPool} {workers : ℕ → Status}
      → s.integers fd_ptr ≡ none
      → s.sys.pool.tasks.heap p ≡ none
      → admit (some s.sys.pool) (some handle_client_task_address) fd_ptr (some p) ≡ entered pool
      → Signalled n s.sys.workers workers
      → Move n s (record s {
        sys = record s.sys {
          pool = pool;
          workers = workers;
          added = s.sys.added ++ (handle_client_task_address, fd_ptr) ∷ [];
        };
        integers = store s.integers fd_ptr (some client_fd);
        accepted = client_fd ∷ s.accepted;
      })
  turn_down :
      (client_fd : ℕ)
      → Move n s (record s { accepted = client_fd ∷ s.accepted; closed = client_fd ∷ s.closed })
  threads :
      {t : System} (step : Step n s.sys t) → quiet step ≡ true → Move n s (record s { sys = t })
  begin :
      (i : ℕ) {p : Ptr} {t : Task} {pool : ThreadPool}
      → i < n
      → s.sys.workers i ≡ idle
      → begin_round s.sys.pool ≡ runs p t pool
      → Move n s (record s {
        sys = record s.sys {
          pool = pool;
          workers = assign s.sys.workers i (running p t.function t.argument);
          started = s.sys.started ++ (t.function, t.argument) ∷ [];
        };
        duties = assign s.duties i (called t.argument);
      })
  read_fd :
      (i : ℕ) {argument : Ptr} {client_fd : ℕ} {after : Acceptor}
      → i < n
      → s.duties i ≡ called argument
      → handle_client_task (acceptor s) argument ≡ some (client_fd, after)
      → Move n s
          (record s { integers = after.integers; duties = assign s.duties i (serving client_fd) })
  close_fd :
      (i : ℕ) {client_fd : ℕ}
      → i < n
      → s.duties i ≡ serving client_fd
      → Move n s (record s { duties = assign s.duties i returned; closed = client_fd ∷ s.closed })
  end_task :
      (i t : ℕ) {p : Ptr} {f x : ℕ}
      → i < n
      → s.sys.workers i ≡ running p f x
      → s.duties i ≡ returned
      → Move n s (record s {
        sys = record s.sys {
          pool = end_round s.sys.pool p t;
          workers = assign s.sys.workers i idle;
        };
        duties = assign s.duties i free;
      })

-- A server that has just started.
pub record IsFresh (s : Service) : Type 0 where
  pub pool : IsStart s.sys
  pub no_integer : (a : Ptr) → s.integers a ≡ none
  pub no_duty : (i : ℕ) → s.duties i ≡ free
  pub none_accepted : s.accepted ≡ []
  pub none_closed : s.closed ≡ []

pub data Reaches (n : ℕ) (start : Service) : Service → Type 0 where
  begins : Reaches n start start
  moves : {s t : Service} → Reaches n start s → Move n s t → Reaches n start t
