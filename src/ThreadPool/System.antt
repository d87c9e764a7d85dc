-- ===== src/ThreadPool/System.antt =====
-- The pool with its threads: the main thread adds tasks and shuts the pool down, the workers take
-- and finish tasks, in any interleaving. Each step is one stretch of code under `queue_mutex`.
pub mod Counting
pub mod Flags
pub mod Invariant
pub mod Rounds
pub mod Quiet
pub mod Steps
pub mod Order
pub mod Wakeups
pub mod Working
pub mod Draining
pub mod Joining
pub mod Refinement
use progetto.Prelude.{
  assign, true, ◌≢◌, ◌⊎◌, ◌==◌, ◌<◌, if◌then◌else◌, ℕ, Bool, List, [], ◌∷◌, ◌++◌, ◌≡◌, Option, none,
  some,
}
use progetto.ThreadPool.TaskList.{Ptr, Task, TaskList}
use progetto.ThreadPool.State.{ThreadPool}
use progetto.ThreadPool.Scale.{auto_scale, Scaled, ScaleCalls}
use progetto.ThreadPool.Queue.{entered, admit, add_task, queued}
use progetto.ThreadPool.Worker.{Round, begin_round, waits, runs, leaves, end_round}

-- A worker that is going to look at the queue, one that waits for `queue_cond`, one at a task, or
-- none: a thread that is not created yet or has ended.
pub data Status : Type 0 where
  idle : Status
  asleep : Status
  running : (p : Ptr) (function argument : ℕ) → Status
  gone : Status

-- `pthread_cond_signal` wakes a worker that waits, if there is one.
pub data Signalled (n : ℕ) (w : ℕ → Status) : (ℕ → Status) → Type 0 where
  unheard : ((i : ℕ) → i < n → w i ≢ asleep) → Signalled n w w
  wakes : (i : ℕ) → i < n → w i ≡ asleep → Signalled n w (assign w i idle)

-- `pthread_cond_broadcast`, for one worker.
abbrev pub awaken : Status → Status
awaken asleep = idle
awaken st = st

-- `added` are the tasks that `thread_pool_add_task` accepted, and `started` those that workers
-- began, each by function and argument, oldest first.
pub record System : Type 0 where
  pub pool : ThreadPool
  pub workers : ℕ → Status
  pub added : List (ℕ × ℕ)
  pub started : List (ℕ × ℕ)

-- With at most `n` threads ever created. The main thread scales the pool after each task that it
-- adds, under the lock again; here scaling, and the start of a thread that it creates, may come at
-- any time. A worker can be cancelled only while it waits: it disables cancellation behind the wait.
pub data Step (n : ℕ) (s : System) : System → Type 0 where
  add :
      (p f x : ℕ) {pool : ThreadPool} {workers : ℕ → Status}
      → s.pool.tasks.heap p ≡ none
      → admit (some s.pool) (some f) x (some p) ≡ entered pool
      → Signalled n s.workers workers
      → Step n s (record s { pool = pool; workers = workers; added = s.added ++ (f, x) ∷ [] })
  scale : (calls : ScaleCalls) → Step n s (record s { pool = (auto_scale s.pool calls).pool })
  take :
      (i : ℕ) {p : Ptr} {t : Task} {pool : ThreadPool}
      → i < n
      → s.workers i ≡ idle
      → begin_round s.pool ≡ runs p t pool
      → Step n s (record s {
        pool = pool;
        workers = assign s.workers i (running p t.function t.argument);
        started = s.started ++ (t.function, t.argument) ∷ [];
      })
  finish :
      (i t : ℕ) {p f x : ℕ}
      → i < n
      → s.workers i ≡ running p f x
      → Step n s (record s { pool = end_round s.pool p t; workers = assign s.workers i idle })
  leave :
      (i : ℕ)
      → i < n
      → s.workers i ≡ idle
      → begin_round s.pool ≡ leaves
      → Step n s (record s { workers = assign s.workers i gone })
  create :
      (i : ℕ)
      → i < n
      → s.workers i ≡ gone
      → Step n s (record s { workers = assign s.workers i idle })
  sleep :
      (i : ℕ)
      → i < n
      → s.workers i ≡ idle
      → begin_round s.pool ≡ waits
      → Step n s (record s { workers = assign s.workers i asleep })
  wake :
      (i : ℕ)
      → i < n
      → s.workers i ≡ asleep
      → Step n s (record s { workers = assign s.workers i idle })
  cancel :
      (i : ℕ)
      → i < n
      → s.workers i ≡ asleep
      → Step n s (record s { workers = assign s.workers i gone })
  shut_down :
      Step n s
        (record s { pool = record s.pool { shutdown = true }; workers = λ i. awaken (s.workers i) })

-- A pool with an empty queue, before any task.
pub record IsStart (s : System) : Type 0 where
  pub head : s.pool.tasks.queue_head ≡ none
  pub tail : s.pool.tasks.queue_tail ≡ none
  pub no_queue : s.pool.queue_size ≡ 0
  pub no_active : s.pool.active_threads ≡ 0
  pub resting : (i : ℕ) → (s.workers i ≡ idle) ⊎ (s.workers i ≡ gone)
  pub none_added : s.added ≡ []
  pub none_started : s.started ≡ []

pub data Reach (n : ℕ) (start : System) : System → Type 0 where
  stays : Reach n start start
  goes : {s t : System} → Reach n start s → Step n s t → Reach n start t
