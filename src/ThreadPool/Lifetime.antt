-- ===== src/ThreadPool/Lifetime.antt =====
-- `thread_pool_create_with_limits`, `thread_pool_create` and `thread_pool_destroy`.
pub mod Creation
pub mod Destruction
use progetto.Prelude.{
  ◌+◌, ◌-◌, ◌||◌, ltb, if◌then◌else◌, ℕ, zero, suc, Bool, true, false, List, [], ◌∷◌, Option, none,
  some, set, replicate,
}
use progetto.Config.{thread_pool_min_size, thread_pool_max_size}
use progetto.ThreadPool.TaskList.{Ptr, TaskList, Heap, free_task}
use progetto.ThreadPool.State.{ThreadPool}

-- What the calls give: whether `malloc` and the two `init` calls succeed, and the threads created.
pub record CreateCalls : Type 0 where
  pub array_allocated : Bool
  pub mutex_ready : Bool
  pub cond_ready : Bool
  pub creates : List (Option ℕ)
  pub now : ℕ

-- What the pool holds from the system; `running` counts the threads that are not joined.
pub record Held : Type 0 where
  pub array : Bool
  pub mutex : Bool
  pub cond : Bool
  pub running : ℕ

abbrev pub nothing : Held
nothing = record { array = false; mutex = false; cond = false; running = 0 }

pub data Created : Type 0 where
  ready : ThreadPool → Held → Created
  failed : Held → Created

-- The loop from `i` on, with so many rounds left: whether all threads started, the index where the
-- loop ended, and the array.
unfoldable pub start_threads : ℕ → ℕ → List (Option ℕ) → List ℕ → Bool × ℕ × List ℕ
start_threads zero i creates threads = (true, i, threads)
start_threads (suc k) i [] threads = (false, i, threads)
start_threads (suc k) i (none ∷ creates) threads = (false, i, threads)
start_threads (suc k) i (some thread ∷ creates) threads =
    start_threads k (i + 1) creates (set threads i thread)

-- `pthread_join` of so many threads.
unfoldable pub join_threads : ℕ → Held → Held
join_threads zero held = held
join_threads (suc j) held = join_threads j (record held { running = held.running - 1 })

-- After the loop; the clean-up joins the threads before index `i`.
unfoldable pub finish_create : ThreadPool → Held → Bool × ℕ × List ℕ → Created
finish_create pool held (true, i, threads) =
    ready (record pool { threads = threads }) (record held { running = i })
finish_create pool held (false, i, threads) =
    failed (record (join_threads i (record held { running = i })) {
      mutex = false;
      cond = false;
      array = false;
    })

unfoldable pub new_pool : Heap → ℕ → ℕ → ℕ → ℕ → ThreadPool
new_pool heap min_threads max_threads initial_threads now = record {
  threads = replicate max_threads 0;
  thread_count = initial_threads;
  min_threads = min_threads;
  max_threads = max_threads;
  tasks = record { heap = heap; queue_head = none; queue_tail = none };
  shutdown = false;
  active_threads = 0;
  queue_size = 0;
  total_tasks_completed = 0;
  last_scale_time = now;
  total_task_time_ms = 0;
  min_task_time_ms = 0;
  max_task_time_ms = 0;
}

-- The array's first contents are not read; here they are 0.
unfoldable pub create_with_limits : Heap → ℕ → ℕ → ℕ → CreateCalls → Created
create_with_limits heap min_threads max_threads initial_threads calls =
    let pool = new_pool heap min_threads max_threads initial_threads calls.now in
    let held : Held = record { array = true; mutex = true; cond = true; running = 0 } in
    if ltb initial_threads min_threads || ltb max_threads initial_threads
    then failed nothing
    else if calls.array_allocated
    then (if calls.mutex_ready
        then (if calls.cond_ready
            then finish_create pool held
                (start_threads initial_threads 0 calls.creates pool.threads)
            else failed (record { array = false; mutex = false; cond = false; running = 0 }))
        else failed (record { array = false; mutex = false; cond = false; running = 0 }))
    else failed nothing

abbrev pub pool_of : Created → Option (ThreadPool × Held)
pool_of (ready pool held) = some (pool, held)
pool_of (failed held) = none

-- `allocated` is whether `malloc` returned a pool.
unfoldable pub create : Bool → Heap → ℕ → CreateCalls → Option (ThreadPool × Held)
create false heap initial_thread_count calls = none
create true heap initial_thread_count calls =
    pool_of
      (create_with_limits heap thread_pool_min_size thread_pool_max_size initial_thread_count calls)

pub data Drained : Type 0 where
  drained : TaskList → Drained
  dangling : Drained
  unfinished : Drained

-- The loop that frees the queued tasks, with fuel.
unfoldable pub free_tasks : ℕ → TaskList → Drained
free_tasks zero q = elim q.queue_head [ none ↦ drained q | some a ↦ unfinished ]
free_tasks (suc n) q = elim q.queue_head [
  | none ↦ drained q
  | some a ↦ elim (q.heap a) [
    | none ↦ dangling
    | some t ↦ free_tasks n (free_task (record q { queue_head = t.next }) a)
  ]
]

-- The first `thread_count` threads are joined, of at most `max_threads`; then all else is released.
unfoldable pub destroy : ℕ → ThreadPool → Held → Drained × Held
destroy n pool held =
    let joins =
      if ltb pool.max_threads pool.thread_count then pool.max_threads else pool.thread_count in
    (
      free_tasks n pool.tasks,
      record (join_threads joins held) { mutex = false; cond = false; array = false },
    )
