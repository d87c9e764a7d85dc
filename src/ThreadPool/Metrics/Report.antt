-- ===== src/ThreadPool/Metrics/Report.antt =====
-- `thread_pool_print_stats`: the numbers that it prints.
use native.Mathlib.Nat.{lt_of_mul-lt-mul_right, le_of_mul-le-mul_right}
use progetto.Prelude.{
  lt→ltb, refl, arith, ◌+◌, ◌*◌, ◌/◌, ◌≤◌, ◌<◌, ◌≡◌, if◌then◌else◌, ltb, ℕ, List, [], ◌∷◌, Option,
  none, some, length, All,
}
use progetto.ThreadPool.State.{ThreadPool, get_load_percentage}
use progetto.ThreadPool.Metrics.History.{sum, least, greatest, Summary}

-- Average, least and greatest time, which are printed if a task was completed.
pub record TaskTimes : Type 0 where
  pub average : ℕ
  pub min_time : ℕ
  pub max_time : ℕ

pub record Report : Type 0 where
  pub thread_count : ℕ
  pub min_threads : ℕ
  pub max_threads : ℕ
  pub active_threads : ℕ
  pub queue_size : ℕ
  pub load_percentage : ℕ
  pub total_tasks : ℕ
  pub task_times : Option TaskTimes

-- The pool as it is read without a lock, here at one moment.
unfoldable pub print_stats : Option ThreadPool → Option Report
print_stats none = none
print_stats (some pool) = some (record {
  thread_count = pool.thread_count;
  min_threads = pool.min_threads;
  max_threads = pool.max_threads;
  active_threads = pool.active_threads;
  queue_size = pool.queue_size;
  load_percentage = get_load_percentage (some pool);
  total_tasks = pool.total_tasks_completed;
  task_times =
      if ltb 0 pool.total_tasks_completed
      then some (record {
        average = pool.total_task_time_ms / pool.total_tasks_completed;
        min_time = pool.min_task_time_ms;
        max_time = pool.max_task_time_ms;
      })
      else none;
})

sum_most : (ts : List ℕ) (m : ℕ) → All (λ t. t ≤ m) ts → sum ts ≤ m * length ts
unfolding sum
sum_most [] m h = omega arith
sum_most (t ∷ ts) m h = ground (arith, sum_most ts m h.1)

sum_least : (ts : List ℕ) (m : ℕ) → All (λ t. m ≤ t) ts → m * length ts ≤ sum ts
unfolding sum
sum_least [] m h = omega arith
sum_least (t ∷ ts) m h = ground (arith, sum_least ts m h.1)

All-le : (ts : List ℕ) (m n : ℕ) → m ≤ n → All (λ t. t ≤ m) ts → All (λ t. t ≤ n) ts
All-le [] m n h a = tt
All-le (t ∷ ts) m n h a = (omega (arith, h, a.0), All-le ts m n h a.1)

All-ge : (ts : List ℕ) (m n : ℕ) → m ≤ n → All (λ t. n ≤ t) ts → All (λ t. m ≤ t) ts
All-ge [] m n h a = tt
All-ge (t ∷ ts) m n h a = (omega (arith, h, a.0), All-ge ts m n h a.1)

greatest-All : (ts : List ℕ) → All (λ t. t ≤ greatest ts) ts
unfolding greatest
greatest-All [] = tt
greatest-All (t ∷ ts) =
    (ground arith, All-le ts (greatest ts) (greatest (t ∷ ts)) (ground arith) (greatest-All ts))

least-All : (ts : List ℕ) → All (λ t. least ts ≤ t) ts
unfolding least
least-All [] = tt
least-All (t ∷ []) = (omega arith, tt)
least-All (t ∷ u ∷ ts) = (
  ground arith,
  All-ge (u ∷ ts) (least (t ∷ u ∷ ts)) (least (u ∷ ts)) (ground arith) (least-All (u ∷ ts)),
)

-- What the printed times say of tasks with times `ts`.
pub record IsExact (ts : List ℕ) (times : TaskTimes) : Type 0 where
  pub from : times.average * length ts ≤ sum ts
  pub to : sum ts < (times.average + 1) * length ts
  pub at_least : least ts ≤ times.average
  pub at_most : times.average ≤ greatest ts
  pub shortest : times.min_time ≡ least ts
  pub longest : times.max_time ≡ greatest ts

average-IsExact :
    (ts : List ℕ)
    → 0 < length ts
    → IsExact ts
        (record { average = sum ts / length ts; min_time = least ts; max_time = greatest ts })
average-IsExact ts pos =
    let most = sum_most ts (greatest ts) (greatest-All ts) in
    let few = sum_least ts (least ts) (least-All ts) in
    let from : sum ts / length ts * length ts ≤ sum ts = ground arith in
    let to : sum ts < (sum ts / length ts + 1) * length ts = ground arith in
    record {
      from = from;
      to = to;
      at_least =
          (let below : least ts < sum ts / length ts + 1 =
              lt_of_mul-lt-mul_right (length ts) {n = sum ts / length ts + 1}
                (omega (arith, few, to)) in
            omega (arith, below));
      at_most = le_of_mul-le-mul_right {n = greatest ts} {k = length ts} (omega arith) pos;
      shortest = refl;
      longest = refl;
    }

-- If the statistics are those of the tasks with times `ts`, of which there is at least one, the
-- report has their number, their average rounded down, which lies between the least and the greatest
-- of them, and these two.
pub print_stats-IsExact :
    (pool : ThreadPool) (ts : List ℕ)
    → Summary pool ts
    → 0 < length ts
    → (r : Report) × (times : TaskTimes) × (print_stats (some pool) ≡ some r)
      × (r.total_tasks ≡ length ts)
      × (r.task_times ≡ some times)
      × IsExact ts times
unfolding print_stats
print_stats-IsExact pool ts s pos = (
  _,
  record {
    average = pool.total_task_time_ms / pool.total_tasks_completed;
    min_time = pool.min_task_time_ms;
    max_time = pool.max_task_time_ms;
  },
  refl,
  s.completed,
  rw (lt→ltb 0 pool.total_tasks_completed (omega (arith, s.completed))) refl,
  rw (s.completed, s.total, s.shortest, s.longest) (average-IsExact ts pos),
)
