-- ===== src/ThreadPool/Metrics/History.antt =====
-- What the statistics say of the tasks that ran.
use progetto.Prelude.{leb, if◌then◌else◌, arith, ◌<◌, ◌+◌, ℕ, ◌≡◌, List, [], ◌∷◌, length, All}
use progetto.ThreadPool.State.{ThreadPool}
use progetto.ThreadPool.Metrics.{record_time}

unfoldable pub sum : List ℕ → ℕ
sum [] = 0
sum (t ∷ ts) = t + sum ts

unfoldable pub least : List ℕ → ℕ
least [] = 0
least (t ∷ []) = t
least (t ∷ u ∷ ts) = if leb t (least (u ∷ ts)) then t else least (u ∷ ts)

unfoldable pub greatest : List ℕ → ℕ
greatest [] = 0
greatest (t ∷ ts) = if leb (greatest ts) t then t else greatest ts

-- The statistics after tasks of the times `ts`, newest first.
pub record Summary (pool : ThreadPool) (ts : List ℕ) : Type 0 where
  pub completed : pool.total_tasks_completed ≡ length ts
  pub total : pool.total_task_time_ms ≡ sum ts
  pub shortest : pool.min_task_time_ms ≡ least ts
  pub longest : pool.max_task_time_ms ≡ greatest ts

least_positive : (t : ℕ) (ts : List ℕ) → All (λ u. 0 < u) (t ∷ ts) → 0 < least (t ∷ ts)
unfolding least
least_positive t [] h = h.0
least_positive t (u ∷ ts) h = ground (arith, least_positive u ts h.1)

shortest :
    (pool : ThreadPool) (t : ℕ) (ts : List ℕ)
    → All (λ u. 0 < u) ts
    → pool.min_task_time_ms ≡ least ts
    → (record_time pool t).min_task_time_ms ≡ least (t ∷ ts)
unfolding record_time least
shortest pool t [] h s = ground (arith, s)
shortest pool t (u ∷ us) h s = ground (arith, s, least_positive u us h)

-- If the tasks of the times `ts` took at least a millisecond each, `record_time` keeps the
-- statistics of the tasks exact: their number, total, least and greatest time.
pub record_time-Summary :
    (pool : ThreadPool) (t : ℕ) (ts : List ℕ)
    → All (λ u. 0 < u) ts
    → Summary pool ts
    → Summary (record_time pool t) (t ∷ ts)
unfolding record_time sum greatest
record_time-Summary pool t ts h s = record {
  completed = omega (arith, s.completed);
  total = omega (arith, s.total);
  shortest = shortest pool t ts h s.shortest;
  longest = ground (arith, s.longest);
}

-- A task of 0 ms is forgotten: the next task's time becomes the least time, however long it took.
pub record_time_zero :
    (pool : ThreadPool) (t : ℕ) → (record_time (record_time pool 0) t).min_task_time_ms ≡ t
unfolding record_time
record_time_zero pool t = ground arith
