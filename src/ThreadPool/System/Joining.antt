-- ===== src/ThreadPool/System/Joining.antt =====
-- The end of the workers, which `thread_pool_destroy` waits for.
use progetto.Prelude.{
  status_sum, status_sum-assign, status_sum-cases, sym, ◌++◌, ◌*◌, ◌≤◌, ℕ, zero, suc, ◌+◌, ◌<◌, ◌≡◌,
  ◌∙◌, arith, inl, inr, ap, refl, true,
}
use progetto.ThreadPool.System.Flags.{begin_round-leaves}
use progetto.ThreadPool.System.{
  System, Status, running, idle, asleep, gone, Step, Reach, IsStart, leave, finish, goes,
}
use progetto.ThreadPool.System.Order.{Reach-Inv}
use progetto.ThreadPool.System.Wakeups.{Alert, Reach-Alert}
use progetto.ThreadPool.Worker.{end_round}
use progetto.ThreadPool.Metrics.{record_time}
use progetto.ThreadPool.TaskList.{TaskList, Cells}
use progetto.ThreadPool.System.Invariant.{contents}
use progetto.ThreadPool.Lifetime.{drained, free_tasks}
use progetto.ThreadPool.Lifetime.Destruction.{free_tasks-Emptied, Emptied}

-- The steps that a worker still makes after the shutdown.
abbrev pub remaining : Status → ℕ
remaining idle = 1
remaining asleep = 1
remaining (running p f x) = 2
remaining gone = 0

-- A worker finishes its task or leaves.
pub record Ceases (n : ℕ) (s t : System) : Type 0 where
  pub step : Step n s t
  pub less : status_sum remaining n t.workers + 1 ≡ status_sum remaining n s.workers
  pub started : t.started ≡ s.started
  pub added : t.added ≡ s.added
  pub shutdown : t.pool.shutdown ≡ s.pool.shutdown

pub data Ends (n : ℕ) : System → ℕ → System → Type 0 where
  rests : {s : System} → Ends n s 0 s
  ceases : {k : ℕ} {s t u : System} → Ceases n s t → Ends n t k u → Ends n s (suc k) u

cease :
    (n : ℕ) (s : System)
    → Alert n s.pool s.workers
    → s.pool.shutdown ≡ true
    → (i : ℕ) (st : Status) → s.workers i ≡ st
    → i < n
    → 0 < remaining st
    → (t : System) × Ceases n s t
unfolding end_round record_time
cease n s k closed i idle e lt pos = (
  _,
  record {
    step = leave i lt e (begin_round-leaves s.pool closed);
    less = omega (arith, status_sum-assign remaining n i s.workers gone lt, ap remaining e);
    started = refl;
    added = refl;
    shutdown = refl;
  },
)
cease n s k closed i asleep e lt pos = absurd (let serving = k.serving i lt e in cc)
cease n s k closed i (running p f x) e lt pos = (
  _,
  record {
    step = finish i 0 lt e;
    less = omega (arith, status_sum-assign remaining n i s.workers idle lt, ap remaining e);
    started = refl;
    added = refl;
    shutdown = refl;
  },
)
cease n s k closed i gone e lt pos = absurd (omega arith)

remaining-gone : (st : Status) → remaining st ≡ 0 → st ≡ gone
remaining-gone idle e = absurd (omega arith)
remaining-gone asleep e = absurd (omega arith)
remaining-gone (running p f x) e = absurd (omega arith)
remaining-gone gone e = refl

remaining_status : (st : Status) → remaining st ≤ 2
remaining_status idle = omega arith
remaining_status asleep = omega arith
remaining_status (running p f x) = omega arith
remaining_status gone = omega arith

remaining_most : (n : ℕ) (w : ℕ → Status) → status_sum remaining n w ≤ 2 * n
unfolding status_sum
remaining_most zero w = omega arith
remaining_most (suc n) w = omega (arith, remaining_most n w, remaining_status (w n))

end_all :
    (n k : ℕ) {start s : System}
    → IsStart start
    → Reach n start s
    → s.pool.shutdown ≡ true
    → status_sum remaining n s.workers ≡ k
    → (t : System) × Ends n s k t
      × ((i : ℕ) → i < n → t.workers i ≡ gone)
      × (t.started ≡ s.started)
      × (t.added ≡ s.added)
end_all n zero {s = s} is r closed e =
    (s, rests, λ i lt. remaining-gone (s.workers i) (quiet i lt), refl, refl)
  where
    quiet : (i : ℕ) → i < n → remaining (s.workers i) ≡ 0
    quiet i lt = omega (arith, status_sum-assign remaining n i s.workers gone lt, e)
end_all n (suc k) {s = s} is r closed e = elim (status_sum-cases remaining n s.workers) [
  | inl (none_left, _) ↦ absurd (omega (arith, none_left, e))
  | inr (i, lt, pos) ↦
      let (t, c) = cease n s (Reach-Alert n is r) closed i _ refl lt pos in
      let (u, run, over, begun, given) =
        end_all n k is (goes r c.step) (c.shutdown ∙ closed) (omega (arith, c.less, e)) in
      (u, ceases c run, over, begun ∙ c.started, given ∙ c.added)
]

Ends-remaining :
    {n k : ℕ} {s t : System}
    → Ends n s k t
    → status_sum remaining n t.workers + k ≡ status_sum remaining n s.workers
Ends-remaining rests = omega arith
Ends-remaining (ceases c run) = omega (arith, c.less, Ends-remaining run)

-- In every reachable state of a pool that shuts down, the workers come by themselves to a state in
-- which all of them have ended, so that `thread_pool_destroy` joins them, in at most two steps each
-- in whatever order they work, and no task is started any more.
pub Reach-Ends :
    (n : ℕ) {start s : System}
    → IsStart start
    → Reach n start s
    → s.pool.shutdown ≡ true
    → (t : System) × Ends n s (status_sum remaining n s.workers) t
      × ((i : ℕ) → i < n → t.workers i ≡ gone)
      × (t.started ≡ s.started)
      × ((k : ℕ) (u : System) → Ends n s k u → k ≤ 2 * n)
Reach-Ends n {s = s} is r closed =
    let (t, run, over, begun, _) = end_all n _ is r closed refl in
    (
      t,
      run,
      over,
      begun,
      λ k u other. omega (arith, Ends-remaining other, remaining_most n s.workers),
    )

-- In every reachable state, as many rounds as `queue_size` says are enough for the loop of
-- `thread_pool_destroy` to free exactly the tasks that wait, once each, and it never follows a
-- pointer to freed memory.
pub Reach-free_tasks :
    (n : ℕ) {start s : System}
    → IsStart start
    → Reach n start s
    → (cells : Cells) × (after : TaskList) × (s.added ≡ s.started ++ contents cells)
      × (free_tasks s.pool.queue_size s.pool.tasks ≡ drained after)
      × Emptied s.pool.tasks cells after
Reach-free_tasks n {s = s} is r =
    let v = Reach-Inv n is r in
    let (after, frees, emptied) =
      free_tasks-Emptied s.pool.queue_size s.pool.tasks v.cells v.list.chain v.list.distinct
        (omega (arith, v.size)) in
    (v.cells, after, sym v.fifo, frees, emptied)
