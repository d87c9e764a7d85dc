-- ===== src/ThreadPool/System/Draining.antt =====
-- The workers get through the tasks.
use progetto.Prelude.{
  status_sum, nil_of_length, List, ℕ, zero, suc, ◌<◌, ◌≡◌, ◌≢◌, ◌∙◌, arith, inl, inr, ap, sym, refl,
  false, length, ◌++◌, append-nil,
}
use progetto.ThreadPool.System.{System, gone, Reach, IsStart, goes}
use progetto.ThreadPool.System.Counting.{busy}
use progetto.ThreadPool.System.Order.{Reach-fifo}
use progetto.ThreadPool.System.Working.{Drains, Reach-Works, Works, rests, work, works}

drain :
    (n k : ℕ) {start s : System} (i : ℕ)
    → IsStart start
    → Reach n start s
    → s.pool.shutdown ≡ false
    → i < n
    → s.workers i ≢ gone
    → work s ≡ k
    → (t : System) × Drains n s k t × Reach n start t × (work t ≡ 0) × (t.added ≡ s.added)
drain n zero {s = s} i is r open_pool lt up e = (s, rests, r, e, refl)
drain n (suc k) {s = s} i is r open_pool lt up e = elim (Reach-Works n i is r open_pool lt up) [
  | inl none_left ↦ absurd (omega (arith, none_left, e))
  | inr (t, w) ↦
      let (j, below, there) = w.up in
      let (u, run, reached, idle_pool, same) =
        drain n k j is (goes r w.step) (w.shutdown ∙ open_pool) below there
          (omega (arith, w.less, e)) in
      (u, works w run, reached, idle_pool, same ∙ w.added)
]

started_all : {A : Type 0} (xs ys zs : List A) → xs ≡ ys ++ zs → length zs ≡ 0 → xs ≡ ys
started_all xs ys zs e none_left =
    e ∙ ap (λ l. ys ++ l) (nil_of_length zs none_left) ∙ append-nil ys

drained :
    (n : ℕ) {start s : System}
    → IsStart start
    → Reach n start s
    → work s ≡ 0
    → (s.started ≡ s.added) × (status_sum busy n s.workers ≡ 0)
drained n {s = s} is r idle_pool =
    let (waiting, fifo, size, active) = Reach-fifo n is r in
    (
      sym (started_all s.added s.started waiting fifo (omega (arith, size, idle_pool))),
      omega (arith, active, idle_pool),
    )

-- From every reachable state of a pool that serves and has a worker, there is a run in which the
-- workers only take and finish tasks, with two steps for each task that waits and one for each that
-- runs, after which every accepted task is started and no task runs.
pub Reach-Drains :
    (n : ℕ) {start s : System} (i : ℕ)
    → IsStart start
    → Reach n start s
    → s.pool.shutdown ≡ false
    → i < n
    → s.workers i ≢ gone
    → (t : System) × Drains n s (work s) t
      × (t.started ≡ s.added)
      × (status_sum busy n t.workers ≡ 0)
Reach-Drains n {s = s} i is r open_pool lt up =
    let (t, run, reached, idle_pool, same) = drain n (work s) i is r open_pool lt up refl in
    let (all_started, none_runs) = drained n is reached idle_pool in
    (t, run, all_started ∙ same, none_runs)

-- How far a run in which the workers take and finish tasks is: it goes on, or all is done.
pub data Fate (n : ℕ) (s : System) (k : ℕ) (u : System) : Type 0 where
  over : k ≡ work s → u.started ≡ s.added → status_sum busy n u.workers ≡ 0 → Fate n s k u
  on : k < work s → {t : System} → Works n u t → Fate n s k u

-- From every reachable state of a pool that serves and has a worker, each run in which the workers
-- take and finish tasks, in whatever order, can go on until all accepted tasks are started and
-- finished, and is then exactly two steps long for each task that waited and one for each that ran.
pub Drains-Fate :
    (n k : ℕ) {start s u : System} (i : ℕ)
    → IsStart start
    → Reach n start s
    → s.pool.shutdown ≡ false
    → i < n
    → s.workers i ≢ gone
    → Drains n s k u
    → Fate n s k u
Drains-Fate n k {s = s} i is r open_pool lt up rests = elim (Reach-Works n i is r open_pool lt up) [
  | inl idle_pool ↦
      (let (all_started, none_runs) = drained n is r idle_pool in
        over (sym idle_pool) all_started none_runs)
  | inr (t, w) ↦ on (omega (arith, w.less)) w
]
Drains-Fate n k {s = s} i is r open_pool lt up (works w run) =
    let (j, below, there) = w.up in
    elim (Drains-Fate n _ j is (goes r w.step) (w.shutdown ∙ open_pool) below there run) [
      | over length all_started none_runs ↦
          over (omega (arith, length, w.less)) (all_started ∙ w.added) none_runs
      | on shorter next ↦ on (omega (arith, shorter, w.less)) next
    ]
