-- ===== src/Service/Descriptors.antt =====
-- What becomes of the descriptors of the connections.
use mathlib.Core.List.{append_cancel_left}
use progetto.Service.Books.{store_self, Keeps}
use progetto.Service.Duties.{handle_client_task_known}
use progetto.Prelude.{
  status_sum, status_sum-assign, status_sum-cases, ℕ, ◌+◌, ◌<◌, ◌≡◌, ◌∙◌, sym, ap, arith, inl, inr,
  refl, Option, none, some, List, ◌++◌, count, length,
}
use progetto.Network.Accept.{Acceptor, handle_client_task}
use progetto.Service.{Service, free, called, Reaches, IsFresh, acceptor}
use progetto.Service.Counts.{allocated, arguments, held_by, points, holds, at_work_free}
use progetto.Service.Moves.{Reaches-Keeps, Reaches-Reach}
use progetto.ThreadPool.TaskList.{Ptr}
use progetto.ThreadPool.System.Counting.{busy}
use progetto.ThreadPool.System.Order.{Reach-fifo}
use progetto.ThreadPool.System.{gone}

allocated-some : (o : Option ℕ) → 0 < allocated o → (fd : ℕ) × (o ≡ some fd)
allocated-some none h = absurd (omega arith)
allocated-some (some fd) h = (fd, refl)

-- In every reachable state, the argument with which a worker calls `handle_client_task` is an
-- allocated integer, and no waiting task has the same: it is read before it is freed, and freed
-- once.
pub Reaches-reads :
    (n : ℕ) {start s : Service} (i : ℕ) {x : Ptr}
    → IsFresh start
    → Reaches n start s
    → i < n
    → s.duties i ≡ called x
    → (fd : ℕ) × (after : Acceptor) × (handle_client_task (acceptor s) x ≡ some (fd, after))
      × (s.integers x ≡ some fd)
      × (after.integers x ≡ none)
      × ((tasks : List (ℕ × ℕ))
          → s.sys.added ≡ s.sys.started ++ tasks
          → count x (arguments tasks) ≡ 0)
Reaches-reads n {s = s} i {x} is r lt e =
    let k = Reaches-Keeps n is r in
    let one = status_sum-assign (points x) n i s.duties free lt in
    let here : points x (s.duties i) ≡ 1 = ap (points x) e ∙ ground arith in
    let (fd, known) = allocated-some (s.integers x) (omega (arith, k.refs x, one, here)) in
    (
      fd,
      _,
      handle_client_task_known (acceptor s) x known,
      known,
      store_self s.integers x none,
      λ tasks split.
          ap (λ l. count x (arguments l))
            (append_cancel_left s.sys.started _ _ (sym split ∙ sym k.fifo))
          ∙ omega (arith, k.refs x, one, here, ap allocated known),
    )

-- In every reachable state each accepted descriptor has been closed once, or is held once, by a
-- task that waits or by a worker that has not closed it.
pub Reaches-descriptors :
    (n : ℕ) {start s : Service} (fd : ℕ)
    → IsFresh start
    → Reaches n start s
    → (waiting : List (ℕ × ℕ)) × (s.sys.added ≡ s.sys.started ++ waiting)
      × (count fd s.accepted
          ≡ count fd s.closed
            + (held_by fd s.integers (arguments waiting)
                + status_sum (holds fd s.integers) n s.duties))
Reaches-descriptors n fd is r = let k = Reaches-Keeps n is r in (k.waiting, sym k.fifo, k.fds fd)

none_held :
    {n : ℕ} (s : Service) (k : Keeps n s) (fd : ℕ)
    → status_sum busy n s.sys.workers ≡ 0
    → status_sum (holds fd s.integers) n s.duties ≡ 0
none_held {n} s k fd resting = elim (status_sum-cases (holds fd s.integers) n s.duties) [
  | inl (zero_sum, _) ↦ zero_sum
  | inr (i, lt, pos) ↦
      let moved = status_sum-assign busy n i s.sys.workers gone lt in
      let rests : s.duties i ≡ free =
        at_work_free (s.duties i) (k.link i ∙ omega (arith, moved, resting)) in
      omega (arith, pos, ap (holds fd s.integers) rests)
]

-- In every reachable state in which no worker runs a task, the descriptors that were accepted and
-- not closed are those of the waiting tasks: none is lost if no task waits, and those are what
-- `thread_pool_destroy` loses with the tasks that it frees.
pub Reaches-unclosed :
    (n : ℕ) {start s : Service}
    → IsFresh start
    → Reaches n start s
    → s.sys.pool.active_threads ≡ 0
    → (waiting : List (ℕ × ℕ)) × (s.sys.added ≡ s.sys.started ++ waiting)
      × (length waiting ≡ s.sys.pool.queue_size)
      × ((fd : ℕ)
          → count fd s.accepted ≡ count fd s.closed + held_by fd s.integers (arguments waiting))
Reaches-unclosed n {s = s} is r resting =
    let k = Reaches-Keeps n is r in
    let (tasks, split, size, active) = Reach-fifo n is.pool (Reaches-Reach n r) in
    let same : k.waiting ≡ tasks = append_cancel_left s.sys.started _ _ (k.fifo ∙ split) in
    (
      k.waiting,
      sym k.fifo,
      ap length same ∙ sym size,
      λ fd. omega (arith, k.fds fd, none_held s k fd (sym active ∙ resting)),
    )
