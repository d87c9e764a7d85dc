-- ===== src/Service/Moves.antt =====
-- Every move of the server keeps its books.
use progetto.Service.Books.{Keeps, quiet-Same}
use progetto.Prelude.{
  assign, assign-keeps, status_sum_zero, subst, ℕ, ◌≡◌, ◌∙◌, sym, ap, arith, inl, inr, refl, [],
}
use progetto.Network.Accept.{handle_client_task_address}
use progetto.Service.{
  Service, serving, Move, Reaches, IsFresh, begins, moves, connect, turn_down, threads, begin,
  read_fd, close_fd, end_task, acceptor,
}
use progetto.Service.Counts.{at_work, allocated, points, holds}
use progetto.Service.Invariant.{connect-Keeps, begin-Keeps}
use progetto.ThreadPool.System.{
  Status, idle, Reach, add, take, finish, stays, goes, Signalled, unheard, wakes,
}
use progetto.ThreadPool.System.Counting.{busy}
use progetto.ThreadPool.System.Invariant.{Inv}
use progetto.ThreadPool.System.Order.{Reach-Inv}
use progetto.Service.Duties.{
  close_fd-Keeps, end_task-Keeps, handle_client_task-reads, read_fd-Keeps,
}

Signalled-busy :
    (w : ℕ → Status) {n : ℕ} {w' : ℕ → Status}
    → Signalled n w w'
    → (i : ℕ) → busy (w' i) ≡ busy (w i)
Signalled-busy w (unheard _) i = refl
Signalled-busy w (wakes j lt was) i = assign-keeps busy w j idle (ap busy (sym was)) i

Move-Keeps : {n : ℕ} (s : Service) {t : Service} → Inv n s.sys → Keeps n s → Move n s t → Keeps n t
Move-Keeps s v k (connect client_fd fd_ptr p unused _ _ woken) =
    connect-Keeps s k client_fd fd_ptr handle_client_task_address unused refl refl
      (Signalled-busy s.sys.workers woken)
Move-Keeps s v k (turn_down client_fd) = record {
  waiting = k.waiting;
  fifo = k.fifo;
  refs = k.refs;
  fds = λ fd. omega (arith, k.fds fd);
  link = k.link;
}
Move-Keeps s v k (threads step h) =
    let same = quiet-Same s.sys step h in
    record {
      waiting = k.waiting;
      fifo = rw (same.started, same.added) k.fifo;
      refs = k.refs;
      fds = k.fds;
      link = λ i. k.link i ∙ sym (same.busy i);
    }
Move-Keeps s v k (begin i lt e h) = begin-Keeps s k v i lt e h
Move-Keeps {n} s v k (read_fd i {client_fd = client_fd} lt e h) =
    let (known, freed) = handle_client_task-reads (acceptor s) _ h in
    subst
      (λ integers.
        Keeps n (record s { integers = integers; duties = assign s.duties i (serving client_fd) }))
      (sym freed) (read_fd-Keeps s k i lt e known)
Move-Keeps s v k (close_fd i lt e) = close_fd-Keeps s k i lt e
Move-Keeps s v k (end_task i t lt _ e) = end_task-Keeps s k i lt idle refl refl refl refl e

IsFresh-Keeps : (n : ℕ) (s : Service) → IsFresh s → Keeps n s
IsFresh-Keeps n s is = record {
  waiting = [];
  fifo = rw (is.pool.none_started, is.pool.none_added) refl;
  refs = λ a. omega (
    arith,
    ap allocated (is.no_integer a),
    status_sum_zero (points a) n s.duties (λ i. ap (points a) (is.no_duty i)),
  );
  fds = λ fd.
      rw (is.none_accepted, is.none_closed)
        (omega (
          arith,
          status_sum_zero (holds fd s.integers) n s.duties
              (λ i. ap (holds fd s.integers) (is.no_duty i)),
        ));
  link = λ i. ap at_work (is.no_duty i) ∙ sym (resting i);
}
  where
    resting : (i : ℕ) → busy (s.sys.workers i) ≡ 0
    resting i = elim (is.pool.resting i) [ inl e ↦ ap busy e | inr e ↦ ap busy e ]

-- The moves of the server are steps of its pool.
pub Reaches-Reach : (n : ℕ) {start s : Service} → Reaches n start s → Reach n start.sys s.sys
Reaches-Reach n begins = stays
Reaches-Reach n (moves r (connect client_fd fd_ptr p unused fresh h woken)) =
    goes (Reaches-Reach n r) (add p handle_client_task_address fd_ptr fresh h woken)
Reaches-Reach n (moves r (turn_down client_fd)) = Reaches-Reach n r
Reaches-Reach n (moves r (threads step h)) = goes (Reaches-Reach n r) step
Reaches-Reach n (moves r (begin i lt e h)) = goes (Reaches-Reach n r) (take i lt e h)
Reaches-Reach n (moves r (read_fd i lt e h)) = Reaches-Reach n r
Reaches-Reach n (moves r (close_fd i lt e)) = Reaches-Reach n r
Reaches-Reach n (moves r (end_task i t lt run e)) = goes (Reaches-Reach n r) (finish i t lt run)

pub Reaches-Keeps : (n : ℕ) {start s : Service} → IsFresh start → Reaches n start s → Keeps n s
Reaches-Keeps n {start} is begins = IsFresh-Keeps n start is
Reaches-Keeps n is (moves {s = s} r move) =
    Move-Keeps s (Reach-Inv n is.pool (Reaches-Reach n r)) (Reaches-Keeps n is r) move
