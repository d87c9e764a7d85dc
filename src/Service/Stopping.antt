-- ===== src/Service/Stopping.antt =====
-- What becomes of the connections when the pool shuts down.
use progetto.Prelude.{
  ℕ, suc, ◌+◌, ◌<◌, ◌≡◌, ◌∙◌, ◌⊎◌, arith, inl, inr, ap, sym, refl, true, List, ◌++◌, length, count,
  status_sum, status_sum-assign, status_sum-cases,
}
use progetto.Service.{Service, Move, Reaches, IsFresh, moves, threads}
use progetto.Service.Advances.{duty_work, duty_work_free, alive, go_on}
use progetto.Service.Counts.{at_work, arguments, held_by}
use progetto.Service.Descriptors.{Reaches-unclosed}
use progetto.Service.Moves.{Reaches-Keeps, Reaches-Reach}
use progetto.ThreadPool.System.{Status, idle, asleep, running, gone, leave}
use progetto.ThreadPool.System.Counting.{busy}
use progetto.ThreadPool.System.Flags.{begin_round-leaves}
use progetto.ThreadPool.System.Order.{Reach-Inv}
use progetto.ThreadPool.System.Wakeups.{Alert, Reach-Alert}

-- The moves until all workers have ended.
abbrev pub stop_work : ℕ → Service → ℕ
stop_work n s = status_sum alive n s.sys.workers + status_sum duty_work n s.duties

-- A worker goes on with its task, or leaves.
pub record Ceases (n : ℕ) (s t : Service) : Type 0 where
  pub move : Move n s t
  pub less : stop_work n t + 1 ≡ stop_work n s
  pub accepted : t.accepted ≡ s.accepted
  pub started : t.sys.started ≡ s.sys.started
  pub shutdown : t.sys.pool.shutdown ≡ s.sys.pool.shutdown

pub data Stops (n : ℕ) : Service → ℕ → Service → Type 0 where
  rests : {s : Service} → Stops n s 0 s
  ceases : {k : ℕ} {s t u : Service} → Ceases n s t → Stops n t k u → Stops n s (suc k) u

alive-gone : (st : Status) → alive st ≡ 0 → st ≡ gone
alive-gone idle e = absurd (omega arith)
alive-gone asleep e = absurd (omega arith)
alive-gone (running p f x) e = absurd (omega arith)
alive-gone gone e = refl

-- A worker that is there and has no task leaves.
leaves_pool :
    {n : ℕ} (s : Service)
    → Alert n s.sys.pool s.sys.workers
    → s.sys.pool.shutdown ≡ true
    → (i : ℕ) (st : Status) → s.sys.workers i ≡ st
    → i < n
    → 0 < alive st
    → busy st ≡ 0
    → (t : Service) × Ceases n s t
leaves_pool {n} s k closed i idle e lt pos resting = (
  _,
  record {
    move = threads (leave i lt e (begin_round-leaves s.sys.pool closed)) refl;
    less = omega (arith, status_sum-assign alive n i s.sys.workers gone lt, ap alive e);
    accepted = refl;
    started = refl;
    shutdown = refl;
  },
)
leaves_pool s k closed i asleep e lt pos resting = absurd (let serving = k.serving i lt e in cc)
leaves_pool s k closed i (running p f x) e lt pos resting = absurd (omega (arith, resting))
leaves_pool s k closed i gone e lt pos resting = absurd (omega arith)

pub Reaches-Ceases :
    (n : ℕ) {start s : Service}
    → IsFresh start
    → Reaches n start s
    → s.sys.pool.shutdown ≡ true
    → (stop_work n s ≡ 0) ⊎ ((t : Service) × Ceases n s t)
Reaches-Ceases n {s = s} is r closed = elim (status_sum-cases duty_work n s.duties) [
  | inr (j, below, pos) ↦
      (let (t, w) = go_on n s is r j below (s.duties j) refl pos in
        inr (
          t,
          record {
            move = w.move;
            less = omega (arith, w.less, w.staff);
            accepted = w.accepted;
            started = w.started;
            shutdown = w.shutdown;
          },
        ))
  | inl (no_duty, zeros) ↦ elim (status_sum-cases alive n s.sys.workers) [
    | inl (no_staff, _) ↦ inl (omega (arith, no_duty, no_staff))
    | inr (i, lt, pos) ↦
        (let k = Reaches-Keeps n is r in
          let resting : busy (s.sys.workers i) ≡ 0 =
            sym (k.link i) ∙ ap at_work (duty_work_free (s.duties i) (zeros i lt)) in
          inr (
            leaves_pool s (Reach-Alert n is.pool (Reaches-Reach n r)) closed i _ refl lt pos
              resting))
  ]
]

all_gone : (n : ℕ) (s : Service) → stop_work n s ≡ 0 → (i : ℕ) → i < n → s.sys.workers i ≡ gone
all_gone n s none_left i lt =
    let moved = status_sum-assign alive n i s.sys.workers gone lt in
    alive-gone (s.sys.workers i) (omega (arith, moved, none_left))

none_active :
    (n : ℕ) {start s : Service}
    → IsFresh start
    → Reaches n start s
    → stop_work n s ≡ 0
    → s.sys.pool.active_threads ≡ 0
none_active n {s = s} is r none_left =
    let v = Reach-Inv n is.pool (Reaches-Reach n r) in
    elim (status_sum-cases busy n s.sys.workers) [
      | inl (rest, _) ↦ v.active ∙ rest
      | inr (i, lt, pos) ↦
          absurd (let e = ap busy (all_gone n s none_left i lt) in omega (arith, e, pos))
    ]

-- The workers have ended, no task was started, and the accepted descriptors that are not closed are
-- those of the waiting tasks.
pub record IsStopped (n : ℕ) (s u : Service) : Type 0 where
  pub ended : (i : ℕ) → i < n → u.sys.workers i ≡ gone
  pub started : u.sys.started ≡ s.sys.started
  pub waiting : List (ℕ × ℕ)
  pub fifo : u.sys.added ≡ u.sys.started ++ waiting
  pub size : length waiting ≡ u.sys.pool.queue_size
  pub unclosed :
      (fd : ℕ) → count fd s.accepted ≡ count fd u.closed + held_by fd u.integers (arguments waiting)

-- How far a run of the workers is in a pool that shuts down: it goes on, or they have all ended.
pub data Fate (n : ℕ) (s : Service) (k : ℕ) (u : Service) : Type 0 where
  over : k ≡ stop_work n s → IsStopped n s u → Fate n s k u
  on : k < stop_work n s → {t : Service} → Ceases n u t → Fate n s k u

stopped :
    (n : ℕ) {start s : Service}
    → IsFresh start
    → Reaches n start s
    → stop_work n s ≡ 0
    → IsStopped n s s
stopped n {s = s} is r none_left =
    let (waiting, fifo, size, unclosed) = Reaches-unclosed n is r (none_active n is r none_left) in
    record {
      ended = all_gone n s none_left;
      started = refl;
      waiting = waiting;
      fifo = fifo;
      size = size;
      unclosed = unclosed;
    }

-- In every reachable state of a server whose pool shuts down, each run in which the workers go on
-- with their tasks and leave, in whatever order, can go on until all of them have ended, and is then
-- exactly one move long for each worker and one to three for each task that ran: the connections
-- that were being served are closed, no other task is started, and the descriptors of the waiting
-- tasks are left. A move in which a connection is closed stands for a request whose calls return.
pub Stops-Fate :
    (n k : ℕ) {start s u : Service}
    → IsFresh start
    → Reaches n start s
    → s.sys.pool.shutdown ≡ true
    → Stops n s k u
    → Fate n s k u
Stops-Fate n k {s = s} is r closed rests = elim (Reaches-Ceases n is r closed) [
  | inl none_left ↦ over (sym none_left) (stopped n is r none_left)
  | inr (t, c) ↦ on (omega (arith, c.less)) c
]
Stops-Fate n k {s = s} is r closed (ceases c run) =
    elim (Stops-Fate n _ is (moves r c.move) (c.shutdown ∙ closed) run) [
      | over length done ↦ over (omega (arith, length, c.less)) (record {
        ended = done.ended;
        started = done.started ∙ c.started;
        waiting = done.waiting;
        fifo = done.fifo;
        size = done.size;
        unclosed = λ fd. ap (count fd) (sym c.accepted) ∙ done.unclosed fd;
      })
      | on shorter next ↦ on (omega (arith, shorter, c.less)) next
    ]
