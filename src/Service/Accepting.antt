-- ===== src/Service/Accepting.antt =====
-- `accept_new_connection` as moves of the server.
use progetto.Prelude.{
  status_sum-cases, ℕ, ◌<◌, ◌≡◌, ◌≢◌, ap, arith, inl, inr, refl, Option, none, some, ◌∷◌,
}
use progetto.Network.Accept.{
  Acceptor, AcceptCalls, accept_new_connection, hand_over, schedule, store,
  handle_client_task_address,
}
use progetto.Network.Accept.Ownership.{Allocates, accept_connected, add_task-returns}
use progetto.Service.{
  Service, Reaches, IsFresh, begins, moves, connect, turn_down, threads, acceptor,
}
use progetto.Service.Moves.{Reaches-Reach}
use progetto.ThreadPool.TaskList.{Ptr}
use progetto.ThreadPool.State.{ThreadPool}
use progetto.ThreadPool.Queue.{
  Added, Admission, admit, add_task, entered, turned_away, dangling, queued, rejected, fault,
}
use progetto.ThreadPool.Scale.{ScaleCalls, Scaled, auto_scale}
use progetto.ThreadPool.System.{
  idle, running, gone, Status, asleep, Signalled, unheard, wakes, scale,
}

-- The main thread's view of the server.
pub record Matches (a : Acceptor) (s : Service) : Type 0 where
  pub pool : a.pool ≡ some s.sys.pool
  pub integers : (p : Ptr) → a.integers p ≡ s.integers p
  pub closed : a.closed ≡ s.closed

-- The function returns, and what it leaves is reached by moves.
pub record Accepts (n : ℕ) (s : Service) (client_fd : ℕ) (o : Option Acceptor) : Type 0 where
  pub after : Acceptor
  pub next : Service
  pub returns : o ≡ some after
  pub reached : Reaches n s next
  pub matches : Matches after next
  pub accepted : next.accepted ≡ client_fd ∷ s.accepted

abbrev sleeps : Status → ℕ
sleeps idle = 0
sleeps asleep = 1
sleeps (running p f x) = 0
sleeps gone = 0

sleeps-asleep : (st : Status) → 0 < sleeps st → st ≡ asleep
sleeps-asleep idle h = absurd (omega arith)
sleeps-asleep asleep h = refl
sleeps-asleep (running p f x) h = absurd (omega arith)
sleeps-asleep gone h = absurd (omega arith)

pub signal : (n : ℕ) (w : ℕ → Status) → (w' : ℕ → Status) × Signalled n w w'
signal n w = elim (status_sum-cases sleeps n w) [
  | inl (_, zeros) ↦
      (w, unheard (λ i lt e. let z = zeros i lt in let f = ap sleeps e in omega (arith, z, f)))
  | inr (i, lt, pos) ↦ (_, wakes i lt (sleeps-asleep (w i) pos))
]

add_task-queued :
    (pool : ThreadPool) (f x : ℕ) (task : Option Ptr) (calls : ScaleCalls) {r : Scaled}
    → add_task (some pool) (some f) x task calls ≡ queued r
    → (q : Ptr) × (pool' : ThreadPool) × (task ≡ some q)
      × (admit (some pool) (some f) x (some q) ≡ entered pool')
      × (r ≡ auto_scale pool' calls)
unfolding add_task
add_task-queued pool f x none calls h = absurd (unfold admit in cc)
add_task-queued pool f x (some q) calls {r} h = by_admission _ refl
  where
    by_admission :
        (o : Admission)
        → admit (some pool) (some f) x (some q) ≡ o
        → (q' : Ptr) × (pool' : ThreadPool) × (Path (Option Ptr) (some q) (some q'))
          × (admit (some pool) (some f) x (some q') ≡ entered pool')
          × (r ≡ auto_scale pool' calls)
    by_admission (entered pool') e = (q, pool', refl, e, ground arith)
    by_admission turned_away e = absurd (ground arith)
    by_admission dangling e = absurd (ground arith)

module _ (n : ℕ) (s : Service) (client_fd : ℕ) where
  turn_down-Accepts :
      (after : Acceptor) {o : Option Acceptor}
      → o ≡ some after
      → after.pool ≡ some s.sys.pool
      → ((p : Ptr) → after.integers p ≡ s.integers p)
      → after.closed ≡ client_fd ∷ s.closed
      → Accepts n s client_fd o
  turn_down-Accepts after returns pool integers closed = record {
    after = after;
    next = record s { accepted = client_fd ∷ s.accepted; closed = client_fd ∷ s.closed };
    returns = returns;
    reached = moves begins (turn_down client_fd);
    matches = record { pool = pool; integers = integers; closed = closed };
    accepted = refl;
  }

  schedule-Accepts :
      (fd_ptr : Ptr) (task : Option Ptr) (scaling : ScaleCalls) (o : Added)
      → add_task (some s.sys.pool) (some handle_client_task_address) fd_ptr task scaling ≡ o
      → o ≢ fault
      → s.integers fd_ptr ≡ none
      → ((p : Ptr) → task ≡ some p → s.sys.pool.tasks.heap p ≡ none)
      → Accepts n s client_fd (schedule (acceptor s) client_fd fd_ptr task scaling)
  unfolding schedule store
  schedule-Accepts fd_ptr task scaling (queued r) e safe unused fresh =
      let (q, pool, is_task, enters, scaled) =
        add_task-queued s.sys.pool handle_client_task_address fd_ptr task scaling e in
      let (workers, woken) = signal n s.sys.workers in
      record {
        after = record (acceptor s) {
          pool = some r.pool;
          integers = store s.integers fd_ptr (some client_fd);
        };
        next = _;
        returns = rw (schedule, e) refl;
        reached =
            moves (moves begins (connect client_fd fd_ptr q unused (fresh q is_task) enters woken))
              (threads (scale scaling) refl);
        matches = record {
          pool = ap (λ z. some z.pool) scaled;
          integers = λ p. refl;
          closed = refl;
        };
        accepted = refl;
      }
  schedule-Accepts fd_ptr task scaling rejected e safe unused fresh =
      turn_down-Accepts
        (record (acceptor s) {
          integers = store (store s.integers fd_ptr (some client_fd)) fd_ptr none;
          closed = client_fd ∷ s.closed;
        })
        (rw (schedule, e) refl) refl (λ p. ground arith) refl
  schedule-Accepts fd_ptr task scaling fault e safe unused fresh = absurd (safe refl)

  hand_over-Accepts :
      (fd_ptr task : Option Ptr) (scaling : ScaleCalls) {start : Service}
      → IsFresh start
      → Reaches n start s
      → ((p : Ptr) → fd_ptr ≡ some p → s.integers p ≡ none)
      → ((p : Ptr) → task ≡ some p → s.sys.pool.tasks.heap p ≡ none)
      → Accepts n s client_fd (hand_over (acceptor s) client_fd fd_ptr task scaling)
  hand_over-Accepts none task scaling is r integer fresh =
      turn_down-Accepts _ refl refl (λ p. refl) refl
  hand_over-Accepts (some p) task scaling is r integer fresh =
      schedule-Accepts p task scaling _ refl
        (add_task-returns n handle_client_task_address p task scaling is.pool (Reaches-Reach n r)
          fresh)
        (integer p refl) fresh

-- In every reachable state, `accept_new_connection` returns, and what it does to an accepted
-- connection is a `turn_down`, or a `connect` and a scaling of the pool, if the addresses that
-- `malloc` gives are not in use.
pub accept_new_connection-Accepts :
    (n : ℕ) {start s : Service} (calls : AcceptCalls) {client_fd : ℕ}
    → IsFresh start
    → Reaches n start s
    → calls.client_fd ≡ some client_fd
    → Allocates s.sys (acceptor s) calls
    → Accepts n s client_fd (accept_new_connection (acceptor s) calls)
accept_new_connection-Accepts n {s = s} calls {client_fd} is r connected a =
    rw (accept_connected (acceptor s) calls connected)
      (hand_over-Accepts n s client_fd calls.fd_ptr calls.task calls.scaling is r a.integer a.task)
