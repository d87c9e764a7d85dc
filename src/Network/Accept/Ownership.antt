-- ===== src/Network/Accept/Ownership.antt =====
-- No descriptor is lost or closed twice when a connection comes in.
use progetto.Prelude.{inr, inl, refl, Bool-cases, arith, ◌≢◌, ◌∙◌, none, some, Option, ◌∷◌, ◌≡◌, ℕ}
use progetto.Network.Accept.{
  hand_over, handle_client_task_address, store, accept_new_connection, schedule, AcceptCalls,
  Acceptor,
}
use progetto.ThreadPool.System.{System, Reach, IsStart}
use progetto.ThreadPool.TaskList.{Ptr}
use progetto.ThreadPool.Scale.{Scaled, ScaleCalls}
use progetto.ThreadPool.Queue.{rejected, admit, fault, queued, Added, add_task}
use progetto.ThreadPool.System.Order.{Reach-add_task}

-- The descriptor is closed and nothing else happened, or it is left to an accepted task.
pub data Handed (s : Acceptor) (client_fd : ℕ) (after : Acceptor) : Type 0 where
  dropped :
      after.closed ≡ client_fd ∷ s.closed
      → after.pool ≡ s.pool
      → ((a : Ptr) → after.integers a ≡ s.integers a)
      → Handed s client_fd after
  handed :
      (fd_ptr : Ptr) (task : Option Ptr) (scaling : ScaleCalls) {r : Scaled}
      → after.closed ≡ s.closed
      → add_task s.pool (some handle_client_task_address) fd_ptr task scaling ≡ queued r
      → after.pool ≡ some r.pool
      → after.integers fd_ptr ≡ some client_fd
      → Handed s client_fd after

pub add_task-returns :
    (n : ℕ) {start sys : System} (f x : ℕ) (task : Option Ptr) (calls : ScaleCalls)
    → IsStart start
    → Reach n start sys
    → ((p : Ptr) → task ≡ some p → sys.pool.tasks.heap p ≡ none)
    → add_task (some sys.pool) (some f) x task calls ≢ fault
add_task-returns n f x none calls is r fresh e = absurd (unfold add_task admit in cc)
add_task-returns n {sys = sys} f x (some p) calls is r fresh e =
    let (closing, serving) = Reach-add_task n p f x calls is r (fresh p refl) in
    elim (Bool-cases sys.pool.shutdown) [
      | inl h ↦ let no = closing h in cc
      | inr h ↦ let (scaled, entry) = serving h in cc
    ]

module _ (s : Acceptor) (client_fd : ℕ) where
  schedule-Handed :
      (fd_ptr : Ptr) (task : Option Ptr) (scaling : ScaleCalls) (o : Added)
      → add_task s.pool (some handle_client_task_address) fd_ptr task scaling ≡ o
      → o ≢ fault
      → s.integers fd_ptr ≡ none
      → (after : Acceptor) × (schedule s client_fd fd_ptr task scaling ≡ some after)
        × Handed s client_fd after
  unfolding schedule store
  schedule-Handed fd_ptr task scaling (queued r) e safe unused = (
    record s { pool = some r.pool; integers = store s.integers fd_ptr (some client_fd) },
    rw (schedule, e),
    handed fd_ptr task scaling refl e refl (ground arith),
  )
  schedule-Handed fd_ptr task scaling rejected e safe unused = (
    record s {
      integers = store (store s.integers fd_ptr (some client_fd)) fd_ptr none;
      closed = client_fd ∷ s.closed;
    },
    rw (schedule, e),
    dropped refl refl (λ a. ground arith),
  )
  schedule-Handed fd_ptr task scaling fault e safe unused = absurd (safe refl)

-- `malloc` gives addresses that are not in use.
pub record Allocates (sys : System) (s : Acceptor) (calls : AcceptCalls) : Type 0 where
  pub integer : (p : Ptr) → calls.fd_ptr ≡ some p → s.integers p ≡ none
  pub task : (p : Ptr) → calls.task ≡ some p → sys.pool.tasks.heap p ≡ none

pub accept_connected :
    (s : Acceptor) (calls : AcceptCalls) {client_fd : ℕ}
    → calls.client_fd ≡ some client_fd
    → accept_new_connection s calls ≡ hand_over s client_fd calls.fd_ptr calls.task calls.scaling
unfolding accept_new_connection
accept_connected s calls e = rw e

hand_over-Handed :
    (n : ℕ) {start sys : System} (s : Acceptor) (client_fd : ℕ) (fd_ptr task : Option Ptr)
    (scaling : ScaleCalls)
    → IsStart start
    → Reach n start sys
    → s.pool ≡ some sys.pool
    → ((p : Ptr) → fd_ptr ≡ some p → s.integers p ≡ none)
    → ((p : Ptr) → task ≡ some p → sys.pool.tasks.heap p ≡ none)
    → (after : Acceptor) × (hand_over s client_fd fd_ptr task scaling ≡ some after)
      × Handed s client_fd after
hand_over-Handed n s client_fd none task scaling is r e integer fresh =
    (record s { closed = client_fd ∷ s.closed }, refl, dropped refl refl (λ a. refl))
hand_over-Handed n s client_fd (some p) task scaling is r e integer fresh =
    let safe = add_task-returns n handle_client_task_address p task scaling is r fresh in
    schedule-Handed s client_fd p task scaling _ refl (rw e safe) (integer p refl)

-- In every state of the pool that can be reached, an accepted connection is either closed, with
-- nothing else changed, or left open in the argument of an accepted task, whichever allocation
-- fails, if the addresses that `malloc` gives are not in use.
pub accept_new_connection-Handed :
    (n : ℕ) {start sys : System} (s : Acceptor) (calls : AcceptCalls) {client_fd : ℕ}
    → IsStart start
    → Reach n start sys
    → s.pool ≡ some sys.pool
    → calls.client_fd ≡ some client_fd
    → Allocates sys s calls
    → (after : Acceptor) × (accept_new_connection s calls ≡ some after) × Handed s client_fd after
accept_new_connection-Handed n s calls {client_fd} is r e connected a =
    let (after, done, h) =
      hand_over-Handed n s client_fd calls.fd_ptr calls.task calls.scaling is r e a.integer
        a.task in
    (after, accept_connected s calls connected ∙ done, h)
