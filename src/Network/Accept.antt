-- ===== src/Network/Accept.antt =====
-- `accept_new_connection` and `handle_client_task`: who owns the descriptor of a connection.
pub mod Ownership
use progetto.Prelude.{◌==◌, if◌then◌else◌, ℕ, List, ◌∷◌, Option, none, some}
use progetto.ThreadPool.TaskList.{Ptr}
use progetto.ThreadPool.State.{ThreadPool}
use progetto.ThreadPool.Scale.{ScaleCalls}
use progetto.ThreadPool.Queue.{add_task, queued, rejected, fault}

-- The pool, the allocated integers with the descriptors, and the descriptors closed so far.
pub record Acceptor : Type 0 where
  pub pool : Option ThreadPool
  pub integers : Ptr → Option ℕ
  pub closed : List ℕ

-- What the calls give: `accept` (`none` for -1), the two `malloc`s, and the calls of auto-scaling.
pub record AcceptCalls : Type 0 where
  pub client_fd : Option ℕ
  pub fd_ptr : Option Ptr
  pub task : Option Ptr
  pub scaling : ScaleCalls

-- The address of `handle_client_task`.
abbrev pub handle_client_task_address : ℕ
handle_client_task_address = 1

unfoldable pub store : (Ptr → Option ℕ) → Ptr → Option ℕ → Ptr → Option ℕ
store integers p v a = if a == p then v else integers a

-- `none` is a fault of `thread_pool_add_task`.
unfoldable pub schedule : Acceptor → ℕ → Ptr → Option Ptr → ScaleCalls → Option Acceptor
schedule s client_fd fd_ptr task scaling =
    elim (add_task s.pool (some handle_client_task_address) fd_ptr task scaling) [
      | queued r ↦
          some
            (record s { pool = some r.pool; integers = store s.integers fd_ptr (some client_fd) })
      | rejected ↦ some (record s {
        integers = store (store s.integers fd_ptr (some client_fd)) fd_ptr none;
        closed = client_fd ∷ s.closed;
      })
      | fault ↦ none
    ]

abbrev pub hand_over : Acceptor → ℕ → Option Ptr → Option Ptr → ScaleCalls → Option Acceptor
hand_over s client_fd none task scaling = some (record s { closed = client_fd ∷ s.closed })
hand_over s client_fd (some fd_ptr) task scaling = schedule s client_fd fd_ptr task scaling

unfoldable pub accept_new_connection : Acceptor → AcceptCalls → Option Acceptor
accept_new_connection s calls = elim calls.client_fd [
  | none ↦ some s
  | some client_fd ↦ hand_over s client_fd calls.fd_ptr calls.task calls.scaling
]

-- `handle_client_task`: the descriptor to serve, `none` if the integer is not allocated.
unfoldable pub handle_client_task : Acceptor → Ptr → Option (ℕ × Acceptor)
handle_client_task s arg = elim (s.integers arg) [
  | none ↦ none
  | some client_fd ↦ some (client_fd, record s { integers = store s.integers arg none })
]

-- Not called by the server: client sockets are not polled.
unfoldable pub handle_client_data : Acceptor → ℕ → Acceptor
handle_client_data s client_fd = record s { closed = client_fd ∷ s.closed }

-- Not called by the server.
unfoldable pub remove_client : Acceptor → ℕ → Acceptor
remove_client s fd = record s { closed = fd ∷ s.closed }
