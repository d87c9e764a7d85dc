-- ===== src/Main.antt =====
-- Server/main.c: the command line, `init_server` and `cleanup_server`.
pub mod Arguments
pub mod Resources
pub mod Loop
pub mod Entry
use progetto.Prelude.{
  ◌+◌, ◌-◌, ◌%◌, ◌^◌, ◌==◌, ◌||◌, ltb, if◌then◌else◌, ℕ, Bool, true, false, List, [], ◌∷◌, Option,
  none, some, Bytes, codes,
}
use progetto.CLib.Memory.{c_str, strlen}
use progetto.CLib.Numbers.{ℤ, pos, negsuc, Conversion, strtol}
use progetto.Config.{thread_pool_initial_size}
use progetto.ThreadPool.TaskList.{Heap}
use progetto.ThreadPool.State.{ThreadPool}
use progetto.ThreadPool.Lifetime.{CreateCalls, Held, create, destroy}
use progetto.Utils.{same}
use progetto.Utils.Descriptors.{make_socket_non_blocking}

-- What the arguments ask for: a server on a port, the usage, or the usage and a failure.
pub data Parsed : Type 0 where
  start : ℕ → Parsed
  help : Parsed
  refused : Parsed

-- `atoi`, as the 32-bit pattern of its result: `(int)strtol(s, NULL, 10)`.
abbrev pub int_pattern : ℤ → ℕ
int_pattern (pos n) = n % 2 ^ 32
int_pattern (negsuc n) = 2 ^ 32 - 1 - n % 2 ^ 32

-- `port <= 0 || port > 65535`; a negative int has a pattern of 2 ^ 31 or more.
unfoldable pub read_port : Bytes → Option ℕ
read_port s =
    let port = int_pattern (strtol s).value in
    if port == 0 || ltb 65535 port then none else some port

-- The loop over the arguments that are left.
unfoldable pub parse_arguments : ℕ → List Bytes → Parsed
parse_arguments port [] = start port
parse_arguments port (a ∷ []) = if same a (codes "-h") then help else refused
parse_arguments port (a ∷ v ∷ rest) = elim (same a (codes "-p")) [
  | true ↦ elim (read_port v) [ none ↦ refused | some chosen ↦ parse_arguments chosen rest ]
  | false ↦ if same a (codes "-h") then help else refused
]

-- Whether each call of `init_server` succeeds, in its order; `flags` are those of the socket, `none`
-- if they cannot be read.
pub record InitCalls : Type 0 where
  pub curl_global : Bool
  pub socket : Bool
  pub set_option : Bool
  pub flags : Option ℕ
  pub set_flags : Bool
  pub bind : Bool
  pub listen : Bool
  pub epoll_create : Bool
  pub epoll_add : Bool
  pub pool_allocated : Bool
  pub pool_calls : CreateCalls

-- What the server holds from the system.
pub record Server : Type 0 where
  pub curl : Bool
  pub server_fd : Bool
  pub epoll_fd : Bool
  pub pool : Option (ThreadPool × Held)
  pub running : Bool

abbrev pub no_server : Server
no_server = record {
  curl = false;
  server_fd = false;
  epoll_fd = false;
  pool = none;
  running = false;
}

unfoldable pub close_server_fd : Server → Server
close_server_fd s = record s { server_fd = false }

unfoldable pub close_epoll_fd : Server → Server
close_epoll_fd s = record s { epoll_fd = false }

unfoldable pub curl_global_cleanup : Server → Server
curl_global_cleanup s = record s { curl = false }

abbrev pub finish_init : Option (ThreadPool × Held) → Server → Bool × Server
finish_init none s = (false, curl_global_cleanup (close_server_fd (close_epoll_fd s)))
finish_init (some pool) s = (true, record s { pool = some pool; running = true })

-- Whether 0 is returned, and what is held.
unfoldable pub init_server : Heap → InitCalls → Bool × Server
init_server heap calls =
    let with_curl : Server = record no_server { curl = true } in
    let with_fd : Server = record with_curl { server_fd = true } in
    let with_epoll : Server = record with_fd { epoll_fd = true } in
    let drop_fd : Bool × Server = (false, curl_global_cleanup (close_server_fd with_fd)) in
    if calls.curl_global
    then (if calls.socket
        then (if calls.set_option
            then (if (make_socket_non_blocking calls.flags calls.set_flags).0
                then (if calls.bind
                    then (if calls.listen
                        then (if calls.epoll_create
                            then (if calls.epoll_add
                                then finish_init
                                    (create calls.pool_allocated heap thread_pool_initial_size
                                      calls.pool_calls)
                                    with_epoll
                                else (
                                  false,
                                  curl_global_cleanup (close_server_fd (close_epoll_fd with_epoll)),
                                ))
                            else drop_fd)
                        else drop_fd)
                    else drop_fd)
                else drop_fd)
            else drop_fd)
        else (false, curl_global_cleanup with_curl))
    else (false, no_server)

abbrev pub destroy_pool : ℕ → Option (ThreadPool × Held) → Option Held
destroy_pool n none = none
destroy_pool n (some (pool, held)) = some (destroy n pool held).1

-- `cleanup_server` on a server that was started, with the fuel for the queued tasks: what is held,
-- and what the pool held when its memory was freed.
unfoldable pub cleanup_server : ℕ → Server → Server × Option Held
cleanup_server n s = (
  curl_global_cleanup
      (close_server_fd (close_epoll_fd (record s { running = false; pool = none }))),
  destroy_pool n s.pool,
)
