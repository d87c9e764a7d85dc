-- ===== src/Examples/Startup.antt =====
-- The command line and the start-up: Server/main.c.
use progetto.Service.{IsFresh}
use progetto.Service.Startup.{started_service, init_server-IsFresh}
use progetto.Prelude.{false, arith, ◌++◌, [], ◌∷◌, some, replicate, true, none, codes, refl, ◌≡◌}
use progetto.Main.{
  no_server, cleanup_server, start, read_port, parse_arguments, Server, init_server, InitCalls,
}
use progetto.Main.Resources.{cleanup_server-nothing, init_server-Started, Started}
use progetto.ThreadPool.State.{ThreadPool}
use progetto.ThreadPool.Lifetime.{
  finish_create, start_threads, nothing, create_with_limits, destroy, create, new_pool, CreateCalls,
  Held,
}
use progetto.Main.Arguments.{parse_arguments-decimal, parse_arguments-InPorts, InPorts}
use progetto.CLib.Numbers.{decimal, strtol}
use progetto.ThreadPool.Lifetime.Destruction.{destroy-nothing}
use progetto.Utils.{same}
use progetto.Utils.Descriptors.{make_socket_non_blocking}

decimal_port_test : parse_arguments 8080 (codes "-p" ∷ decimal 9000 ∷ []) ≡ start 9000
decimal_port_test = parse_arguments-decimal 8080 9000 (omega arith) (omega arith)

parse_arguments-InPorts_test : InPorts (parse_arguments 8080 (codes "-p" ∷ codes "70000" ∷ []))
parse_arguments-InPorts_test =
    parse_arguments-InPorts 8080 (codes "-p" ∷ codes "70000" ∷ []) (omega arith) (omega arith)

-- `atoi` cuts 2 ^ 32 + 1 to 1.
wrapped_port_test : parse_arguments 8080 (codes "-p" ∷ codes "4294967297" ∷ []) ≡ start 1
unfolding parse_arguments read_port strtol same
wrapped_port_test = refl

abbrev pool_calls : CreateCalls
pool_calls = record {
  array_allocated = true;
  mutex_ready = true;
  cond_ready = true;
  creates = replicate 8 (some 1);
  now = 0;
}

abbrev pub all_succeed : InitCalls
all_succeed = record {
  curl_global = true;
  socket = true;
  set_option = true;
  flags = some 2;
  set_flags = true;
  bind = true;
  listen = true;
  epoll_create = true;
  epoll_add = true;
  pool_allocated = true;
  pool_calls = pool_calls;
}

init_server-Started_test : Started (λ p. none) all_succeed (init_server (λ p. none) all_succeed)
init_server-Started_test = init_server-Started (λ p. none) all_succeed

abbrev pool : ThreadPool
pool = record (new_pool (λ p. none) 4 32 8 0) { threads = replicate 8 1 ++ replicate 24 0 }

abbrev held : Held
held = record { array = true; mutex = true; cond = true; running = 8 }

abbrev pub server : Server
server = record {
  curl = true;
  server_fd = true;
  epoll_fd = true;
  pool = some (pool, held);
  running = true;
}

cleanup_server-nothing_test : cleanup_server 0 server ≡ (no_server, some nothing)
unfolding init_server make_socket_non_blocking create create_with_limits start_threads finish_create
    new_pool
cleanup_server-nothing_test = cleanup_server-nothing 0 (λ p. none) all_succeed {s = server} refl

destroy-nothing_test : (destroy 0 pool held).1 ≡ nothing
unfolding new_pool
destroy-nothing_test = destroy-nothing 0 pool held refl (omega arith)

init_server-IsFresh_example :
    (p : ThreadPool) × (h : Held) × (server.pool ≡ some (p, h))
    × IsFresh (started_service p)
    × (p.shutdown ≡ false)
unfolding init_server make_socket_non_blocking create create_with_limits start_threads finish_create
    new_pool
init_server-IsFresh_example = init_server-IsFresh (λ p. none) all_succeed {s = server} refl
