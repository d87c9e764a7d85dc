-- ===== src/Examples/Loop.antt =====
-- The main loop and the end of the program: Server/main.c.
use progetto.Prelude.{true, false, none, some, List, [], ◌∷◌, ◌≡◌, refl, codes, count}
use progetto.Main.Loop.{
  Turn, accepting, printing, interrupted, ready, run_server, handle_events, print_statistics,
  signal_handler,
}
use progetto.Main.Loop.Events.{
  accepts, times, Spaced, polled_events, run_server-accepts, run_server-Spaced,
}
use progetto.Main.Entry.{World}
use progetto.Examples.Startup.{all_succeed, server}

-- Two connections, a client's descriptor, and a signal while events come; then it would go on.
abbrev turns : List Turn
turns =
    record { signalled = false; polled = ready (4 ∷ 9 ∷ 4 ∷ []); now = 131 }
    ∷ record { signalled = false; polled = interrupted; now = 140 }
    ∷ record { signalled = true; polled = ready (4 ∷ []); now = 150 }
    ∷ record { signalled = false; polled = ready (4 ∷ []); now = 200 }
    ∷ []

run_server-accepts_example :
    accepts (run_server 4 server 100 turns).calls ≡ count 4 (polled_events true turns)
run_server-accepts_example = run_server-accepts 4 server 100 turns

run_server-Spaced_test : Spaced 100 (times (run_server 4 server 100 turns).calls)
run_server-Spaced_test = run_server-Spaced 4 server 100 turns

calls_test :
    (run_server 4 server 100 turns).calls ≡ accepting ∷ accepting ∷ printing 131 ∷ accepting ∷ []
unfolding run_server handle_events print_statistics signal_handler
calls_test = refl

abbrev world : World
world = record {
  env_key = some (codes "key");
  arguments = codes "-p" ∷ codes "9000" ∷ [];
  heap = λ p. none;
  init = all_succeed;
  server_fd = 4;
  signalled = false;
  began = 100;
  turns = turns;
  worked = λ p. p;
}
