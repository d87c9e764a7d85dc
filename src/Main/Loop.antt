-- ===== src/Main/Loop.antt =====
-- Server/main.c: `signal_handler`, `run_server` and `main`.
pub mod Stopping
pub mod Events
use progetto.Prelude.{◌+◌, ◌==◌, leb, if◌then◌else◌, ℕ, Bool, true, false, List, [], ◌∷◌, ◌++◌}
use progetto.Main.{Server}

-- What `epoll_wait` gives: -1 with EINTR, -1 with another error, or the descriptors of the events,
-- of which there are none after a second without one.
pub data Polled : Type 0 where
  interrupted : Polled
  failed : Polled
  ready : List ℕ → Polled

-- One pass of the loop: whether a signal came since the loop last read `running`, what was polled,
-- and the time after the events.
pub record Turn : Type 0 where
  pub signalled : Bool
  pub polled : Polled
  pub now : ℕ

-- What the loop calls, in order.
pub data Call : Type 0 where
  accepting : Call
  printing : (now : ℕ) → Call

-- Left because `running` was 0, left after an error, or still waiting for the next events.
pub data Ended : Type 0 where
  stopped : Ended
  broken : Ended
  polling : Ended

unfoldable pub signal_handler : Server → Server
signal_handler s = record s { running = false }

abbrev pub heed : Bool → Server → Server
heed signalled s = if signalled then signal_handler s else s

-- The loop over the events: the calls of `accept_new_connection`.
unfoldable pub handle_events : ℕ → List ℕ → List Call
handle_events server_fd [] = []
handle_events server_fd (fd ∷ fds) =
    let rest = handle_events server_fd fds in if fd == server_fd then accepting ∷ rest else rest

-- The statistics every 30 seconds, with the new `last_stats_time`.
unfoldable pub print_statistics : ℕ → ℕ → List Call × ℕ
print_statistics last_stats_time now =
    if leb (last_stats_time + 30) now then (printing now ∷ [], now) else ([], last_stats_time)

abbrev pub unless_running : Bool → Ended
unless_running running = if running then polling else stopped

-- The server as the loop leaves it, and its calls. A list that ends is a wait that has not
-- returned.
pub record Run : Type 0 where
  pub server : Server
  pub calls : List Call
  pub ended : Ended

abbrev pub after_calls : List Call → Run → Run
after_calls calls r = record r { calls = calls ++ r.calls }

unfoldable pub run_server : ℕ → Server → ℕ → List Turn → Run
run_server server_fd s last_stats_time [] = record {
  server = s;
  calls = [];
  ended = unless_running s.running;
}
run_server server_fd s last_stats_time (turn ∷ turns) = elim s.running [
  | false ↦ record { server = s; calls = []; ended = stopped }
  | true ↦ elim turn.polled [
    | interrupted ↦ run_server server_fd (heed turn.signalled s) last_stats_time turns
    | failed ↦ record { server = heed turn.signalled s; calls = []; ended = broken }
    | ready fds ↦
        let (printed, last) = print_statistics last_stats_time turn.now in
        after_calls (handle_events server_fd fds ++ printed)
          (run_server server_fd (heed turn.signalled s) last turns)
  ]
]
