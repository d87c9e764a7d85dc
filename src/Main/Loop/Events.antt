-- ===== src/Main/Loop/Events.antt =====
-- What the main loop does for the events that it polls.
use progetto.Prelude.{
  leb, count-append, count, append_assoc, inl, inr, refl, Bool-cases, not, arith, ℕ, ◌+◌, ◌≤◌, ◌≡◌,
  List, [], ◌∷◌, ◌++◌, true, false, Bool,
}
use progetto.Main.{Server}
use progetto.Main.Loop.{
  signal_handler, Turn, Polled, interrupted, failed, ready, run_server, Call, accepting, printing,
  handle_events, print_statistics, heed,
}
use progetto.Main.Loop.Stopping.{Polled-cases}

abbrev pub accepts : List Call → ℕ
accepts [] = 0
accepts (accepting ∷ calls) = 1 + accepts calls
accepts (printing now ∷ calls) = accepts calls

-- When statistics are printed.
abbrev pub times : List Call → List ℕ
times [] = []
times (accepting ∷ calls) = times calls
times (printing now ∷ calls) = now ∷ times calls

-- The times are 30 seconds apart, and the first one from `last`.
abbrev pub Spaced : ℕ → List ℕ → Type 0
Spaced last [] = Unit
Spaced last (now ∷ later) = (last + 30 ≤ now) × Spaced now later

abbrev pub events : Polled → List ℕ
events interrupted = []
events failed = []
events (ready fds) = fds

abbrev goes_on : Turn → Bool
goes_on turn = elim turn.polled [ failed ↦ false | _ ↦ not turn.signalled ]

-- The events of the passes that are made: up to the first that fails or has a signal, included.
abbrev pub polled_events : Bool → List Turn → List ℕ
polled_events false turns = []
polled_events true [] = []
polled_events true (turn ∷ turns) = events turn.polled ++ polled_events (goes_on turn) turns

accepts-append : (l m : List Call) → accepts (l ++ m) ≡ accepts l + accepts m
accepts-append [] m = omega arith
accepts-append (accepting ∷ l) m = omega (arith, accepts-append l m)
accepts-append (printing now ∷ l) m = accepts-append l m

accepts-handle_events :
    (server_fd : ℕ) (fds : List ℕ) → accepts (handle_events server_fd fds) ≡ count server_fd fds
unfolding handle_events
accepts-handle_events server_fd [] = refl
accepts-handle_events server_fd (fd ∷ fds) = ground (arith, accepts-handle_events server_fd fds)

accepts-print_statistics : (last now : ℕ) → accepts (print_statistics last now).0 ≡ 0
unfolding print_statistics
accepts-print_statistics last now = ground arith

accepts-pass :
    (server_fd : ℕ) (fds : List ℕ) (last now : ℕ) (calls : List Call)
    → accepts ((handle_events server_fd fds ++ (print_statistics last now).0) ++ calls)
      ≡ count server_fd fds + accepts calls
accepts-pass server_fd fds last now calls = omega (
  arith,
  accepts-append (handle_events server_fd fds ++ (print_statistics last now).0) calls,
  accepts-append (handle_events server_fd fds) (print_statistics last now).0,
  accepts-handle_events server_fd fds,
  accepts-print_statistics last now,
)

heed-running :
    (turn : Turn) (s : Server)
    → s.running ≡ true
    → (heed turn.signalled s).running ≡ not turn.signalled
unfolding signal_handler
heed-running turn s on = ground arith

-- Each event on the listening socket that is polled before the loop ends is one call of
-- `accept_new_connection`, and no other event is.
pub run_server-accepts :
    (server_fd : ℕ) (s : Server) (last : ℕ) (turns : List Turn)
    → accepts (run_server server_fd s last turns).calls
      ≡ count server_fd (polled_events s.running turns)
unfolding run_server
run_server-accepts server_fd s last [] = ground arith
run_server-accepts server_fd s last (t ∷ turns) = elim (Bool-cases s.running) [
  | inr off ↦ rw (run_server, off) refl
  | inl on ↦ elim (Polled-cases t.polled) [
    | inl p ↦
        rw (run_server, on, p, ← heed-running t s on)
          (run_server-accepts server_fd (heed t.signalled s) last turns)
    | inr (inl p) ↦ rw (run_server, on, p) refl
    | inr (inr (fds, p)) ↦
        rw
          (
            run_server,
            on,
            p,
            accepts-pass server_fd fds last t.now,
            count-append,
            ← heed-running t s on,
            run_server-accepts server_fd (heed t.signalled s) (print_statistics last t.now).1 turns,
          )
          refl
  ]
]

times-handle_events :
    (server_fd : ℕ) (fds : List ℕ) (calls : List Call)
    → times (handle_events server_fd fds ++ calls) ≡ times calls
unfolding handle_events
times-handle_events server_fd [] calls = refl
times-handle_events server_fd (fd ∷ fds) calls =
    ground (arith, times-handle_events server_fd fds calls)

Spaced-pass :
    (server_fd : ℕ) (fds : List ℕ) (last now : ℕ) (calls : ℕ → List Call)
    → ((l : ℕ) → Spaced l (times (calls l)))
    → Spaced last (
        times (
          (handle_events server_fd fds ++ (print_statistics last now).0)
          ++ calls (print_statistics last now).1))
unfolding print_statistics
Spaced-pass server_fd fds last now calls h =
    let accepted = handle_events server_fd fds in
    elim (Bool-cases (leb (last + 30) now)) [
      | inl due ↦
          rw (append_assoc accepted, times-handle_events server_fd fds, due) (ground arith, h now)
      | inr early ↦ rw (append_assoc accepted, times-handle_events server_fd fds, early) (h last)
    ]

-- The statistics are printed at least 30 seconds apart, and the first time not before 30 seconds
-- after the loop began.
pub run_server-Spaced :
    (server_fd : ℕ) (s : Server) (last : ℕ) (turns : List Turn)
    → Spaced last (times (run_server server_fd s last turns).calls)
unfolding run_server
run_server-Spaced server_fd s last [] = tt
run_server-Spaced server_fd s last (t ∷ turns) = elim (Bool-cases s.running) [
  | inr off ↦ rw (run_server, off) tt
  | inl on ↦ elim (Polled-cases t.polled) [
    | inl p ↦ rw (run_server, on, p) (run_server-Spaced server_fd (heed t.signalled s) last turns)
    | inr (inl p) ↦ rw (run_server, on, p) tt
    | inr (inr (fds, p)) ↦
        rw (run_server, on, p)
          (Spaced-pass server_fd fds last t.now
            (λ l. (run_server server_fd (heed t.signalled s) l turns).calls)
            (λ l. run_server-Spaced server_fd (heed t.signalled s) l turns))
  ]
]
