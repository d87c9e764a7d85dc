-- ===== src/Main/Loop/Stopping.antt =====
-- When the main loop ends.
use progetto.Prelude.{
  ap, refl, inr, Bool-cases, inl, ◌⊎◌, ℕ, ◌≡◌, ◌≢◌, List, [], ◌∷◌, ◌++◌, true, false,
}
use progetto.Main.{Server}
use progetto.Main.Loop.{
  handle_events, print_statistics, signal_handler, Turn, Polled, interrupted, failed, ready,
  run_server, polling, stopped, heed, after_calls,
}

pub Polled-cases :
    (p : Polled) → (p ≡ interrupted) ⊎ ((p ≡ failed) ⊎ ((fds : List ℕ) × (p ≡ ready fds)))
Polled-cases interrupted = inl refl
Polled-cases failed = inr (inl refl)
Polled-cases (ready fds) = inr (inr (fds, refl))

pub run_server-stopped :
    (server_fd : ℕ) (s : Server) (last : ℕ) (turns : List Turn)
    → s.running ≡ false
    → run_server server_fd s last turns ≡ record { server = s; calls = []; ended = stopped }
unfolding run_server
run_server-stopped server_fd s last [] h = rw h
run_server-stopped server_fd s last (turn ∷ turns) h = rw h

-- If a signal comes in one of the passes, the loop does not go on polling after it, and nothing that
-- could come after that pass has an effect.
pub run_server-ends :
    (server_fd : ℕ) (s : Server) (last : ℕ) (before : List Turn) (turn : Turn) (later : List Turn)
    → turn.signalled ≡ true
    → (run_server server_fd s last (before ++ turn ∷ later)
        ≡ run_server server_fd s last (before ++ turn ∷ []))
      × ((run_server server_fd s last (before ++ turn ∷ later)).ended ≢ polling)
unfolding run_server signal_handler
run_server-ends server_fd s last [] turn later h = elim (Bool-cases s.running) [
  | inr off ↦ rw (run_server, off) (refl, λ e. cc)
  | inl on ↦ elim (Polled-cases turn.polled) [
    | inl p ↦
        rw (run_server, on, p, h, run_server-stopped server_fd (signal_handler s) last later refl)
          (refl, λ e. cc)
    | inr (inl p) ↦ rw (run_server, on, p) (refl, λ e. cc)
    | inr (inr (fds, p)) ↦
        rw
          (
            run_server,
            on,
            p,
            h,
            run_server-stopped server_fd (signal_handler s) (print_statistics last turn.now).1 later
                refl,
          )
          (refl, λ e. cc)
  ]
]
run_server-ends server_fd s last (t ∷ before) turn later h = elim (Bool-cases s.running) [
  | inr off ↦
      rw
        (
          run_server-stopped server_fd s last (t ∷ before ++ turn ∷ later) off,
          run_server-stopped server_fd s last (t ∷ before ++ turn ∷ []) off,
        )
        (refl, λ e. cc)
  | inl on ↦ elim (Polled-cases t.polled) [
    | inl p ↦ rw (run_server, on, p) (run_server-ends server_fd _ last before turn later h)
    | inr (inl p) ↦ rw (run_server, on, p) (refl, λ e. cc)
    | inr (inr (fds, p)) ↦
        (let (same, over) =
            run_server-ends server_fd (heed t.signalled s) (print_statistics last t.now).1 before
              turn later h in
          rw (run_server, on, p)
            (
              ap (after_calls (handle_events server_fd fds ++ (print_statistics last t.now).0))
                  same,
              over,
            ))
  ]
]
