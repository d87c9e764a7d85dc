-- ===== src/Main/Entry/Exits.antt =====
-- How the program ends.
use progetto.Prelude.{◌≤◌, ℕ, ◌≡◌, ◌≢◌, ◌⊎◌, true, false, none, some}
use progetto.CLib.Memory.{strlen}
use progetto.Config.{default_port}
use progetto.Main.{Server, no_server, start, help, refused, parse_arguments, init_server}
use progetto.Main.Entry.{World, Outcome, exit_success, exit_failure, read_key, give_up}
use progetto.Main.Loop.{Run, run_server, polling, heed}

-- The loop that `main` runs on a started server.
abbrev pub loop : World → Server → Run
loop w s = run_server w.server_fd (heed w.signalled s) w.began w.turns

pub data Ends (w : World) (o : Outcome) : Type 0 where
  helped : parse_arguments default_port w.arguments ≡ help → o ≡ give_up exit_success → Ends w o
  rejected :
      (parse_arguments default_port w.arguments ≡ refused)
        ⊎ ((strlen (read_key w.env_key) ≡ 0) ⊎ ((init_server w.heap w.init).0 ≡ false))
      → o ≡ give_up exit_failure
      → Ends w o
  served :
      (port : ℕ) (s : Server)
      → parse_arguments default_port w.arguments ≡ start port
      → strlen (read_key w.env_key) ≢ 0
      → init_server w.heap w.init ≡ (true, s)
      → 1 ≤ port
      → port ≤ 65535
      → (loop w s).ended ≢ polling
      → o.exit ≡ some exit_success
      → o.server ≡ no_server
      → o.calls ≡ (loop w s).calls
      → Ends w o
  serves :
      (s : Server)
      → init_server w.heap w.init ≡ (true, s)
      → (loop w s).ended ≡ polling
      → o.exit ≡ none
      → o.calls ≡ (loop w s).calls
      → Ends w o
