-- ===== src/Main/Entry.antt =====
-- Server/main.c: `main`, from the environment and the arguments to the exit code.

pub mod Exits
use mathlib.Core.Option
use progetto.Prelude.{
  ◌==◌, if◌then◌else◌, ℕ, Bool, true, false, List, [], Option, none, some, Bytes,
}
use progetto.CLib.Memory.{strlen}
use progetto.Config.{default_port}
use progetto.Main.{
  Server, no_server, Parsed, start, help, refused, parse_arguments, InitCalls, init_server,
  cleanup_server,
}
use progetto.Main.Loop.{Turn, Call, Run, run_server, Ended, stopped, broken, polling, heed}
use progetto.Protocol.Receive.{cleared}
use progetto.ThreadPool.TaskList.{Heap}
use progetto.ThreadPool.State.{ThreadPool}
use progetto.ThreadPool.Lifetime.{Held}
use progetto.Utils.{safe_strncpy}

pub data Exit : Type 0 where
  exit_success : Exit
  exit_failure : Exit

-- What `main` gets from outside: the environment variable, the arguments after the program's name,
-- the calls of `init_server` and the number of its socket, whether a signal comes between
-- `init_server` and the loop, the time at which the loop begins, the passes of the loop, and what
-- the accepted connections and the threads have made of the pool when it ends.
pub record World : Type 0 where
  pub env_key : Option Bytes
  pub arguments : List Bytes
  pub heap : Heap
  pub init : InitCalls
  pub server_fd : ℕ
  pub signalled : Bool
  pub began : ℕ
  pub turns : List Turn
  pub worked : ThreadPool × Held → ThreadPool × Held

-- `none` for the exit code while the loop polls; the server, the calls of the loop, and what was
-- held of the pool when its memory was freed.
pub record Outcome : Type 0 where
  pub exit : Option Exit
  pub server : Server
  pub calls : List Call
  pub pool_left : Option Held

abbrev pub key_size : ℕ
key_size = 256

unfoldable pub read_key : Option Bytes → Bytes
read_key none = cleared key_size
read_key (some env_key) = safe_strncpy (cleared key_size) env_key key_size

abbrev pub give_up : Exit → Outcome
give_up exit = record { exit = some exit; server = no_server; calls = []; pool_left = none }

-- Lines 350 to 355, with the fuel for the queued tasks, unless the loop still polls.
abbrev pub clean_up : ℕ → (ThreadPool × Held → ThreadPool × Held) → Run → Ended → Outcome
clean_up n worked r polling = record {
  exit = none;
  server = r.server;
  calls = r.calls;
  pool_left = none;
}
clean_up n worked r _ =
    let (server, left) =
      cleanup_server n (record r.server { pool = Option.map worked r.server.pool }) in
    record { exit = some exit_success; server = server; calls = r.calls; pool_left = left }

-- Lines 347 to 355.
unfoldable pub run_and_clean : ℕ → World → Server → Outcome
run_and_clean n w s =
    let r = run_server w.server_fd (heed w.signalled s) w.began w.turns in
    clean_up n w.worked r r.ended

-- Lines 339 to 355.
unfoldable pub initialize_and_run : ℕ → World → Outcome
initialize_and_run n w =
    let (ok, s) = init_server w.heap w.init in
    if ok then run_and_clean n w s else record (give_up exit_failure) { server = s }

unfoldable pub main : ℕ → World → Outcome
main n w = elim (parse_arguments default_port w.arguments) [
  | help ↦ give_up exit_success
  | refused ↦ give_up exit_failure
  | start port ↦
      if strlen (read_key w.env_key) == 0 then give_up exit_failure else initialize_and_run n w
]
