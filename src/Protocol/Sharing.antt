-- ===== src/Protocol/Sharing.antt =====
-- `strtok` keeps its position in static storage: the loop of `parse_client_dialog_message`
-- (Server/protocol.c:256-266) with two worker threads that share it.
pub mod Mixing
use progetto.Prelude.{
  ℕ, zero, suc, Bool, true, false, List, [], ◌∷◌, ◌++◌, Option, none, some, Bytes, if◌then◌else◌,
}
use progetto.CLib.Tokens.{strtok}

abbrev pub bar : ℕ
bar = b'|'

abbrev pub resume : Option (Bytes × Bytes) → Bytes × Option Bytes
resume none = ([], none)
resume (some (token, rest)) = (rest, some token)

-- A call of `strtok` on a string: the static position that it leaves, and the token.
unfoldable pub strtok_from : Bytes → Bytes × Option Bytes
strtok_from s = resume (strtok bar s)

-- A thread before its first call, in the loop with so many parts to fill, and behind the loop.
pub data Parser : Type 0 where
  reads : (data_copy : Bytes) → Parser
  loops : (left : ℕ) (token : Option Bytes) (parts : List Bytes) → Parser
  parsed : (parts : List Bytes) → Parser

abbrev pub in_loop : ℕ → List Bytes → Bytes × Option Bytes → Bytes × Parser
in_loop left parts (position, token) = (position, loops left token parts)

-- One call of `strtok` by a thread, or the end of its loop.
unfoldable pub parser_step : Bytes → Parser → Bytes × Parser
parser_step position (reads data_copy) = in_loop 3 [] (strtok_from data_copy)
parser_step position (loops zero token parts) = (position, parsed parts)
parser_step position (loops (suc n) none parts) = (position, parsed parts)
parser_step position (loops (suc n) (some token) parts) =
    in_loop n (parts ++ token ∷ []) (strtok_from position)
parser_step position (parsed parts) = (position, parsed parts)

-- Two threads and the position that they share.
pub record Threads : Type 0 where
  pub position : Bytes
  pub first : Parser
  pub second : Parser

abbrev pub move_first : Threads → Threads
move_first s =
    let (position, first) = parser_step s.position s.first in
    record s { position = position; first = first }

abbrev pub move_second : Threads → Threads
move_second s =
    let (position, second) = parser_step s.position s.second in
    record s { position = position; second = second }

-- `true` for a step of the first thread.
unfoldable pub interleave : List Bool → Threads → Threads
interleave [] s = s
interleave (true ∷ turns) s = interleave turns (move_first s)
interleave (false ∷ turns) s = interleave turns (move_second s)
