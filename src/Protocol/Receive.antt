-- ===== src/Protocol/Receive.antt =====
-- `receive_line` and `receive_message`.
use mathlib.Core.Option
use progetto.Prelude.{
  length, ◌++◌, ◌==◌, ltb, some, replicate, if◌then◌else◌, set, none, Bytes, Option, ℕ, zero, suc,
  ◌+◌, ◌-◌, true, false, List, [], ◌∷◌,
}
use progetto.CLib.Memory.{c_str, memcpy}
use progetto.CLib.Numbers.{Conversion, pos, negsuc, strtol}
use progetto.CLib.Tokens.{strchr}
use progetto.Config.{max_message_size}
use progetto.Utils.{trim_whitespace}

-- What `recv` returns for one byte: the byte, 0, or -1.
pub data Recv : Type 0 where
  byte : ℕ → Recv
  closed : Recv
  failed : Recv

-- `int` fields; `content` is the array `data`.
pub record Message : Type 0 where
  pub type : ℕ
  pub len : ℕ
  pub content : Bytes

-- The line, or `none` for -1, and what is left to read. `room` is `buffer_size - 1 - pos`. Where
-- the list ends nothing more arrives within the timeout of the socket: `recv` returns -1.
unfoldable pub receive_line : ℕ → Bytes → List Recv → Option Bytes × List Recv
receive_line zero buffer inbox = (some buffer, inbox)
receive_line (suc room) buffer [] = (none, [])
receive_line (suc room) buffer (closed ∷ inbox) = (none, inbox)
receive_line (suc room) buffer (failed ∷ inbox) = (none, inbox)
receive_line (suc room) buffer (byte ch ∷ inbox) =
    if ch == b'\n' then (some buffer, inbox) else elim (ch == b'\r') [
      | true ↦ receive_line (suc room) buffer inbox
      | false ↦ receive_line room (buffer ++ ch ∷ []) inbox
    ]

abbrev pub line_buffer_size : ℕ
line_buffer_size = max_message_size + 64

-- `*endptr != '\0' || parsed_type < 0 || parsed_type > 1000`
unfoldable pub accept_type : Conversion → Option ℕ
accept_type c = elim c.value [
  | negsuc n ↦ none
  | pos n ↦ elim c.rest [ [] ↦ if ltb 1000 n then none else some n | d ∷ s ↦ none ]
]

-- `msg->data` after its `memset`.
unfoldable pub cleared : ℕ → Bytes
cleared n = replicate n 0

abbrev pub payload_length : Bytes → ℕ
payload_length payload_str =
    if ltb (max_message_size - 1) (length payload_str)
    then max_message_size - 1
    else length payload_str

-- Step 5, on a payload that has no NUL.
unfoldable pub populate : ℕ → Bytes → Message
unfolding memcpy cleared
populate parsed_type payload_str = record {
  type = parsed_type;
  len = payload_length payload_str;
  content =
      set (memcpy (cleared max_message_size) payload_str (payload_length payload_str))
        (payload_length payload_str) 0;
}

unfoldable pub read_type : Bytes → Option ℕ
unfolding accept_type strtol trim_whitespace
read_type type_str = accept_type (strtol (trim_whitespace type_str))

-- Steps 2 to 5, on the bytes of the line buffer in front of its terminator; a NUL among them ends
-- the string earlier.
unfoldable pub parse_line : Bytes → Option Message
parse_line line = if ltb (length line) 2 then none else elim (strchr b'|' (c_str line)) [
  | none ↦ none
  | some (type_str, payload_str) ↦
      Option.map (λ parsed_type. populate parsed_type payload_str) (read_type type_str)
]

abbrev pub parse_received : Option Bytes × List Recv → Option Message × List Recv
parse_received (none, inbox) = (none, inbox)
parse_received (some line, inbox) = (parse_line line, inbox)

unfoldable pub receive_message : List Recv → Option Message × List Recv
unfolding receive_line parse_line strchr c_str read_type populate
receive_message inbox = parse_received (receive_line (line_buffer_size - 1) [] inbox)
