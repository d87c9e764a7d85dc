-- ===== src/Protocol/Send.antt =====
-- `send_message`.
use progetto.Prelude.{
  zero, drop, suc, length, none, ltb, if◌then◌else◌, some, take, Bytes, Option, ℕ, ◌+◌, ◌-◌, List,
  [], ◌∷◌, ◌++◌,
}
use progetto.CLib.Memory.{c_str}
use progetto.CLib.Numbers.{decimal}
use progetto.Config.{max_message_size}

-- What `send` returns: a count of bytes, -1 with EAGAIN or EWOULDBLOCK, or -1 with another error.
pub data SendResult : Type 0 where
  sent : ℕ → SendResult
  would_block : SendResult
  broken : SendResult

-- 0, -1, or no return yet: the results of `send` that were given are used up.
pub data Status : Type 0 where
  delivered gave_up unfinished : Status

pub record Sending : Type 0 where
  pub status : Status
  pub output : Bytes
  pub pending : List SendResult

abbrev pub message_buffer_size : ℕ
message_buffer_size = max_message_size + 32

-- `snprintf` of `"%d|%s\n"` or `"%d|\n"`: the string, cut to the array.
unfoldable pub frame : ℕ → Option Bytes → Bytes
frame msg_type none = take (message_buffer_size - 1) (decimal msg_type ++ b'|' ∷ b'\n' ∷ [])
frame msg_type (some text) =
    take (message_buffer_size - 1) (decimal msg_type ++ b'|' ∷ (text ++ b'\n' ∷ []))

abbrev pub output_first : Bytes → Sending → Sending
output_first chunk s = record s { output = chunk ++ s.output }

-- The loop, with `total_sent` bytes gone; `output` is what the kernel takes from here on.
unfoldable pub send_loop : Bytes → ℕ → List SendResult → Sending
send_loop msg total_sent [] =
    if ltb total_sent (length msg)
    then record { status = unfinished; output = []; pending = [] }
    else record { status = delivered; output = []; pending = [] }
send_loop msg total_sent (broken ∷ rs) =
    if ltb total_sent (length msg)
    then record { status = gave_up; output = []; pending = rs }
    else record { status = delivered; output = []; pending = broken ∷ rs }
send_loop msg total_sent (would_block ∷ rs) =
    let again = send_loop msg total_sent rs in
    if ltb total_sent (length msg)
    then again
    else record { status = delivered; output = []; pending = would_block ∷ rs }
send_loop msg total_sent (sent zero ∷ rs) =
    if ltb total_sent (length msg)
    then record { status = gave_up; output = []; pending = rs }
    else record { status = delivered; output = []; pending = sent zero ∷ rs }
send_loop msg total_sent (sent (suc n) ∷ rs) =
    let later =
      output_first (take (suc n) (drop total_sent msg)) (send_loop msg (total_sent + suc n) rs) in
    if ltb total_sent (length msg)
    then later
    else record { status = delivered; output = []; pending = sent (suc n) ∷ rs }

-- `data && strlen(data) > 0`; the other case prints no payload.
abbrev pub text_of : Option Bytes → Option Bytes
text_of none = none
text_of (some array) = elim (c_str array) [ [] ↦ none | c ∷ s ↦ some (c ∷ s) ]

unfoldable pub send_message : ℕ → Option Bytes → List SendResult → Sending
unfolding frame send_loop c_str decimal
send_message msg_type payload rs = send_loop (frame msg_type (text_of payload)) 0 rs
