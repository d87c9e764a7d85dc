-- ===== src/Protocol/Delivery.antt =====
-- What `send_message` puts on the wire.
use native.Mathlib.Decide.{dec_lt}
use progetto.Prelude.{
  ◌∷◌, All, lt→ltb, Option, append_assoc, drop-drop, ◌∙◌, length-drop, take-append-drop, ap, sym,
  drop_all, take, arith, [], length, ◌+◌, ◌≢◌, drop, ◌++◌, List, ℕ, zero, suc, ◌≤◌, ◌<◌, ◌≡◌, refl,
  Bytes,
}
use progetto.Protocol.Send.{
  text_of, gave_up, frame, unfinished, output_first, delivered, SendResult, sent, would_block,
  broken, Sending, Status, send_loop, send_message,
}

-- The output is the rest of the message up to some point, and that point is its end exactly when
-- the loop returns 0.
pub record Sends (unsent : Bytes) (s : Sending) : Type 0 where
  pub missing : Bytes
  pub splits : unsent ≡ s.output ++ missing
  pub complete : s.status ≡ delivered → missing ≡ []
  pub incomplete : s.status ≢ delivered → missing ≢ []

Sends-idle :
    (msg : Bytes) (total : ℕ) (st : Status) (rs : List SendResult)
    → st ≢ delivered
    → total < length msg
    → Sends (drop total msg) (record { status = st; output = []; pending = rs })
Sends-idle msg total st rs h lt = record {
  missing = drop total msg;
  splits = refl;
  complete = λ e. absurd (h e);
  incomplete = λ _ e. absurd (omega (arith, ap length e, length-drop {0} total msg));
}

Sends-done :
    (msg : Bytes) (total : ℕ) (rs : List SendResult)
    → length msg ≤ total
    → Sends (drop total msg) (record { status = delivered; output = []; pending = rs })
Sends-done msg total rs h = record {
  missing = [];
  splits = drop_all total msg h;
  complete = λ _. refl;
  incomplete = λ ne. absurd (ne refl);
}

Sends-chunk :
    (msg : Bytes) (total n : ℕ) {s : Sending}
    → Sends (drop (total + n) msg) s
    → Sends (drop total msg) (output_first (take n (drop total msg)) s)
Sends-chunk msg total n s = record {
  missing = s.missing;
  splits =
      sym (take-append-drop n (drop total msg))
      ∙ ap (◌++◌ (take n (drop total msg))) (drop-drop n total msg ∙ s.splits)
      ∙ sym (append_assoc (take n (drop total msg)) _ s.missing);
  complete = s.complete;
  incomplete = s.incomplete;
}

send_loop_done :
    (msg : Bytes) (total : ℕ) (rs : List SendResult)
    → length msg ≤ total
    → send_loop msg total rs ≡ record { status = delivered; output = []; pending = rs }
unfolding send_loop
send_loop_done msg total [] h = ground arith
send_loop_done msg total (broken ∷ rs) h = ground arith
send_loop_done msg total (would_block ∷ rs) h = ground arith
send_loop_done msg total (sent zero ∷ rs) h = ground arith
send_loop_done msg total (sent (suc n) ∷ rs) h = ground arith

-- The loop test, once for all results of `send`.
if_running :
    (msg : Bytes) (total : ℕ) (rs : List SendResult)
    → (total < length msg → Sends (drop total msg) (send_loop msg total rs))
    → Sends (drop total msg) (send_loop msg total rs)
if_running msg total rs run = elim (dec_lt total (length msg)) [
  | yes more ↦ run more
  | no done ↦ rw (send_loop_done msg total rs (omega arith)) (Sends-done msg total rs (omega arith))
]

send_loop-Sends :
    (msg : Bytes) (total : ℕ) (rs : List SendResult)
    → Sends (drop total msg) (send_loop msg total rs)
unfolding send_loop
send_loop-Sends msg total [] =
    if_running msg total []
      λ more. rw (lt→ltb _ _ more) (Sends-idle msg total unfinished [] (cc) more)
send_loop-Sends msg total (broken ∷ rs) =
    if_running msg total (broken ∷ rs)
      λ more. rw (lt→ltb _ _ more) (Sends-idle msg total gave_up rs (cc) more)
send_loop-Sends msg total (sent zero ∷ rs) =
    if_running msg total (sent zero ∷ rs)
      λ more. rw (lt→ltb _ _ more) (Sends-idle msg total gave_up rs (cc) more)
send_loop-Sends msg total (would_block ∷ rs) =
    if_running msg total (would_block ∷ rs)
      λ more. rw (lt→ltb _ _ more) (send_loop-Sends msg total rs)
send_loop-Sends msg total (sent (suc n) ∷ rs) = if_running msg total (sent (suc n) ∷ rs) λ more.
    rw (lt→ltb _ _ more) (Sends-chunk msg total (suc n) (send_loop-Sends msg (total + suc n) rs))

-- What goes out is the framed message up to some point; it is the whole frame exactly when
-- `send_message` returns 0, whatever `send` returns.
pub send_message-Sends :
    (msg_type : ℕ) (payload : Option Bytes) (rs : List SendResult)
    → Sends (frame msg_type (text_of payload)) (send_message msg_type payload rs)
unfolding send_message
send_message-Sends msg_type payload rs = send_loop-Sends (frame msg_type (text_of payload)) 0 rs

-- A result of `send` after which the loop goes on.
abbrev pub IsHealthy : SendResult → Type 0
IsHealthy (sent zero) = ⊥
IsHealthy (sent (suc n)) = Unit
IsHealthy would_block = Unit
IsHealthy broken = ⊥

abbrev pub writes : List SendResult → ℕ
writes [] = 0
writes (sent n ∷ rs) = suc (writes rs)
writes (would_block ∷ rs) = writes rs
writes (broken ∷ rs) = writes rs

send_loop_total :
    (msg : Bytes) (total : ℕ) (rs : List SendResult)
    → All IsHealthy rs
    → length msg ≤ total + writes rs
    → (send_loop msg total rs).status ≡ delivered
unfolding send_loop
send_loop_total msg total [] h enough = ground arith
send_loop_total msg total (broken ∷ rs) h enough = absurd h.0
send_loop_total msg total (sent zero ∷ rs) h enough = absurd h.0
send_loop_total msg total (would_block ∷ rs) h enough =
    ground (arith, send_loop_total msg total rs h.1)
send_loop_total msg total (sent (suc n) ∷ rs) h enough =
    ground (arith, send_loop_total msg (total + suc n) rs h.1)

-- Without an error of the socket, as many calls of `send` that take something as the frame has
-- bytes are enough for `send_message` to return 0, however often it is told to try again.
pub send_message_total :
    (msg_type : ℕ) (payload : Option Bytes) (rs : List SendResult)
    → All IsHealthy rs
    → length (frame msg_type (text_of payload)) ≤ writes rs
    → (send_message msg_type payload rs).status ≡ delivered
unfolding send_message
send_message_total msg_type payload rs h enough =
    send_loop_total (frame msg_type (text_of payload)) 0 rs h (omega arith)
