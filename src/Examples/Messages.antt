-- ===== src/Examples/Messages.antt =====
-- Messages on the wire: Server/protocol.c.
use progetto.Prelude.{arith, ◌∷◌, codes, [], none, some, Bytes, List, ◌≡◌, refl}
use progetto.Protocol.Receive.{receive_line, populate, Message, receive_message, closed, failed}
use progetto.Protocol.Send.{
  broken, would_block, delivered, text_of, sent, SendResult, frame, send_message,
}
use progetto.Protocol.Lines.{receive_line-Outcome, Outcome, arriving}
use progetto.Protocol.Delivery.{send_message-Sends, send_message_total, Sends}
use progetto.Protocol.Messages.{receive_message-IsMessage, IsMessage}
use progetto.CLib.Memory.{c_str}
use progetto.Protocol.RoundTrip.{receive_message-frame}
use progetto.Examples.Checks.{lacks_lem, lacks}
use progetto.CLib.Numbers.{decimal}

abbrev hello : Bytes
hello = codes "hello"

receive_message-frame_example :
    (m : Message) × (receive_message (arriving (frame 4 (some hello)) (closed ∷ []))
      ≡ (some m, closed ∷ []))
    × (m.type ≡ 4)
    × (c_str m.content ≡ hello)
unfolding lacks
receive_message-frame_example =
    receive_message-frame 4 hello (closed ∷ []) (omega arith) (omega arith) (lacks_lem 0 hello refl)
      (lacks_lem b'\r' hello refl) (lacks_lem b'\n' hello refl)

abbrev hello_message : Message
hello_message = populate 4 hello

receive_message-IsMessage_example : IsMessage hello_message
unfolding receive_message
receive_message-IsMessage_example =
    receive_message-IsMessage (arriving (codes "4|hello\r\n") []) {m = hello_message} {later = []}
      refl

receive_line-Outcome_example :
    Outcome 3 []
      (arriving (codes "ab\r\ncd") [])
      (receive_line 3 [] (arriving (codes "ab\r\ncd") []))
receive_line-Outcome_example = receive_line-Outcome 3 [] (arriving (codes "ab\r\ncd") [])

abbrev results : List SendResult
results = sent 3 ∷ would_block ∷ sent 2 ∷ broken ∷ []

send_message-Sends_example :
    Sends (frame 5 (text_of (some (codes "gone")))) (send_message 5 (some (codes "gone")) results)
send_message-Sends_example = send_message-Sends 5 (some (codes "gone")) results

abbrev steady : List SendResult
steady = sent 1 ∷ would_block ∷ sent 2 ∷ sent 9 ∷ []

send_message_total_test : (send_message 5 none steady).status ≡ delivered
unfolding frame decimal
send_message_total_test = send_message_total 5 none steady (tt, (tt, (tt, (tt, tt)))) (omega arith)

-- Tests of single runs.
output_test : (send_message 5 (some (codes "gone")) results).output ≡ codes "5|gon"
unfolding send_message
output_test = refl

refused_test : (receive_message (arriving (codes "1001|x\n") [])).0 ≡ none
unfolding receive_message
refused_test = refl

no_bar_test : (receive_message (arriving (codes "12\n") [])).0 ≡ none
unfolding receive_message
no_bar_test = refl

broken_off_test : (receive_message (arriving (codes "1|ab") (failed ∷ []))).0 ≡ none
unfolding receive_message
broken_off_test = refl
