-- ===== src/Network/Answering.antt =====
-- A test request that arrives whole is answered whole.
use progetto.Prelude.{
  ◌%◌, true, get_or, ◌^◌, ap, ◌∙◌, append-nil, ◌<◌, [], Bool, sym, ◌≢◌, ◌∷◌, ◌≤◌, some, length, All,
  false, List, Bytes, ℕ, arith, ◌≡◌, ◌+◌, ◌++◌, Lacks,
}
use progetto.Network.{
  answer_test, serve_test, dispatch, serve, process_single_request_and_close, literal, GenerateAi,
  Connection, reply, close,
}
use progetto.Protocol.Send.{send_message, text_of, frame, SendResult}
use progetto.Protocol.Delivery.{send_message-Sends, send_message_total, writes, IsHealthy}
use progetto.Protocol.Receive.{receive_message, Message, Recv}
use progetto.Utils.Responses.{utf8, Counters}
use progetto.Utils.Rotation.{test_response-Answers, table, counter, language_of}
use progetto.Utils.{to_lowercase}
use progetto.Protocol.Lines.{arriving}
use progetto.Config.{
  max_message_size, max_conversation_size, msg_test_dialog_request, max_language_size,
  max_personality_size, msg_test_dialog_response,
}
use progetto.Protocol.Parts.{parse_client_dialog_message-parts, IsTail}
use progetto.Protocol.RoundTrip.{receive_message-frame}
use progetto.Protocol.Dialog.{parse_client_dialog_message, ClientMessage}
use progetto.CLib.Memory.{c_str}
use progetto.Utils.Growth.{Answers-Grows, Grows}

-- What `send_message` writes when nothing goes wrong.
send_message_output :
    (t : ℕ) (text : Bytes) (rs : List SendResult)
    → All IsHealthy rs
    → length (frame t (text_of (some text))) ≤ writes rs
    → (send_message t (some text) rs).output ≡ frame t (text_of (some text))
send_message_output t text rs healthy enough =
    let s = send_message-Sends t (some text) rs in
    let whole = s.complete (send_message_total t (some text) rs healthy enough) in
    sym (append-nil _)
    ∙ ap (λ m. (send_message t (some text) rs).output ++ m) (sym whole)
    ∙ sym s.splits

module _ (t : ℕ) (text : Bytes) (client : Connection) where
  reply_whole :
      client.waiting ≡ false
      → All IsHealthy client.sends
      → length (frame t (text_of (some text))) ≤ writes client.sends
      → ((reply t text client).output ≡ client.output ++ frame t (text_of (some text)))
        × ((reply t text client).waiting ≡ false)
        × ((reply t text client).closes ≡ client.closes)
        × ((reply t text client).inbox ≡ client.inbox)
  unfolding reply
  reply_whole free healthy enough =
      let whole = send_message_output t text client.sends healthy enough in
      let total = send_message_total t (some text) client.sends healthy enough in
      (ground arith, ground arith, ground arith, ground arith)

abbrev pub payload_of : Bytes → Bytes → Bytes → Bytes → Bytes
payload_of p l c tail = p ++ b'|' ∷ (l ++ b'|' ∷ (c ++ tail))

-- Three fields that fit their arrays, in a payload that fits a message and one line.
pub record IsRequest (p l c tail : Bytes) : Type 0 where
  pub personality : Lacks b'|' p × (p ≢ []) × (length p < max_personality_size)
  pub language : Lacks b'|' l × (l ≢ []) × (length l < max_language_size)
  pub conversation : Lacks b'|' c × (c ≢ []) × (length c < max_conversation_size)
  pub behind : IsTail tail
  pub size : length (payload_of p l c tail) < max_message_size
  pub no_nul : Lacks 0 (payload_of p l c tail)
  pub no_cr : Lacks b'\r' (payload_of p l c tail)
  pub no_lf : Lacks b'\n' (payload_of p l c tail)

-- The text of the answer to a test request in language `l`.
abbrev pub test_text : Bytes → Counters → Bytes
test_text l i =
    let lang = language_of (to_lowercase l) in
    literal (utf8 (get_or (table lang) (counter lang i % 10) ""))

-- The frame that answers a test request in language `l`.
abbrev pub test_answer : Bytes → Counters → Bytes
test_answer l i = frame msg_test_dialog_response (text_of (some (test_text l i)))

-- The socket after a whole answer.
pub record Answered (client after : Connection) (answer : Bytes) (later : List Recv) : Type 0 where
  pub output : after.output ≡ client.output ++ answer
  pub closes : after.closes ≡ client.closes + 1
  pub inbox : after.inbox ≡ later
  pub waiting : after.waiting ≡ false

module _ (t : ℕ) (text : Bytes) (client : Connection) (later : List Recv) where
  pub closed_whole :
      client.waiting ≡ false
      → All IsHealthy client.sends
      → length (frame t (text_of (some text))) ≤ writes client.sends
      → Answered client
          (close (reply t text (record client { inbox = later })))
          (frame t (text_of (some text)))
          later
  unfolding close
  closed_whole free healthy enough =
      let read : Connection = record client { inbox = later } in
      let (output, returned, same, kept) = reply_whole t text read free healthy enough in
      record {
        output = ground (arith, output, returned);
        closes = ground (arith, same, returned);
        inbox = ground (arith, kept, returned);
        waiting = ground (arith, returned);
      }

pub process_received :
    (copied copied_again : Bool) (ai : GenerateAi) (client : Connection) (i : Counters)
    {arrived later : List Recv} {m : Message}
    → client.inbox ≡ arrived
    → receive_message arrived ≡ (some m, later)
    → process_single_request_and_close copied copied_again ai client i
      ≡ dispatch copied copied_again ai m (record client { inbox = later }) i
unfolding process_single_request_and_close serve
process_received copied copied_again ai client i e received =
    ap (λ b. serve copied copied_again ai (receive_message b) client i) e
    ∙ ap (λ r. serve copied copied_again ai r client i) received

dispatch_test :
    (copied copied_again : Bool) (ai : GenerateAi) (m : Message) (client : Connection)
    (i : Counters)
    → m.type ≡ msg_test_dialog_request
    → dispatch copied copied_again ai m client i
      ≡ serve_test (parse_client_dialog_message copied (some m.content)) client i
unfolding dispatch
dispatch_test copied copied_again ai m client i typed = rw typed

pub serve_test_answers :
    (request : ClientMessage) (l : Bytes) (client : Connection) (i : Counters)
    → c_str request.language ≡ l
    → length l < max_language_size
    → counter (language_of (to_lowercase l)) i < 2 ^ 31
    → (i' : Counters) × (serve_test (some request) client i
        ≡ some (close (reply msg_test_dialog_response (test_text l i) client), i'))
      × Grows i i'
unfolding serve_test answer_test
serve_test_answers request l client i e fits h =
    let a = test_response-Answers request.language i (rw e fits) (rw e h) in
    (a.after, rw (a.answers, e), Answers-Grows _ i a (rw e h))

module _ (p l c tail : Bytes) (later : List Recv) (client : Connection) (i : Counters) where
  pub test_request-Grows :
      (copied_again : Bool) (ai : GenerateAi)
      → IsRequest p l c tail
      → client.inbox ≡ arriving (frame msg_test_dialog_request (some (payload_of p l c tail))) later
      → client.waiting ≡ false
      → All IsHealthy client.sends
      → length (test_answer l i) ≤ writes client.sends
      → counter (language_of (to_lowercase l)) i < 2 ^ 31
      → (after : Connection) × (i' : Counters) × (process_single_request_and_close true copied_again
            ai client i
          ≡ some (after, i'))
        × Answered client after (test_answer l i) later
        × Grows i i'
  test_request-Grows copied_again ai q arrives free healthy enough h =
      let (m, received, typed, text) =
        receive_message-frame msg_test_dialog_request (payload_of p l c tail) later (omega arith)
          q.size q.no_nul q.no_cr q.no_lf in
      let (request, parsed, _, lang, _) =
        parse_client_dialog_message-parts m.content p l c tail text q.behind q.personality
          q.language q.conversation in
      let read : Connection = record client { inbox = later } in
      let (i', answers, grows) = serve_test_answers request l read i lang q.language.2 h in
      (
        close (reply msg_test_dialog_response (test_text l i) read),
        i',
        process_received true copied_again ai client i arrives received
            ∙ dispatch_test true copied_again ai m read i typed
            ∙ ap (λ r. serve_test r read i) parsed
            ∙ answers,
        closed_whole msg_test_dialog_response (test_text l i) client later free healthy enough,
        grows,
      )

  -- A test request in one frame, with three fields that fit their arrays, is answered by the whole
  -- frame of the text that is next in its language, and the connection is closed once, if `strdup`
  -- succeeds, the socket is healthy and takes enough, and the counter is below 2 ^ 31.
  pub test_request-Answered :
      (copied_again : Bool) (ai : GenerateAi)
      → IsRequest p l c tail
      → client.inbox ≡ arriving (frame msg_test_dialog_request (some (payload_of p l c tail))) later
      → client.waiting ≡ false
      → All IsHealthy client.sends
      → length (test_answer l i) ≤ writes client.sends
      → counter (language_of (to_lowercase l)) i < 2 ^ 31
      → (after : Connection) × (i' : Counters) × (process_single_request_and_close true copied_again
            ai client i
          ≡ some (after, i'))
        × Answered client after (test_answer l i) later
  test_request-Answered copied_again ai q arrives free healthy enough h =
      let (after, i', handled, answered, _) =
        test_request-Grows copied_again ai q arrives free healthy enough h in
      (after, i', handled, answered)
