-- ===== src/Network.antt =====
-- Server/network.c: one connection, one request, one answer, then `close`.
pub mod Accept
pub mod Closing
pub mod Answering
pub mod AiAnswering
use progetto.Prelude.{
  ◌&&◌, ◌+◌, ◌-◌, ◌==◌, ◌||◌, if◌then◌else◌, ℕ, Bool, true, false, List, [], ◌∷◌, ◌++◌, Option,
  none, some, Bytes, codes, take,
}
use progetto.CLib.Memory.{c_str, strlen}
use progetto.Config.{
  msg_ai_dialog_request, msg_test_dialog_request, msg_ai_dialog_response, msg_test_dialog_response,
  msg_error, max_ai_response_size,
}
use progetto.Protocol.Receive.{Recv, Message, receive_message}
use Prim.Native.String.{String}
use progetto.Protocol.Send.{Status, SendResult, Sending, unfinished, send_message}
use progetto.Protocol.Dialog.{ClientMessage, parse_client_dialog_message}
use progetto.Utils.{test_response}
use progetto.Utils.Responses.{Counters, Reply, utf8}
use progetto.Gemini.Api.{AiResponse}

-- A client socket: what is still to be read, what `send` is going to return, what was written, and
-- how often it was closed. `waiting` is set where a `send` has not returned; nothing comes after it.
pub record Connection : Type 0 where
  pub inbox : List Recv
  pub sends : List SendResult
  pub output : Bytes
  pub closes : ℕ
  pub waiting : Bool

abbrev pub is_unfinished : Status → Bool
is_unfinished unfinished = true
is_unfinished _ = false

unfoldable pub reply : ℕ → Bytes → Connection → Connection
reply msg_type text client =
    if client.waiting
    then client
    else let s = send_message msg_type (some text) client.sends in
      record client {
        sends = s.pending;
        output = client.output ++ s.output;
        waiting = is_unfinished s.status;
      }

unfoldable pub close : Connection → Connection
close client = if client.waiting then client else record client { closes = client.closes + 1 }

-- A string literal, with its terminator.
abbrev pub literal : Bytes → Bytes
literal s = s ++ 0 ∷ []

-- `snprintf(response_ai, sizeof(response_ai), "%s", ...)`
unfoldable pub response_text : Bytes → Bytes
response_text response = literal (take (max_ai_response_size - 1) (c_str response))

-- `none` where the code's behaviour is undefined.
abbrev pub Handled : Type 0
Handled = Option (Connection × Counters)

unfoldable pub refuse : String → Connection → Counters → Handled
refuse text client i = some (close (reply msg_error (literal (codes text)) client), i)

unfoldable pub answer_test : Option Reply → Connection → Handled
answer_test none client = none
answer_test (some (none, i)) client = none
answer_test (some (some text, i)) client =
    some (close (reply msg_test_dialog_response (literal (utf8 text)) client), i)

-- `case MSG_TEST_DIALOG_REQUEST`, on the parsed request.
unfoldable pub serve_test : Option ClientMessage → Connection → Counters → Handled
serve_test none client i = refuse "Invalid request format" client i
serve_test (some request) client i = answer_test (test_response request.language i) client

-- `generate_ai_response` on the three arrays: whether it returns 0, and the response.
abbrev pub GenerateAi : Type 0
GenerateAi = Bytes → Bytes → Bytes → Option (Bool × AiResponse)

-- `case MSG_AI_DIALOG_REQUEST`: without an AI answer it falls through to the test case, which
-- parses the data again.
unfoldable pub serve_ai :
    GenerateAi → Option ClientMessage → Option ClientMessage → Connection → Counters → Handled
serve_ai ai none again client i = refuse "Invalid request format" client i
serve_ai ai (some request) again client i =
    let fall_through = serve_test again client i in
    if strlen request.personality == 0
      || strlen request.language == 0
      || strlen request.conversation == 0
    then refuse "Missing required fields" client i
    else elim (ai request.personality request.language request.conversation) [
      | none ↦ none
      | some (ok, answer) ↦
          if ok && answer.success
          then some (close (reply msg_ai_dialog_response (response_text answer.response) client), i)
          else fall_through
    ]

-- `malloc` may fail in each `strdup`: `copied` for the first parse, `copied_again` for the other.
unfoldable pub dispatch : Bool → Bool → GenerateAi → Message → Connection → Counters → Handled
dispatch copied copied_again ai msg client i =
    if msg.type == msg_ai_dialog_request
    then serve_ai ai (parse_client_dialog_message copied (some msg.content))
        (parse_client_dialog_message copied_again (some msg.content)) client i
    else if msg.type == msg_test_dialog_request
    then serve_test (parse_client_dialog_message copied (some msg.content)) client i
    else refuse "Unknown message type" client i

unfoldable pub serve :
    Bool → Bool → GenerateAi → Option Message × List Recv → Connection → Counters → Handled
serve copied copied_again ai (none, inbox) client i =
    some (close (record client { inbox = inbox }), i)
serve copied copied_again ai (some msg, inbox) client i =
    dispatch copied copied_again ai msg (record client { inbox = inbox }) i

unfoldable pub process_single_request_and_close :
    Bool → Bool → GenerateAi → Connection → Counters → Handled
process_single_request_and_close copied copied_again ai client i =
    serve copied copied_again ai (receive_message client.inbox) client i
