-- ===== src/Network/Closing.antt =====
-- The connection is closed once.
use mathlib.Core.Option.{some-injective}
use progetto.Gemini.Api.Answers.{answered, generate_ai_response-Generated, crashed, silent}
use progetto.Prelude.{
  ◌&&◌, if◌then◌else◌, ◌≢◌, ◌-◌, length-take, ◌∙◌, sym, List, if_both, none, codes, ◌^◌, ◌<◌, refl,
  some, Option, true, Bytes, false, ℕ, Bool, arith, ◌≡◌, ◌+◌,
}
use progetto.Network.{
  response_text, serve, serve_ai, answer_test, literal, dispatch, process_single_request_and_close,
  GenerateAi, String, serve_test, Handled, refuse, Connection, reply, close,
}
use progetto.Utils.Responses.{utf8, Counters}
use progetto.Utils.Rotation.{language_of, test_response-Answers, counter, Language}
use progetto.Config.{msg_test_dialog_response, msg_ai_dialog_response, max_language_size, msg_error}
use progetto.Protocol.Dialog.{parse_client_dialog_message, ClientMessage}
use progetto.CLib.Memory.{c_str, strlen}
use progetto.Protocol.Receive.{Recv, receive_message, Message}
use progetto.Protocol.Fields.{refused, accepted, parse_client_dialog_message-Reading}
use progetto.Utils.{to_lowercase}
use progetto.Gemini.Api.{generate_ai_response, Curl, Json, AiResponse}

-- A served connection was closed once, or is open because a `send` has not returned.
pub record Served (n : ℕ) (after : Connection) : Type 0 where
  pub closed : after.waiting ≡ false → after.closes ≡ n + 1
  pub still_open : after.waiting ≡ true → after.closes ≡ n

abbrev pub ServedBy : Connection → Handled → Type 0
ServedBy client r =
    (after : Connection) × (i : Counters) × (r ≡ some (after, i)) × Served client.closes after

close-Served : (n : ℕ) (client : Connection) → client.closes ≡ n → Served n (close client)
unfolding close
close-Served n client same = record {
  closed = λ h. ground (arith, same);
  still_open = λ h. ground (arith, same);
}

reply_closes :
    (t : ℕ) (text : Bytes) (client : Connection) → (reply t text client).closes ≡ client.closes
unfolding reply
reply_closes t text client = ground arith

module _ (client : Connection) (t : ℕ) (text : Bytes) (i : Counters) where
  replied : ServedBy client (some (close (reply t text client), i))
  replied = (
    close (reply t text client),
    i,
    refl,
    close-Served client.closes (reply t text client) (reply_closes t text client),
  )

refused-Served :
    (text : String) (client : Connection) (i : Counters) → ServedBy client (refuse text client i)
unfolding refuse
refused-Served text client i = replied client msg_error (literal (codes text)) i

answer_test-Served :
    (text : String) (i : Counters) (client : Connection)
    → ServedBy client (answer_test (some (some text, i)) client)
unfolding answer_test
answer_test-Served text i client = replied client msg_test_dialog_response (literal (utf8 text)) i

parsed_language :
    (copied : Bool) (content : Bytes) {m : ClientMessage}
    → parse_client_dialog_message copied (some content) ≡ some m
    → strlen m.language < max_language_size
parsed_language true content {m} h = elim (parse_client_dialog_message-Reading content) [
  | accepted m' p l c more e holds r ↦
      let same_message : m' ≡ m = some-injective _ _ (sym r ∙ h) in
      rw (← same_message, holds.language) (omega (arith, length-take {0} (max_language_size - 1) l))
  | refused few r ↦ cc
]
parsed_language false content h = absurd (unfold parse_client_dialog_message in ground arith)

-- No counter has reached the sign bit.
abbrev pub Counting : Counters → Type 0
Counting i = (l : Language) → counter l i < 2 ^ 31

serve_test-Served :
    (request : Option ClientMessage) (client : Connection) (i : Counters)
    → Counting i
    → ((m : ClientMessage) → request ≡ some m → strlen m.language < max_language_size)
    → ServedBy client (serve_test request client i)
unfolding serve_test
serve_test-Served none client i h fits = refused-Served "Invalid request format" client i
serve_test-Served (some m) client i h fits =
    let a =
      test_response-Answers m.language i (fits m refl)
        (h (language_of (to_lowercase (c_str m.language)))) in
    rw a.answers (answer_test-Served _ a.after client)

-- The AI client does not crash.
abbrev pub IsSafe : GenerateAi → Type 0
IsSafe ai = (p l c : Bytes) → ai p l c ≢ none

serve_ai-Served :
    (ai : GenerateAi) (request again : Option ClientMessage) (client : Connection) (i : Counters)
    → IsSafe ai
    → Counting i
    → ((m : ClientMessage) → again ≡ some m → strlen m.language < max_language_size)
    → ServedBy client (serve_ai ai request again client i)
unfolding serve_ai
serve_ai-Served ai none again client i safe h fits =
    refused-Served "Invalid request format" client i
serve_ai-Served ai (some m) again client i safe h fits =
    if_both (ServedBy client) _ (refused-Served "Missing required fields" client i)
      (ai_answered (ai m.personality m.language m.conversation) (safe _ _ _))
  where
    ai_answered :
        (o : Option (Bool × AiResponse))
        → o ≢ none
        → ServedBy client (elim o [
          | none ↦ none
          | some (ok, answer) ↦
              if ok && answer.success
              then some
                  (close (reply msg_ai_dialog_response (response_text answer.response) client), i)
              else serve_test again client i
        ])
    ai_answered none answers = absurd (answers refl)
    ai_answered (some (ok, answer)) answers =
        if_both (ServedBy client) (ok && answer.success)
          (replied client msg_ai_dialog_response (response_text answer.response) i)
          (serve_test-Served again client i h fits)

module _ (copied copied_again : Bool) (ai : GenerateAi) (safe : IsSafe ai) where
  dispatch-Served :
      (msg : Message) (client : Connection) (i : Counters)
      → Counting i
      → ServedBy client (dispatch copied copied_again ai msg client i)
  unfolding dispatch
  dispatch-Served msg client i h =
      if_both (ServedBy client) _
        (serve_ai-Served ai _ _ client i safe h (λ m. parsed_language copied_again msg.content))
        (if_both (ServedBy client) _
          (serve_test-Served _ client i h (λ m. parsed_language copied msg.content))
          (refused-Served "Unknown message type" client i))

  serve-Served :
      (r : Option Message × List Recv) (client : Connection) (i : Counters)
      → Counting i
      → ServedBy client (serve copied copied_again ai r client i)
  unfolding serve
  serve-Served (none, inbox) client i h =
      (_, i, refl, close-Served client.closes (record client { inbox = inbox }) refl)
  serve-Served (some msg, inbox) client i h =
      dispatch-Served msg (record client { inbox = inbox }) i h

  -- Whatever arrives, whatever `send` returns, whether the AI answers and wherever `strdup` fails,
  -- a request is handled without undefined behaviour, and its connection is closed exactly once,
  -- or not yet while a `send` has not returned, if the AI client does not crash and no counter of
  -- the answers has reached 2 ^ 31.
  pub process_single_request_and_close-Served :
      (client : Connection) (i : Counters)
      → Counting i
      → ServedBy client (process_single_request_and_close copied copied_again ai client i)
  unfolding process_single_request_and_close
  process_single_request_and_close-Served client i h =
      serve-Served (receive_message client.inbox) client i h

-- The Gemini client does not crash if the text of an answer is never a JSON null.
generate_ai_response-IsSafe :
    (json : Json) (curl : Curl) (api_key : Bytes)
    → ((o : json.Object) → json.get_string o ≢ none)
    → IsSafe (generate_ai_response json curl api_key)
generate_ai_response-IsSafe json curl api_key texts p l c e =
    elim (generate_ai_response-Generated json curl api_key p l c) [
      | answered m s root text r parsed found got o ok cut size ↦ cc
      | silent r o quiet ↦ cc
      | crashed m root text parsed found null o ↦ texts text null
    ]
