-- ===== src/Network/AiAnswering.antt =====
-- An AI request that arrives whole is answered by the AI, or like a test request.
use progetto.Prelude.{some, if◌then◌else◌, ◌&&◌, Bool, List, Bytes, ◌≡◌}
use progetto.Network.{response_text, GenerateAi, Connection}
use progetto.Protocol.Receive.{Recv}
use progetto.Gemini.Api.{AiResponse}
use progetto.Utils.Responses.{Counters}
use progetto.Config.{msg_ai_dialog_response}
use progetto.CLib.Memory.{c_str}
use progetto.Protocol.Send.{text_of, frame}
use progetto.Network.Answering.{test_answer}

-- The frame that answers an AI request in language `l`, by what the AI client returns.
abbrev pub ai_answer : Bool × AiResponse → Bytes → Counters → Bytes
ai_answer (ok, answer) l i =
    if ok && answer.success
    then frame msg_ai_dialog_response (text_of (some (response_text answer.response)))
    else test_answer l i

module _ (later : List Recv) (client : Connection) (i : Counters) (l : Bytes) where
  abbrev read : Connection
  read = record client { inbox = later }

-- What the AI client answers to a request depends on the strings in the three arrays.
pub record Asks (ai : GenerateAi) (p l c : Bytes) (answer : Bool × AiResponse) : Type 0 where
  pub asks : (x y z : Bytes) → c_str x ≡ p → c_str y ≡ l → c_str z ≡ c → ai x y z ≡ some answer
