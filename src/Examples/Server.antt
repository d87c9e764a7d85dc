-- ===== src/Examples/Server.antt =====
-- Requests through the server: Server/network.c.
use progetto.Prelude.{replicate, ◌∷◌, some, false, [], true, codes, arith, Bytes, ◌≡◌, refl}
use progetto.Network.{process_single_request_and_close, Connection, GenerateAi}
use progetto.Network.Closing.{process_single_request_and_close-Served, Counting, ServedBy}
use progetto.Utils.Responses.{utf8, Counters}
use progetto.Examples.Checks.{All-replicate, lacks_lem, lacks}
use progetto.Utils.{same, to_lowercase}
use progetto.Network.Answering.{test_request-Answered, test_answer, Answered, payload_of, IsRequest}
use progetto.Protocol.Lines.{arriving}
use progetto.Protocol.Send.{sent, would_block, frame}
use progetto.Config.{msg_ai_dialog_request, msg_test_dialog_request}
use progetto.CLib.Numbers.{decimal}
use progetto.CLib.Memory.{c_str}
use progetto.Protocol.Delivery.{IsHealthy}

abbrev pub text : Bytes
text = payload_of (codes "kind") (codes "english") (codes "hi") []

abbrev pub client : Connection
client = record {
  inbox = arriving (frame msg_test_dialog_request (some text)) [];
  sends = would_block ∷ replicate 90 (sent 7);
  output = [];
  closes = 0;
  waiting = false;
}

abbrev counters : Counters
counters = record { it = 0; en = 12; es = 0; fr = 0; de = 0; pt = 0 }

-- The AI does not answer.
abbrev pub ai : GenerateAi
ai p l c = some (false, record { response = []; success = false })

pub text-IsRequest : IsRequest (codes "kind") (codes "english") (codes "hi") []
unfolding lacks
text-IsRequest = record {
  personality = (lacks_lem b'|' (codes "kind") refl, (λ e. cc), omega arith);
  language = (lacks_lem b'|' (codes "english") refl, (λ e. cc), omega arith);
  conversation = (lacks_lem b'|' (codes "hi") refl, (λ e. cc), omega arith);
  behind = tt;
  size = omega arith;
  no_nul = lacks_lem 0 text refl;
  no_cr = lacks_lem b'\r' text refl;
  no_lf = lacks_lem b'\n' text refl;
}

test_request-Answered_example :
    (after : Connection) × (i : Counters) × (process_single_request_and_close true true ai client
        counters
      ≡ some (after, i))
    × Answered client after (test_answer (codes "english") counters) []
unfolding to_lowercase same frame decimal c_str utf8
test_request-Answered_example =
    test_request-Answered (codes "kind") (codes "english") (codes "hi") [] [] client counters true
      ai text-IsRequest refl refl (tt, All-replicate IsHealthy 90 {x = sent 7} tt) (omega arith)
      (omega arith)

counters-Counting : Counting counters
counters-Counting l = grind arith

process_single_request_and_close-Served_example :
    ServedBy client (process_single_request_and_close true false ai client counters)
process_single_request_and_close-Served_example =
    process_single_request_and_close-Served true false ai (λ p l c e. cc) client counters
      counters-Counting

abbrev ai_client : Connection
ai_client = record client { inbox = arriving (frame msg_ai_dialog_request (some text)) [] }
