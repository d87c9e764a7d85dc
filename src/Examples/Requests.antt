-- ===== src/Examples/Requests.antt =====
-- Requests: `parse_client_dialog_message` in Server/protocol.c.
use progetto.Prelude.{arith, none, some, codes, true, ◌<◌, Bytes, ◌≡◌, refl}
use progetto.Protocol.Dialog.{parse_client_dialog_message, ClientMessage}
use progetto.CLib.Memory.{strlen, c_str}
use progetto.Protocol.Fields.{
  parse_client_dialog_message_fields, parse_client_dialog_message-Reading, Reading,
}
use progetto.Protocol.Parts.{parse_client_dialog_message-parts}
use progetto.CLib.Tokens.{strtok}
use progetto.Examples.Checks.{lacks_lem, lacks}
use progetto.Utils.{safe_strncpy}
use progetto.Protocol.Receive.{cleared}
use progetto.Config.{max_conversation_size, max_language_size, max_personality_size}

abbrev content : Bytes
content = codes "kind|english|hi there|more"

parse_client_dialog_message-Reading_example :
    Reading content (parse_client_dialog_message true (some content))
parse_client_dialog_message-Reading_example = parse_client_dialog_message-Reading content

parse_client_dialog_message-parts_test :
    (m : ClientMessage) × (parse_client_dialog_message true (some content) ≡ some m)
    × (c_str m.personality ≡ codes "kind")
    × (c_str m.language ≡ codes "english")
    × (c_str m.conversation ≡ codes "hi there")
unfolding c_str lacks
parse_client_dialog_message-parts_test =
    parse_client_dialog_message-parts content (codes "kind") (codes "english") (codes "hi there")
      (codes "|more") refl refl (lacks_lem b'|' (codes "kind") refl, λ e. cc, omega arith)
      (lacks_lem b'|' (codes "english") refl, λ e. cc, omega arith)
      (lacks_lem b'|' (codes "hi there") refl, λ e. cc, omega arith)

abbrev request : ClientMessage
request = record {
  personality = safe_strncpy (cleared max_personality_size) (codes "kind") max_personality_size;
  language = safe_strncpy (cleared max_language_size) (codes "english") max_language_size;
  conversation =
      safe_strncpy (cleared max_conversation_size) (codes "hi there") max_conversation_size;
  is_valid = true;
}

parse_client_dialog_message_fields_test :
    (0 < strlen request.personality)
    × (0 < strlen request.language)
    × (0 < strlen request.conversation)
unfolding parse_client_dialog_message strtok
parse_client_dialog_message_fields_test =
    parse_client_dialog_message_fields content {m = request} refl

-- An empty field is skipped, so the later fields move up.
shifted_test :
    parse_client_dialog_message true (some (codes "a||b|c"))
    ≡ parse_client_dialog_message true (some (codes "a|b|c"))
unfolding parse_client_dialog_message strtok
shifted_test = refl

missing_test : parse_client_dialog_message true (some (codes "a||b")) ≡ none
unfolding parse_client_dialog_message strtok
missing_test = refl
