-- ===== src/Protocol/Dialog.antt =====
-- `parse_client_dialog_message`.
use progetto.Prelude.{
  ◌==◌, true, none, some, if◌then◌else◌, Bytes, Option, ℕ, zero, suc, Bool, List, [], ◌∷◌,
}
use progetto.CLib.Memory.{strlen, c_str}
use progetto.CLib.Tokens.{strtok}
use progetto.Config.{max_personality_size, max_language_size, max_conversation_size}
use progetto.Protocol.Receive.{cleared}
use progetto.Utils.{safe_strncpy}

-- The three arrays.
pub record ClientMessage : Type 0 where
  pub personality : Bytes
  pub language : Bytes
  pub conversation : Bytes
  pub is_valid : Bool

-- The loop over `strtok`, with the token at hand and `3 - part_count` parts to fill.
unfoldable pub collect_parts : ℕ → Option (Bytes × Bytes) → List Bytes
unfolding strtok
collect_parts zero token = []
collect_parts (suc n) none = []
collect_parts (suc n) (some (token, rest)) = token ∷ collect_parts n (strtok b'|' rest)

-- `part_count != 3`, and the copies.
unfoldable pub copy_parts : List Bytes → Option ClientMessage
unfolding safe_strncpy cleared
copy_parts (p ∷ l ∷ c ∷ []) = some (record {
  personality = safe_strncpy (cleared max_personality_size) p max_personality_size;
  language = safe_strncpy (cleared max_language_size) l max_language_size;
  conversation = safe_strncpy (cleared max_conversation_size) c max_conversation_size;
  is_valid = true;
})
copy_parts _ = none

-- `none` for the data is NULL, and an array otherwise. `malloc` may fail: `copied` is whether
-- `strdup` returned a copy.
unfoldable pub parse_client_dialog_message : Bool → Option Bytes → Option ClientMessage
unfolding copy_parts collect_parts c_str
parse_client_dialog_message copied none = none
parse_client_dialog_message copied (some content) =
    if strlen content == 0
    then none
    else if copied
    then copy_parts (collect_parts 3 (strtok b'|' (c_str content)))
    else none
