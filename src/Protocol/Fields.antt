-- ===== src/Protocol/Fields.antt =====
-- What `parse_client_dialog_message` makes of a payload.
use mathlib.Core.List.{cons-ne-nil}
use mathlib.Core.Option.{some-injective}
use progetto.Prelude.{
  sym, nil_of_length, take-pos, false, ◌==◌, Bool-cases, ◌∙◌, true, ◌-◌, none, arith, [], some, ◌≢◌,
  length, Option, List, Lacks, ◌<◌, All, ◌∷◌, ap, inr, inl, take, ℕ, zero, suc, ◌≡◌, refl, Bytes,
}
use progetto.Protocol.Dialog.{parse_client_dialog_message, copy_parts, ClientMessage, collect_parts}
use progetto.CLib.Tokens.{split-break_at, strtok-TakesField, split, keep_nonempty, strtok}
use progetto.CLib.Memory.{strlen, c_str_self, c_str-Lacks, c_str}
use progetto.Config.{max_conversation_size, max_language_size, max_personality_size}
use progetto.Utils.{safe_strncpy}
use progetto.Protocol.Receive.{cleared}
use progetto.Utils.Copying.{safe_strncpy_lem}
use progetto.Protocol.Messages.{length-cleared}

-- The loop over `strtok` yields the first nonempty fields between the bars.
collect_parts-take :
    (n : ℕ) (s : Bytes) → collect_parts n (strtok b'|' s) ≡ take n (keep_nonempty (split b'|' s))
unfolding collect_parts
collect_parts-take zero s = refl
collect_parts-take (suc n) s = elim (strtok-TakesField b'|' s) [
  | inl (e, fields) ↦ rw (e, fields)
  | inr (token, rest, e, fields) ↦ rw (e, fields) (ap (◌∷◌ token) (collect_parts-take n rest))
]

abbrev pub fields : Bytes → List Bytes
fields content = keep_nonempty (split b'|' (c_str content))

-- The three arrays hold `p`, `l` and `c`, each cut to its array.
pub record Holds (m : ClientMessage) (p l c : Bytes) : Type 0 where
  pub personality : c_str m.personality ≡ take (max_personality_size - 1) p
  pub language : c_str m.language ≡ take (max_language_size - 1) l
  pub conversation : c_str m.conversation ≡ take (max_conversation_size - 1) c
  pub personality_size : length m.personality ≡ max_personality_size
  pub language_size : length m.language ≡ max_language_size
  pub conversation_size : length m.conversation ≡ max_conversation_size
  pub is_valid : m.is_valid ≡ true

-- The result on a payload, by its nonempty fields.
pub data Reading (content : Bytes) (r : Option ClientMessage) : Type 0 where
  accepted :
      (m : ClientMessage) (p l c : Bytes) (more : List Bytes)
      → fields content ≡ p ∷ l ∷ c ∷ more
      → Holds m p l c
      → r ≡ some m
      → Reading content r
  refused : length (fields content) < 3 → r ≡ none → Reading content r

-- A copy into a cleared array of its own size.
module _ (src : Bytes) (size : ℕ) (pos : 0 < size) (lacks : Lacks 0 src) where
  copy_string : c_str (safe_strncpy (cleared size) src size) ≡ take (size - 1) src
  copy_string =
      (safe_strncpy_lem (cleared size) src size pos (omega (arith, length-cleared size))).0
      ∙ ap (take (size - 1)) (c_str_self src lacks)

  copy_size : length (safe_strncpy (cleared size) src size) ≡ size
  copy_size =
      (safe_strncpy_lem (cleared size) src size pos (omega (arith, length-cleared size))).1
      ∙ length-cleared size

copies : Bytes → Bytes → Bytes → ClientMessage
copies p l c = record {
  personality = safe_strncpy (cleared max_personality_size) p max_personality_size;
  language = safe_strncpy (cleared max_language_size) l max_language_size;
  conversation = safe_strncpy (cleared max_conversation_size) c max_conversation_size;
  is_valid = true;
}

copies-Holds : (p l c : Bytes) → Lacks 0 p → Lacks 0 l → Lacks 0 c → Holds (copies p l c) p l c
unfolding copies
copies-Holds p l c hp hl hc = record {
  personality = copy_string p max_personality_size (omega arith) hp;
  language = copy_string l max_language_size (omega arith) hl;
  conversation = copy_string c max_conversation_size (omega arith) hc;
  personality_size = copy_size p max_personality_size (omega arith) hp;
  language_size = copy_size l max_language_size (omega arith) hl;
  conversation_size = copy_size c max_conversation_size (omega arith) hc;
  is_valid = refl;
}

-- The fields of a string have no NUL.
split-Lacks : (b : ℕ) (s : Bytes) → Lacks 0 s → All (Lacks 0) (split b s)
unfolding split
split-Lacks b [] h = (tt, tt)
split-Lacks b (c ∷ s) h =
    let (later, first, _) = split-break_at b s in
    let lacks = split-Lacks b s h.1 in
    elim (Bool-cases (c == b)) [
      | inl same ↦ rw same (tt, lacks)
      | inr other ↦ let parts = rw first at lacks in rw (other, first) ((h.0, parts.0), parts.1)
    ]

keep_nonempty-All :
    (P : Bytes → Type 0) (fs : List Bytes) → All P fs → All (λ f. P f × (f ≢ [])) (keep_nonempty fs)
unfolding keep_nonempty
keep_nonempty-All P [] h = tt
keep_nonempty-All P ([] ∷ fs) h = keep_nonempty-All P fs h.1
keep_nonempty-All P ((c ∷ f) ∷ fs) h = ((h.0, cons-ne-nil c f), keep_nonempty-All P fs h.1)

fields-All : (content : Bytes) → All (λ f. Lacks 0 f × (f ≢ [])) (fields content)
fields-All content =
    keep_nonempty-All (Lacks 0) (split b'|' (c_str content))
      (split-Lacks b'|' (c_str content) (c_str-Lacks content))

module _ (content : Bytes) where
  copy_parts-Reading :
      (fs : List Bytes)
      → fields content ≡ fs
      → All (λ f. Lacks 0 f × (f ≢ [])) fs
      → Reading content (copy_parts (take 3 fs))
  unfolding copy_parts
  copy_parts-Reading [] e h = refused (omega (arith, ap length e)) refl
  copy_parts-Reading (p ∷ []) e h = refused (omega (arith, ap length e)) refl
  copy_parts-Reading (p ∷ l ∷ []) e h = refused (omega (arith, ap length e)) refl
  copy_parts-Reading (p ∷ l ∷ c ∷ more) e h =
      accepted (copies p l c) p l c more e (copies-Holds p l c h.0.0 h.1.0.0 h.1.1.0.0)
        (unfold copies in refl)

  fields_of_empty : c_str content ≡ [] → fields content ≡ []
  unfolding split keep_nonempty
  fields_of_empty e = rw e

  parse_nonempty :
      (strlen content == 0) ≡ false
      → parse_client_dialog_message true (some content) ≡ copy_parts (take 3 (fields content))
  unfolding parse_client_dialog_message
  parse_nonempty some_text = rw some_text (ap copy_parts (collect_parts-take 3 (c_str content)))

  parse_empty :
      (strlen content == 0) ≡ true → parse_client_dialog_message true (some content) ≡ none
  unfolding parse_client_dialog_message
  parse_empty no_text = rw no_text

  -- If `strdup` succeeds, a payload is accepted exactly when it has three nonempty fields between bars; the message then
  -- holds the first three, each cut to its array, and further fields are dropped.
  pub parse_client_dialog_message-Reading :
      Reading content (parse_client_dialog_message true (some content))
  parse_client_dialog_message-Reading = elim (Bool-cases (strlen content == 0)) [
    | inl no_text ↦
        refused
          (omega
            (arith, ap length (fields_of_empty (nil_of_length (c_str content) (ground arith)))))
          (parse_empty no_text)
    | inr some_text ↦
        rw (parse_nonempty some_text)
          (copy_parts-Reading (fields content) refl (fields-All content))
  ]

  Holds-pos :
      {m : ClientMessage} (p l c : Bytes) (more : List Bytes)
      → fields content ≡ p ∷ l ∷ c ∷ more
      → Holds m p l c
      → (0 < strlen m.personality) × (0 < strlen m.language) × (0 < strlen m.conversation)
  Holds-pos p l c more e h =
      let every = rw e at (fields-All content) in
      (
        rw h.personality (take-pos 510 p every.0.1),
        rw h.language (take-pos 14 l every.1.0.1),
        rw h.conversation (take-pos 2046 c every.1.1.0.1),
      )

  -- Every accepted message has a personality, a language and a conversation: the test for
  -- missing fields in Server/network.c never finds one.
  pub parse_client_dialog_message_fields :
      {m : ClientMessage}
      → parse_client_dialog_message true (some content) ≡ some m
      → (0 < strlen m.personality) × (0 < strlen m.language) × (0 < strlen m.conversation)
  parse_client_dialog_message_fields {m} h = elim parse_client_dialog_message-Reading [
    | accepted m' p l c more e holds r ↦
        let same_message : m' ≡ m = some-injective _ _ (sym r ∙ h) in
        rw (← same_message) (Holds-pos p l c more e holds)
    | refused few r ↦ cc
  ]
