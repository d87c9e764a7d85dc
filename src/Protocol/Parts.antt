-- ===== src/Protocol/Parts.antt =====
-- `parse_client_dialog_message` on a payload of three fields.
use progetto.Prelude.{
  take_all, append-nil, ◌++◌, ◌∙◌, true, arith, [], some, ◌≢◌, length, Option, List, Lacks, ◌<◌,
  ◌∷◌, ap, take, ◌≡◌, refl, Bytes,
}
use progetto.Protocol.Dialog.{parse_client_dialog_message, ClientMessage}
use progetto.CLib.Tokens.{split-append, split_self, split, keep_nonempty}
use progetto.CLib.Memory.{c_str}
use progetto.Config.{max_conversation_size, max_language_size, max_personality_size}
use progetto.Protocol.Fields.{
  fields, Reading, accepted, refused, parse_client_dialog_message-Reading,
}

-- The end of a string, or a bar and anything.
abbrev pub IsTail : Bytes → Type 0
IsTail [] = Unit
IsTail (c ∷ s) = c ≡ b'|'

split-tail :
    (s tail : Bytes)
    → IsTail tail
    → Lacks b'|' s
    → (more : List Bytes) × (split b'|' (s ++ tail) ≡ s ∷ more)
split-tail s [] t h = ([], rw append-nil (split_self b'|' s h))
split-tail s (c ∷ rest) t h = (split b'|' rest, rw t (split-append b'|' s rest h))

keep_nonempty-cons :
    (f : Bytes) (fs : List Bytes) → f ≢ [] → keep_nonempty (f ∷ fs) ≡ f ∷ keep_nonempty fs
unfolding keep_nonempty
keep_nonempty-cons [] fs h = absurd (h refl)
keep_nonempty-cons (c ∷ f) fs h = refl

three_fields :
    (p l c tail : Bytes)
    → IsTail tail
    → (Lacks b'|' p × (p ≢ []))
    → (Lacks b'|' l × (l ≢ []))
    → (Lacks b'|' c × (c ≢ []))
    → (more : List Bytes) × (keep_nonempty (split b'|' (p ++ b'|' ∷ (l ++ b'|' ∷ (c ++ tail))))
        ≡ p ∷ l ∷ c ∷ more)
three_fields p l c tail t hp hl hc =
    let (more, last) = split-tail c tail t hc.0 in
    (
      keep_nonempty more,
      rw
          (
            split-append b'|' p (l ++ b'|' ∷ (c ++ tail)) hp.0,
            split-append b'|' l (c ++ tail) hl.0,
            last,
          )
          (rw (
            keep_nonempty-cons p _ hp.1,
            keep_nonempty-cons l _ hl.1,
            keep_nonempty-cons c _ hc.1,
          )),
    )

Reading-parts :
    (content p l c : Bytes) (more : List Bytes)
    → fields content ≡ p ∷ l ∷ c ∷ more
    → length p < max_personality_size
    → length l < max_language_size
    → length c < max_conversation_size
    → (r : Option ClientMessage) → Reading content r
    → (m : ClientMessage) × (r ≡ some m)
      × (c_str m.personality ≡ p)
      × (c_str m.language ≡ l)
      × (c_str m.conversation ≡ c)
Reading-parts content p l c more e hp hl hc r (refused few _) = absurd (omega (arith, ap length e))
Reading-parts content p l c more e hp hl hc r (accepted m p' l' c' more' e' holds q) = (
  m,
  q,
  holds.personality ∙ ap (take 511) (cc) ∙ take_all 511 p (omega arith),
  holds.language ∙ ap (take 15) (cc) ∙ take_all 15 l (omega arith),
  holds.conversation ∙ ap (take 2047) (cc) ∙ take_all 2047 c (omega arith),
)

-- A payload `p|l|c`, with a bar and more text behind it or not, is read as these three fields if
-- none of them is empty, has a bar or fills its array: a bar inside a conversation cuts it.
pub parse_client_dialog_message-parts :
    (content p l c tail : Bytes)
    → c_str content ≡ p ++ b'|' ∷ (l ++ b'|' ∷ (c ++ tail))
    → IsTail tail
    → (Lacks b'|' p × (p ≢ []) × (length p < max_personality_size))
    → (Lacks b'|' l × (l ≢ []) × (length l < max_language_size))
    → (Lacks b'|' c × (c ≢ []) × (length c < max_conversation_size))
    → (m : ClientMessage) × (parse_client_dialog_message true (some content) ≡ some m)
      × (c_str m.personality ≡ p)
      × (c_str m.language ≡ l)
      × (c_str m.conversation ≡ c)
parse_client_dialog_message-parts content p l c tail e t hp hl hc =
    let (more, found) = three_fields p l c tail t (hp.0, hp.1) (hl.0, hl.1) (hc.0, hc.1) in
    Reading-parts content p l c more (ap (λ s. keep_nonempty (split b'|' s)) e ∙ found) hp.2 hl.2
      hc.2 _ (parse_client_dialog_message-Reading content)
