-- ===== src/Protocol/Messages.antt =====
-- What `receive_message` accepts.
use mathlib.Core.Option
use progetto.Prelude.{
  ◌∙◌, [], ◌-◌, All-suffix, ap, refl, ◌≢◌, inr, All-take, inl, ltb, none, length-drop, Bool-cases,
  some, List, length-append, Option, Lacks, drop, ◌∷◌, length-take, ◌++◌, arith, length-replicate,
  length, take, ℕ, suc, ◌≤◌, ◌<◌, ◌≡◌, Bytes,
}
use progetto.Protocol.Receive.{
  line_buffer_size, parse_received, receive_line, Recv, read_type, accept_type, parse_line,
  receive_message, populate, payload_length, Message, cleared,
}
use progetto.Config.{max_message_size}
use progetto.CLib.Memory.{c_str-Lacks, c_str-append, c_str, set-terminator, strlen, memcpy}
use progetto.CLib.Tokens.{strchr-splits, strchr}
use progetto.CLib.Numbers.{strtol, Conversion}
use progetto.Utils.{trim_whitespace}

pub length-cleared : (n : ℕ) → length (cleared n) ≡ n
unfolding cleared
length-cleared n = length-replicate n 0

-- A received message: the type and the length are in range, and the array holds a string of that
-- length, terminated within its bounds.
pub record IsMessage (m : Message) : Type 0 where
  pub type_range : m.type ≤ 1000
  pub len_range : m.len < max_message_size
  pub size : length m.content ≡ max_message_size
  pub terminated : strlen m.content ≡ m.len

module _ (payload : Bytes) where
  abbrev pub n : ℕ
  n = payload_length payload

  abbrev pub copied : Bytes
  copied = take n payload

  copied-length : length copied ≡ n
  copied-length = ground (arith, length-take n payload)

  n-lt : n < max_message_size
  n-lt = ground arith

  populate_layout :
      (t : ℕ) → (populate t payload).content ≡ copied ++ 0 ∷ drop (suc n) (cleared max_message_size)
  unfolding populate memcpy
  populate_layout t =
      set-terminator copied (cleared max_message_size) copied-length
        (ground (arith, length-cleared max_message_size))

  pub c_str-populate : (t : ℕ) → Lacks 0 payload → c_str (populate t payload).content ≡ copied
  c_str-populate t lacks =
      rw (populate_layout t) (c_str-append copied _ (All-take (λ c. c ≢ 0) n payload lacks))

  populate-IsMessage : (t : ℕ) → t ≤ 1000 → Lacks 0 payload → IsMessage (populate t payload)
  populate-IsMessage t range lacks = record {
    type_range = unfold populate in range;
    len_range = unfold populate in ground arith;
    size = rw (populate_layout t) (
        omega (
          arith,
          copied-length,
          length-append {0} copied (0 ∷ drop (suc n) (cleared max_message_size)),
          length-drop {0} (suc n) (cleared max_message_size),
          length-cleared max_message_size,
          n-lt,
        ));
    terminated = ap length (c_str-populate t lacks) ∙ unfold populate in copied-length;
  }

accept_type-le : (c : Conversion) {t : ℕ} → accept_type c ≡ some t → t ≤ 1000
unfolding accept_type
accept_type-le c h = ground arith

read_type-le : (s : Bytes) {t : ℕ} → read_type s ≡ some t → t ≤ 1000
unfolding read_type
read_type-le s h = accept_type-le (strtol (trim_whitespace s)) h

-- The parts of an accepted line.
pub record Parsed (line : Bytes) (m : Message) : Type 0 where
  pub type_str : Bytes
  pub payload_str : Bytes
  pub long_enough : 2 ≤ length line
  pub splits : strchr b'|' (c_str line) ≡ some (type_str, payload_str)
  pub typed : read_type type_str ≡ some m.type
  pub populated : m ≡ populate m.type payload_str

populated :
    (o : Option ℕ) (payload : Bytes) {m : Message}
    → Option.map (λ t. populate t payload) o ≡ some m
    → (o ≡ some m.type) × (m ≡ populate m.type payload)
unfolding populate
populated none payload h = cc
populated (some t) payload h = ground arith

module _ (line : Bytes) {m : Message} where
  split_Parsed :
      2 ≤ length line
      → (o : Option (Bytes × Bytes)) → strchr b'|' (c_str line) ≡ o
      → parse_line line ≡ some m
      → Parsed line m
  unfolding parse_line
  split_Parsed long none e h = ground arith
  split_Parsed long (some (type_str, payload_str)) e h =
      let found = populated (read_type type_str) payload_str (ground arith) in
      record {
        type_str = type_str;
        payload_str = payload_str;
        long_enough = long;
        splits = e;
        typed = found.0;
        populated = found.1;
      }

  -- An accepted line has two bytes at least and a bar.
  pub parse_line-Parsed : parse_line line ≡ some m → Parsed line m
  parse_line-Parsed h = elim (Bool-cases (ltb (length line) 2)) [
    | inl short ↦ absurd (unfold parse_line in ground arith)
    | inr long ↦ split_Parsed (ground arith) (strchr b'|' (c_str line)) refl h
  ]

  parse_line-IsMessage : parse_line line ≡ some m → IsMessage m
  parse_line-IsMessage h =
      let p = parse_line-Parsed h in
      let split = (strchr-splits b'|' (c_str line) p.splits).0 in
      let after_bar = All-suffix (λ c. c ≢ 0) p.type_str _ (rw split at (c_str-Lacks line)) in
      rw p.populated
        (populate-IsMessage p.payload_str m.type (read_type-le p.type_str p.typed) after_bar.1)

parse_received-IsMessage :
    (r : Option Bytes × List Recv) {m : Message} {later : List Recv}
    → parse_received r ≡ (some m, later)
    → IsMessage m
parse_received-IsMessage (none, inbox) h = ground arith
parse_received-IsMessage (some line, inbox) h = parse_line-IsMessage line (ap (λ p. p.0) h)

pub receive_message_lem :
    (inbox : List Recv)
    → receive_message inbox ≡ parse_received (receive_line (line_buffer_size - 1) [] inbox)
unfolding receive_message
receive_message_lem inbox = refl

-- Whatever arrives, a message that `receive_message` returns has a type up to 1000 and a length
-- below 3000, and its array holds a terminated string of that length.
pub receive_message-IsMessage :
    (inbox : List Recv) {m : Message} {later : List Recv}
    → receive_message inbox ≡ (some m, later)
    → IsMessage m
unfolding receive_message
receive_message-IsMessage inbox h =
    parse_received-IsMessage (receive_line (line_buffer_size - 1) [] inbox) h
