-- ===== src/Protocol/RoundTrip.antt =====
-- A message that one side frames is the message that the other side receives.
use native.Mathlib.Nat.{pow-suc}
use progetto.Prelude.{
  sym, append_assoc, ◌-◌, length-append, take_all, All-get_or, some, ◌∙◌, All-append, ◌%◌, ◌/◌, ap,
  ◌+◌, ◌++◌, arith, ◌≢◌, [], length, All, ◌∷◌, ◌^◌, false, List, Lacks, ℕ, zero, suc, ◌≤◌, ◌<◌, ◌≡◌,
  refl, Bytes,
}
use progetto.CLib.Ctype.{isspace, isdigit}
use progetto.CLib.Numbers.{
  decimal-cons, strtol-decimal, All-decimal, decimal, skip_spaces, IsDigit, digits,
}
use progetto.Protocol.Receive.{
  payload_length, line_buffer_size, parse_received, receive_line, receive_message, Message,
  populate, accept_type, read_type, parse_line, byte, Recv,
}
use progetto.Protocol.Lines.{receive_line-arriving, arriving, without_cr}
use progetto.Config.{max_message_size}
use progetto.Utils.{trim_end, trim_whitespace, trim_trailing}
use progetto.Protocol.Send.{message_buffer_size, frame}
use progetto.CLib.Tokens.{strchr-append, strchr}
use progetto.CLib.Memory.{c_str, c_str_self}
use progetto.Protocol.Messages.{c_str-populate, receive_message_lem}

length-digits :
    (f n k : ℕ) (out : Bytes) → n < 10 ^ suc k → length (digits f n out) ≤ suc k + length out
unfolding digits
length-digits zero n k out h = omega arith
length-digits (suc f) n zero out h = ground arith
length-digits (suc f) n (suc k) out h =
    ground (arith, pow-suc 10 (suc k), length-digits f (n / 10) k ((b'0' + n % 10) ∷ out))

digit-ne : (b c : ℕ) → isdigit b ≡ false → IsDigit c → c ≢ b
unfolding isdigit
digit-ne b c h d = ground arith

Lacks-digits : (b : ℕ) (s : Bytes) → isdigit b ≡ false → All IsDigit s → Lacks b s
Lacks-digits b [] h d = tt
Lacks-digits b (c ∷ s) h (x, d) = (digit-ne b c h x, Lacks-digits b s h d)

without_cr_self : (s : Bytes) → Lacks b'\r' s → without_cr s ≡ s
without_cr_self [] h = refl
without_cr_self (c ∷ s) h = ground (arith, without_cr_self s h.1)

arriving-append :
    (s t : Bytes) (later : List Recv) → arriving (s ++ t) later ≡ arriving s (arriving t later)
arriving-append [] t later = refl
arriving-append (c ∷ s) t later = ap (◌∷◌ (byte c)) (arriving-append s t later)

-- A text without white space is not changed by `trim_whitespace`.
trim_end_self :
    (s : Bytes) (k : ℕ) → All (λ c. isspace c ≡ false) s → k < length s → trim_end k s ≡ k
unfolding trim_end
trim_end_self s zero h lt = refl
trim_end_self s (suc k) h lt = rw (All-get_or (λ c. isspace c ≡ false) s (suc k) 0 h lt)

skip_spaces_self : (s : Bytes) → All (λ c. isspace c ≡ false) s → skip_spaces s ≡ s
unfolding skip_spaces
skip_spaces_self [] h = refl
skip_spaces_self (c ∷ s) h = rw h.0

trim_trailing_self : (s : Bytes) → All (λ c. isspace c ≡ false) s → trim_trailing s ≡ s
unfolding trim_trailing
trim_trailing_self [] h = refl
trim_trailing_self (c ∷ s) h =
    rw (trim_end_self (c ∷ s) (length s) h (omega arith))
      (ap (◌∷◌ c) (take_all (length s) s (omega arith)))

trim_whitespace_self : (s : Bytes) → All (λ c. isspace c ≡ false) s → trim_whitespace s ≡ s
unfolding trim_whitespace
trim_whitespace_self s h = ap trim_trailing (skip_spaces_self s h) ∙ trim_trailing_self s h

digits_not_space : (s : Bytes) → All IsDigit s → All (λ c. isspace c ≡ false) s
unfolding isspace isdigit
digits_not_space [] d = tt
digits_not_space (c ∷ s) d = (ground arith, digits_not_space s d.1)

read_type-decimal : (t : ℕ) → t ≤ 1000 → read_type (decimal t) ≡ some t
unfolding read_type accept_type
read_type-decimal t h =
    rw
      (
        trim_whitespace_self (decimal t) (digits_not_space (decimal t) (All-decimal t)),
        strtol-decimal t (omega arith),
      )
      (ground arith)

parse_line_found :
    (line : Bytes) {type_str payload_str : Bytes} {t : ℕ}
    → 2 ≤ length line
    → strchr b'|' (c_str line) ≡ some (type_str, payload_str)
    → read_type type_str ≡ some t
    → parse_line line ≡ some (populate t payload_str)
unfolding parse_line populate
parse_line_found line long e r = ground arith

module _ (t : ℕ) (payload : Bytes) (type_range : t ≤ 1000) where
  abbrev line : Bytes
  line = decimal t ++ b'|' ∷ payload

  Lacks-line : (b : ℕ) → isdigit b ≡ false → b'|' ≢ b → Lacks b payload → Lacks b line
  Lacks-line b h ne lacks =
      All-append (λ c. c ≢ b) (decimal t) _ (Lacks-digits b (decimal t) h (All-decimal t))
        (ne, lacks)

  length-line : length line ≤ 5 + length payload
  unfolding decimal
  length-line = omega (
    arith,
    length-append {0} (decimal t) (b'|' ∷ payload),
    length-digits (suc t) t 3 [] (omega arith),
  )

  line_long : 2 ≤ length line
  line_long =
      let (c, s, e) = decimal-cons t in
      omega (arith, ap length e, length-append {0} (decimal t) (b'|' ∷ payload))

  parse_line-line : Lacks 0 payload → parse_line line ≡ some (populate t payload)
  unfolding isdigit
  parse_line-line nul =
      parse_line_found line line_long
        (rw (c_str_self line (Lacks-line 0 refl (omega arith) nul)) (
          strchr-append b'|' (decimal t) payload
            (Lacks-digits b'|' (decimal t) refl (All-decimal t))))
        (read_type-decimal t type_range)

  frame-line : length payload < max_message_size → frame t (some payload) ≡ line ++ b'\n' ∷ []
  unfolding frame
  frame-line short =
      let regroup = append_assoc (decimal t) (b'|' ∷ payload) (b'\n' ∷ []) in
      take_all (message_buffer_size - 1) (decimal t ++ b'|' ∷ (payload ++ b'\n' ∷ []))
        (omega (arith, ap length regroup, length-append {0} line (b'\n' ∷ []), length-line))
      ∙ sym regroup

  receive_line-line :
      (later : List Recv)
      → length payload < max_message_size
      → Lacks b'\r' payload
      → Lacks b'\n' payload
      → receive_line (line_buffer_size - 1) [] (arriving (frame t (some payload)) later)
        ≡ (some line, later)
  unfolding isdigit
  receive_line-line later short cr lf =
      let plain = without_cr_self line (Lacks-line b'\r' refl (omega arith) cr) in
      ap (λ s. receive_line (line_buffer_size - 1) [] (arriving s later)) (frame-line short)
      ∙ ap (receive_line (line_buffer_size - 1) []) (arriving-append line (b'\n' ∷ []) later)
      ∙ receive_line-arriving line (line_buffer_size - 1) [] later
          (Lacks-line b'\n' refl (omega arith) lf) (omega (arith, ap length plain, length-line))
      ∙ ap (λ s. (some s, later)) plain

-- A framed message that arrives is received as it was sent, and nothing behind it is read: the type
-- is at most 1000, and the payload has fewer than 3000 bytes, none of them NUL, CR or LF.
pub receive_message-frame :
    (t : ℕ) (payload : Bytes) (later : List Recv)
    → t ≤ 1000
    → length payload < max_message_size
    → Lacks 0 payload
    → Lacks b'\r' payload
    → Lacks b'\n' payload
    → (m : Message) × (receive_message (arriving (frame t (some payload)) later) ≡ (some m, later))
      × (m.type ≡ t)
      × (c_str m.content ≡ payload)
receive_message-frame t payload later range short nul cr lf = (
  populate t payload,
  receive_message_lem (arriving (frame t (some payload)) later)
      ∙ ap parse_received (receive_line-line t payload range later short cr lf)
      ∙ ap (λ m. (m, later)) (parse_line-line t payload range nul),
  unfold populate in refl,
  c_str-populate payload t nul ∙ take_all (payload_length payload) payload (ground arith),
)
