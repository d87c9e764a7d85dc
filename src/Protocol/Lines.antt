-- ===== src/Protocol/Lines.antt =====
-- What `receive_line` reads.
use progetto.Prelude.{
  ◌∙◌, ap, refl, false, none, true, Option, append_assoc, inr, inl, Bool-cases, append-nil, arith,
  ◌++◌, some, ◌==◌, length, Lacks, if◌then◌else◌, [], ◌∷◌, List, ℕ, zero, suc, ◌<◌, ◌≡◌, Bytes,
}
use progetto.Protocol.Receive.{failed, closed, Recv, byte, receive_line}

-- The bytes of a line without its carriage returns.
abbrev pub without_cr : Bytes → Bytes
without_cr [] = []
without_cr (c ∷ s) = if c == b'\r' then without_cr s else c ∷ without_cr s

-- The bytes as they arrive.
abbrev pub arriving : Bytes → List Recv → List Recv
arriving [] later = later
arriving (c ∷ s) later = byte c ∷ arriving s later

pub receive_line-arriving :
    (s : Bytes) (room : ℕ) (buffer : Bytes) (later : List Recv)
    → Lacks b'\n' s
    → length (without_cr s) < room
    → receive_line room buffer (arriving s (byte b'\n' ∷ later))
      ≡ (some (buffer ++ without_cr s), later)
unfolding receive_line
receive_line-arriving s zero buffer later h fits = absurd (omega arith)
receive_line-arriving [] (suc room) buffer later h fits = rw append-nil
receive_line-arriving (c ∷ s) (suc room) buffer later h fits = elim (Bool-cases (c == b'\r')) [
  | inl cr ↦ ground (arith, receive_line-arriving s (suc room) buffer later h.1)
  | inr other ↦ ground (
    arith,
    receive_line-arriving s room (buffer ++ c ∷ []) later h.1,
    append_assoc buffer (c ∷ []) (without_cr s),
  )
]

-- What is left to read where `recv` gives no byte: an end of the stream, an error, or a timeout.
pub data Stops : List Recv → List Recv → Type 0 where
  at_close : {later : List Recv} → Stops (closed ∷ later) later
  at_failure : {later : List Recv} → Stops (failed ∷ later) later
  at_timeout : Stops [] []

-- How a call of `receive_line` ends, by what it reads: a newline in time, a full buffer, or no
-- byte. `s` are the bytes that are read.
pub data Outcome (room : ℕ) (buffer : Bytes) (inbox : List Recv) (r : Option Bytes × List Recv)
    : Type 0 where
  ended :
      (s : Bytes) (later : List Recv)
      → inbox ≡ arriving s (byte b'\n' ∷ later)
      → Lacks b'\n' s
      → length (without_cr s) < room
      → r ≡ (some (buffer ++ without_cr s), later)
      → Outcome room buffer inbox r
  filled :
      (s : Bytes) (later : List Recv)
      → inbox ≡ arriving s later
      → Lacks b'\n' s
      → length (without_cr s) ≡ room
      → r ≡ (some (buffer ++ without_cr s), later)
      → Outcome room buffer inbox r
  lost :
      (s : Bytes) {rest later : List Recv}
      → Stops rest later
      → inbox ≡ arriving s rest
      → Lacks b'\n' s
      → length (without_cr s) < room
      → r ≡ (none, later)
      → Outcome room buffer inbox r

module _ {room : ℕ} {buffer : Bytes} {inbox : List Recv} {r : Option Bytes × List Recv}
    (c : ℕ) where
  Outcome-cr :
      (c == b'\r') ≡ true → Outcome room buffer inbox r → Outcome room buffer (byte c ∷ inbox) r
  Outcome-cr cr (ended s later e h n q) =
      ended (c ∷ s) later (ap (◌∷◌ (byte c)) e) (ground arith, h) (rw cr n) (rw cr q)
  Outcome-cr cr (filled s later e h n q) =
      filled (c ∷ s) later (ap (◌∷◌ (byte c)) e) (ground arith, h) (rw cr n) (rw cr q)
  Outcome-cr cr (lost s stop e h n q) =
      lost (c ∷ s) stop (ap (◌∷◌ (byte c)) e) (ground arith, h) (rw cr n) q

  Outcome-cons :
      (c == b'\n') ≡ false
      → (c == b'\r') ≡ false
      → Outcome room (buffer ++ c ∷ []) inbox r
      → Outcome (suc room) buffer (byte c ∷ inbox) r
  Outcome-cons nl cr (ended s later e h n q) =
      ended (c ∷ s) later (ap (◌∷◌ (byte c)) e) (ground arith, h) (rw cr (omega arith))
        (rw cr (q ∙ rw append_assoc))
  Outcome-cons nl cr (filled s later e h n q) =
      filled (c ∷ s) later (ap (◌∷◌ (byte c)) e) (ground arith, h) (rw cr (omega arith))
        (rw cr (q ∙ rw append_assoc))
  Outcome-cons nl cr (lost s stop e h n q) =
      lost (c ∷ s) stop (ap (◌∷◌ (byte c)) e) (ground arith, h) (rw cr (omega arith)) q

-- `receive_line` returns the bytes up to the first newline, without carriage returns, unless the
-- buffer is full before; it returns -1 in no other case than that `recv` gives no byte.
pub receive_line-Outcome :
    (room : ℕ) (buffer : Bytes) (inbox : List Recv)
    → Outcome room buffer inbox (receive_line room buffer inbox)
unfolding receive_line
receive_line-Outcome zero buffer inbox = filled [] inbox refl tt refl (rw append-nil)
receive_line-Outcome (suc room) buffer [] = lost [] at_timeout refl tt (omega arith) refl
receive_line-Outcome (suc room) buffer (closed ∷ inbox) =
    lost [] at_close refl tt (omega arith) refl
receive_line-Outcome (suc room) buffer (failed ∷ inbox) =
    lost [] at_failure refl tt (omega arith) refl
receive_line-Outcome (suc room) buffer (byte c ∷ inbox) = elim (Bool-cases (c == b'\n')) [
  | inl nl ↦ ended [] inbox (ground arith) tt (omega arith) (rw (nl, append-nil))
  | inr other ↦ elim (Bool-cases (c == b'\r')) [
    | inl cr ↦ rw (other, cr) (Outcome-cr c cr (receive_line-Outcome (suc room) buffer inbox))
    | inr text ↦
        rw (other, text)
          (Outcome-cons c other text (receive_line-Outcome room (buffer ++ c ∷ []) inbox))
  ]
]
