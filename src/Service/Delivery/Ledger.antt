-- ===== src/Service/Delivery/Ledger.antt =====
-- What was answered and what was refused, in a run of the server.
use mathlib.Core.Option.{some-injective}
use progetto.Prelude.{
  none, ◌++◌, Option, ◌-◌, length-take, ℕ, ◌+◌, ◌<◌, ◌≤◌, ◌≡◌, ◌∙◌, ◌^◌, arith, refl, ap, sym, Bool,
  true, false, List, [], ◌∷◌, All, Bytes, length, some, count,
}
use progetto.Network.{Connection, GenerateAi, process_single_request_and_close}
use progetto.Network.Answering.{
  IsRequest, payload_of, test_text, test_answer, Answered, test_request-Grows,
}
use progetto.Utils.Growth.{Grows}
use progetto.Utils.Rotation.{Language, counter}
use progetto.Utils.Responses.{Counters}
use progetto.Config.{msg_test_dialog_request, msg_test_dialog_response}
use progetto.Protocol.Send.{text_of, frame, message_buffer_size}
use progetto.Protocol.Receive.{Recv}
use progetto.Protocol.Lines.{arriving}
use progetto.Protocol.Delivery.{writes, IsHealthy}
use progetto.Service.{
  Service, Move, Reaches, IsFresh, begins, moves, turn_down, close_fd, connect, threads, begin,
  read_fd, end_task,
}
use progetto.Service.Delivery.{
  Delivery, Deeds, closes_none, serve_client, refuse_client, other, waits, does,
}
use progetto.CLib.Numbers.{decimal}

frame_fits : (t : ℕ) (o : Option Bytes) → length (frame t o) < message_buffer_size
unfolding frame
frame_fits t none =
    omega (arith, length-take (message_buffer_size - 1) (decimal t ++ b'|' ∷ b'\n' ∷ []))
frame_fits t (some payload) =
    omega
      (arith, length-take (message_buffer_size - 1) (decimal t ++ b'|' ∷ (payload ++ b'\n' ∷ [])))

-- A socket that receives a test request in language `l` in one frame, and takes every message.
pub record IsClient (client : Connection) (l : Bytes) : Type 0 where
  pub personality : Bytes
  pub conversation : Bytes
  pub tail : Bytes
  pub later : List Recv
  pub request : IsRequest personality l conversation tail
  pub arrives :
      client.inbox
      ≡ arriving
          (frame msg_test_dialog_request (some (payload_of personality l conversation tail)))
          later
  pub free : client.waiting ≡ false
  pub healthy : All IsHealthy client.sends
  pub enough : message_buffer_size ≤ writes client.sends + 1

-- A connection with its whole answer, closed once.
abbrev pub IsWhole : (ℕ → Connection) → (ℕ → Bytes) → ℕ × Connection → Type 0
IsWhole sockets languages (fd, client) =
    (i : Counters) × (later : List Recv) × Answered (sockets fd) client
      (test_answer (languages fd) i) later

abbrev pub descriptors : List (ℕ × Connection) → List ℕ
descriptors [] = []
descriptors ((fd, _) ∷ l) = fd ∷ descriptors l

-- A server that has just started, with the counters where the program sets them.
pub record IsFirst (d : Delivery) : Type 0 where
  pub fresh : IsFresh d.service
  pub none_answered : d.answered ≡ []
  pub none_refused : d.refused ≡ []
  pub counters : (l : Language) → counter l d.counters ≡ 0

pub record Ledger (sockets : ℕ → Connection) (languages : ℕ → Bytes) (d : Delivery) : Type 0 where
  pub counts :
      (fd : ℕ) → count fd d.service.closed ≡ count fd (descriptors d.answered) + count fd d.refused
  pub whole : All (IsWhole sockets languages) d.answered
  pub bound : (l : Language) → counter l d.counters ≤ length d.answered

closes_none-same :
    {n : ℕ} {s t : Service} (move : Move n s t) → closes_none move ≡ true → t.closed ≡ s.closed
closes_none-same (turn_down _) h = absurd cc
closes_none-same (close_fd _ _ _) h = absurd cc
closes_none-same (connect _ _ _ _ _ _ _) h = refl
closes_none-same (threads _ _) h = refl
closes_none-same (begin _ _ _ _) h = refl
closes_none-same (read_fd _ _ _ _) h = refl
closes_none-same (end_task _ _ _ _ _) h = refl

module _ (n : ℕ) (copied_again : Bool) (ai : GenerateAi) (sockets : ℕ → Connection) where
  pub Deeds-Reaches :
      {start d : Delivery}
      → Deeds n true copied_again ai sockets start d
      → Reaches n start.service d.service
  Deeds-Reaches waits = begins
  Deeds-Reaches (does before (serve_client i lt e handled returns)) =
      moves (Deeds-Reaches before) (close_fd i lt e)
  Deeds-Reaches (does before (refuse_client fd)) = moves (Deeds-Reaches before) (turn_down fd)
  Deeds-Reaches (does before (other move _)) = moves (Deeds-Reaches before) move

  module _ (languages : ℕ → Bytes) (clients : (fd : ℕ) → IsClient (sockets fd) (languages fd)) where
    -- The request of a client, while no counter has reached 2 ^ 31.
    pub client-Grows :
        (fd : ℕ) (i : Counters)
        → ((l : Language) → counter l i < 2 ^ 31)
        → (after : Connection) × (i' : Counters) × (process_single_request_and_close true
              copied_again ai
              (sockets fd)
              i
            ≡ some (after, i'))
          × Answered (sockets fd) after (test_answer (languages fd) i) (clients fd).later
          × Grows i i'
    client-Grows fd i h =
        let c = clients fd in
        test_request-Grows c.personality (languages fd) c.conversation c.tail c.later (sockets fd) i
          copied_again ai c.request c.arrives c.free c.healthy
          (omega (
            arith,
            c.enough,
            frame_fits msg_test_dialog_response (text_of (some (test_text (languages fd) i))),
          ))
          (h _)

    pub Deeds-Ledger :
        {start d : Delivery}
        → IsFirst start
        → Deeds n true copied_again ai sockets start d
        → length d.answered ≤ 2 ^ 31
        → Ledger sockets languages d
    Deeds-Ledger {start} first waits few = record {
      counts = λ fd. omega (
        arith,
        ap (count fd) first.fresh.none_closed,
        ap (λ l. count fd (descriptors l)) first.none_answered,
        ap (count fd) first.none_refused,
      );
      whole = rw first.none_answered tt;
      bound = λ l. omega (arith, first.counters l);
    }
    Deeds-Ledger first
          (does {s = s} before
            (serve_client i {client_fd = fd} {counters = counters} lt e handled returns))
          few =
        let v = Deeds-Ledger first before (omega arith) in
        let (after, i', answers, whole, grows) =
          client-Grows fd s.counters (λ l. omega (arith, v.bound l, few)) in
        let same = some-injective _ _ (sym answers ∙ handled) in
        record {
          counts = λ x. omega (arith, v.counts x);
          whole = ((s.counters, (clients fd).later, rw (← ap (λ r. r.0) same) whole), v.whole);
          bound = λ l. omega (arith, v.bound l, grows l, ap (λ r. counter l r.1) same);
        }
    Deeds-Ledger first (does {s = s} before (refuse_client fd)) few =
        let v = Deeds-Ledger first before few in
        record { counts = λ x. omega (arith, v.counts x); whole = v.whole; bound = v.bound }
    Deeds-Ledger first (does {s = s} before (other move h)) few =
        let v = Deeds-Ledger first before few in
        record {
          counts = λ x. ap (count x) (closes_none-same move h) ∙ v.counts x;
          whole = v.whole;
          bound = v.bound;
        }
