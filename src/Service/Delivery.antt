-- ===== src/Service/Delivery.antt =====
-- The requests that the workers of the server serve: `process_single_request_and_close`
-- (Server/network.c) on the sockets of the connections.
pub mod Ledger
pub mod Delivers
use progetto.Prelude.{ℕ, ◌<◌, ◌≡◌, Bool, true, false, List, ◌∷◌, some, assign}
use progetto.Network.{Connection, GenerateAi, process_single_request_and_close}
use progetto.Utils.Responses.{Counters}
use progetto.Service.{
  Service, Move, serving, returned, turn_down, close_fd, connect, threads, begin, read_fd, end_task,
}

-- The server, the counters of the test answers, the sockets after their requests with their
-- descriptors, and the descriptors that were turned down, newest first.
pub record Delivery : Type 0 where
  pub service : Service
  pub counters : Counters
  pub answered : List (ℕ × Connection)
  pub refused : List ℕ

-- A move in which no descriptor is closed.
abbrev pub closes_none : {n : ℕ} {s t : Service} → Move n s t → Bool
closes_none (turn_down _) = false
closes_none (close_fd _ _ _) = false
closes_none (connect _ _ _ _ _ _ _) = true
closes_none (threads _ _) = true
closes_none (begin _ _ _ _) = true
closes_none (read_fd _ _ _ _) = true
closes_none (end_task _ _ _ _ _) = true

-- A move, in which a connection is closed by its request alone: `sockets` gives what the socket of
-- each descriptor receives and how it takes what is sent, and `copied` and `copied_again` whether
-- the calls of `strdup` succeed.
pub data Deed (n : ℕ) (copied copied_again : Bool) (ai : GenerateAi) (sockets : ℕ → Connection)
    (s : Delivery) : Delivery → Type 0 where
  serve_client :
      (i : ℕ) {client_fd : ℕ} {client : Connection} {counters : Counters}
      → i < n
      → s.service.duties i ≡ serving client_fd
      → process_single_request_and_close copied copied_again ai (sockets client_fd) s.counters
        ≡ some (client, counters)
      → client.waiting ≡ false
      → Deed n copied copied_again ai sockets s (record {
        service = record s.service {
          duties = assign s.service.duties i returned;
          closed = client_fd ∷ s.service.closed;
        };
        counters = counters;
        answered = (client_fd, client) ∷ s.answered;
        refused = s.refused;
      })
  refuse_client :
      (client_fd : ℕ)
      → Deed n copied copied_again ai sockets s (record s {
        service = record s.service {
          accepted = client_fd ∷ s.service.accepted;
          closed = client_fd ∷ s.service.closed;
        };
        refused = client_fd ∷ s.refused;
      })
  other :
      {t : Service} (move : Move n s.service t)
      → closes_none move ≡ true
      → Deed n copied copied_again ai sockets s (record s { service = t })

pub data Deeds (n : ℕ) (copied copied_again : Bool) (ai : GenerateAi) (sockets : ℕ → Connection)
    (start : Delivery) : Delivery → Type 0 where
  waits : Deeds n copied copied_again ai sockets start start
  does :
      {s t : Delivery}
      → Deeds n copied copied_again ai sockets start s
      → Deed n copied copied_again ai sockets s t
      → Deeds n copied copied_again ai sockets start t
