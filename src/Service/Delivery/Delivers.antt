-- ===== src/Service/Delivery/Delivers.antt =====
-- Every client of the server gets its answer.
use progetto.Prelude.{ℕ, ◌+◌, ◌≤◌, ◌≡◌, ◌⊎◌, Bool, true, All, Bytes, length, count}
use progetto.Network.{Connection, GenerateAi}
use progetto.Service.{Service}
use progetto.Service.Delivery.{Delivery, Deed, Deeds}
use progetto.Service.Delivery.Ledger.{IsClient, IsWhole, descriptors}

module _ (n : ℕ) (copied_again : Bool) (ai : GenerateAi) (sockets : ℕ → Connection) where
  -- A deed that makes a move, with an answer more at most.
  record Makes (d : Delivery) (t : Service) : Type 0 where
    after : Delivery
    deed : Deed n true copied_again ai sockets d after
    makes : after.service ≡ t
    answers : length after.answered ≤ length d.answered + 1
    refuses : (after.refused ≡ d.refused) ⊎ (length t.accepted ≡ length d.service.accepted + 1)

  module _ (languages : ℕ → Bytes) (clients : (fd : ℕ) → IsClient (sockets fd) (languages fd)) where
    -- A run goes on from `d` until all is answered.
    pub record AllServed (start d : Delivery) : Type 0 where
      pub last : Delivery
      pub run : Deeds n true copied_again ai sockets start last
      pub accepted : last.service.accepted ≡ d.service.accepted
      pub refused : last.refused ≡ d.refused
      pub all_served :
          (fd : ℕ)
          → count fd (descriptors last.answered) + count fd last.refused
            ≡ count fd d.service.accepted
      pub whole : All (IsWhole sockets languages) last.answered
