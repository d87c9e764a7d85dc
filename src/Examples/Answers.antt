-- ===== src/Examples/Answers.antt =====
-- A client of the whole server gets its answer: Server/network.c.
use progetto.Prelude.{[], ℕ, Bytes, replicate, codes}
use progetto.Protocol.Send.{message_buffer_size}
use progetto.Network.{Connection}
use progetto.Protocol.Send.{sent}
use progetto.Service.Delivery.{Delivery}
use progetto.Examples.Server.{client}
use progetto.Examples.Service.{fresh, connected, at_work}

-- Whatever the descriptor, the client asks in English.
abbrev sockets : ℕ → Connection
sockets fd = record client { sends = replicate message_buffer_size (sent 3) }

abbrev languages : ℕ → Bytes
languages fd = codes "english"

abbrev first : Delivery
first = record {
  service = fresh;
  counters = record { it = 0; en = 0; es = 0; fr = 0; de = 0; pt = 0 };
  answered = [];
  refused = [];
}

-- The connection with descriptor 9 waits, and then has a worker.
abbrev asked : Delivery
asked = record first { service = connected }

abbrev taken : Delivery
taken = record first { service = at_work }
