-- ===== src/Threads.antt =====
-- The threads at the queue of one client: any number of them publish to it (broker/hand_mqtt.c, 49-57), and
-- the one that owns the connection sends (broker/event_io.c, 282-354) or removes the client
-- (broker/broker.c, 35-61) or takes its CONNECT (72-84). What is done while `sending_lock` is held by the
-- sender is one step; the counter, which `clean_context` and `add_client` change without the lock, is
-- loaded and stored in two steps by a publisher.
pub mod Kept
pub mod Order
pub mod Waiting
mod Tests
use mumq.Base.{
  ℕ, suc, ◌+◌, ◌≤◌, ◌<◌, ◌≡◌, Bool, true, false, Option, none, some, List, [], ◌∷◌, ◌++◌, length,
}
use mumq.Base.Words.{Bytes}
use mumq.Base.Strings.{Str}
use mumq.Broker.{Packet, Client, cs_connected, clean_context}
use mumq.EventIo.Send.{moved, take_packet, freed}

-- Who holds `sending_lock`: a publisher with its packet, or with the packet linked and the counter loaded.
pub data Holder : Type 0 where
  nobody : Holder
  linking : Packet → Holder
  counting : ℕ → Holder

-- Where the owner of the connection stands: outside of the loop for this client, at the head of the loop
-- with `num_sending`, or after it took a packet.
pub data Sender : Type 0 where
  resting : Sender
  looping at_packet : ℕ → Sender

-- The bytes of a packet that left the queue: at the end of the loop on it, or with the client that was
-- removed.
pub data Outcome : Type 0 where
  sent dropped : Bytes → Outcome

-- With what was put into the queue and what left it so far, in order.
pub record System : Type 0 where
  pub client : Client
  pub holder : Holder
  pub sender : Sender
  pub history : List Bytes
  pub outcomes : List Outcome

abbrev pub linked : Packet → Client → Client
linked p c = record c { sending = c.sending ++ p ∷ [] }

abbrev pub dropped_of : Option Packet → List Outcome
dropped_of none = []
dropped_of (some p) = dropped p.send_buf ∷ []

-- What `add_client` does to a client, at a CONNECT.
abbrev pub greeted : Str → Client → Client
greeted id c = record c { id = id; num_sending_pack = 0; state = cs_connected }

pub data Step (s : System) : System → Type 0 where
  lock : (p : Packet) → s.holder ≡ nobody → Step s (record s { holder = linking p })
  link :
      {p : Packet}
      → s.holder ≡ linking p
      → Step s (record s {
        client = linked p s.client;
        holder = counting s.client.num_sending_pack;
        history = s.history ++ p.send_buf ∷ [];
      })
  count :
      {n : ℕ}
      → s.holder ≡ counting n
      → Step s (record s { client = record s.client { num_sending_pack = n + 1 }; holder = nobody })
  begin :
      s.sender ≡ resting
      → s.holder ≡ nobody
      → 0 < s.client.num_sending_pack
      → Step s (record s { sender = looping s.client.num_sending_pack })
  take_one :
      {n : ℕ}
      → s.sender ≡ looping (suc n)
      → s.holder ≡ nobody
      → Step s (record s { client = take_packet s.client; sender = at_packet n })
  send_part :
      {n : ℕ} {p : Packet} (k : ℕ)
      → s.sender ≡ at_packet n
      → s.client.sending_cur ≡ some p
      → p.wcur < p.wlen
      → Step s (record s { client = record s.client { sending_cur = some (moved p k) } })
  free_sent :
      {n : ℕ} {p : Packet}
      → s.sender ≡ at_packet n
      → s.client.sending_cur ≡ some p
      → p.wlen ≤ p.wcur
      → Step s (record s {
        client = freed s.client;
        sender = looping n;
        outcomes = s.outcomes ++ sent p.send_buf ∷ [];
      })
  wait : {n : ℕ} → s.sender ≡ at_packet n → Step s (record s { sender = resting })
  finish : s.sender ≡ looping 0 → Step s (record s { sender = resting })
  remove_while_sending :
      {n : ℕ}
      → s.sender ≡ at_packet n
      → Step s (record s {
        client = clean_context s.client;
        sender = resting;
        outcomes = s.outcomes ++ dropped_of s.client.sending_cur;
      })
  remove :
      s.sender ≡ resting
      → Step s (record s {
        client = clean_context s.client;
        outcomes = s.outcomes ++ dropped_of s.client.sending_cur;
      })
  greet : (id : Str) → s.sender ≡ resting → Step s (record s { client = greeted id s.client })

-- A client with nothing to send.
pub data Reach (c : Client) : System → Type 0 where
  start :
      c.sending ≡ []
      → c.sending_cur ≡ none
      → c.num_sending_pack ≡ 0
      → Reach c
          (record { client = c; holder = nobody; sender = resting; history = []; outcomes = [] })
  next : {s t : System} → Reach c s → Step s t → Reach c t
