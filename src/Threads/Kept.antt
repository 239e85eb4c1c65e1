-- ===== src/Threads/Kept.antt =====
-- What holds at the queue of a client whatever the order in which the threads go on.
use mumq.Base.{
  ℕ, suc, ◌+◌, ◌-◌, ◌≤◌, ◌≡◌, refl, Option, none, some, List, [], ◌∷◌, length, length-append, arith,
}
use mumq.Broker.{Packet, Client}
use mumq.EventIo.Send.{take_packet}
use mumq.EventIo.Send.Counted.{in_hand}
use mumq.Threads.{
  Holder, nobody, linking, counting, Sender, resting, looping, at_packet, System, Step, lock, link,
  count, begin, take_one, send_part, free_sent, wait, finish, remove_while_sending, remove, greet,
  Reach, start, next,
}

-- What the counter will be at least when the lock is free: the packet that is linked is counted with the
-- number that was loaded.
abbrev to_count : Holder → ℕ → ℕ
to_count nobody n = n
to_count (linking p) n = n
to_count (counting m) n = m + 1

-- The packet that the sender works on.
abbrev taken : Sender → ℕ
taken (at_packet n) = 1
taken _ = 0

abbrev rounds : Sender → ℕ
rounds (looping n) = n
rounds (at_packet n) = n
rounds resting = 0

pub record IsCounted (s : System) : Type 0 where
  enough : s.client.num_sending_pack ≤ length s.client.sending
  enough_then : to_count s.holder s.client.num_sending_pack ≤ length s.client.sending
  loaded : rounds s.sender ≤ s.client.num_sending_pack
  loaded_then : rounds s.sender ≤ to_count s.holder s.client.num_sending_pack
  has_cur : taken s.sender ≤ in_hand s.client.sending_cur

-- One packet is in hand now, and the queue is no shorter than one less.
take_packet-bound :
    (c : Client) (cur : Option Packet) (ps : List Packet)
    → 1 ≤ length ps
    → let d = take_packet (record c { sending_cur = cur; sending = ps }) in
      (in_hand d.sending_cur ≡ 1)
      × (length ps - 1 ≤ length d.sending)
      × (d.num_sending_pack ≡ c.num_sending_pack - 1)
take_packet-bound c (some p) ps h = (refl, omega arith, refl)
take_packet-bound c none (p ∷ ps) h = (refl, omega arith, refl)
take_packet-bound c none [] h = absurd (omega arith)

Step-IsCounted : {s t : System} → Step s t → IsCounted s → IsCounted t
Step-IsCounted (lock p h) c = ground arith
Step-IsCounted {s = s} (link {p} h) c = ground (arith, length-append s.client.sending (p ∷ []))
Step-IsCounted (count h) c = ground arith
Step-IsCounted (begin r h pos) c = ground arith
Step-IsCounted {s = s} (take_one l h) c =
    ground (arith, take_packet-bound s.client s.client.sending_cur s.client.sending)
Step-IsCounted (send_part k a cur more) c = ground arith
Step-IsCounted (free_sent a cur done) c = ground arith
Step-IsCounted (wait a) c = ground arith
Step-IsCounted (finish l) c = ground arith
Step-IsCounted (remove_while_sending a) c = ground arith
Step-IsCounted (remove r) c = ground arith
Step-IsCounted (greet id r) c = ground arith

Reach-IsCounted : {c : Client} {s : System} → Reach c s → IsCounted s
Reach-IsCounted (start e cur n) = ground arith
Reach-IsCounted (next r st) = Step-IsCounted st (Reach-IsCounted r)

in_hand-some : (o : Option Packet) → 1 ≤ in_hand o → (p : Packet) × (o ≡ some p)
in_hand-some (some p) h = (p, refl)
in_hand-some none h = absurd (omega arith)

-- In every state that a client with nothing to send gets to, with the steps of any number of publishers, of
-- the sender, and of the removal and the CONNECT of the client in any order: where the sender reads
-- `sending_cur_packet`, there is a packet; where it is to take one, the counter is at least 1, so it does
-- not wrap; and the counter is no more than the packets that wait.
pub Reach-IsReadable :
    {c : Client} {s : System}
    → Reach c s
    → ((n : ℕ) → s.sender ≡ at_packet n → (p : Packet) × (s.client.sending_cur ≡ some p))
      × ((n : ℕ) → s.sender ≡ looping (suc n) → s.holder ≡ nobody → 1 ≤ s.client.num_sending_pack)
      × (s.client.num_sending_pack ≤ length s.client.sending)
Reach-IsReadable {s = s} r =
    let c = Reach-IsCounted r in
    (λ n at. in_hand-some s.client.sending_cur (ground arith), λ n at free. ground arith, c.enough)
