-- ===== src/Threads/Order.antt =====
-- The packets leave the queue of a client in the order in which they were put there, whatever the order in
-- which the threads go on (broker/hand_mqtt.c, 49-57; broker/event_io.c, 309-352).
use mumq.Base.{◌≡◌, refl, sym, ap, ◌∙◌, Option, none, some, List, [], ◌∷◌, ◌++◌, map}
use mathlib.Core.List.{map-append, append_assoc}
use mumq.Base.Words.{Bytes}
use mumq.Broker.{Packet, Client}
use mumq.EventIo.Send.{take_packet}
use mumq.Threads.{
  Outcome, sent, dropped, System, dropped_of, Step, lock, link, count, begin, take_one, send_part,
  free_sent, wait, finish, remove_while_sending, remove, greet, Reach, start, next,
}

abbrev pub bytes_of_outcome : Outcome → Bytes
bytes_of_outcome (sent b) = b
bytes_of_outcome (dropped b) = b

abbrev pub hand : Option Packet → List Bytes
hand none = []
hand (some p) = p.send_buf ∷ []

-- In hand and waiting.
abbrev pub held : Client → List Bytes
held c = hand c.sending_cur ++ map (λ p. p.send_buf) c.sending

abbrev pub IsInOrder : System → Type 0
IsInOrder s = s.history ≡ map bytes_of_outcome s.outcomes ++ held s.client

-- What left the queue and what is held, when one packet more is linked.
append-linked :
    (outs : List Bytes) (o : Option Packet) (ps : List Packet) (p : Packet)
    → outs ++ (hand o ++ map (λ p. p.send_buf) ps) ++ p.send_buf ∷ []
      ≡ outs ++ (hand o ++ map (λ p. p.send_buf) (ps ++ p ∷ []))
append-linked outs o ps p = simp (map-append, append_assoc)

held-take_packet :
    (c : Client) (cur : Option Packet) (ps : List Packet)
    → let d = record c { sending_cur = cur; sending = ps } in held (take_packet d) ≡ held d
held-take_packet c (some p) ps = refl
held-take_packet c none [] = refl
held-take_packet c none (p ∷ ps) = refl

-- What is in hand leaves.
append-leaves :
    (outs more : List Outcome) (cur waiting : List Bytes)
    → map bytes_of_outcome more ≡ cur
    → map bytes_of_outcome outs ++ (cur ++ waiting) ≡ map bytes_of_outcome (outs ++ more) ++ waiting
append-leaves outs more cur waiting e = simp (map-append, append_assoc, sym e)

map-dropped_of : (o : Option Packet) → map bytes_of_outcome (dropped_of o) ≡ hand o
map-dropped_of none = refl
map-dropped_of (some p) = refl

Step-IsInOrder : {s t : System} → Step s t → IsInOrder s → IsInOrder t
Step-IsInOrder (lock p h) i = i
Step-IsInOrder {s = s} (link {p} h) i =
    ap (λ l. l ++ p.send_buf ∷ []) i
    ∙ append-linked (map bytes_of_outcome s.outcomes) s.client.sending_cur s.client.sending p
Step-IsInOrder (count h) i = i
Step-IsInOrder (begin r h pos) i = i
Step-IsInOrder {s = s} (take_one l h) i =
    i
    ∙ ap (λ l. map bytes_of_outcome s.outcomes ++ l)
        (sym (held-take_packet s.client s.client.sending_cur s.client.sending))
Step-IsInOrder {s = s} (send_part {p = p} k a cur more) i =
    i
    ∙ ap
        (λ o. map bytes_of_outcome s.outcomes ++ (hand o ++ map (λ p. p.send_buf) s.client.sending))
        cur
Step-IsInOrder {s = s} (free_sent {p = p} a cur done) i =
    i
    ∙ append-leaves s.outcomes (sent p.send_buf ∷ []) (hand s.client.sending_cur)
        (map (λ p. p.send_buf) s.client.sending) (ap hand (sym cur))
Step-IsInOrder (wait a) i = i
Step-IsInOrder (finish l) i = i
Step-IsInOrder {s = s} (remove_while_sending a) i =
    i
    ∙ append-leaves s.outcomes (dropped_of s.client.sending_cur) (hand s.client.sending_cur)
        (map (λ p. p.send_buf) s.client.sending) (map-dropped_of s.client.sending_cur)
Step-IsInOrder {s = s} (remove r) i =
    i
    ∙ append-leaves s.outcomes (dropped_of s.client.sending_cur) (hand s.client.sending_cur)
        (map (λ p. p.send_buf) s.client.sending) (map-dropped_of s.client.sending_cur)
Step-IsInOrder (greet id r) i = i

-- With the steps of any number of publishers, of the sender, and of the removal and the CONNECT of the
-- client in any order, from a client with nothing to send: the packets that were put into the queue are, in
-- that order, those that left it, sent or dropped, then the one in hand, then those that wait. None gets
-- lost, none comes twice.
pub Reach-IsInOrder :
    {c : Client} {s : System}
    → Reach c s
    → s.history
      ≡ map bytes_of_outcome s.outcomes
        ++ (hand s.client.sending_cur ++ map (λ p. p.send_buf) s.client.sending)
Reach-IsInOrder (start e cur n) = simp (e, cur)
Reach-IsInOrder (next r st) = Step-IsInOrder st (Reach-IsInOrder r)
