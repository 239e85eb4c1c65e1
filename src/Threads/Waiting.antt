-- ===== src/Threads/Waiting.antt =====
-- A packet whose rest waits at the end of the queue (broker/event_io.c, 282-353).
use mumq.Base.{◌≡◌, ◌⊎◌, inl, inr, refl, ap, some, [], length, arith}
use mumq.Base.Strings.{Str}
use mumq.Broker.{Packet, Client, clean_context}
use mumq.Threads.{
  nobody, linking, resting, System, Step, lock, link, count, begin, take_one, send_part, free_sent,
  wait, finish, remove_while_sending, remove, greet, greeted, Reach,
}
use mumq.Threads.Kept.{Reach-IsReadable}

-- In every state that a client with nothing to send gets to, with the steps of any number of publishers, of
-- the sender, and of the removal and the CONNECT of the client in any order: when no thread holds the lock
-- or sends to the client, and a packet is in hand with none behind it, then the only steps are that a
-- publisher takes the lock for one more packet, that the client is removed, or that its slot takes a
-- CONNECT. The sender does not go on with the packet.
pub Reach-waits :
    {c : Client} {s t : System} (p : Packet)
    → Reach c s
    → s.holder ≡ nobody
    → s.sender ≡ resting
    → s.client.sending_cur ≡ some p
    → s.client.sending ≡ []
    → Step s t
    → ((q : Packet) × (t ≡ record s { holder = linking q }))
      ⊎ ((t.client ≡ clean_context s.client)
          ⊎ ((id : Str) × (t ≡ record s { client = greeted id s.client })))
Reach-waits p r free rest cur none (lock q h) = inl (q, refl)
Reach-waits p r free rest cur none (link h) = absurd (ground arith)
Reach-waits p r free rest cur none (count h) = absurd (ground arith)
Reach-waits p r free rest cur none (begin a h pos) =
    let no_more = (Reach-IsReadable r).2 in let empty = ap length none in absurd (omega arith)
Reach-waits p r free rest cur none (take_one l h) = absurd (ground arith)
Reach-waits p r free rest cur none (send_part k a q more) = absurd (ground arith)
Reach-waits p r free rest cur none (free_sent a q done) = absurd (ground arith)
Reach-waits p r free rest cur none (wait a) = absurd (ground arith)
Reach-waits p r free rest cur none (finish l) = absurd (ground arith)
Reach-waits p r free rest cur none (remove_while_sending a) = inr (inl refl)
Reach-waits p r free rest cur none (remove a) = inr (inl refl)
Reach-waits p r free rest cur none (greet id a) = inr (inr (id, refl))
