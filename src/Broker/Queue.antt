-- ===== src/Broker/Queue.antt =====
-- The queue of a client as the code has it: packets on a heap, linked by `next`, with `sending_packet` and
-- `sending_packet_tail` (broker/hand_mqtt.c, 49-57, broker/event_io.c, 309-315). It is the list that the other
-- files use.
pub mod Linked
use mumq.Base.{
  ℕ, ◌≡◌, ◌≢◌, refl, sym, ap, subst, ◌∙◌, Bool, true, false, inl, inr, Bool-cases, if_true,
  if_false, Option, none, some, List, [], ◌∷◌, ◌++◌, map, ◌==◌, ==_iff, if◌then◌else◌, All, arith,
}
use mumq.Broker.{Packet}

pub record Node : Type 0 where
  pub packet : Packet
  pub next : Option ℕ

abbrev pub Heap : Type 0
Heap = ℕ → Node

abbrev pub set : Heap → ℕ → Node → Heap
set h a n b = if b == a then n else h b

pub record Queue : Type 0 where
  pub heap : Heap
  pub sending_packet : Option ℕ
  pub sending_packet_tail : Option ℕ

-- `new_packet->next = NULL`, and the node at the end of the queue.
abbrev pub put : ℕ → Packet → Queue → Queue
put a p q =
    let h = set q.heap a (record { packet = p; next = none }) in
    elim q.sending_packet_tail [
      | none ↦ record { heap = h; sending_packet = some a; sending_packet_tail = some a }
      | some t ↦ record {
        heap = set h t (record (h t) { next = some a });
        sending_packet = q.sending_packet;
        sending_packet_tail = some a;
      }
    ]

abbrev tail_of : Option ℕ → Option ℕ → Option ℕ
tail_of none tail = none
tail_of (some a) tail = tail

-- The first packet, with what is left; `none` is a queue with no packet.
abbrev pub get : Queue → Option (Packet × Queue)
get q = elim q.sending_packet [
  | none ↦ none
  | some a ↦ some (
    (q.heap a).packet,
    record q {
      sending_packet = (q.heap a).next;
      sending_packet_tail = tail_of (q.heap a).next q.sending_packet_tail;
    },
  )
]

-- The nodes at the addresses `as`, from a pointer on, hold the packets.
abbrev pub IsLinked : Heap → Option ℕ → List ℕ → List Packet → Type 0
IsLinked h none [] [] = Unit
IsLinked h (some a) (b ∷ bs) (p ∷ ps) = (a ≡ b) × ((h b).packet ≡ p) × IsLinked h (h b).next bs ps
IsLinked h _ _ _ = ⊥

abbrev pub last_of : List ℕ → Option ℕ
last_of [] = none
last_of (a ∷ []) = some a
last_of (a ∷ b ∷ bs) = last_of (b ∷ bs)

abbrev pub AreDistinct : List ℕ → Type 0
AreDistinct [] = Unit
AreDistinct (a ∷ bs) = All (λ b. a ≢ b) bs × AreDistinct bs

-- The queue holds the packets at these addresses.
abbrev pub IsQueue : Queue → List ℕ → List Packet → Type 0
IsQueue q bs ps =
    IsLinked q.heap q.sending_packet bs ps × (q.sending_packet_tail ≡ last_of bs) × AreDistinct bs
