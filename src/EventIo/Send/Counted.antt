-- ===== src/EventIo/Send/Counted.antt =====
-- `num_sending_pack` never counts more packets than there are (broker/event_io.c, 282-354), so the loop
-- takes no packet from an empty queue.
use mumq.Base.{
  ℕ, zero, suc, ◌+◌, ◌-◌, ◌≤◌, ◌≡◌, refl, sym, ap, subst, Option, none, some, List, [], ◌∷◌, length,
  arith,
}
use mumq.Base.Words.{Bytes}
use mumq.Broker.{Packet, Client}
use mumq.EventIo.Send.{
  Sent, Ended, sent, waits, removed, Sending, ends, drops, crashes, take_packet, freed, send_loop,
  after_packet, with_cur, send_packets, send_client,
}
use mumq.EventIo.Send

abbrev pub in_hand : Option Packet → ℕ
in_hand none = 0
in_hand (some p) = 1

abbrev pub packets : Client → ℕ
packets c = length c.sending + in_hand c.sending_cur

abbrev pub IsCounted : Client → Type 0
IsCounted c = c.num_sending_pack ≤ packets c

-- The loop ends with the invariant, or does not end.
abbrev pub KeepsCount {ℓ} : {S : Type ℓ} → Sending S → Type 0
KeepsCount (ends c s) = IsCounted c
KeepsCount (drops c s) = IsCounted c
KeepsCount crashes = ⊥
KeepsCount Send.out_of_fuel = Unit

-- A packet is in hand, and none got lost.
abbrev IsTaken : Client → Client → Type 0
IsTaken c d =
    (p : Packet) × (d.sending_cur ≡ some p)
    × (packets d ≡ packets c)
    × (d.num_sending_pack ≡ c.num_sending_pack - 1)

take_packet-of :
    (c : Client) (cur : Option Packet) (ps : List Packet)
    → 1 ≤ length ps + in_hand cur
    → IsTaken
        (record c { sending_cur = cur; sending = ps })
        (take_packet (record c { sending_cur = cur; sending = ps }))
take_packet-of c (some p) ps h = (p, refl, refl, refl)
take_packet-of c none (p ∷ ps) h = (p, refl, omega arith, refl)
take_packet-of c none [] h = absurd (omega arith)

take_packet-IsTaken : (c : Client) → 1 ≤ packets c → IsTaken c (take_packet c)
take_packet-IsTaken c = take_packet-of c c.sending_cur c.sending

module _ {ℓ} {S : Type ℓ} (send : Bytes → S → Sent × S) where
  after_packet-KeepsCount :
      (c : Client) (n : ℕ) (e : Ended S) (k : Client → S → Sending S)
      → n ≤ c.num_sending_pack
      → suc c.num_sending_pack ≤ packets c
      → (p : Packet) → c.sending_cur ≡ some p
      → ((d : Client) (s : S) → n ≤ d.num_sending_pack → IsCounted d → KeepsCount (k d s))
      → KeepsCount (after_packet send c e k)
  after_packet-KeepsCount c n (sent q s) k few h p cur f =
      let one = ap in_hand cur in f (freed c) s few (omega arith)
  after_packet-KeepsCount c n (waits q s) k few h p cur f = let one = ap in_hand cur in omega arith
  after_packet-KeepsCount c n (removed s) k few h p cur f = omega arith
  after_packet-KeepsCount c n Send.out_of_fuel k few h p cur f = tt

  send_packets-KeepsCount :
      (fuel n : ℕ) (c : Client) (s : S)
      → n ≤ c.num_sending_pack
      → IsCounted c
      → KeepsCount (send_packets send fuel n c s)
  unfolding send_packets
  send_packets-KeepsCount fuel zero c s few h = h
  send_packets-KeepsCount fuel (suc n) c s few h =
      let (p, cur, same, less) = take_packet-IsTaken c (omega arith) in
      let d = take_packet c in
      let k = send_packets send fuel n in
      subst
        (λ o. KeepsCount (with_cur send o (λ q. after_packet send d (send_loop send fuel q s) k)))
        (sym cur)
        (after_packet-KeepsCount d n (send_loop send fuel p s) k (omega arith) (omega arith) p cur
          (λ e t few' h'. send_packets-KeepsCount fuel n e t few' h'))

  -- For every `send`: when `num_sending_pack` counts no more packets than the client has, waiting and in
  -- hand, then the loop reads through no NULL pointer, and the count is right again when it ends.
  pub send_client-KeepsCount :
      (fuel : ℕ) (c : Client) (s : S) → IsCounted c → KeepsCount (send_client send fuel c s)
  unfolding send_client
  send_client-KeepsCount fuel c s h =
      send_packets-KeepsCount fuel c.num_sending_pack c s (omega arith) h
