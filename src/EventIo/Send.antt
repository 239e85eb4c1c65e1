-- ===== src/EventIo/Send.antt =====
-- The sending of packets in `loop_run` of broker/event_io.c, 282-354, for one client, in the build
-- without mTCP. `send` of the system is a parameter, with its state `S`.
pub mod Delivered
pub mod Counted
pub mod Readable
pub mod Failed
use mumq.Base.{
  ℕ, zero, suc, ◌+◌, ◌-◌, ◌^◌, ◌%◌, Bool, true, false, Option, none, some, List, [], ◌∷◌, ◌==◌, ltb,
  if◌then◌else◌, take, drop,
}
use mumq.Base.Words.{Bytes}
use mumq.Broker.{Packet, Client, clean_context}

-- What `send` answers: `accepted n` is n + 1 bytes; 0 and -1 come with whether `errno` says that the call
-- would block, which is all that is read of it.
pub data Sent : Type 0 where
  accepted : ℕ → Sent
  nothing failed : Bool → Sent

-- The bytes of a packet that are left, which is what the call of `send` gets.
abbrev pub rest_of : Packet → Bytes
rest_of p = take (p.wlen - p.wcur) (drop p.wcur p.send_buf)

-- The end of the loop on one packet: all is sent; the rest waits, or the client was removed; a read
-- through NULL; or the rounds were not enough.
pub data Ended {ℓ} (S : Type ℓ) : Type ℓ where
  sent : Packet → S → Ended S
  waits : Packet → S → Ended S
  removed : S → Ended S
  out_of_fuel : Ended S

-- The end of the sending for the client; `drops` is the removal of it.
pub data Sending {ℓ} (S : Type ℓ) : Type ℓ where
  ends drops : Client → S → Sending S
  crashes : Sending S
  out_of_fuel : Sending S

-- `wcur += wlen`
abbrev pub moved : Packet → ℕ → Packet
moved p n = record p { wcur = (p.wcur + n) % 2 ^ 32 }

-- 309-316; the caller knows that a packet is counted.
abbrev pub next_packet : Client → Client
next_packet c = elim c.sending_cur [
  | some p ↦ c
  | none ↦ elim c.sending [ [] ↦ c | p ∷ ps ↦ record c { sending_cur = some p; sending = ps } ]
]

abbrev pub take_packet : Client → Client
take_packet c = let c' = next_packet c in record c' { num_sending_pack = c'.num_sending_pack - 1 }

-- 342-352
abbrev pub freed : Client → Client
freed c = record c { snd_num = (c.snd_num + 1) % 2 ^ 32; sending_cur = none }

module _ {ℓ} {S : Type ℓ} (send : Bytes → S → Sent × S) where
  -- `wlen` is a `uint32_t`: -1 is 4294967295, so the test `<= 0` holds of 0 alone.
  abbrev pub on_sent : Packet → Sent × S → (Packet → S → Ended S) → Ended S
  on_sent p (accepted n, s) k = k (moved p (suc n)) s
  on_sent p (nothing true, s) k = waits p s
  on_sent p (nothing false, s) k = removed s
  on_sent p (failed blocks, s) k = k (moved p 0xffffffff) s

  -- `while (wcur < wlen)`
  pub send_loop : ℕ → Packet → S → Ended S
  send_loop zero p s = if ltb p.wcur p.wlen then out_of_fuel else sent p s
  send_loop (suc n) p s =
      let more = on_sent p (send (rest_of p) s) (send_loop n) in
      if ltb p.wcur p.wlen then more else sent p s

  abbrev pub after_packet : Client → Ended S → (Client → S → Sending S) → Sending S
  after_packet c (sent p s) k = k (freed c) s
  after_packet c (waits p s) k = ends (record c { sending_cur = some p }) s
  after_packet c (removed s) k = drops (clean_context c) s
  after_packet c out_of_fuel k = out_of_fuel

  abbrev pub with_cur : Option Packet → (Packet → Sending S) → Sending S
  with_cur none k = crashes
  with_cur (some p) k = k p

  -- `while (num_sending-- > 0)`; `fuel` is for the loop on each packet.
  pub send_packets : ℕ → ℕ → Client → S → Sending S
  unfolding send_loop
  send_packets fuel zero c s = ends c s
  send_packets fuel (suc n) c s =
      let c' = take_packet c in
      with_cur c'.sending_cur λ p. after_packet c' (send_loop fuel p s) (send_packets fuel n)

  -- `num_sending` is read once, before the loop.
  pub send_client : ℕ → Client → S → Sending S
  unfolding send_packets
  send_client fuel c s = send_packets fuel c.num_sending_pack c s
