-- ===== src/EventIo/Send/Readable.antt =====
-- The sending leaves the fields that the reading uses (broker/event_io.c, 282-354).
use mumq.Base.{ℕ, zero, suc, ◌≡◌, refl, sym, subst, inl, Option, none, some, List, [], ◌∷◌}
use mumq.Base.Words.{Bytes}
use mumq.Broker.{Packet, Client, no_reading}
use mumq.EventIo.Framing.{IsResumed}
use mumq.EventIo.Send.{
  Sent, Ended, sent, waits, removed, Sending, ends, drops, take_packet, next_packet, send_loop,
  after_packet, with_cur, send_packets, send_client,
}
use mumq.EventIo.Send

abbrev pub Resumes {ℓ} : {S : Type ℓ} → Sending S → Type 0
Resumes (ends c s) = IsResumed c.reading
Resumes (drops c s) = IsResumed c.reading
Resumes Send.crashes = Unit
Resumes Send.out_of_fuel = Unit

pub no_reading-IsResumed : IsResumed no_reading
no_reading-IsResumed = inl (refl, refl, refl, refl, refl)

next_packet-reading : (c : Client) → (next_packet c).reading ≡ c.reading
next_packet-reading c = by_packets c.sending_cur c.sending
  where
    by_packets :
        (cur : Option Packet) (ps : List Packet)
        → (next_packet (record c { sending_cur = cur; sending = ps })).reading ≡ c.reading
    by_packets (some p) ps = refl
    by_packets none [] = refl
    by_packets none (p ∷ ps) = refl

take_packet-IsResumed : (c : Client) → IsResumed c.reading → IsResumed (take_packet c).reading
take_packet-IsResumed c h = subst IsResumed (sym (next_packet-reading c)) h

module _ {ℓ} {S : Type ℓ} (send : Bytes → S → Sent × S) where
  after_packet-Resumes :
      (c : Client) (e : Ended S) (k : Client → S → Sending S)
      → IsResumed c.reading
      → ((d : Client) (s : S) → IsResumed d.reading → Resumes (k d s))
      → Resumes (after_packet send c e k)
  after_packet-Resumes c (sent q s) k h f = f _ s h
  after_packet-Resumes c (waits q s) k h f = h
  after_packet-Resumes c (removed s) k h f = no_reading-IsResumed
  after_packet-Resumes c Send.out_of_fuel k h f = tt

  with_cur-Resumes :
      (o : Option Packet) (k : Packet → Sending S)
      → ((p : Packet) → Resumes (k p))
      → Resumes (with_cur send o k)
  with_cur-Resumes none k f = tt
  with_cur-Resumes (some p) k f = f p

  send_packets-Resumes :
      (fuel n : ℕ) (c : Client) (s : S)
      → IsResumed c.reading
      → Resumes (send_packets send fuel n c s)
  unfolding send_packets
  send_packets-Resumes fuel zero c s h = h
  send_packets-Resumes fuel (suc n) c s h = with_cur-Resumes (take_packet c).sending_cur _ λ p.
      after_packet-Resumes (take_packet c) (send_loop send fuel p s) _ (take_packet-IsResumed c h)
        λ d t h'. send_packets-Resumes fuel n d t h'

  pub send_client-Resumes :
      (fuel : ℕ) (c : Client) (s : S) → IsResumed c.reading → Resumes (send_client send fuel c s)
  unfolding send_client
  send_client-Resumes fuel c s h = send_packets-Resumes fuel c.num_sending_pack c s h
