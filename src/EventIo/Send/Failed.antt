-- ===== src/EventIo/Send/Failed.antt =====
-- A failing `send` in the loop on one packet (broker/event_io.c, 321-339).
use mumq.Base.{
  ℕ, zero, suc, ◌+◌, ◌-◌, ◌^◌, ◌%◌, ◌<◌, ◌≡◌, sym, ap, ◌∙◌, Bool, true, false, if_true, if_false,
  ltb, ◌==◌, if◌then◌else◌, arith,
}
use mumq.Base.Words.{Bytes}
use mumq.Broker.{Packet}
use mumq.EventIo.Send.{Sent, failed, sent, rest_of, moved, on_sent, send_loop}

module _ {ℓ} {S : Type ℓ} (send : Bytes → S → Sent × S) where
  send_loop-at_end :
      (n : ℕ) (p : Packet) (s : S) → ltb p.wcur p.wlen ≡ false → send_loop send n p s ≡ sent p s
  unfolding send_loop
  send_loop-at_end zero p s e = if_false _ _ e
  send_loop-at_end (suc n) p s e = if_false _ _ e

  moved_back :
      (n : ℕ) (p : Packet) (t : S)
      → p.wcur < p.wlen
      → p.wlen < 2 ^ 32
      → send_loop send n (moved p 0xffffffff) t ≡ (
          if p.wcur == 0
          then sent (record p { wcur = 2 ^ 32 - 1 }) t
          else send_loop send n (record p { wcur = p.wcur - 1 }) t)
  moved_back n p t more small = by_wcur p.wcur more
    where
      by_wcur :
          (w : ℕ)
          → w < p.wlen
          → send_loop send n (record p { wcur = (w + 0xffffffff) % 2 ^ 32 }) t ≡ (
              if w == 0
              then sent (record p { wcur = 2 ^ 32 - 1 }) t
              else send_loop send n (record p { wcur = w - 1 }) t)
      by_wcur zero h =
          let e : ltb 0xffffffff p.wlen ≡ false = ground arith in
          send_loop-at_end n (record p { wcur = 0xffffffff }) t e
      by_wcur (suc w) h =
          let e : (suc w + 0xffffffff) % 2 ^ 32 ≡ suc w - 1 = omega arith in
          let pos : (suc w == 0) ≡ false = ground arith in
          ap (λ k. send_loop send n (record p { wcur = k }) t) e ∙ sym (if_false _ _ pos)

  -- When `send` fails, for any reason, on a packet of less than 4 GiB of which `wcur` bytes were sent: if
  -- no byte was sent, the loop ends as if the packet was sent, and else it goes on one byte further back.
  pub send_loop-failed :
      (n : ℕ) (p : Packet) (s t : S) (blocks : Bool)
      → p.wcur < p.wlen
      → p.wlen < 2 ^ 32
      → send (rest_of p) s ≡ (failed blocks, t)
      → send_loop send (suc n) p s ≡ (
          if p.wcur == 0
          then sent (record p { wcur = 2 ^ 32 - 1 }) t
          else send_loop send n (record p { wcur = p.wcur - 1 }) t)
  unfolding send_loop
  send_loop-failed n p s t blocks more small answer =
      let e : ltb p.wcur p.wlen ≡ true = ground arith in
      if_true _ _ e
      ∙ ap (λ a. on_sent send p a (send_loop send n)) answer
      ∙ moved_back n p t more small
