-- ===== src/EventIo/Framed.antt =====
-- The reading of a packet in `loop_read` of broker/event_io.c, and what it hands to the parser.
use mumq.Base.{
  ℕ, zero, suc, ◌+◌, ◌*◌, ◌%◌, ◌≤◌, ◌<◌, ◌≡◌, ◌⊎◌, inl, inr, refl, bit_and, bit_and-127, true,
  false, Bool-cases, Option, none, some, ◌∷◌, ◌++◌, ◌==◌, ==_iff, ltb, length, length-append, arith,
}
use mumq.Base.Memory.{Memory, new, new-none_or_some}
use mumq.Base.Words.{sub32}
use mumq.Mqtt.Command.{mqtt_parser_command}
use native.Mathlib.Nat.{mul-le-mul_right}
use mumq.EventIo.{
  Received, minus_2, Count, below, above, Reading, go_on, returns, packet_of, then_stage,
  add_length, receive_command, length_loop, new_payload, receive_length, payload_loop, receive,
}
use mumq.EventIo.Framing.{
  span, size, Counted, IsFramed, IsResumed, IsAnswer, Reads, IsWhole, IsSized, IsFilling,
  IsFilling-IsFramed, span_bound, then_stage-Reads, on_bytes-Reads,
}

if_zero : (n : ℕ) → n ≤ 0 → (n == 0) ≡ true
if_zero n h = ground arith

-- Seven bits more, times at most the span, stay below 128 times the span.
grow : (x c m n : ℕ) → c ≤ 127 → m ≤ n → x < n → x + c * m < 128 * n
grow x c m n hc hm hx = omega (arith, mul-le-mul_right m hc)

module _ {ℓ} {S : Type ℓ} (recv : ℕ → S → Received × S)
    (answers : (n : ℕ) (s : S) → IsAnswer n (recv n s).0) where
  command-IsFramed :
      (r : Reading) (b : ℕ)
      → IsResumed r
      → IsFramed (record r {
        in_packet = some (mqtt_parser_command (packet_of r.in_packet) b);
        remaining_mult = 1;
      })
  command-IsFramed r b (inl (kind, l, p, t, c)) = rw c (omega arith, omega arith, omega arith, p, t)
  command-IsFramed r b (inr h) = by_count r.remaining_count h
    where
      by_count :
          (c : Count)
          → Counted c r
          → Counted c (record r {
            in_packet = some (mqtt_parser_command (packet_of r.in_packet) b);
            remaining_mult = 1;
          })
      by_count (below k) (a, m, l, p, t) = (a, omega arith, l, p, t)
      by_count (above k) h = h

  opened-IsResumed :
      (r : Reading)
      → IsResumed r
      → IsResumed (record r { in_packet = some (packet_of r.in_packet) })
  opened-IsResumed r (inl h) = inl h
  opened-IsResumed r (inr h) = inr (by_count r.remaining_count h)
    where
      by_count :
          (c : Count)
          → Counted c r
          → Counted c (record r { in_packet = some (packet_of r.in_packet) })
      by_count (below k) h = h
      by_count (above k) h = h

  begun : (r : Reading) → ((packet_of r.in_packet).kind == 0) ≡ false → IsResumed r → IsFramed r
  begun r e (inl h) = absurd (ground (arith, h.0))
  begun r e (inr h) = h

  receive_command-Reads :
      (r : Reading) (s : S) → IsResumed r → Reads IsFramed (receive_command recv r s)
  unfolding receive_command
  receive_command-Reads r s h =
      let opened = opened-IsResumed r h in
      elim (Bool-cases ((packet_of r.in_packet).kind == 0)) [
        | inl e ↦ rw e (
            on_bytes-Reads IsFramed 1 _ (recv 1 s) _ opened (answers 1 s)
              λ b bs s' hb hl. command-IsFramed r b h)
        | inr e ↦ rw e (begun (record r { in_packet = some (packet_of r.in_packet) }) e opened)
      ]

  added :
      (r : Reading) (k b : ℕ)
      → b < 256
      → k ≤ 3
      → Counted (below k) r
      → IsFramed (add_length recv r k b)
  added r k b hb hk (a, m, l, p, t) =
      let span_k = span_bound k a in
      rw (bit_and-127 b hb) (
        omega arith,
        omega arith,
        omega (arith, grow (size r) (b % 128) r.remaining_mult (span k) (omega arith) m l),
        p,
        t,
      )

  length_loop-Reads :
      (n k : ℕ) (r : Reading) (s : S)
      → 5 ≤ n + k
      → r.remaining_count ≡ below k
      → Counted (below k) r
      → Reads IsSized (length_loop recv n k r s)
  unfolding length_loop
  length_loop-Reads zero k r s f e h = absurd (omega (arith, h.0))
  length_loop-Reads (suc n) k r s f e h =
      on_bytes-Reads IsSized 1 r (recv 1 s) _ (inr (rw e h)) (answers 1 s) λ b bs s' hb hl.
        elim (Bool-cases (ltb 4 (suc k))) [
          | inl over ↦ rw over tt
          | inr within ↦
              let framed = added r k b hb (ground arith) h in
              rw within (elim (Bool-cases (bit_and b 128 == 0)) [
                | inl last ↦ rw last (
                  suc k,
                  refl,
                  omega (arith, span_bound (suc k) framed.0, framed.2),
                  framed.3,
                  framed.4,
                )
                | inr more ↦ rw more (
                    length_loop-Reads n (suc k) (add_length recv r k b) s' (omega arith) refl
                      framed)
              ])
        ]

  new_payload-Reads :
      (m : Memory) (r : Reading) (s : S) → IsSized r → Reads IsFilling (new_payload recv m r s)
  unfolding new_payload
  new_payload-Reads m r s (k, e, l, p, t) = elim (Bool-cases (size r == 0)) [
    | inl z ↦
        rw z (k, e, (l, omega (arith, (==_iff (size r) 0).0 z), inl ((==_iff (size r) 0).0 z)))
    | inr z ↦ rw z (by_block (new (size r) m).0 (new-none_or_some (size r) m))
  ]
    where
      by_block :
          (o : Option ℕ)
          → (o ≡ none) ⊎ (o ≡ some (size r))
          → Reads {S = S} IsFilling (elim o [
            | none ↦ returns minus_2 (record r { block = none }) s
            | some n ↦ go_on (record r { block = some n; in_to_process = size r }) s
          ])
      by_block none h = tt
      by_block (some n) (inl h) = cc
      by_block (some n) (inr h) = (k, e, (l, omega arith, inr h))

  receive_length-Reads :
      (m : Memory) (r : Reading) (s : S) → IsFramed r → Reads IsFilling (receive_length recv m r s)
  unfolding receive_length
  receive_length-Reads m r s h = by_count r.remaining_count refl h
    where
      by_count :
          (c : Count)
          → r.remaining_count ≡ c
          → Counted c r
          → Reads IsFilling (elim c [
            | below k ↦ then_stage (length_loop recv 5 k r s) (new_payload recv m)
            | above k ↦ go_on r s
          ])
      by_count (below k) e h =
          then_stage-Reads IsSized IsFilling (length_loop recv 5 k r s) (new_payload recv m)
            (length_loop-Reads 5 k r s (omega arith) e h) (new_payload-Reads m)
      by_count (above k) e h = (k, e, h)

  payload_loop-Reads :
      (n : ℕ) (r : Reading) (s : S)
      → r.in_to_process ≤ n
      → IsFilling r
      → Reads (λ q. IsFilling q × (q.in_to_process ≡ 0)) (payload_loop recv n r s)
  unfolding payload_loop
  payload_loop-Reads zero r s f h = rw (if_zero r.in_to_process f) (h, omega arith)
  payload_loop-Reads (suc n) r s f h = elim (Bool-cases (r.in_to_process == 0)) [
    | inl e ↦ rw e (h, (==_iff r.in_to_process 0).0 e)
    | inr e ↦ rw e (
        on_bytes-Reads _ r.in_to_process r (recv r.in_to_process s) _ (inr (IsFilling-IsFramed r h))
          (answers r.in_to_process s)
          λ b bs s' hb hl.
            let (k, c, (l, sum, there)) = h in
            payload_loop-Reads n
              (record r {
                payload = r.payload ++ b ∷ bs;
                in_to_process = sub32 r.in_to_process (1 + length bs);
              })
              s' (omega arith) (k, c, (l, omega (arith, length-append r.payload (b ∷ bs)), there)))
  ]

pub receive-IsWhole {ℓ} :
    {S : Type ℓ} (recv : ℕ → S → Received × S) (answers : (n : ℕ) (s : S) → IsAnswer n (recv n s).0)
    (m : Memory) (r : Reading) (s : S)
    → IsResumed r
    → Reads IsWhole (receive recv m r s)
unfolding receive
receive-IsWhole recv answers m r s h =
    then_stage-Reads IsFramed IsWhole (receive_command recv r s) _
      (receive_command-Reads recv answers r s h)
      λ r1 s1 h1.
        then_stage-Reads IsFilling IsWhole (receive_length recv m r1 s1) _
          (receive_length-Reads recv answers m r1 s1 h1)
          λ r2 s2 h2.
            then_stage-Reads (λ q. IsFilling q × (q.in_to_process ≡ 0)) IsWhole
              (payload_loop recv r2.in_to_process r2 s2) _
              (payload_loop-Reads recv answers r2.in_to_process r2 s2 (omega arith) h2)
              λ r3 s3 h3.
                (let ((k, c, (l, sum, there)), done) = h3 in (omega arith, l, there, done, refl))
