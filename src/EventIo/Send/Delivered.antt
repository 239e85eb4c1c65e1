-- ===== src/EventIo/Send/Delivered.antt =====
-- What reaches the connection when `send` never fails and never blocks (broker/event_io.c, 282-354).
use mumq.Base.{
  ℕ, zero, suc, ◌+◌, ◌-◌, ◌^◌, ◌%◌, ◌≤◌, ◌<◌, ◌≡◌, refl, sym, ap, ◌∙◌, false, inl, inr, Bool-cases,
  if_true, if_false, none, List, [], ◌∷◌, ◌++◌, ltb, length, take, drop, length-drop, All, arith,
}
use mumq.Base.Words.{Bytes}
use mumq.Broker.{Packet, Client}
use mumq.EventIo.Send.{
  Sent, accepted, sent, ends, rest_of, moved, take_packet, on_sent, send_loop, after_packet,
  send_packets, send_client,
}
use mathlib.Core.List.{append-nil, append_assoc}

take-drop : (n : ℕ) (xs : Bytes) → take n xs ++ drop n xs ≡ xs
take-drop zero xs = refl
take-drop (suc n) [] = refl
take-drop (suc n) (x ∷ xs) = ap (◌∷◌ x) (take-drop n xs)

drop-[] : (n : ℕ) → drop {A = ℕ} n [] ≡ []
drop-[] zero = refl
drop-[] (suc n) = refl

drop-drop : (m n : ℕ) (xs : Bytes) → drop n (drop m xs) ≡ drop (m + n) xs
drop-drop zero n xs = let e : n ≡ 0 + n = omega arith in ap (λ k. drop k xs) e
drop-drop (suc m) n [] =
    let e : suc (m + n) ≡ suc m + n = omega arith in drop-[] n ∙ ap (λ k. drop k []) e
drop-drop (suc m) n (x ∷ xs) =
    let e : suc (m + n) ≡ suc m + n = omega arith in drop-drop m n xs ∙ ap (λ k. drop k (x ∷ xs)) e

drop-length : (n : ℕ) (xs : Bytes) → length xs ≤ n → drop n xs ≡ []
drop-length zero [] e = refl
drop-length zero (x ∷ xs) e = absurd (omega arith)
drop-length (suc n) [] e = refl
drop-length (suc n) (x ∷ xs) e = drop-length n xs (omega arith)

take-length : (n : ℕ) (xs : Bytes) → n ≡ length xs → take n xs ≡ xs
take-length zero [] e = refl
take-length zero (x ∷ xs) e = absurd (omega arith)
take-length (suc n) [] e = refl
take-length (suc n) (x ∷ xs) e = ap (◌∷◌ x) (take-length n xs (omega arith))

rest_of-drop : (p : Packet) → p.wlen ≡ length p.send_buf → rest_of p ≡ drop p.wcur p.send_buf
rest_of-drop p e =
    take-length (p.wlen - p.wcur) (drop p.wcur p.send_buf)
      (omega (arith, length-drop p.wcur p.send_buf))

-- `send` takes at least one byte and at most as many as it gets, and these are then delivered, in order,
-- after what was before.
abbrev pub Delivers {ℓ} : {S : Type ℓ} → (Bytes → S → Sent × S) → (S → Bytes) → Type ℓ
Delivers {S = S} send delivered =
    (bs : Bytes) (s : S)
    → 0 < length bs
    → (k : ℕ) × (t : S) × (send bs s ≡ (accepted k, t))
      × (suc k ≤ length bs)
      × (delivered t ≡ delivered s ++ take (suc k) bs)

-- A packet of which `wcur` bytes were sent.
abbrev pub IsPacket : Packet → Type 0
IsPacket p = (p.wlen ≡ length p.send_buf) × (p.wlen < 2 ^ 32) × (p.wcur ≤ p.wlen)

-- A packet as `new_packet` makes it, with at most `fuel` bytes.
abbrev pub IsFresh : ℕ → Packet → Type 0
IsFresh fuel p = (p.wcur ≡ 0) × (p.wlen ≡ length p.send_buf) × (p.wlen < 2 ^ 32) × (p.wlen ≤ fuel)

abbrev pub all_bytes : List Packet → Bytes
all_bytes [] = []
all_bytes (p ∷ ps) = p.send_buf ++ all_bytes ps

-- After a call of `send` that took `suc k` bytes.
moved-wcur :
    (p : Packet) (k : ℕ)
    → IsPacket p
    → suc k ≤ length (rest_of p)
    → (moved p (suc k)).wcur ≡ p.wcur + suc k
moved-wcur p k (whole, small, in_it) few =
    let l = length-drop p.wcur p.send_buf in let e = ap length (rest_of-drop p whole) in omega arith

moved-IsPacket :
    (p : Packet) (k : ℕ) → IsPacket p → suc k ≤ length (rest_of p) → IsPacket (moved p (suc k))
moved-IsPacket p k (whole, small, in_it) few =
    let l = length-drop p.wcur p.send_buf in
    let e = ap length (rest_of-drop p whole) in (whole, small, omega arith)

moved-rest :
    (p : Packet) (k : ℕ)
    → IsPacket p
    → suc k ≤ length (rest_of p)
    → take (suc k) (rest_of p) ++ drop (moved p (suc k)).wcur p.send_buf ≡ drop p.wcur p.send_buf
moved-rest p k w few =
    ap (λ n. take (suc k) (rest_of p) ++ drop n p.send_buf) (moved-wcur p k w few)
    ∙ ap (λ xs. take (suc k) (rest_of p) ++ xs) (sym (drop-drop p.wcur (suc k) p.send_buf))
    ∙ ap (λ xs. take (suc k) xs ++ drop (suc k) (drop p.wcur p.send_buf)) (rest_of-drop p w.0)
    ∙ take-drop (suc k) (drop p.wcur p.send_buf)

joined :
    {zs bs ds : Bytes} (cs xs ys : Bytes)
    → zs ≡ bs ++ ys
    → bs ≡ cs ++ xs
    → xs ++ ys ≡ ds
    → zs ≡ cs ++ ds
joined cs xs ys e f g = e ∙ ap (λ xs. xs ++ ys) f ∙ append_assoc cs xs ys ∙ ap (λ xs. cs ++ xs) g

nothing_left :
    (p : Packet) (log : Bytes)
    → IsPacket p
    → ltb p.wcur p.wlen ≡ false
    → log ≡ log ++ drop p.wcur p.send_buf
nothing_left p log (whole, small, in_it) e =
    sym (ap (λ xs. log ++ xs) (drop-length p.wcur p.send_buf (ground arith)) ∙ append-nil log)

module _ {ℓ} {S : Type ℓ} (send : Bytes → S → Sent × S) (delivered : S → Bytes)
    (delivers : Delivers send delivered) where
  send_loop-sent :
      (n : ℕ) (p : Packet) (s : S)
      → IsPacket p
      → p.wlen - p.wcur ≤ n
      → (q : Packet) × (t : S) × (send_loop send n p s ≡ sent q t)
        × (delivered t ≡ delivered s ++ drop p.wcur p.send_buf)
  unfolding send_loop
  send_loop-sent zero p s w h =
      let e : ltb p.wcur p.wlen ≡ false = ground arith in
      (p, s, if_false _ _ e, nothing_left p (delivered s) w e)
  send_loop-sent (suc n) p s w h = elim (Bool-cases (ltb p.wcur p.wlen)) [
    | inl e ↦
        let l = length-drop p.wcur p.send_buf in
        let r = ap length (rest_of-drop p w.0) in
        let (k, t, answer, few, log) = delivers (rest_of p) s (ground arith) in
        let at = moved-wcur p k w few in
        let (q, u, more, rest) =
          send_loop-sent n (moved p (suc k)) t (moved-IsPacket p k w few) (omega arith) in
        (
          q,
          u,
          if_true _ _ e ∙ ap (λ a. on_sent send p a (send_loop send n)) answer ∙ more,
          joined (delivered s) (take (suc k) (rest_of p)) (drop (moved p (suc k)).wcur p.send_buf)
              rest log (moved-rest p k w few),
        )
    | inr e ↦ (p, s, if_false _ _ e, nothing_left p (delivered s) w e)
  ]

  -- The packets of a queue one after the other.
  send_packets-sent :
      (fuel : ℕ) (c : Client) (ps : List Packet) (s : S)
      → All (IsFresh fuel) ps
      → (d : Client) × (t : S) × (send_packets send fuel
            (length ps)
            (record c { sending = ps; sending_cur = none })
            s
          ≡ ends d t)
        × (delivered t ≡ delivered s ++ all_bytes ps)
        × (d.sending ≡ [])
        × (d.sending_cur ≡ none)
        × (d.num_sending_pack ≡ c.num_sending_pack - length ps)
  unfolding send_packets
  send_packets-sent fuel c [] s h =
      (_, s, refl, sym (append-nil (delivered s)), refl, refl, omega arith)
  send_packets-sent fuel c (p ∷ ps) s ((start, whole, small, enough), h) =
      let (q, t, one, log) = send_loop-sent fuel p s (whole, small, omega arith) (omega arith) in
      let c' = record c {
        snd_num = (c.snd_num + 1) % 2 ^ 32;
        num_sending_pack = c.num_sending_pack - 1;
      } in
      let (d, u, run, rest, no_more, none_left, at_0) = send_packets-sent fuel c' ps t h in
      let taken = take_packet (record c { sending = p ∷ ps; sending_cur = none }) in
      (
        d,
        u,
        ap (λ e. after_packet send taken e (send_packets send fuel (length ps))) one ∙ run,
        joined (delivered s) (drop p.wcur p.send_buf) (all_bytes ps) rest log
            (ap (λ n. drop n p.send_buf ++ all_bytes ps) start),
        no_more,
        none_left,
        omega (arith, at_0),
      )

  -- When `send` takes at least one byte of what it gets and never fails, a client whose queue holds
  -- `num_sending_pack` packets, none of them begun, and none in hand, has the bytes of all its packets
  -- delivered, whole and in the order of the queue; then the queue is empty and the count is 0. As many
  -- rounds for each packet as it has bytes are enough.
  pub send_client-delivers :
      (fuel : ℕ) (c : Client) (s : S)
      → c.sending_cur ≡ none
      → c.num_sending_pack ≡ length c.sending
      → All (IsFresh fuel) c.sending
      → (d : Client) × (t : S) × (send_client send fuel c s ≡ ends d t)
        × (delivered t ≡ delivered s ++ all_bytes c.sending)
        × (d.sending ≡ [])
        × (d.sending_cur ≡ none)
        × (d.num_sending_pack ≡ 0)
  unfolding send_client
  send_client-delivers fuel c s idle counted fresh =
      let (d, t, run, rest, no_more, none_left, at_0) =
        send_packets-sent fuel c c.sending s fresh in
      (
        d,
        t,
        ap (λ o. send_packets send fuel c.num_sending_pack (record c { sending_cur = o }) s) idle
            ∙ ap (λ n. send_packets send fuel n (record c { sending_cur = none }) s) counted
            ∙ run,
        rest,
        no_more,
        none_left,
        omega arith,
      )
