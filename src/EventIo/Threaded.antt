-- ===== src/EventIo/Threaded.antt =====
-- What `recv` and the handler keep of their state, `loop_read` keeps (broker/event_io.c, 359-522).
use mumq.Base.{
  ℕ, zero, suc, Bool, true, false, Option, none, some, ◌==◌, ltb, bit_and, if◌then◌else◌,
}
use mumq.Base.Memory.{Memory, new}
use mumq.Base.Words.{Bytes}
use mumq.Mqtt.Message.{Message}
use mumq.Mqtt.Parser.{Outcome, returned, crashed, finished, error, incomplete}
use mumq.Mqtt.Parser
use mumq.EventIo.{
  minus_2, Received, bytes, closed, would_block, reset, failed, Count, below, above, Reading, Stage,
  go_on, returns, crashes, out_of_fuel, packet_of, then_stage, on_bytes, add_length,
  receive_command, length_loop, new_payload, receive_length, payload_loop, receive, parse, answer,
  process, loop_read, receives,
}

abbrev pub Holds {ℓ κ} : {S : Type ℓ} → (S → Type κ) → Stage S → Type κ
Holds P (go_on r s) = P s
Holds P (returns rc r s) = P s
Holds P crashes = Unit
Holds P out_of_fuel = Unit

module _ {ℓ κ} {S : Type ℓ} (P : S → Type κ) where
  if-Holds : (b : Bool) (x y : Stage S) → Holds P x → Holds P y → Holds P (if b then x else y)
  if-Holds true x y p q = p
  if-Holds false x y p q = q

  then_stage-Holds :
      (x : Stage S) (k : Reading → S → Stage S)
      → Holds P x
      → ((r : Reading) (s : S) → P s → Holds P (k r s))
      → Holds P (then_stage x k)
  then_stage-Holds (go_on r s) k h f = f r s h
  then_stage-Holds (returns rc r s) k h f = h
  then_stage-Holds crashes k h f = tt
  then_stage-Holds out_of_fuel k h f = tt

  on_bytes-Holds :
      (r : Reading) (a : Received × S) (k : ℕ → Bytes → S → Stage S)
      → P a.1
      → ((b : ℕ) (bs : Bytes) (s : S) → P s → Holds P (k b bs s))
      → Holds P (on_bytes r a k)
  on_bytes-Holds r (bytes b bs, s) k h f = f b bs s h
  on_bytes-Holds r (closed, s) k h f = h
  on_bytes-Holds r (would_block, s) k h f = h
  on_bytes-Holds r (reset, s) k h f = h
  on_bytes-Holds r (failed, s) k h f = h

  module _ (recv : ℕ → S → Received × S) (recv-keeps : (n : ℕ) (s : S) → P s → P (recv n s).1) where
    receive_command-Holds : (r : Reading) (s : S) → P s → Holds P (receive_command recv r s)
    unfolding receive_command
    receive_command-Holds r s h =
        if-Holds ((packet_of r.in_packet).kind == 0) _ _
          (on_bytes-Holds _ (recv 1 s) _ (recv-keeps 1 s h) (λ b bs s' h'. h')) h

    length_loop-Holds : (n k : ℕ) (r : Reading) (s : S) → P s → Holds P (length_loop recv n k r s)
    unfolding length_loop
    length_loop-Holds zero k r s h = tt
    length_loop-Holds (suc n) k r s h =
        on_bytes-Holds r (recv 1 s) _ (recv-keeps 1 s h) λ b bs s' h'.
          if-Holds (ltb 4 (suc k)) _ _ h' (
            if-Holds (bit_and b 128 == 0) _ _ h'
              (length_loop-Holds n (suc k) (add_length recv r k b) s' h'))

    new_payload-Holds : (m : Memory) (r : Reading) (s : S) → P s → Holds P (new_payload recv m r s)
    unfolding new_payload
    new_payload-Holds m r s h =
        if-Holds ((packet_of r.in_packet).length == 0) _ _ h
          (by_block (new (packet_of r.in_packet).length m).0)
      where
        by_block :
            (o : Option ℕ)
            → Holds P (elim o [
              | none ↦ returns minus_2 (record r { block = none }) s
              | some size ↦
                  go_on
                    (record r { block = some size; in_to_process = (packet_of r.in_packet).length })
                    s
            ])
        by_block none = h
        by_block (some size) = h

    receive_length-Holds :
        (m : Memory) (r : Reading) (s : S) → P s → Holds P (receive_length recv m r s)
    unfolding receive_length
    receive_length-Holds m r s h = by_count r.remaining_count
      where
        by_count :
            (c : Count)
            → Holds P (elim c [
              | below k ↦ then_stage (length_loop recv 5 k r s) (new_payload recv m)
              | above k ↦ go_on r s
            ])
        by_count (below k) =
            then_stage-Holds (length_loop recv 5 k r s) _ (length_loop-Holds 5 k r s h)
              (new_payload-Holds m)
        by_count (above k) = h

    payload_loop-Holds : (n : ℕ) (r : Reading) (s : S) → P s → Holds P (payload_loop recv n r s)
    unfolding payload_loop
    payload_loop-Holds zero r s h = if-Holds (r.in_to_process == 0) (go_on r s) out_of_fuel h tt
    payload_loop-Holds (suc n) r s h = if-Holds (r.in_to_process == 0) (go_on r s) _ h (
        on_bytes-Holds r (recv r.in_to_process s) _ (recv-keeps r.in_to_process s h)
          (λ b bs s' h'. payload_loop-Holds n _ s' h'))

    receive-Holds : (m : Memory) (r : Reading) (s : S) → P s → Holds P (receive recv m r s)
    unfolding receive
    receive-Holds m r s h =
        then_stage-Holds (receive_command recv r s) _ (receive_command-Holds r s h) λ r1 s1 h1.
          then_stage-Holds (receive_length recv m r1 s1) _ (receive_length-Holds m r1 s1 h1)
            λ r2 s2 h2.
              then_stage-Holds (payload_loop recv r2.in_to_process r2 s2) _
                (payload_loop-Holds r2.in_to_process r2 s2 h2) (λ r3 s3 h3. h3)

    module _ (handle : Message → S → ℕ × S)
        (handle-keeps : (p : Message) (s : S) → P s → P (handle p s).1) where
      process-Holds :
          (received : Bool) (r : Reading) (s : S) (o : Outcome)
          → P s
          → Holds P (process recv handle received r s o)
      unfolding process answer
      process-Holds received r s (returned finished c) h =
          if-Holds ((handle c.message s).0 == 0) _ _ (handle-keeps c.message s h)
            (handle-keeps c.message s h)
      process-Holds received r s (returned error c) h = h
      process-Holds received r s (returned incomplete c) h = h
      process-Holds received r s crashed h = tt
      process-Holds received r s Parser.out_of_fuel h = tt

      pub loop_read-Holds :
          (hung broken readable : Bool) (m : Memory) (r : Reading) (s : S)
          → P s
          → Holds P (loop_read recv handle hung broken readable m r s)
      unfolding loop_read
      loop_read-Holds true broken readable m r s h = h
      loop_read-Holds false true readable m r s h = h
      loop_read-Holds false false false m r s h = h
      loop_read-Holds false false true m r s h =
          then_stage-Holds (receive recv m r s) _ (receive-Holds m r s h)
            (λ q s' h'. process-Holds (receives r) q s' (parse q) h')
