-- ===== src/EventIo/Resumed.antt =====
-- Calls of `loop_read` of broker/event_io.c one after the other: each leaves what the next one needs.
use mumq.Base.{ℕ, ◌≢◌, refl, inl, inr, Bool, true, false, Bool-cases, ◌==◌, arith}
use mumq.Base.Memory.{Memory}
use mumq.Mqtt.Message.{Message}
use mumq.Mqtt.Parser.{Outcome, returned, crashed, finished, error, incomplete, initial, no_error}
use mumq.Mqtt.Parser
use mumq.Mqtt.Parser.Loop.{run-ne-out_of_fuel}
use mumq.EventIo.{
  Received, minus_1, minus_2, minus_3, nought, positive, Reading, Stage, go_on, returns, crashes,
  out_of_fuel, then_stage, receive, parse, answer, process, cleared, loop_read, receives,
}
use mumq.EventIo.Framing.{IsAnswer, IsResumed, IsWhole, Reads}
use mumq.EventIo.Framed.{receive-IsWhole}

-- A call ends with the connection kept, and then the next call can go on; or it ends with the connection
-- closed. It may read past the payload, but it does not run for ever.
abbrev pub Keeps {ℓ} : {S : Type ℓ} → Stage S → Type 0
Keeps (go_on r s) = ⊥
Keeps (returns positive r s) = IsResumed r
Keeps (returns nought r s) = Unit
Keeps (returns minus_1 r s) = Unit
Keeps (returns minus_2 r s) = Unit
Keeps (returns minus_3 r s) = Unit
Keeps crashes = Unit
Keeps out_of_fuel = ⊥

then_stage-Keeps {ℓ} :
    {S : Type ℓ} (P : Reading → Type 0) (x : Stage S) (k : Reading → S → Stage S)
    → Reads P x
    → ((r : Reading) (s : S) → P r → Keeps (k r s))
    → Keeps (then_stage x k)
then_stage-Keeps P (go_on r s) k h f = f r s h
then_stage-Keeps P (returns positive r s) k h f = h
then_stage-Keeps P (returns nought r s) k h f = tt
then_stage-Keeps P (returns minus_1 r s) k h f = tt
then_stage-Keeps P (returns minus_2 r s) k h f = tt
then_stage-Keeps P (returns minus_3 r s) k h f = tt
then_stage-Keeps P crashes k h f = absurd h
then_stage-Keeps P out_of_fuel k h f = absurd h

parse-ne-out_of_fuel : (r : Reading) → parse r ≢ Parser.out_of_fuel
unfolding parse
parse-ne-out_of_fuel r = run-ne-out_of_fuel r.payload _ 11 _ refl (omega arith)

cleared-IsResumed : (r : Reading) → IsWhole r → IsResumed (cleared r)
cleared-IsResumed r (_, _, _, to_process, count) = inl (refl, refl, refl, to_process, count)

module _ {ℓ} {S : Type ℓ} (recv : ℕ → S → Received × S)
    (handle_mqtt_command : Message → S → ℕ × S) where
  answer-Keeps :
      (received : Bool) (r : Reading) (a : ℕ × S)
      → IsWhole r
      → Keeps (answer recv handle_mqtt_command received r a)
  unfolding answer
  answer-Keeps true r (rc, s) h = elim (Bool-cases (rc == 0)) [
    | inl e ↦ rw e (cleared-IsResumed r h)
    | inr e ↦ rw e tt
  ]
  answer-Keeps false r (rc, s) h = elim (Bool-cases (rc == 0)) [ inl e ↦ rw e tt | inr e ↦ rw e tt ]

  process-Keeps :
      (received : Bool) (r : Reading) (s : S) (o : Outcome)
      → o ≢ Parser.out_of_fuel
      → IsWhole r
      → Keeps (process recv handle_mqtt_command received r s o)
  unfolding process
  process-Keeps received r s (returned finished c) ne h =
      answer-Keeps received r (handle_mqtt_command c.message s) h
  process-Keeps received r s (returned error c) ne h = tt
  process-Keeps received r s (returned incomplete c) ne h = tt
  process-Keeps received r s crashed ne h = tt
  process-Keeps received r s Parser.out_of_fuel ne h = absurd (ne refl)

-- For every event, all bytes that `recv` may give and every handler, a call of `loop_read` ends, and when
-- it returns a positive number, which keeps the connection, the client's fields are as the next call
-- needs them: in the middle of a packet, or before the first byte of the next one.
pub loop_read-Keeps {ℓ} :
    {S : Type ℓ} (recv : ℕ → S → Received × S) (handle_mqtt_command : Message → S → ℕ × S)
    (answers : (n : ℕ) (s : S) → IsAnswer n (recv n s).0) (hung broken readable : Bool) (m : Memory)
    (r : Reading) (s : S)
    → IsResumed r
    → Keeps (loop_read recv handle_mqtt_command hung broken readable m r s)
unfolding loop_read
loop_read-Keeps recv handle answers true broken readable m r s h = tt
loop_read-Keeps recv handle answers false true readable m r s h = tt
loop_read-Keeps recv handle answers false false false m r s h = tt
loop_read-Keeps recv handle answers false false true m r s h =
    then_stage-Keeps IsWhole (receive recv m r s) _ (receive-IsWhole recv answers m r s h)
      λ q s' w. process-Keeps recv handle (receives r) q s' (parse q) (parse-ne-out_of_fuel q) w
