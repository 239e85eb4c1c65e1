-- ===== src/EventIo.antt =====
-- `loop_read` of broker/event_io.c, for the build without mTCP: it takes the first byte, the remaining
-- length and the payload of a packet from the connection, resumed where the last call stopped, and
-- hands them to the parser. `recv` of the system is a parameter, with its state `S`.
pub mod Framed
pub mod Framing
pub mod Resumed
pub mod Threaded
pub mod Send
mod Tests
use mumq.Base.{
  ℕ, zero, suc, ◌+◌, ◌*◌, ◌%◌, ◌^◌, bit_and, Bool, true, false, Option, none, some, List, [], ◌∷◌,
  ◌++◌, ◌==◌, ◌||◌, not, ltb, if◌then◌else◌, length,
}
use mumq.Base.Memory.{Memory, new}
use mumq.Base.Words.{Bytes, sub32}
use mumq.Mqtt.Message.{Message, message_init}
use mumq.Mqtt.Command.{mqtt_parser_command}
use mumq.Mqtt.Parser.{
  initial, Cursor, Outcome, returned, crashed, run, no_error, finished, error, incomplete,
}
use mumq.Mqtt.Parser

-- What `recv` answers: at least one byte, 0, or -1 with the `errno` of a call that would block, of a
-- reset, or of another error.
pub data Received : Type 0 where
  bytes : ℕ → Bytes → Received
  closed would_block reset failed : Received

-- What `loop_read` returns: -1, -2, -3, 0, or a positive number. Its caller tests only for the last.
pub data Return : Type 0 where
  minus_1 minus_2 minus_3 nought positive : Return

-- `remaining_count`: `below k` is -k, `above k` is k after the sign was turned.
pub data Count : Type 0 where
  below above : ℕ → Count

-- The fields of the client that the reading uses. `block` is the size of the block at `in_payload`,
-- `none` for NULL, and `payload` the first `in_cur` bytes in it.
pub record Reading : Type 0 where
  pub in_packet : Option Message
  pub remaining_count : Count
  pub remaining_mult : ℕ
  pub block : Option ℕ
  pub payload : Bytes
  pub in_to_process : ℕ

-- A part of the function ends with a return, or the next part goes on; `crashes` is a read of the parser
-- past the payload.
pub data Stage {ℓ} (S : Type ℓ) : Type ℓ where
  go_on : Reading → S → Stage S
  returns : Return → Reading → S → Stage S
  crashes : Stage S
  out_of_fuel : Stage S

abbrev pub packet_of : Option Message → Message
packet_of none = message_init
packet_of (some p) = p

module _ {ℓ} {S : Type ℓ} where
  abbrev pub then_stage : Stage S → (Reading → S → Stage S) → Stage S
  then_stage (go_on r s) k = k r s
  then_stage (returns rc r s) k = returns rc r s
  then_stage crashes k = crashes
  then_stage out_of_fuel k = out_of_fuel

  abbrev pub on_bytes : Reading → Received × S → (ℕ → Bytes → S → Stage S) → Stage S
  on_bytes r (bytes b bs, s) k = k b bs s
  on_bytes r (closed, s) k = returns nought r s
  on_bytes r (would_block, s) k = returns positive r s
  on_bytes r (reset, s) k = returns nought r s
  on_bytes r (failed, s) k = returns minus_3 r s

module _ {ℓ} {S : Type ℓ} (recv : ℕ → S → Received × S) where
  -- A packet whose `type` is 0 has no first byte yet.
  pub receive_command : Reading → S → Stage S
  receive_command r s =
      let p = packet_of r.in_packet in
      let r' = record r { in_packet = some p } in
      if p.kind == 0
      then on_bytes r' (recv 1 s) (λ b bs s'.
        go_on (record r { in_packet = some (mqtt_parser_command p b); remaining_mult = 1 }) s')
      else go_on r' s

  -- A byte of the length: 7 bits of it are added.
  abbrev pub add_length : Reading → ℕ → ℕ → Reading
  add_length r k b =
      let p = packet_of r.in_packet in
      record r {
        in_packet =
            some (record p { length = (p.length + bit_and b 127 * r.remaining_mult) % 2 ^ 32 });
        remaining_count = below (suc k);
        remaining_mult = r.remaining_mult * 128 % 2 ^ 32;
      }

  -- `do … while ((byte & 128) != 0)`; `k` bytes were read before.
  pub length_loop : ℕ → ℕ → Reading → S → Stage S
  length_loop zero k r s = out_of_fuel
  length_loop (suc n) k r s = on_bytes r (recv 1 s) λ b bs s'.
      (let more = length_loop n (suc k) (add_length r k b) s' in
        if ltb 4 (suc k)
        then returns minus_1 (record r { remaining_count = below (suc k) }) s'
        else if bit_and b 128 == 0
        then go_on (record (add_length r k b) { remaining_count = above (suc k) }) s'
        else more)

  -- `malloc` of the payload, if there is one.
  pub new_payload : Memory → Reading → S → Stage S
  new_payload m r s =
      let n = (packet_of r.in_packet).length in
      if n == 0 then go_on r s else elim (new n m).0 [
        | none ↦ returns minus_2 (record r { block = none }) s
        | some size ↦ go_on (record r { block = some size; in_to_process = n }) s
      ]

  pub receive_length : Memory → Reading → S → Stage S
  unfolding length_loop new_payload
  receive_length m r s = elim r.remaining_count [
    | below k ↦ then_stage (length_loop 5 k r s) (new_payload m)
    | above k ↦ go_on r s
  ]

  pub payload_loop : ℕ → Reading → S → Stage S
  payload_loop zero r s = if r.in_to_process == 0 then go_on r s else out_of_fuel
  payload_loop (suc n) r s =
      let more = on_bytes r (recv r.in_to_process s) λ b bs s'.
        payload_loop n
          (record r {
            payload = r.payload ++ b ∷ bs;
            in_to_process = sub32 r.in_to_process (1 + length bs);
          })
          s' in
      if r.in_to_process == 0 then go_on r s else more

  -- At the end `in_cur` is 0 again for the next packet; here the bytes stay for the parser.
  unfoldable pub receive : Memory → Reading → S → Stage S
  unfolding receive_command receive_length payload_loop
  receive m r s = then_stage (receive_command r s) λ r1 s1.
      then_stage (receive_length m r1 s1) λ r2 s2.
        then_stage (payload_loop r2.in_to_process r2 s2)
          λ r3 s3. go_on (record r3 { remaining_count = below 0 }) s3

-- The payload before the parser, from the state that `loop_read` sets.
pub parse : Reading → Outcome
parse r =
    let p = packet_of r.in_packet in
    run r.payload p.length 11 (record { state = initial; error = no_error; message = p; nread = 0 })

-- After the handler, which frees the packet, the payload is freed.
abbrev pub cleared : Reading → Reading
cleared r = record r { in_packet = none; block = none; payload = [] }

abbrev is_below : Count → Bool
is_below (below k) = true
is_below (above k) = false

-- Whether there is anything to receive for the packet; else `rlen` stays -1.
abbrev pub receives : Reading → Bool
receives r =
    (packet_of r.in_packet).kind == 0 || is_below r.remaining_count || not (r.in_to_process == 0)

abbrev pub rlen_of : Bool → Return
rlen_of true = positive
rlen_of false = minus_1

module _ {ℓ} {S : Type ℓ} (recv : ℕ → S → Received × S)
    (handle_mqtt_command : Message → S → ℕ × S) where
  -- `return rlen` at the end; `received` is whether `recv` was called.
  pub answer : Bool → Reading → ℕ × S → Stage S
  answer received r (rc, s) =
      if rc == 0 then returns (rlen_of received) (cleared r) s else returns minus_1 r s

  pub process : Bool → Reading → S → Outcome → Stage S
  unfolding answer
  process received r s (returned finished c) = answer received r (handle_mqtt_command c.message s)
  process received r s (returned error c) = returns minus_1 r s
  process received r s (returned incomplete c) = returns minus_1 r s
  process received r s crashed = crashes
  process received r s Parser.out_of_fuel = out_of_fuel

  -- `hung`, `broken` and `readable` are the tests on `events`.
  pub loop_read : Bool → Bool → Bool → Memory → Reading → S → Stage S
  unfolding receive process parse
  loop_read hung broken readable m r s =
      if hung
      then returns minus_1 r s
      else if broken
      then returns minus_1 r s
      else if readable
      then then_stage (receive recv m r s) (λ q s'. process (receives r) q s' (parse q))
      else returns minus_1 r s
