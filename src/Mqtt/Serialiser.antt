-- ===== src/Mqtt/Serialiser.antt =====
-- `mqtt_serialiser_size` and `mqtt_serialiser_write` of broker/mqtt.c. The bytes are those written from
-- the start of the buffer on, in order; the parameter `len` of the code is not used by it.
pub mod Remaining
pub mod Length
pub mod Publish
pub mod Connect
use mumq.Base.{
  ℕ, zero, suc, ◌+◌, ◌*◌, ◌/◌, ◌%◌, ◌^◌, ◌<◌, bit_and, bit_or, Bool, true, false, Option, none,
  some, List, [], ◌∷◌, ◌++◌, ◌==◌, leb, ltb, if◌then◌else◌, length, take, arith,
}
use mumq.Base.Words.{Bytes}
use mumq.Base.Order.{lt_wf}
use mumq.Mqtt.Message.{Buffer, Flags, Message}
use mumq.Mqtt.Kind
use mathlib.Core.WellFounded.{Acc}
use mathlib.Core.Logic.{dite}
use native.Mathlib.Decide.{dec_lt}

pub data Rc : Type 0 where
  error success : Rc

-- The bytes of the remaining length by its range. Above 268435455 no byte is counted.
pub length_size : ℕ → ℕ
length_size n =
    if leb n 127
    then 1
    else if leb n 16383
    then 2
    else if leb n 2097151
    then 3
    else if leb n 268435455
    then 4
    else 0

abbrev when : ℕ → ℕ → ℕ
when flag n = if flag == 0 then 0 else n

pub connect_size : Message → ℕ
connect_size m =
    let c = m.connect in
    8
    + c.protocol_name.length
    + c.client_id.length
    + when c.flags.username_follows (2 + c.username.length)
    + when c.flags.password_follows (2 + c.password.length)
    + when c.flags.will (4 + c.will_topic.length + c.will_message.length)

pub kind_size : Message → ℕ
kind_size m =
    if m.kind == Kind.publish
    then 2 + m.publish.topic_name.length + m.publish.content.length
    else if m.kind == Kind.suback
    then 3
    else if m.kind == Kind.connect
    then connect_size m
    else if m.kind == Kind.connack
    then 2
    else 0

pub mqtt_serialiser_size : Message → ℕ
unfolding length_size connect_size kind_size
mqtt_serialiser_size m = 1 + length_size m.length + kind_size m

pub shrinks : (n : ℕ) → 0 < n / 128 → n / 128 < n
shrinks n h = omega arith

-- `do … while (remaining_length > 0)`; `|= 0x80` is on the byte just written.
pub remaining_loop : (n : ℕ) → Acc ◌<◌ n → Bytes
remaining_loop n (Acc.intro _ smaller) =
    dite (dec_lt 0 (n / 128))
      (λ more.
        bit_or (n % 128) 0x80 ∷ remaining_loop (n / 128) (smaller (n / 128) (shrinks n more)))
      (λ _. n % 128 ∷ [])

-- `retain + (qos << 1) + (dup << 3) + (type << 4)`, stored in a byte.
abbrev pub command_byte : Message → ℕ
command_byte m = (m.retain + m.qos * 2 ^ 1 + m.dup * 2 ^ 3 + m.kind * 2 ^ 4) % 2 ^ 8

-- `memcpy` of `length` bytes; from NULL, or past the end of the block, it has no result.
pub copy_bytes : ℕ → Option Bytes → Option Bytes
copy_bytes n none = if n == 0 then some [] else none
copy_bytes n (some block) = if leb n (length block) then some (take n block) else none

-- A write of bytes, or a read outside a block.
abbrev pub then_write : Option Bytes → Option Bytes → Option Bytes
then_write none r = none
then_write (some w) none = none
then_write (some w) (some r) = some (w ++ r)

pub write_bytes : Buffer → Option Bytes
unfolding copy_bytes
write_bytes b = copy_bytes b.length b.bytes

-- `WRITE_STRING`
pub write_string : Buffer → Option Bytes
unfolding write_bytes
write_string b =
    then_write (some (b.length / 0xff % 2 ^ 8 ∷ bit_and b.length 0xff % 2 ^ 8 ∷ [])) (write_bytes b)

pub write_if : ℕ → Option Bytes → Option Bytes
write_if flag w = if flag == 0 then some [] else w

abbrev pub flags_byte : Flags → ℕ
flags_byte f =
    (f.username_follows * 2 ^ 7
      + f.password_follows * 2 ^ 6
      + f.will_retain * 2 ^ 5
      + f.will_qos * 2 ^ 3
      + f.will * 2 ^ 2
      + f.clean_session * 2 ^ 1)
    % 2 ^ 8

pub write_connect : Message → Option Bytes
unfolding write_string write_if
write_connect m =
    let c = m.connect in
    let fixed : Bytes =
      c.protocol_version % 2 ^ 8
      ∷ flags_byte c.flags
      ∷ c.keep_alive / 2 ^ 8
      ∷ bit_and c.keep_alive 0xff
      ∷ [] in
    then_write (write_string c.protocol_name) (
      then_write (some fixed) (
        then_write (write_string c.client_id) (
          then_write
            (write_if c.flags.will
              (then_write (write_string c.will_topic) (write_string c.will_message)))
            (then_write (write_if c.flags.username_follows (write_string c.username))
              (write_if c.flags.password_follows (write_string c.password))))))

pub write_publish : Message → Option Bytes
unfolding write_string write_bytes
write_publish m = then_write (write_string m.publish.topic_name) (write_bytes m.publish.content)

abbrev pub write_suback : Message → Option Bytes
write_suback m =
    some
      (m.suback.message_id / 2 ^ 8 ∷ bit_and m.suback.message_id 0xff ∷ m.suback.return_code ∷ [])

abbrev pub write_connack : Message → Option Bytes
write_connack m = some (m.connack.unused ∷ m.connack.return_code ∷ [])

-- The body for the kind, and what is returned after it.
pub write_kind : Message → Option Bytes × Rc
unfolding write_connect write_publish
write_kind m =
    if m.kind == Kind.publish
    then (write_publish m, success)
    else if m.kind == Kind.suback
    then (write_suback m, success)
    else if m.kind == Kind.connect
    then (write_connect m, success)
    else if m.kind == Kind.connack
    then (write_connack m, success)
    else (some [], error)

abbrev pub write_header : Message → Bytes
write_header m = command_byte m ∷ remaining_loop m.length (lt_wf.apply m.length)

-- The bytes written, `none` for a read outside a block, and the code returned.
unfoldable pub mqtt_serialiser_write : Message → Option Bytes × Rc
unfolding write_kind remaining_loop
mqtt_serialiser_write m = (then_write (some (write_header m)) (write_kind m).0, (write_kind m).1)
