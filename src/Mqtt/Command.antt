-- ===== src/Mqtt/Command.antt =====
-- The first byte of a packet: `mqtt_parser_command` of broker/mqtt.c, and its inverse in
-- `mqtt_serialiser_write`.
use mumq.Base.{ℕ, ◌/◌, ◌^◌, ◌<◌, ◌≡◌, refl, ◌∙◌, bit_and, bit_and-1, bit_and-3, bit_and-15, arith}
use mumq.Mqtt.Message.{Message}
use mumq.Mqtt.Serialiser.{command_byte}

abbrev pub mqtt_parser_command : Message → ℕ → Message
mqtt_parser_command m b = record m {
  retain = bit_and (b / 2 ^ 0) 0x01;
  qos = bit_and (b / 2 ^ 1) 0x03;
  dup = bit_and (b / 2 ^ 3) 0x01;
  kind = bit_and (b / 2 ^ 4) 0x0f;
}

-- Whatever the message before, when the fields of `m` fit their bits, the byte that the serialiser writes
-- for `m` sets the four fields to those of `m` and changes nothing else.
pub mqtt_parser_command-command_byte :
    (n m : Message)
    → m.retain < 2
    → m.qos < 4
    → m.dup < 2
    → m.kind < 16
    → mqtt_parser_command n (command_byte m)
      ≡ record n { retain = m.retain; qos = m.qos; dup = m.dup; kind = m.kind }
mqtt_parser_command-command_byte n m r q d k =
    let b = command_byte m in
    let retain : bit_and (b / 2 ^ 0) 1 ≡ m.retain =
      bit_and-1 (b / 2 ^ 0) (omega arith) ∙ omega arith in
    let qos : bit_and (b / 2 ^ 1) 3 ≡ m.qos = bit_and-3 (b / 2 ^ 1) (omega arith) ∙ omega arith in
    let dup : bit_and (b / 2 ^ 3) 1 ≡ m.dup = bit_and-1 (b / 2 ^ 3) (omega arith) ∙ omega arith in
    let kind : bit_and (b / 2 ^ 4) 15 ≡ m.kind =
      bit_and-15 (b / 2 ^ 4) (omega arith) ∙ omega arith in
    rw (retain, qos, dup, kind) refl

-- For every byte, the fields that it sets are written as that byte again.
pub command_byte-mqtt_parser_command :
    (m : Message) (b : ℕ) → b < 256 → command_byte (mqtt_parser_command m b) ≡ b
command_byte-mqtt_parser_command m b h =
    rw
      (
        bit_and-1 (b / 2 ^ 0) (omega arith),
        bit_and-3 (b / 2 ^ 1) (omega arith),
        bit_and-1 (b / 2 ^ 3) (omega arith),
        bit_and-15 (b / 2 ^ 4) (omega arith),
      )
      (omega arith)
