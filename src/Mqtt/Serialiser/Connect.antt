-- ===== src/Mqtt/Serialiser/Connect.antt =====
-- The bytes of a CONNECT that `mqtt_serialiser_write` of broker/mqtt.c writes.
use mumq.Base.{
  ℕ, ◌+◌, ◌/◌, ◌%◌, ◌^◌, ◌<◌, ◌≡◌, refl, ap, ◌∙◌, bit_and, bit_and-255, Bool, true, false, some,
  ◌∷◌, ◌++◌, length, arith,
}
use mathlib.Core.List.{append-nil}
use mumq.Base.Words.{Bytes}
use mumq.Mqtt.Kind
use mumq.Mqtt.Message.{Message, Flags, message_init, no_connect}
use mumq.Mqtt.Serialiser.{
  flags_byte, write_bytes, write_string, write_if, write_connect, write_header,
  mqtt_serialiser_write,
}
use mumq.Mqtt.Serialiser.Publish.{copy_bytes-all}

abbrev session : Bool → ℕ
session true = 1
session false = 0

abbrev pub flags_for : Bool → Flags
flags_for clean = record {
  username_follows = 0;
  password_follows = 0;
  will_retain = 0;
  will_qos = 0;
  will = 0;
  clean_session = session clean;
}

-- A CONNECT with no will, user name and password, with the name of the protocol.
abbrev pub connect_of : Bytes → ℕ → Bool → ℕ → Bytes → Message
connect_of name version clean keep_alive id = record message_init {
  kind = Kind.connect;
  length = 8 + length name + length id;
  connect = record no_connect {
    protocol_name = record { length = length name; bytes = some name };
    protocol_version = version;
    flags = flags_for clean;
    keep_alive = keep_alive;
    client_id = record { length = length id; bytes = some id };
  };
}

-- Behind the fixed header, with the byte of the flags and the two of the time to keep alive.
abbrev pub connect_body : Bytes → ℕ → ℕ → ℕ → ℕ → Bytes → Bytes
connect_body name version f hi lo id =
    0 ∷ length name ∷ (name ++ version ∷ f ∷ hi ∷ lo ∷ 0 ∷ length id ∷ id)

length_bytes : (n : ℕ) → n < 255 → (n / 255 % 256 ≡ 0) × (bit_and n 255 % 256 ≡ n)
length_bytes n h = (omega arith, ap (λ k. k % 256) (bit_and-255 n (omega arith)) ∙ omega arith)

-- The high byte of the length of a text is 0 below 255.
pub mqtt_serialiser_write-connect_of :
    (name : Bytes) (version : ℕ) (clean : Bool) (keep_alive : ℕ) (id : Bytes)
    → version < 256
    → length name < 255
    → length id < 255
    → (mqtt_serialiser_write (connect_of name version clean keep_alive id)).0
      ≡ some (
          write_header (connect_of name version clean keep_alive id)
          ++ connect_body name version
              (flags_byte (flags_for clean))
              (keep_alive / 2 ^ 8)
              (bit_and keep_alive 0xff)
              id)
unfolding mqtt_serialiser_write write_connect write_string write_bytes write_if
mqtt_serialiser_write-connect_of name version clean keep_alive id v short h =
    let one : version % 256 ≡ version = omega arith in
    let (high, low) = length_bytes (length id) h in
    let (high', low') = length_bytes (length name) short in
    rw (high, low, high', low', one, copy_bytes-all id, copy_bytes-all name, append-nil id) refl
