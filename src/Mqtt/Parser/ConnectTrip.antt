-- ===== src/Mqtt/Parser/ConnectTrip.antt =====
-- A CONNECT that the serialiser of broker/mqtt.c writes, before its parser.
use mumq.Base.{
  ℕ, ◌+◌, ◌*◌, ◌/◌, ◌%◌, ◌^◌, ◌<◌, ◌≡◌, refl, ap, ◌∙◌, Bool, true, false, some, ◌∷◌, ◌++◌, bit_and,
  bit_and-low, length, arith,
}
use mumq.Base.Words.{Bytes}
use mumq.Mqtt.Message.{Flags, no_connect}
use mumq.Mqtt.Serialiser.{flags_byte, write_header, mqtt_serialiser_write}
use mumq.Mqtt.Serialiser.Connect.{
  flags_for, connect_of, connect_body, mqtt_serialiser_write-connect_of,
}
use mumq.Mqtt.Parser.{initial, Cursor, run, returned, finished, flags_of}
use mumq.Mqtt.Parser.Connecting.{at, run_connect}

-- What the parser starts from, after the fixed header, and what it leaves: the memory behind each text goes
-- on with the bytes after it.
abbrev pub received_connect : Bytes → Bytes → Cursor
received_connect name id = at initial no_connect (8 + length name + length id) 0

abbrev pub parsed_connect : Bytes → ℕ → Bool → ℕ → Bytes → Cursor
parsed_connect name version clean keep_alive id =
    at initial
      (record no_connect {
        protocol_name = record {
          length = length name;
          bytes = some (
              name
              ++ version
                ∷ flags_byte (flags_for clean)
                ∷ keep_alive / 2 ^ 8
                ∷ bit_and keep_alive 0xff
                ∷ 0
                ∷ length id
                ∷ id);
        };
        protocol_version = version;
        flags = flags_for clean;
        keep_alive = keep_alive;
        client_id = record { length = length id; bytes = some id };
      })
      (8 + length name + length id) (8 + length name + length id)

write_flags : (clean : Bool) → flags_of (flags_byte (flags_for clean)) ≡ flags_for clean
write_flags true = refl
write_flags false = refl

pair_same : {a b : Flags} {m n : ℕ} → a ≡ b → m ≡ n → Path (Flags × ℕ) (a, m) (b, n)
pair_same e d = cc

-- A CONNECT with no will, user name and password, with a protocol name and a client id of fewer than 255 bytes
-- each, is written, behind the fixed header, so that the parser, given these bytes, finishes after all of
-- them with the protocol name, the version, the flags, the time to keep alive and the client id that were
-- written.
pub run-connect_of :
    (name : Bytes) (version : ℕ) (clean : Bool) (keep_alive : ℕ) (id : Bytes)
    → version < 256
    → keep_alive < 65536
    → length name < 255
    → length id < 255
    → (body : Bytes) × ((mqtt_serialiser_write (connect_of name version clean keep_alive id)).0
        ≡ some (write_header (connect_of name version clean keep_alive id) ++ body))
      × (run body (8 + length name + length id) 11 (received_connect name id)
          ≡ returned finished (parsed_connect name version clean keep_alive id))
run-connect_of name version clean keep_alive id v k short small =
    let f = flags_byte (flags_for clean) in
    let fl = write_flags clean in
    let alive : (keep_alive / 2 ^ 8 * 2 ^ 8 + bit_and keep_alive 0xff) % 2 ^ 16 ≡ keep_alive =
      omega (arith, bit_and-low keep_alive k) in
    (
      connect_body name version f (keep_alive / 2 ^ 8) (bit_and keep_alive 0xff) id,
      mqtt_serialiser_write-connect_of name version clean keep_alive id v short small,
      run_connect name version f (keep_alive / 2 ^ 8) (bit_and keep_alive 0xff) id short small
            (ap (λ x. x.will) fl) (ap (λ x. x.username_follows) fl)
            (ap (λ x. x.password_follows) fl)
          ∙ ap
              (λ (x : Flags × ℕ).
                returned finished (record (parsed_connect name version clean keep_alive id) {
                  message = record (parsed_connect name version clean keep_alive id).message {
                    connect =
                        record (parsed_connect name version clean keep_alive id).message.connect {
                          flags = x.0;
                          keep_alive = x.1;
                        };
                  };
                }))
              (pair_same fl alive),
    )
