-- ===== src/Mqtt/Tests.antt =====
-- The packets at concrete inputs: a PUBLISH with the topic `a` and the content `hi`.
use mumq.Base.{true, ◌≡◌, refl, inl, inr, some, [], ◌∷◌, ◌++◌, arith}
use mumq.Base.Words.{Bytes}
use mumq.Base.Order.{lt_wf}
use mumq.Mqtt.Kind
use mumq.Mqtt.Message.{Message, message_init}
use mumq.Mqtt.Parser.{Cursor, initial, no_error, run}
use mumq.Mqtt.Parser.{returned, finished}
use mumq.Mqtt.Parser.RoundTrip.{received, parsed, run-mqtt_serialiser_write}
use mumq.Mqtt.Serialiser.{write_header}
use mumq.Mqtt.Serialiser.Publish.{publish_of}
use mumq.Mqtt.Serialiser.Connect.{connect_of}
use mumq.Mqtt.Parser.ConnectTrip.{received_connect, parsed_connect, run-connect_of}
use mumq.Mqtt.Parser.Loop.{run-IsClean, IsClean}
use mumq.Mqtt.Serialiser.{remaining_loop, mqtt_serialiser_size, mqtt_serialiser_write}
use mumq.Mqtt.Serialiser.Remaining.{decode, decode-remaining_loop}
use mumq.Mqtt.Serialiser.Length.{AreHeld, Writes, mqtt_serialiser_write-mqtt_serialiser_size}

abbrev payload : Bytes
payload = 0 ∷ 1 ∷ b'a' ∷ b'h' ∷ b'i' ∷ []

abbrev publish_hi : Message
publish_hi = record message_init {
  kind = Kind.publish;
  length = 5;
  publish = record {
    topic_name = record { length = 1; bytes = some (b'a' ∷ []) };
    message_id = 0;
    content = record { length = 2; bytes = some (b'h' ∷ b'i' ∷ []) };
  };
}

abbrev start : Cursor
start = record {
  state = initial;
  error = no_error;
  message = record message_init { kind = Kind.publish; length = 5 };
  nread = 0;
}

write_hi : (mqtt_serialiser_write publish_hi).0 ≡ some (48 ∷ 5 ∷ payload)
unfolding mqtt_serialiser_write lt_wf native.Mathlib.Decide.dec_lt
write_hi = refl

publish_hi-AreHeld : AreHeld publish_hi
publish_hi-AreHeld = (
  inr (b'a' ∷ [], refl, omega arith),
  inr (b'h' ∷ b'i' ∷ [], refl, omega arith),
  inl refl,
  inl refl,
  inl refl,
  inl refl,
  inl refl,
  inl refl,
)

run-IsClean_example : IsClean 5 (run payload 5 11 start)
run-IsClean_example =
    run-IsClean payload 5 11 start refl (omega arith) (omega arith) (λ e. omega arith) refl refl
      (omega arith)

run-mqtt_serialiser_write_example :
    (body : Bytes) × ((mqtt_serialiser_write (publish_of (b'a' ∷ []) (b'h' ∷ b'i' ∷ []))).0
      ≡ some (write_header (publish_of (b'a' ∷ []) (b'h' ∷ b'i' ∷ [])) ++ body))
    × (run body 5 11 (received (b'a' ∷ []) (b'h' ∷ b'i' ∷ []))
        ≡ returned finished (parsed (b'a' ∷ []) (b'h' ∷ b'i' ∷ [])))
run-mqtt_serialiser_write_example =
    run-mqtt_serialiser_write (b'a' ∷ []) (b'h' ∷ b'i' ∷ []) (omega arith) (omega arith)
      (omega arith)

mqtt_serialiser_write-mqtt_serialiser_size_example :
    Writes (mqtt_serialiser_write publish_hi).0 (mqtt_serialiser_size publish_hi)
mqtt_serialiser_write-mqtt_serialiser_size_example =
    mqtt_serialiser_write-mqtt_serialiser_size publish_hi (omega arith) publish_hi-AreHeld

decode-remaining_loop_example :
    decode 4 (remaining_loop 321 (lt_wf.apply 321) ++ payload) ≡ some (321, payload)
decode-remaining_loop_example = decode-remaining_loop 321 (lt_wf.apply 321) payload (omega arith)

abbrev mqisdp : Bytes
mqisdp = b'M' ∷ b'Q' ∷ b'I' ∷ b's' ∷ b'd' ∷ b'p' ∷ []

run-connect_of_example :
    (body : Bytes) × ((mqtt_serialiser_write (connect_of mqisdp 3 true 300 (b'm' ∷ b'e' ∷ []))).0
      ≡ some (write_header (connect_of mqisdp 3 true 300 (b'm' ∷ b'e' ∷ [])) ++ body))
    × (run body 16 11 (received_connect mqisdp (b'm' ∷ b'e' ∷ []))
        ≡ returned finished (parsed_connect mqisdp 3 true 300 (b'm' ∷ b'e' ∷ [])))
run-connect_of_example =
    run-connect_of mqisdp 3 true 300 (b'm' ∷ b'e' ∷ []) (omega arith) (omega arith) (omega arith)
      (omega arith)
