-- ===== src/Mqtt/Serialiser/Publish.antt =====
-- The bytes of a PUBLISH that `publish_msg` of broker/hand_mqtt.c lets `mqtt_serialiser_write` write.
use mumq.Base.{
  ℕ, ◌+◌, ◌/◌, ◌%◌, ◌<◌, ◌≡◌, refl, ap, ◌∙◌, bit_and, bit_and-255, true, if_true, leb, some, [],
  ◌∷◌, ◌++◌, length, take, arith,
}
use mumq.Base.Words.{Bytes}
use mumq.Mqtt.Kind
use mumq.Mqtt.Message.{Message, message_init}
use mumq.Mqtt.Serialiser.{
  copy_bytes, write_bytes, write_string, write_publish, write_header, mqtt_serialiser_write,
}

-- `out_packet` of `publish_msg`.
abbrev pub publish_of : Bytes → Bytes → Message
publish_of topic content = record message_init {
  kind = Kind.publish;
  length = 2 + length topic + length content;
  publish = record {
    topic_name = record { length = length topic; bytes = some topic };
    message_id = 0;
    content = record { length = length content; bytes = some content };
  };
}

take-length : (xs : Bytes) → take (length xs) xs ≡ xs
take-length [] = refl
take-length (x ∷ xs) = ap (◌∷◌ x) (take-length xs)

leb_refl : (n : ℕ) → leb n n ≡ true
leb_refl n = ground arith

pub copy_bytes-all : (xs : Bytes) → copy_bytes (length xs) (some xs) ≡ some xs
unfolding copy_bytes
copy_bytes-all xs = if_true _ _ (leb_refl (length xs)) ∙ ap some (take-length xs)

-- The high byte of the topic's length is 0 below 255.
pub mqtt_serialiser_write-publish_of :
    (topic content : Bytes)
    → length topic < 255
    → (mqtt_serialiser_write (publish_of topic content)).0
      ≡ some (write_header (publish_of topic content) ++ (0 ∷ length topic ∷ topic ++ content))
unfolding mqtt_serialiser_write write_publish write_string write_bytes
mqtt_serialiser_write-publish_of topic content h =
    let high : length topic / 255 % 256 ≡ 0 = omega arith in
    let low : bit_and (length topic) 255 % 256 ≡ length topic =
      ap (λ n. n % 256) (bit_and-255 (length topic) (omega arith)) ∙ omega arith in
    rw (high, low, copy_bytes-all topic, copy_bytes-all content) refl
