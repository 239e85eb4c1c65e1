-- ===== src/Mqtt/Parser/RoundTrip.antt =====
-- A PUBLISH that the serialiser of broker/mqtt.c writes, before its parser.
use mumq.Base.{
  ℕ, suc, ◌+◌, ◌*◌, ◌≤◌, ◌<◌, ◌≡◌, refl, ap, ◌∙◌, some, ◌∷◌, ◌++◌, length, drop, drop-append_length,
  arith,
}
use mumq.Base.Words.{Bytes, sub32}
use mumq.Mqtt.Kind
use mumq.Mqtt.Message.{message_init, Buffer, Publish, no_buffer}
use mumq.Mqtt.Parser.Loop.{run-suc}
use mumq.Mqtt.Serialiser.{mqtt_serialiser_write, write_header}
use mumq.Mqtt.Serialiser.Publish.{publish_of, mqtt_serialiser_write-publish_of}
use mumq.Mqtt.Parser.{
  State, initial, publish, publish_topic_name, publish_message_id, publish_message, Cursor, go, ret,
  no_error, run, returned, finished, finish, set_publish, read_message, step_in, outcome,
  case_publish_message_id, case_publish_message,
}
use mumq.Mqtt.Parser.Enough.{needs-enough, read_string-enough, read_message-enough}

-- The cursor in `state` with `p` read so far, in a packet of `length` bytes.
abbrev at : State → Publish → ℕ → ℕ → Cursor
at state p length nread = record {
  state = state;
  error = no_error;
  message = record message_init { kind = Kind.publish; length = length; publish = p };
  nread = nread;
}

module _ (hi lo : ℕ) (topic content : Bytes) (small : length topic + length content < 268435454)
    (two : 2 ≤ length content) (names : hi * 256 + lo ≡ length topic) where
  abbrev body : Bytes
  body = hi ∷ lo ∷ topic ++ content

  abbrev whole : ℕ
  whole = 2 + length topic + length content

  abbrev name : Buffer
  name = record { length = length topic; bytes = some (topic ++ content) }

  topic_name :
      (p : Publish)
      → step_in body whole publish_topic_name (at publish_topic_name p whole 0)
        ≡ go (at publish_message_id (record p { topic_name = name }) whole (2 + length topic))
  unfolding step_in
  topic_name p =
      read_string-enough body whole (omega arith) (at publish_topic_name p whole 0) _ hi lo
        (length topic) refl refl names (omega arith)
      ∙ ap (λ n. go (at publish_message_id (record p { topic_name = name }) whole n)) zero_more
    where
      zero_more : 0 + (2 + length topic) ≡ 2 + length topic
      zero_more = omega arith

  message_id :
      (p : Publish)
      → step_in body whole publish_message_id (at publish_message_id p whole (2 + length topic))
        ≡ go (at publish_message (record p { message_id = 0 }) whole (2 + length topic))
  unfolding step_in case_publish_message_id
  message_id p =
      needs-enough body whole (omega arith) 2 (at publish_message_id p whole (2 + length topic)) _
        (omega arith)

  drop-content : drop (2 + length topic) body ≡ content
  drop-content =
      let two_more : 2 + length topic ≡ suc (suc (length topic)) = omega arith in
      ap (λ n. drop n body) two_more ∙ drop-append_length topic content

  abbrev before : Publish
  before = record { topic_name = name; message_id = 0; content = no_buffer }

  abbrev after : Cursor
  after =
      at initial
        (record before { content = record { length = length content; bytes = some content } }) whole
        whole

  message :
      step_in body whole publish_message (at publish_message before whole (2 + length topic))
      ≡ ret finished after
  unfolding step_in case_publish_message
  message =
      let rest : sub32 (sub32 whole (length topic)) 2 ≡ length content = omega arith in
      let c = at publish_message before whole (2 + length topic) in
      ap
        (λ n.
          read_message body whole c n
            λ b k. finish (set_publish c (record before { content = b }) k))
        rest
      ∙ read_message-enough body whole (omega arith) c (length content) _ (omega arith)
      ∙ ap
          (λ x. ret finished (
            at initial
              (record before { content = record { length = length content; bytes = some x } }) whole
              whole))
          drop-content

  opened :
      run body whole 11 (at initial message_init.publish whole 0)
      ≡ outcome
          (step_in body whole publish_topic_name
            (at publish_topic_name message_init.publish whole 0))
          (run body whole 8)
  unfolding step_in
  opened =
      run-suc body whole 10 (at initial message_init.publish whole 0)
      ∙ run-suc body whole 9 (at publish message_init.publish whole 0)
      ∙ run-suc body whole 8 (at publish_topic_name message_init.publish whole 0)

  run_publish :
      run body whole 11 (at initial message_init.publish whole 0) ≡ returned finished after
  run_publish =
      opened
      ∙ ap (λ x. outcome x (run body whole 8)) (topic_name message_init.publish)
      ∙ run-suc body whole 7 _
      ∙ ap (λ x. outcome x (run body whole 7))
          (message_id (record message_init.publish { topic_name = name }))
      ∙ run-suc body whole 6 _
      ∙ ap (λ x. outcome x (run body whole 6)) message

-- What the parser starts from, after the fixed header, and what it leaves: the memory behind the topic
-- goes on with the content.
abbrev pub received : Bytes → Bytes → Cursor
received topic content = at initial message_init.publish (2 + length topic + length content) 0

abbrev pub parsed : Bytes → Bytes → Cursor
parsed topic content =
    at initial
      (record {
        topic_name = record { length = length topic; bytes = some (topic ++ content) };
        message_id = 0;
        content = record { length = length content; bytes = some content };
      })
      (2 + length topic + length content) (2 + length topic + length content)

-- A PUBLISH with a topic of fewer than 255 bytes and a content of at least two is written, behind the
-- fixed header, so that the parser, given these bytes, finishes after all of them with that topic and
-- that content.
pub run-mqtt_serialiser_write :
    (topic content : Bytes)
    → length topic < 255
    → 2 ≤ length content
    → length topic + length content < 268435454
    → (body : Bytes) × ((mqtt_serialiser_write (publish_of topic content)).0
        ≡ some (write_header (publish_of topic content) ++ body))
      × (run body (2 + length topic + length content) 11 (received topic content)
          ≡ returned finished (parsed topic content))
run-mqtt_serialiser_write topic content short two small = (
  0 ∷ length topic ∷ topic ++ content,
  mqtt_serialiser_write-publish_of topic content short,
  run_publish 0 (length topic) topic content small two (omega arith),
)
