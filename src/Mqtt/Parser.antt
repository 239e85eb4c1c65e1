-- ===== src/Mqtt/Parser.antt =====
-- `mqtt_parser_execute` of broker/mqtt.c: one function for each case of the
-- switch, and the loop round them.
pub mod Bounds
pub mod Loop
pub mod Goes
pub mod Enough
pub mod RoundTrip
pub mod Connecting
pub mod ConnectTrip
use mumq.Base.{
  ℕ, zero, suc, ◌+◌, ◌-◌, ◌*◌, ◌/◌, ◌%◌, ◌^◌, bit_and, Bool, true, false, ◌&&◌, ◌||◌, Option, none,
  some, ◌==◌, ltb, if◌then◌else◌, get_elem?, drop,
}
use mumq.Base.Words.{Bytes, sub32, add64, sub64}
use mumq.Mqtt.Message.{Buffer, Flags, Connect, Publish, Subscribe, Message, Topicpair, no_buffer}
use mumq.Mqtt.Kind

pub data State : Type 0 where
  initial remaining_length variable_header : State
  connect connect_protocol_name connect_protocol_version connect_flags connect_keep_alive : State
  connect_client_identifier connect_will_topic connect_will_message connect_username : State
  connect_password : State
  connack : State
  publish publish_topic_name publish_message_id publish_message : State
  puback pubrec pubrel pubcomp : State
  subscribe subscribe_topic_name : State
  pingreq : State

-- `mqtt_error_t`, as far as the parser sets it.
pub data Error : Type 0 where
  no_error invalid_state invalid_message_id : Error

-- `mqtt_parser_rc_t`, as far as the parser returns it.
pub data Rc : Type 0 where
  error incomplete finished : Rc

-- What a call changes: `state` and `error` of the parser, the message, and `*nread`.
pub record Cursor : Type 0 where
  pub state : State
  pub error : Error
  pub message : Message
  pub nread : ℕ

-- A case goes on with the loop, returns, or reads outside the block `data`.
pub data Step : Type 0 where
  go : Cursor → Step
  ret : Rc → Cursor → Step
  fault : Step

abbrev pub to : State → Cursor → Step
to s c = go (record c { state = s })

-- `data[i]`
abbrev pub with_byte : Option ℕ → (ℕ → Step) → Step
with_byte none k = fault
with_byte (some b) k = k b

-- `parser->state = MQTT_PARSER_STATE_INITIAL; return MQTT_PARSER_RC_DONE;`
abbrev pub finish : Cursor → Step
finish c = ret finished (record c { state = initial })

pub data Outcome : Type 0 where
  returned : Rc → Cursor → Outcome
  crashed : Outcome
  out_of_fuel : Outcome

abbrev pub outcome : Step → (Cursor → Outcome) → Outcome
outcome (go c) k = k c
outcome (ret rc c) k = returned rc c
outcome fault k = crashed

abbrev pub set_connect : Cursor → Connect → ℕ → Cursor
set_connect c x n = record c { message = record c.message { connect = x }; nread = n }

abbrev pub set_publish : Cursor → Publish → ℕ → Cursor
set_publish c x n = record c { message = record c.message { publish = x }; nread = n }

abbrev pub set_subscribe : Cursor → Subscribe → ℕ → Cursor
set_subscribe c x n = record c { message = record c.message { subscribe = x }; nread = n }

-- `case MQTT_PARSER_STATE_INITIAL`
pub case_initial : Cursor → Step
case_initial c =
    if c.message.kind == Kind.connect
    then to connect c
    else if c.message.kind == Kind.connack
    then to connack c
    else if c.message.kind == Kind.publish
    then to publish c
    else if c.message.kind == Kind.subscribe
    then to subscribe c
    else if c.message.kind == Kind.pingreq
    then finish c
    else if c.message.kind == Kind.disconnect
    then finish c
    else ret error (record c { error = invalid_message_id })

pub case_variable_header : Cursor → Step
case_variable_header c = if c.message.kind == Kind.connect then to connect_protocol_name c else go c

-- `b >> k` is `b / 2 ^ k`.
abbrev pub flags_of : ℕ → Flags
flags_of b = record {
  username_follows = bit_and (b / 2 ^ 7) 0x01;
  password_follows = bit_and (b / 2 ^ 6) 0x01;
  will_retain = bit_and (b / 2 ^ 5) 0x01;
  will_qos = bit_and (b / 2 ^ 4) 0x02;
  will = bit_and (b / 2 ^ 2) 0x01;
  clean_session = bit_and (b / 2 ^ 1) 0x01;
}

-- `qos > 0 && qos < 3`
abbrev pub has_message_id : Cursor → Bool
has_message_id c = ltb 0 c.message.qos && ltb c.message.qos 3

-- The pair, made by `malloc` if there is none. Its `name` and `qos` are then whatever the memory holds,
-- here 0, until they are set. A `malloc` that answers NULL is not followed.
abbrev pub topics_of : Option Topicpair → Topicpair
topics_of none = record { name = no_buffer; qos = 0 }
topics_of (some t) = t

abbrev pub set_topics : Cursor → Topicpair → ℕ → Cursor
set_topics c t n = set_subscribe c (record c.message.subscribe { topics = some t }) n

module _ (input : Bytes) (len : ℕ) where
  abbrev pub byte_at : ℕ → (ℕ → Step) → Step
  byte_at i k = with_byte (get_elem? input i) k

  -- `if ((len - *nread) < n) return MQTT_PARSER_RC_INCOMPLETE;`
  abbrev pub needs : ℕ → Cursor → Step → Step
  needs n c rest = if ltb (sub64 len c.nread) n then ret incomplete c else rest

  -- The part of `READ_STRING` after the length was read.
  pub read_body : Cursor → ℕ → (Buffer → ℕ → Step) → Step
  read_body c str_length k =
      if ltb (sub64 (sub64 len c.nread) 2) str_length
      then ret incomplete c
      else k (record { length = str_length; bytes = some (drop (c.nread + 2) input) })
          (add64 c.nread (2 + str_length))

  -- `READ_STRING`
  pub read_string : Cursor → (Buffer → ℕ → Step) → Step
  unfolding read_body
  read_string c k =
      needs 2 c (byte_at c.nread λ hi. byte_at (c.nread + 1) λ lo. read_body c (hi * 256 + lo) k)

  -- `READ_MESSAGE`: its first test, `(len - *nread) < 0`, never holds of a `size_t`.
  pub read_message : Cursor → ℕ → (Buffer → ℕ → Step) → Step
  read_message c str_len k =
      if ltb (sub64 len c.nread) str_len
      then ret incomplete c
      else k (record { length = str_len; bytes = some (drop c.nread input) })
          (add64 c.nread str_len)

  pub case_connect_protocol_name : Cursor → Step
  case_connect_protocol_name c = read_string c λ b n.
      to connect_protocol_version (set_connect c (record c.message.connect { protocol_name = b }) n)

  pub case_connect_protocol_version : Cursor → Step
  case_connect_protocol_version c = needs 1 c (
      byte_at c.nread λ b.
        to connect_flags
          (set_connect c (record c.message.connect { protocol_version = b }) (add64 c.nread 1)))

  pub case_connect_flags : Cursor → Step
  case_connect_flags c = needs 1 c (
      byte_at c.nread λ b.
        to connect_keep_alive
          (set_connect c (record c.message.connect { flags = flags_of b }) (add64 c.nread 1)))

  -- A `uint16_t` from two bytes.
  abbrev pub word_at : ℕ → (ℕ → Step) → Step
  word_at i k = byte_at i λ hi. byte_at (i + 1) λ lo. k ((hi * 2 ^ 8 + lo) % 2 ^ 16)

  pub case_connect_keep_alive : Cursor → Step
  case_connect_keep_alive c = needs 2 c (
      word_at c.nread λ w.
        to connect_client_identifier
          (set_connect c (record c.message.connect { keep_alive = w }) (add64 c.nread 2)))

  pub case_connect_client_identifier : Cursor → Step
  case_connect_client_identifier c =
      read_string c
        λ b n. to connect_will_topic (set_connect c (record c.message.connect { client_id = b }) n)

  pub case_connect_will_topic : Cursor → Step
  case_connect_will_topic c =
      if c.message.connect.flags.will == 0
      then to connect_will_message c
      else read_string c λ b n.
        to connect_will_message (set_connect c (record c.message.connect { will_topic = b }) n)

  pub case_connect_will_message : Cursor → Step
  case_connect_will_message c =
      if c.message.connect.flags.will == 0
      then to connect_username c
      else read_string c λ b n.
        to connect_username (set_connect c (record c.message.connect { will_message = b }) n)

  pub case_connect_username : Cursor → Step
  case_connect_username c =
      if c.message.connect.flags.username_follows == 0
      then to connect_password c
      else read_string c
          λ b n. to connect_password (set_connect c (record c.message.connect { username = b }) n)

  pub case_connect_password : Cursor → Step
  case_connect_password c =
      if c.message.connect.flags.password_follows == 0
      then finish c
      else read_string c λ b n. finish (set_connect c (record c.message.connect { password = b }) n)

  pub case_connack : Cursor → Step
  case_connack c = needs 2 c (
      byte_at c.nread λ u. byte_at (c.nread + 1) λ r. finish (record c {
        message = record c.message { connack = record { unused = u; return_code = r } };
        nread = add64 c.nread 2;
      }))

  pub case_publish_topic_name : Cursor → Step
  case_publish_topic_name c =
      read_string c
        λ b n. to publish_message_id (set_publish c (record c.message.publish { topic_name = b }) n)

  pub case_publish_message_id : Cursor → Step
  case_publish_message_id c = needs 2 c (
      if has_message_id c
      then (word_at c.nread λ w.
          to publish_message
            (set_publish c (record c.message.publish { message_id = w }) (add64 c.nread 2)))
      else to publish_message (set_publish c (record c.message.publish { message_id = 0 }) c.nread))

  pub case_publish_message : Cursor → Step
  case_publish_message c =
      let rest = sub32 (sub32 c.message.length c.message.publish.topic_name.length) 2 in
      let msg_len = if has_message_id c then sub32 rest 2 else rest in
      read_message c msg_len
        λ b n. finish (set_publish c (record c.message.publish { content = b }) n)

  pub case_subscribe : Cursor → Step
  case_subscribe c = needs 2 c (
      word_at c.nread λ w.
        to subscribe_topic_name
          (set_subscribe c (record c.message.subscribe { message_id = w }) (add64 c.nread 2)))

  -- The read of `qos` behind the string has no test before it.
  pub case_subscribe_topic_name : Cursor → Step
  case_subscribe_topic_name c =
      let t = topics_of c.message.subscribe.topics in
      let c' = set_topics c t c.nread in
      read_string c'
        λ b n. byte_at n λ q. finish (set_topics c' (record { name = b; qos = q }) (add64 n 1))

  unfoldable pub step_in : State → Cursor → Step
  unfolding case_initial case_variable_header case_connect_protocol_name
      case_connect_protocol_version case_connect_flags case_connect_keep_alive
      case_connect_client_identifier case_connect_will_topic case_connect_will_message
      case_connect_username case_connect_password case_connack case_publish_topic_name
      case_publish_message_id case_publish_message case_subscribe case_subscribe_topic_name
  step_in initial c = case_initial c
  step_in variable_header c = case_variable_header c
  step_in connect c = to connect_protocol_name c
  step_in connect_protocol_name c = case_connect_protocol_name c
  step_in connect_protocol_version c = case_connect_protocol_version c
  step_in connect_flags c = case_connect_flags c
  step_in connect_keep_alive c = case_connect_keep_alive c
  step_in connect_client_identifier c = case_connect_client_identifier c
  step_in connect_will_topic c = case_connect_will_topic c
  step_in connect_will_message c = case_connect_will_message c
  step_in connect_username c = case_connect_username c
  step_in connect_password c = case_connect_password c
  step_in connack c = case_connack c
  step_in publish c = to publish_topic_name c
  step_in publish_topic_name c = case_publish_topic_name c
  step_in publish_message_id c = case_publish_message_id c
  step_in publish_message c = case_publish_message c
  step_in subscribe c = case_subscribe c
  step_in subscribe_topic_name c = case_subscribe_topic_name c
  step_in remaining_length c = ret error (record c { error = invalid_state })
  step_in puback c = ret error (record c { error = invalid_state })
  step_in pubrec c = ret error (record c { error = invalid_state })
  step_in pubrel c = ret error (record c { error = invalid_state })
  step_in pubcomp c = ret error (record c { error = invalid_state })
  step_in pingreq c = ret error (record c { error = invalid_state })

  -- `do … while (1)`
  unfoldable pub run : ℕ → Cursor → Outcome
  unfolding step_in read_string read_message
  run zero c = out_of_fuel
  run (suc fuel) c = outcome (step_in c.state c) (run fuel)
