-- ===== src/Mqtt/Message.antt =====
-- `mqtt_buffer_t`, `mqtt_topicpair_t` and `mqtt_message_t` of broker/mqtt.h.
use mumq.Base.{ℕ, Option, none}
use mumq.Base.Words.{Bytes}

-- `bytes` is the memory from the pointer `data` on, to the end of its block, and `none` is NULL.
pub record Buffer : Type 0 where
  pub length : ℕ
  pub bytes : Option Bytes

pub record Flags : Type 0 where
  pub username_follows : ℕ
  pub password_follows : ℕ
  pub will_retain : ℕ
  pub will_qos : ℕ
  pub will : ℕ
  pub clean_session : ℕ

pub record Connect : Type 0 where
  pub protocol_name : Buffer
  pub protocol_version : ℕ
  pub flags : Flags
  pub keep_alive : ℕ
  pub client_id : Buffer
  pub will_topic : Buffer
  pub will_message : Buffer
  pub username : Buffer
  pub password : Buffer

pub record Connack : Type 0 where
  pub unused : ℕ
  pub return_code : ℕ

pub record Publish : Type 0 where
  pub topic_name : Buffer
  pub message_id : ℕ
  pub content : Buffer

-- One pair: `next` is set to NULL and never read.
pub record Topicpair : Type 0 where
  pub name : Buffer
  pub qos : ℕ

pub record Subscribe : Type 0 where
  pub message_id : ℕ
  pub topics : Option Topicpair

pub record Suback : Type 0 where
  pub message_id : ℕ
  pub return_code : ℕ

-- The common fields, and the members of the union that the code uses. Each function of the code goes
-- by `kind` and stays in the member for it, so the members need not share memory here. `kind` is the
-- field `type`.
pub record Message : Type 0 where
  pub retain : ℕ
  pub qos : ℕ
  pub dup : ℕ
  pub kind : ℕ
  pub length : ℕ
  pub connect : Connect
  pub connack : Connack
  pub publish : Publish
  pub subscribe : Subscribe
  pub suback : Suback

-- What `memset` to 0 leaves.
abbrev pub no_buffer : Buffer
no_buffer = record { length = 0; bytes = none }

abbrev pub no_connect : Connect
no_connect = record {
  protocol_name = no_buffer;
  protocol_version = 0;
  flags = record {
    username_follows = 0;
    password_follows = 0;
    will_retain = 0;
    will_qos = 0;
    will = 0;
    clean_session = 0;
  };
  keep_alive = 0;
  client_id = no_buffer;
  will_topic = no_buffer;
  will_message = no_buffer;
  username = no_buffer;
  password = no_buffer;
}

-- `mqtt_message_init`
abbrev pub message_init : Message
message_init = record {
  retain = 0;
  qos = 0;
  dup = 0;
  kind = 0;
  length = 0;
  connect = no_connect;
  connack = record { unused = 0; return_code = 0 };
  publish = record { topic_name = no_buffer; message_id = 0; content = no_buffer };
  subscribe = record { message_id = 0; topics = none };
  suback = record { message_id = 0; return_code = 0 };
}
