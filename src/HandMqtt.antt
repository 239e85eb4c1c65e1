-- ===== src/HandMqtt.antt =====
-- broker/hand_mqtt.c: what each packet of a client does to the broker. A `malloc` of this file that
-- answers NULL is not followed; what the tree allocates is. The results of `pub_topic_valid` and
-- `sub_topic_valid` are not used by the code, and the calls are left out.
pub mod Publish
pub mod EndToEnd
pub mod Refusals
pub mod Kept
pub mod Sent
mod Tests
use mumq.Base.{
  ℕ, ◌+◌, ◌^◌, ◌%◌, Bool, true, false, Option, none, some, List, [], ◌∷◌, ◌++◌, ◌==◌, ltb,
  if◌then◌else◌, length,
}
use mumq.Base.Memory.{Memory}
use mumq.Base.Strings.{Str, until_nul}
use mumq.Base.Words.{Bytes}
use mumq.Mqtt.Kind
use mumq.Mqtt.Message.{Buffer, Message, Topicpair, no_buffer, message_init}
use mumq.Mqtt.Serialiser.{mqtt_serialiser_size, mqtt_serialiser_write}
use mumq.Mqtt.Serialiser.Publish.{publish_of}
use mumq.Substree.Add.{
  mqtt3_sub_add, Subscribed, Rc, success, failure, no_memory, deadlock, null_pointer,
}
use mumq.Substree.Search.{mqtt3_sub_tree_process}
use mumq.Broker.{
  Packet, ClientState, cs_connected, Client, Broker, with_client, bytes_of, add_client,
}

abbrev pub written : Option Bytes → Bytes
written none = []
written (some w) = w

-- The packet for a message. The buffers of the messages here hold their bytes, so the serialiser
-- writes them all.
pub new_packet : Message → Packet
new_packet m = record {
  send_buf = written (mqtt_serialiser_write m).0;
  wcur = 0;
  wlen = mqtt_serialiser_size m % 2 ^ 32;
}

-- The end of `publish_msg` and of `ack_msg`, under `sending_lock`.
abbrev pub enqueue : Packet → Client → Client
enqueue p c = record c { sending = c.sending ++ p ∷ []; num_sending_pack = c.num_sending_pack + 1 }

abbrev pub publish_msg : Str → Bytes → ℕ → Broker → Broker
publish_msg topic payload i b =
    with_client b i (enqueue (new_packet (publish_of topic payload)) (b.clients i))

abbrev pub connack_of : ℕ → ℕ → Message
connack_of n code = record message_init {
  kind = Kind.connack;
  length = n;
  connack = record { unused = 0; return_code = code };
}

abbrev suback_of : ℕ → ℕ → ℕ → Message
suback_of n mid code = record message_init {
  kind = Kind.suback;
  length = n;
  suback = record { message_id = mid; return_code = code };
}

abbrev pingresp_of : ℕ → Message
pingresp_of n = record message_init { kind = Kind.pingresp; length = n }

-- `out_packet` of `ack_msg`; there is none for another command.
abbrev pub ack_of : Client → ℕ → ℕ → ℕ → Option Message
ack_of c command n code =
    if command == Kind.connack
    then some (connack_of n code)
    else if command == Kind.suback
    then some (suback_of n c.last_mid code)
    else if command == Kind.pingresp
    then some (pingresp_of n)
    else none

pub ack_msg : ℕ → ℕ → ℕ → ℕ → Broker → Broker
ack_msg i command n code b = elim (ack_of (b.clients i) command n code) [
  | none ↦ b
  | some m ↦ with_client b i (enqueue (new_packet m) (b.clients i))
]

-- The return of `handle_mqtt_command` with what it leaves, or a wait for ever, or a read through NULL.
pub data Handled : Type 0 where
  done : ℕ → Broker → Memory → Handled
  hangs : Handled
  crashes : Handled

abbrev pub is_subscribed : Broker → ℕ → Bool
is_subscribed b i = (b.clients i).is_subscribe

abbrev pub mid_set : ℕ → ℕ → Broker → Broker
mid_set i mid b = with_client b i (record (b.clients i) { last_mid = mid })

-- The test that a pointer is not NULL.
abbrev pub when_given : Option Bytes → Handled → Handled → Handled
when_given none missing given = missing
when_given (some block) missing given = given

abbrev pub processed : Broker → Option Broker × Memory → Handled
processed b (none, m) = done 0 b m
processed b (some b', m) = done 0 b' m

-- The bytes of `topic` and `content` are copied, with a NUL after them.
pub publish_to : ℕ → Message → Broker → Memory → Handled
publish_to i p b m =
    let b' = mid_set i p.publish.message_id b in
    let topic = until_nul (bytes_of p.publish.topic_name) in
    processed b' (
      mqtt3_sub_tree_process is_subscribed (publish_msg topic (bytes_of p.publish.content)) b'.roots
        topic m b')

pub handle_publish : ℕ → Message → Broker → Memory → Handled
unfolding publish_to
handle_publish i p b m =
    if p.qos == 0
    then when_given p.publish.topic_name.bytes (done 0 b m) (publish_to i p b m)
    else done 0 b m

-- The return code, and the client with its id.
abbrev added : Bool × Broker → ℕ × Broker
added (true, b) = (0, b)
added (false, b) = (2, b)

pub admit : ℕ → Buffer → Broker → ℕ × Broker
admit i id b =
    if ltb 23 id.length
    then (2, b)
    else if ltb 0 id.length
    then added (add_client id (b.clients i).sock b)
    else (0, b)

pub handle_connect : ℕ → Message → Broker → Memory → Handled
unfolding admit ack_msg
handle_connect i p b m =
    let r = admit i p.connect.client_id b in done r.0 (ack_msg i Kind.connack 2 r.0 r.1) m

-- What the call of `mqtt3_sub_add` leaves in the broker.
abbrev pub stored : ℕ → Subscribed → Broker → Broker
stored i r b = record (with_client b i (record (b.clients i) { subs = r.subs })) {
  roots = r.roots;
  locked = r.locked;
}

abbrev pub turned_on : ℕ → Broker → Broker
turned_on i b = with_client b i (record (b.clients i) { is_subscribe = true })

-- The `int` that `mqtt3_sub_add` returns, in a `uint8_t`: -2 is 254. The client is subscribed if it is 0.
pub answered : Rc → ℕ → Broker → Memory → Handled
unfolding ack_msg
answered success i b m = done 0 (ack_msg i Kind.suback 3 0 (turned_on i b)) m
answered failure i b m = done 1 (ack_msg i Kind.suback 3 1 b) m
answered no_memory i b m = done 254 (ack_msg i Kind.suback 3 254 b) m
answered deadlock i b m = hangs
answered null_pointer i b m = crashes

abbrev pub is_connected : ClientState → Bool
is_connected cs_connected = true
is_connected _ = false

abbrev pub ids : Broker → ℕ → Str
ids b j = (b.clients j).id

pub subscribe_to : ℕ → ℕ → Topicpair → Broker → Memory → Handled
unfolding answered
subscribe_to i mid t b m =
    if is_connected (b.clients i).state
    then (let b' = mid_set i mid b in
        let r =
          mqtt3_sub_add (ids b') i (until_nul (bytes_of t.name)) t.qos b'.roots b'.locked
            (b'.clients i).subs m in
        answered r.rc i (stored i r b') r.memory)
    else done 0x80 (ack_msg i Kind.suback 3 0x80 b) m

abbrev pub given_name : Option Topicpair → Option Bytes
given_name none = none
given_name (some t) = t.name.bytes

abbrev pub pair_of : Option Topicpair → Topicpair
pair_of none = record { name = no_buffer; qos = 0 }
pair_of (some t) = t

pub handle_subscribe : ℕ → Message → Broker → Memory → Handled
unfolding subscribe_to
handle_subscribe i p b m =
    when_given (given_name p.subscribe.topics) (done 0 (ack_msg i Kind.suback 3 0 b) m)
      (subscribe_to i p.subscribe.message_id (pair_of p.subscribe.topics) b m)

pub handle_mqtt_command : ℕ → Message → Broker → Memory → Handled
unfolding handle_publish handle_connect handle_subscribe
handle_mqtt_command i p b m =
    if p.kind == Kind.publish
    then handle_publish i p b m
    else if p.kind == Kind.connect
    then handle_connect i p b m
    else if p.kind == Kind.subscribe
    then handle_subscribe i p b m
    else if p.kind == Kind.pingreq
    then done 0 (ack_msg i Kind.pingresp 0 0 b) m
    else if p.kind == Kind.unsubscribe
    then done 0 b m
    else if p.kind == Kind.disconnect
    then done 1 b m
    else done 0 b m
