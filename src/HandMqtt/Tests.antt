-- ===== src/HandMqtt/Tests.antt =====
-- Clients 7 and 8 of a broker with an empty tree: 7 subscribes to `a/+`, 8 publishes `a/b`.
use mumq.Base.{ℕ, ◌+◌, ◌≡◌, refl, inl, true, false, none, some, [], ◌∷◌, arith, ◌++◌}
use mumq.Base.Memory.{Memory}
use mumq.Base.Words.{Bytes}
use mumq.Mqtt.Kind
use mumq.Mqtt.Message.{Message, message_init}
use mumq.Mqtt.Serialiser.Publish.{publish_of}
use mumq.Substree.Tree.{initial, plus, released}
use mumq.Substree.Tokens.{sub_topic_tokenise}
use mumq.Substree.Add.{mqtt3_sub_add}
use mumq.Substree.Search.Matching.{Matches, same, any_one, done, IsTopic}
use mumq.Substree.Search.Roots.{IsHashLastBelow}
use mumq.Substree.Tokens.Levels.{tokens_of}
use mumq.Broker.{Client, cs_connected, Broker, no_reading, bytes_of}
use mumq.HandMqtt.{written, publish_msg, Handled, handle_mqtt_command, new_packet, mid_set, ids}
use mumq.HandMqtt
use mumq.HandMqtt.Publish.{
  count_of, received_by, matching, topic_of, handle_mqtt_command-received_by,
}
use mumq.HandMqtt.EndToEnd.{added, after_subscribe, handle_mqtt_command-delivers}
use mumq.HandMqtt.Sent.{publish_msg-send_client}
use mumq.EventIo.Send.{Sent, accepted, nothing, ends, send_client}
use mumq.EventIo.Send.Delivered.{Delivers, all_bytes}
use mumq.Mqtt.Serialiser.{mqtt_serialiser_write}
use mumq.HandMqtt.Kept.{AreKept}
use mathlib.Core.List.{Memᴰ}

-- Client `n` has the id of the one byte `n + 1`.
abbrev client : ℕ → Client
client n = record {
  sock = n;
  epoll_id = 0;
  id = (n + 1) ∷ [];
  last_mid = 0;
  state = cs_connected;
  reading = no_reading;
  snd_num = 0;
  sending = [];
  sending_cur = none;
  num_sending_pack = 0;
  is_subscribe = false;
  subs = [];
}

abbrev start : Broker
start = record { clients = client; roots = initial; locked = released }

abbrev a_plus : Bytes
a_plus = b'a' ∷ b'/' ∷ b'+' ∷ []

abbrev a_b : Bytes
a_b = b'a' ∷ b'/' ∷ b'b' ∷ []

abbrev subscribe_a_plus : Message
subscribe_a_plus = record message_init {
  kind = Kind.subscribe;
  subscribe = record {
    message_id = 1;
    topics = some (record { name = record { length = 3; bytes = some a_plus }; qos = 0 });
  };
}

abbrev publish_a_b : Message
publish_a_b = record message_init {
  kind = Kind.publish;
  publish = record {
    topic_name = record { length = 3; bytes = some a_b };
    message_id = 0;
    content = record { length = 2; bytes = some (b'h' ∷ b'i' ∷ []) };
  };
}

unique : (j : ℕ) → ids start j ≡ ids start 7 → j ≡ 7
unique j e = ground arith

a_plus-Matches : Matches ([] ∷ (b'a' ∷ []) ∷ plus ∷ []) (tokens_of (topic_of publish_a_b))
a_plus-Matches = same [] (same (b'a' ∷ []) (any_one done))

a_b-IsTopic : IsTopic (tokens_of (topic_of publish_a_b))
a_b-IsTopic = (λ e. cc, (λ e. cc, (λ e. cc, tt)))

added-IsHashLastBelow : IsHashLastBelow (added 7 subscribe_a_plus start).roots
unfolding mqtt3_sub_add sub_topic_tokenise
added-IsHashLastBelow = ((λ e. cc, (λ e. cc, (λ e. cc, tt, tt), tt), tt), tt)

handle_mqtt_command-delivers_example :
    (b1 : Broker) × (m1 : Memory) × (b2 : Broker) × (handle_mqtt_command 7 subscribe_a_plus start []
      ≡ HandMqtt.done 0 b1 m1)
    × (handle_mqtt_command 8 publish_a_b b1 [] ≡ HandMqtt.done 0 b2 [])
    × Memᴰ
        (new_packet (publish_of (topic_of publish_a_b) (bytes_of publish_a_b.publish.content)))
        (b2.clients 7).sending
handle_mqtt_command-delivers_example =
    handle_mqtt_command-delivers 7 subscribe_a_plus start a_plus 8 publish_a_b a_b []
      ((b'a' ∷ []) ∷ plus ∷ []) refl refl refl refl unique refl refl refl refl refl a_plus-Matches
      a_b-IsTopic added-IsHashLastBelow

-- The broker in which 7 has subscribed.
abbrev subscribed : Broker
subscribed = after_subscribe 7 subscribe_a_plus start

handle_mqtt_command-received_by_example :
    (b' : Broker) × (handle_mqtt_command 8 publish_a_b subscribed [] ≡ HandMqtt.done 0 b' [])
    × ((j : ℕ)
        → b'.clients j
          ≡ received_by
              (new_packet
                (publish_of (topic_of publish_a_b) (bytes_of publish_a_b.publish.content)))
              (matching publish_a_b subscribed)
              j
              ((mid_set 8 0 subscribed).clients j))
    × (b'.roots ≡ subscribed.roots)
unfolding HandMqtt.ack_msg mqtt3_sub_add sub_topic_tokenise
handle_mqtt_command-received_by_example =
    handle_mqtt_command-received_by 8 publish_a_b subscribed a_b refl refl refl
      added-IsHashLastBelow a_b-IsTopic

-- There is one leaf that matches, of client 7.
matching_7 :
    (count_of 7 (matching publish_a_b subscribed) ≡ 1)
    × ((subscribed.clients 7).is_subscribe ≡ true)
unfolding HandMqtt.ack_msg mqtt3_sub_add sub_topic_tokenise
matching_7 = (refl, refl)

abbrev connect_long : Message
connect_long = record message_init {
  kind = Kind.connect;
  connect = record (message_init.connect) { client_id = record { length = 24; bytes = some a_b } };
}

start-AreKept : AreKept start
start-AreKept j = (inl (refl, refl, refl, refl, refl), omega arith)

-- A connection that takes one byte a call.
abbrev send : Bytes → Bytes → Sent × Bytes
send [] s = (nothing true, s)
send (x ∷ bs) s = (accepted 0, s ++ x ∷ [])

send-Delivers : Delivers send (λ s. s)
send-Delivers [] s h = absurd (omega arith)
send-Delivers (x ∷ bs) s h = (0, s ++ x ∷ [], refl, omega arith, refl)

publish_msg-send_client_example :
    (d : Client) × (t : Bytes) × (send_client send 64
        ((publish_msg a_b (b'h' ∷ b'i' ∷ []) 7 start).clients 7)
        []
      ≡ ends d t)
    × (t
        ≡ []
          ++ (all_bytes (start.clients 7).sending
              ++ written (mqtt_serialiser_write (publish_of a_b (b'h' ∷ b'i' ∷ []))).0))
    × (d.sending ≡ [])
    × (d.num_sending_pack ≡ 0)
publish_msg-send_client_example =
    publish_msg-send_client send (λ s. s) send-Delivers a_b (b'h' ∷ b'i' ∷ []) 7 start 64 []
      (omega arith) (omega arith) refl refl tt
