-- ===== src/HandMqtt/Kept.antt =====
-- What every packet leaves in every client (broker/hand_mqtt.c, 105-194).
use mumq.Base.{
  ℕ, inl, inr, Bool, true, false, Bool-cases, if_true, if_false, sym, subst, Option, none, some, [],
  ◌∷◌, ◌==◌, if◌then◌else◌, ltb, length-append, arith,
}
use mumq.Base.Memory.{Memory}
use mumq.Base.Strings.{Str, until_nul}
use mumq.Base.Words.{Bytes}
use mumq.Mqtt.Kind
use mumq.Mqtt.Message.{Buffer, Message}
use mumq.Substree.Add.{mqtt3_sub_add, Rc, success, failure, no_memory, deadlock, null_pointer}
use mumq.Substree.Search.Kept.{Leaves, mqtt3_sub_tree_process-Leaves}
use mumq.Broker.{Packet, Client, Broker, with_client, bytes_of, add_client}
use mumq.EventIo.Framing.{IsResumed}
use mumq.EventIo.Send.Counted.{IsCounted}
use mumq.HandMqtt.{
  new_packet, enqueue, publish_msg, ack_of, ack_msg, Handled, done, hangs, crashes, is_subscribed,
  ids, mid_set, when_given, processed, publish_to, handle_publish, added, admit, handle_connect,
  stored, turned_on, answered, is_connected, subscribe_to, given_name, pair_of, handle_subscribe,
  handle_mqtt_command,
}

-- The next call of `loop_read` can go on, and no more packets are counted than there are.
abbrev pub IsKept : Client → Type 0
IsKept c = IsResumed c.reading × IsCounted c

abbrev pub AreKept : Broker → Type 0
AreKept b = (j : ℕ) → IsKept (b.clients j)

abbrev pub LeavesKept : Handled → Type 0
LeavesKept (done rc b m) = AreKept b
LeavesKept hangs = Unit
LeavesKept crashes = Unit

pub with_client-AreKept :
    (b : Broker) (i : ℕ) (c : Client) → AreKept b → IsKept c → AreKept (with_client b i c)
with_client-AreKept b i c h k j = elim (Bool-cases (j == i)) [
  | inl e ↦ subst IsKept (sym (if_true c (b.clients j) e)) k
  | inr e ↦ subst IsKept (sym (if_false c (b.clients j) e)) (h j)
]

enqueue-IsKept : (p : Packet) (c : Client) → IsKept c → IsKept (enqueue p c)
enqueue-IsKept p c (r, n) = (r, omega (arith, length-append c.sending (p ∷ [])))

publish_msg-AreKept :
    (topic : Str) (content : Bytes) (i : ℕ) (b : Broker)
    → AreKept b
    → AreKept (publish_msg topic content i b)
publish_msg-AreKept topic content i b h =
    with_client-AreKept b i _ h (enqueue-IsKept (new_packet _) (b.clients i) (h i))

ack_msg-AreKept :
    (i command n code : ℕ) (b : Broker) → AreKept b → AreKept (ack_msg i command n code b)
unfolding ack_msg
ack_msg-AreKept i command n code b h = by_message (ack_of (b.clients i) command n code)
  where
    by_message :
        (o : Option Message)
        → AreKept
            (elim o [ none ↦ b | some m ↦ with_client b i (enqueue (new_packet m) (b.clients i)) ])
    by_message none = h
    by_message (some m) =
        with_client-AreKept b i _ h (enqueue-IsKept (new_packet m) (b.clients i) (h i))

mid_set-AreKept : (i mid : ℕ) (b : Broker) → AreKept b → AreKept (mid_set i mid b)
mid_set-AreKept i mid b h = with_client-AreKept b i _ h (h i)

if-LeavesKept :
    (t : Bool) (x y : Handled) → LeavesKept x → LeavesKept y → LeavesKept (if t then x else y)
if-LeavesKept true x y p q = p
if-LeavesKept false x y p q = q

when_given-LeavesKept :
    (o : Option Bytes) (x y : Handled) → LeavesKept x → LeavesKept y → LeavesKept (when_given o x y)
when_given-LeavesKept none x y p q = p
when_given-LeavesKept (some block) x y p q = q

processed-LeavesKept :
    (b : Broker) (r : Option Broker × Memory)
    → AreKept b
    → Leaves AreKept r
    → LeavesKept (processed b r)
processed-LeavesKept b (none, m) h k = h
processed-LeavesKept b (some b', m) h k = k

handle_publish-LeavesKept :
    (i : ℕ) (p : Message) (b : Broker) (m : Memory)
    → AreKept b
    → LeavesKept (handle_publish i p b m)
unfolding handle_publish publish_to
handle_publish-LeavesKept i p b m h =
    let b' = mid_set i p.publish.message_id b in
    let h' = mid_set-AreKept i p.publish.message_id b h in
    let topic = until_nul (bytes_of p.publish.topic_name) in
    let callback = publish_msg topic (bytes_of p.publish.content) in
    if-LeavesKept (p.qos == 0) _ _
      (when_given-LeavesKept p.publish.topic_name.bytes _ _ h (
        processed-LeavesKept b' _ h' (
          mqtt3_sub_tree_process-Leaves is_subscribed callback AreKept
            (publish_msg-AreKept topic (bytes_of p.publish.content)) b'.roots topic m b' h')))
      h

add_client-AreKept :
    (id : Buffer) (fd : ℕ) (b : Broker) → AreKept b → AreKept (add_client id fd b).1
add_client-AreKept id fd b h = with_client-AreKept b fd _ h ((h fd).0, omega arith)

if-AreKept :
    (t : Bool) (x y : ℕ × Broker) → AreKept x.1 → AreKept y.1 → AreKept (if t then x else y).1
if-AreKept true x y p q = p
if-AreKept false x y p q = q

admit-AreKept : (i : ℕ) (id : Buffer) (b : Broker) → AreKept b → AreKept (admit i id b).1
unfolding admit
admit-AreKept i id b h = if-AreKept (ltb 23 id.length) _ _ h (
    if-AreKept (ltb 0 id.length) (added (add_client id (b.clients i).sock b)) _
      (add_client-AreKept id (b.clients i).sock b h) h)

handle_connect-LeavesKept :
    (i : ℕ) (p : Message) (b : Broker) (m : Memory)
    → AreKept b
    → LeavesKept (handle_connect i p b m)
unfolding handle_connect
handle_connect-LeavesKept i p b m h =
    let r = admit i p.connect.client_id b in
    ack_msg-AreKept i Kind.connack 2 r.0 r.1 (admit-AreKept i p.connect.client_id b h)

answered-LeavesKept :
    (rc : Rc) (i : ℕ) (b : Broker) (m : Memory) → AreKept b → LeavesKept (answered rc i b m)
unfolding answered
answered-LeavesKept success i b m h =
    ack_msg-AreKept i Kind.suback 3 0 (turned_on i b) (with_client-AreKept b i _ h (h i))
answered-LeavesKept failure i b m h = ack_msg-AreKept i Kind.suback 3 1 b h
answered-LeavesKept no_memory i b m h = ack_msg-AreKept i Kind.suback 3 254 b h
answered-LeavesKept deadlock i b m h = tt
answered-LeavesKept null_pointer i b m h = tt

handle_subscribe-LeavesKept :
    (i : ℕ) (p : Message) (b : Broker) (m : Memory)
    → AreKept b
    → LeavesKept (handle_subscribe i p b m)
unfolding handle_subscribe subscribe_to
handle_subscribe-LeavesKept i p b m h =
    let b' = mid_set i p.subscribe.message_id b in
    let h' = mid_set-AreKept i p.subscribe.message_id b h in
    let t = pair_of p.subscribe.topics in
    let r =
      mqtt3_sub_add (ids b') i (until_nul (bytes_of t.name)) t.qos b'.roots b'.locked
        (b'.clients i).subs m in
    when_given-LeavesKept (given_name p.subscribe.topics) _ _
      (ack_msg-AreKept i Kind.suback 3 0 b h)
      (if-LeavesKept (is_connected (b.clients i).state) _ _
        (answered-LeavesKept r.rc i (stored i r b') r.memory (with_client-AreKept b' i _ h' (h' i)))
        (ack_msg-AreKept i Kind.suback 3 0x80 b h))

-- Whatever a client sends and whatever `malloc` answers to the tree: when `handle_mqtt_command` returns,
-- then in every client of the table the next call of `loop_read` can go on and `num_sending_pack` counts no
-- more packets than there are, if this held before.
pub handle_mqtt_command-LeavesKept :
    (i : ℕ) (p : Message) (b : Broker) (m : Memory)
    → AreKept b
    → LeavesKept (handle_mqtt_command i p b m)
unfolding handle_mqtt_command
handle_mqtt_command-LeavesKept i p b m h =
    if-LeavesKept (p.kind == Kind.publish) _ _ (handle_publish-LeavesKept i p b m h) (
      if-LeavesKept (p.kind == Kind.connect) _ _ (handle_connect-LeavesKept i p b m h) (
        if-LeavesKept (p.kind == Kind.subscribe) _ _ (handle_subscribe-LeavesKept i p b m h) (
          if-LeavesKept (p.kind == Kind.pingreq) _ _ (ack_msg-AreKept i Kind.pingresp 0 0 b h) (
            if-LeavesKept (p.kind == Kind.unsubscribe) _ _ h
              (if-LeavesKept (p.kind == Kind.disconnect) _ _ h h)))))
