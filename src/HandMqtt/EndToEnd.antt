-- ===== src/HandMqtt/EndToEnd.antt =====
-- A SUBSCRIBE and then a PUBLISH through `handle_mqtt_command` of broker/hand_mqtt.c, with the tree between
-- them.
use mumq.Base.{
  ℕ, suc, ◌≡◌, refl, sym, ap, subst, ◌∙◌, inl, inr, true, Bool-cases, some, List, [], ◌∷◌, ◌==◌,
  ==_iff, if_true, arith,
}
use mumq.Base.Memory.{Memory}
use mumq.Base.Strings.{Str, until_nul, until_nul-IsStr}
use mumq.Base.Words.{Bytes}
use mumq.Mqtt.Kind
use mumq.Mqtt.Message.{Message}
use mumq.Mqtt.Serialiser.Publish.{publish_of}
use mumq.Substree.Tree.{Leaf, released}
use mumq.Substree.Tokens.Levels.{tokens_of}
use mumq.Substree.Search.Matching.{Matches, IsTopic}
use mumq.Substree.Search.Roots.{starts_with, IsHashLastBelow}
use mumq.Substree.Add.{mqtt3_sub_add, Subscribed, success}
use mumq.Substree.Add.Enough.{mqtt3_sub_add-enough}
use mumq.Substree.Deliver.{mqtt3_sub_add-receivers}
use mumq.Broker.{Packet, Client, cs_connected, Broker, bytes_of}
use mumq.HandMqtt.{
  new_packet, mid_set, ack_msg, ids, is_connected, stored, turned_on, answered, subscribe_to,
  given_name, pair_of, when_given, handle_subscribe, done, handle_mqtt_command,
}
use mumq.HandMqtt.Publish.{
  count_of, with_copies, received_by, topic_of, matching, handle_mqtt_command-received_by,
}
use mathlib.Core.List.{Memᴰ}
use mathlib.Core.List.Memᴰ

==_refl : (i : ℕ) → (i == i) ≡ true
==_refl i = (==_iff i i).1 refl

count_of-mem :
    (j : ℕ) (l : Leaf) (ls : List Leaf)
    → l.context ≡ j
    → Memᴰ l ls
    → (n : ℕ) × (count_of j ls ≡ suc n)
count_of-mem j l [] e m = absurd (Memᴰ.not-nil m)
count_of-mem j l (k ∷ ls) e m = elim (Bool-cases (j == k.context)) [
  | inl own ↦ (count_of j ls, rw own)
  | inr other ↦ elim (Memᴰ.cases_cons m) [
    | inl h ↦ absurd (ground (arith, sym e ∙ ap (λ (x : Leaf). x.context) h))
    | inr m' ↦ let (n, f) = count_of-mem j l ls e m' in (n, rw (other, f))
  ]
]

-- A subscribed client with a matching leaf has the packet in its queue.
received_by-mem :
    (p : Packet) (l : Leaf) (ls : List Leaf) (j : ℕ) (c : Client)
    → c.is_subscribe ≡ true
    → l.context ≡ j
    → Memᴰ l ls
    → Memᴰ p (received_by p ls j c).sending
received_by-mem p l ls j c on own m =
    let (n, e) = count_of-mem j l ls own m in
    subst (λ x. Memᴰ p x.sending) (sym (if_true _ _ on ∙ ap (λ k. with_copies k p c) e))
      (Memᴰ.append_right c.sending (Memᴰ.head refl))

-- What the tree leaves for the SUBSCRIBE `p` of client `i`, and the broker after it was answered.
abbrev pub added : ℕ → Message → Broker → Subscribed
added i p b =
    let b' = mid_set i p.subscribe.message_id b in
    let t = pair_of p.subscribe.topics in
    mqtt3_sub_add (ids b') i (until_nul (bytes_of t.name)) t.qos b'.roots b'.locked
      (b'.clients i).subs []

abbrev pub after_subscribe : ℕ → Message → Broker → Broker
after_subscribe i p b =
    ack_msg i Kind.suback 3 0
      (turned_on i (stored i (added i p b) (mid_set i p.subscribe.message_id b)))

module _ (i : ℕ) (p : Message) (b : Broker) where
  is_added : b.locked ≡ released → (added i p b).rc ≡ success
  is_added free =
      let b' = mid_set i p.subscribe.message_id b in
      let t = pair_of p.subscribe.topics in
      ap
        (λ x.
          (mqtt3_sub_add (ids b') i (until_nul (bytes_of t.name)) t.qos b.roots x
            (b'.clients i).subs []).rc)
        free
      ∙ (mqtt3_sub_add-enough (ids b') i (until_nul (bytes_of t.name)) t.qos b.roots
          (b'.clients i).subs (until_nul-IsStr (bytes_of t.name))).0

  after_subscribe-roots : (after_subscribe i p b).roots ≡ (added i p b).roots
  unfolding ack_msg
  after_subscribe-roots = refl

  after_subscribe-is_subscribe : ((after_subscribe i p b).clients i).is_subscribe ≡ true
  unfolding ack_msg
  after_subscribe-is_subscribe = rw (==_refl i) refl

  -- The SUBSCRIBE of a connected client with a filter, while the lock is free.
  pub handle_mqtt_command-after_subscribe :
      (block : Bytes)
      → p.kind ≡ Kind.subscribe
      → given_name p.subscribe.topics ≡ some block
      → (b.clients i).state ≡ cs_connected
      → b.locked ≡ released
      → handle_mqtt_command i p b [] ≡ done 0 (after_subscribe i p b) (added i p b).memory
  unfolding handle_mqtt_command handle_subscribe subscribe_to answered
  handle_mqtt_command-after_subscribe block kind given connected free =
      dispatch
      ∙ ap
          (λ o.
            when_given o (done 0 (ack_msg i Kind.suback 3 0 b) [])
              (subscribe_to i p.subscribe.message_id (pair_of p.subscribe.topics) b []))
          given
      ∙ if_true _ _ (ap is_connected connected)
      ∙ ap
          (λ rc.
            answered rc i (stored i (added i p b) (mid_set i p.subscribe.message_id b))
              (added i p b).memory)
          (is_added free)
    where
      dispatch : handle_mqtt_command i p b [] ≡ handle_subscribe i p b []
      dispatch = rw kind refl

mid_set-id : (k mid : ℕ) (b : Broker) (j : ℕ) → ids (mid_set k mid b) j ≡ ids b j
mid_set-id k mid b j = elim (Bool-cases (j == k)) [
  | inl e ↦ rw (ids, e) (ap (λ x. (b.clients x).id) (sym ((==_iff j k).0 e)))
  | inr e ↦ rw (ids, e) refl
]

mid_set-is_subscribe :
    (k mid : ℕ) (b : Broker) (j : ℕ)
    → ((mid_set k mid b).clients j).is_subscribe ≡ (b.clients j).is_subscribe
mid_set-is_subscribe k mid b j = elim (Bool-cases (j == k)) [
  | inl e ↦ rw e (ap (λ x. (b.clients x).is_subscribe) (sym ((==_iff j k).0 e)))
  | inr e ↦ rw e refl
]

-- With memory enough and the lock free: a connected client, whose id no other client has, subscribes, and
-- then any client publishes, with QoS 0, a topic that the filter matches and whose first token is that of
-- the filter. Both packets are handled with 0, and the message stands in the queue of the subscriber,
-- if no node `#` has children then and the topic has no level `#`.
pub handle_mqtt_command-delivers :
    (i : ℕ) (p : Message) (b : Broker) (filter : Bytes) (k : ℕ) (q : Message) (topic : Bytes)
    (t : Str) (f : List Str)
    → p.kind ≡ Kind.subscribe
    → given_name p.subscribe.topics ≡ some filter
    → (b.clients i).state ≡ cs_connected
    → b.locked ≡ released
    → ((j : ℕ) → ids b j ≡ ids b i → j ≡ i)
    → q.kind ≡ Kind.publish
    → q.qos ≡ 0
    → q.publish.topic_name.bytes ≡ some topic
    → tokens_of (until_nul (bytes_of (pair_of p.subscribe.topics).name)) ≡ t ∷ f
    → starts_with (tokens_of (topic_of q)) t ≡ true
    → Matches (t ∷ f) (tokens_of (topic_of q))
    → IsTopic (tokens_of (topic_of q))
    → IsHashLastBelow (added i p b).roots
    → (b1 : Broker) × (m1 : Memory) × (b2 : Broker) × (handle_mqtt_command i p b [] ≡ done 0 b1 m1)
      × (handle_mqtt_command k q b1 [] ≡ done 0 b2 [])
      × Memᴰ
          (new_packet (publish_of (topic_of q) (bytes_of q.publish.content)))
          (b2.clients i).sending
unfolding ack_msg
handle_mqtt_command-delivers i p b filter k q topic t f kind given connected free unique kind' qos'
      given' first starts match plain w =
    let b1 = after_subscribe i p b in
    let filter_text = until_nul (bytes_of (pair_of p.subscribe.topics).name) in
    let b' = mid_set i p.subscribe.message_id b in
    let tokens = tokens_of (topic_of q) in
    let (l, there, same, _) =
      mqtt3_sub_add-receivers (ids b') i filter_text (pair_of p.subscribe.topics).qos b.roots
        b.locked (b'.clients i).subs [] t f tokens
        (until_nul-IsStr (bytes_of (pair_of p.subscribe.topics).name)) first starts (rw first match)
        (is_added i p b free) in
    let own : l.context ≡ i = unique l.context (
      sym (mid_set-id i p.subscribe.message_id b l.context)
      ∙ same
      ∙ mid_set-id i p.subscribe.message_id b i) in
    let (b2, published, clients, _) =
      handle_mqtt_command-received_by k q b1 topic kind' qos' given' w plain in
    let on : ((mid_set k q.publish.message_id b1).clients i).is_subscribe ≡ true =
      mid_set-is_subscribe k q.publish.message_id b1 i ∙ after_subscribe-is_subscribe i p b in
    (
      b1,
      (added i p b).memory,
      b2,
      handle_mqtt_command-after_subscribe i p b filter kind given connected free,
      published,
      subst
          (λ c. Memᴰ (new_packet (publish_of (topic_of q) (bytes_of q.publish.content))) c.sending)
          (sym (clients i))
          (received_by-mem (new_packet (publish_of (topic_of q) (bytes_of q.publish.content))) l
            (matching q b1) i ((mid_set k q.publish.message_id b1).clients i) on own there),
    )
