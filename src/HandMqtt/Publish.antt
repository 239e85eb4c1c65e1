-- ===== src/HandMqtt/Publish.antt =====
-- What a PUBLISH does to the queues of the clients (broker/hand_mqtt.c, 27-58 and 109-134).
use mumq.Base.{
  ℕ, zero, suc, ◌≡◌, refl, sym, ap, subst, ◌∙◌, inl, inr, true, false, Bool-cases, some, List, [],
  ◌∷◌, ◌++◌, ◌+◌, ◌==◌, ==_iff, if◌then◌else◌, if_true, if_false, arith,
}
use mathlib.Core.List.{append-nil, append_assoc}
use mumq.Base.Memory.{Answers-enough}
use mumq.Base.Strings.{Str, until_nul, until_nul-IsStr}
use mumq.Base.Words.{Bytes}
use mumq.Mqtt.Kind
use mumq.Mqtt.Message.{Message}
use mumq.Mqtt.Serialiser.Publish.{publish_of}
use mumq.Substree.Tree.{Leaf}
use mumq.Substree.Tokens.Levels.{tokens_of}
use mumq.Substree.Search.{mqtt3_sub_tree_process}
use mumq.Substree.Search.Matching.{matches, receivers, IsTopic}
use mumq.Substree.Search.Roots.{
  call_each, root_entries, IsHashLastBelow, mqtt3_sub_tree_process-receivers,
}
use mumq.Broker.{Packet, Client, Broker, bytes_of}
use mumq.HandMqtt.{
  mid_set, new_packet, enqueue, publish_msg, is_subscribed, done, handle_publish, publish_to,
  when_given, processed, handle_mqtt_command,
}

-- How many leaves are of client `j`.
abbrev pub count_of : ℕ → List Leaf → ℕ
count_of j [] = 0
count_of j (l ∷ ls) = let rest = count_of j ls in if j == l.context then suc rest else rest

abbrev pub copies : ℕ → Packet → List Packet
copies zero p = []
copies (suc n) p = p ∷ copies n p

-- `n` copies of the packet behind the queue, and nothing else of the client but the count changed.
abbrev pub with_copies : ℕ → Packet → Client → Client
with_copies n p c = record c {
  sending = c.sending ++ copies n p;
  num_sending_pack = c.num_sending_pack + n;
}

-- A copy for each leaf of the client, if it is subscribed.
abbrev pub received_by : Packet → List Leaf → ℕ → Client → Client
received_by p ls j c = if c.is_subscribe then with_copies (count_of j ls) p c else c

with_copies-none : (p : Packet) (c : Client) → with_copies 0 p c ≡ c
with_copies-none p c =
    let n : c.num_sending_pack + 0 ≡ c.num_sending_pack = omega arith in
    ap (λ l. record c { sending = l; num_sending_pack = c.num_sending_pack + 0 })
      (append-nil c.sending)
    ∙ ap (λ k. record c { num_sending_pack = k }) n

with_copies-enqueue :
    (n : ℕ) (p : Packet) (c : Client) → with_copies n p (enqueue p c) ≡ with_copies (suc n) p c
with_copies-enqueue n p c =
    let k : c.num_sending_pack + 1 + n ≡ c.num_sending_pack + suc n = omega arith in
    ap (λ l. record c { sending = l; num_sending_pack = c.num_sending_pack + 1 + n })
      (append_assoc c.sending (p ∷ []) (copies n p))
    ∙ ap (λ m. record c { sending = c.sending ++ p ∷ copies n p; num_sending_pack = m }) k

module _ (topic : Str) (content : Bytes) where
  abbrev packet : Packet
  packet = new_packet (publish_of topic content)

  abbrev deliver : List Leaf → Broker → Broker
  deliver = call_each is_subscribed (publish_msg topic content)

  received_by-here :
      (l : Leaf) (ls : List Leaf) (b : Broker)
      → is_subscribed b l.context ≡ true
      → received_by packet ls l.context ((publish_msg topic content l.context b).clients l.context)
        ≡ received_by packet (l ∷ ls) l.context (b.clients l.context)
  received_by-here l ls b e =
      let c = b.clients l.context in
      let own : (l.context == l.context) ≡ true = (==_iff l.context l.context).1 refl in
      ap (received_by packet ls l.context) (if_true (enqueue packet c) c own)
      ∙ if_true _ _ e
      ∙ with_copies-enqueue (count_of l.context ls) packet c
      ∙ sym (if_true _ _ e ∙ ap (λ n. with_copies n packet c) (if_true _ _ own))

  received_by-own :
      (l : Leaf) (ls : List Leaf) (b : Broker) (j : ℕ)
      → is_subscribed b l.context ≡ true
      → received_by packet ls j ((publish_msg topic content l.context b).clients j)
        ≡ received_by packet (l ∷ ls) j (b.clients j)
  received_by-own l ls b j e = elim (Bool-cases (j == l.context)) [
    | inl own ↦
        subst
          (λ k.
            received_by packet ls k ((publish_msg topic content l.context b).clients k)
            ≡ received_by packet (l ∷ ls) k (b.clients k))
          (sym ((==_iff j l.context).0 own)) (received_by-here l ls b e)
    | inr other ↦ rw other refl
  ]

  received_by-skipped :
      (l : Leaf) (ls : List Leaf) (b : Broker) (j : ℕ)
      → is_subscribed b l.context ≡ false
      → received_by packet ls j (b.clients j) ≡ received_by packet (l ∷ ls) j (b.clients j)
  received_by-skipped l ls b j e = elim (Bool-cases (j == l.context)) [
    | inl own ↦
        let off : is_subscribed b j ≡ false =
          ap (is_subscribed b) ((==_iff j l.context).0 own) ∙ e in
        rw off refl
    | inr other ↦ rw other refl
  ]

  received_by-none : (c : Client) → received_by packet [] 0 c ≡ c
  received_by-none c = elim (Bool-cases c.is_subscribe) [
    | inl e ↦ if_true _ _ e ∙ with_copies-none packet c
    | inr e ↦ if_false _ _ e
  ]

  deliver-received_by :
      (ls : List Leaf) (b : Broker) (j : ℕ)
      → (deliver ls b).clients j ≡ received_by packet ls j (b.clients j)
  deliver-received_by [] b j = sym (received_by-none (b.clients j))
  deliver-received_by (l ∷ ls) b j = elim (Bool-cases (is_subscribed b l.context)) [
    | inl e ↦
        ap (λ x. (deliver ls x).clients j) (if_true _ _ e)
        ∙ deliver-received_by ls (publish_msg topic content l.context b) j
        ∙ received_by-own l ls b j e
    | inr e ↦
        ap (λ x. (deliver ls x).clients j) (if_false _ _ e)
        ∙ deliver-received_by ls b j
        ∙ received_by-skipped l ls b j e
  ]

  deliver-roots : (ls : List Leaf) (b : Broker) → (deliver ls b).roots ≡ b.roots
  deliver-roots [] b = refl
  deliver-roots (l ∷ ls) b = elim (Bool-cases (is_subscribed b l.context)) [
    | inl e ↦
        ap (λ x. (deliver ls x).roots) (if_true _ _ e)
        ∙ deliver-roots ls (publish_msg topic content l.context b)
    | inr e ↦ ap (λ x. (deliver ls x).roots) (if_false _ _ e) ∙ deliver-roots ls b
  ]

-- The topic of a PUBLISH, and the leaves of the tree that it matches.
abbrev pub topic_of : Message → Str
topic_of p = until_nul (bytes_of p.publish.topic_name)

abbrev pub matching : Message → Broker → List Leaf
matching p b =
    receivers (λ f. matches f (tokens_of (topic_of p)))
      (root_entries b.roots (tokens_of (topic_of p)))

-- With memory enough, in a tree where no node `#` has children, a PUBLISH of QoS 0 whose topic has no
-- level `#` returns 0 and puts the same packet once for each matching leaf at the end of the queue of
-- the leaf's client, if that is subscribed, and changes nothing else of a client but the `last_mid` of
-- the sender, and not the tree.
pub handle_mqtt_command-received_by :
    (i : ℕ) (p : Message) (b : Broker) (block : Bytes)
    → p.kind ≡ Kind.publish
    → p.qos ≡ 0
    → p.publish.topic_name.bytes ≡ some block
    → IsHashLastBelow b.roots
    → IsTopic (tokens_of (topic_of p))
    → (b' : Broker) × (handle_mqtt_command i p b [] ≡ done 0 b' [])
      × ((j : ℕ)
          → b'.clients j
            ≡ received_by
                (new_packet (publish_of (topic_of p) (bytes_of p.publish.content)))
                (matching p b)
                j
                ((mid_set i p.publish.message_id b).clients j))
      × (b'.roots ≡ b.roots)
unfolding handle_mqtt_command handle_publish publish_to
handle_mqtt_command-received_by i p b block k q e w t =
    let content = bytes_of p.publish.content in
    let run =
      mqtt3_sub_tree_process is_subscribed (publish_msg (topic_of p) content) b.roots (topic_of p)
        [] (mid_set i p.publish.message_id b) in
    let found = Answers-enough (
      mqtt3_sub_tree_process-receivers is_subscribed (publish_msg (topic_of p) content) b.roots
        (topic_of p) [] (mid_set i p.publish.message_id b)
        (until_nul-IsStr (bytes_of p.publish.topic_name)) w t) in
    let b' = deliver (topic_of p) content (matching p b) (mid_set i p.publish.message_id b) in
    let published : handle_mqtt_command i p b [] ≡ done 0 b' [] =
      if_true _ _ ((==_iff p.kind Kind.publish).1 k)
      ∙ if_true _ _ ((==_iff p.qos 0).1 q)
      ∙ ap (λ o. when_given o (done 0 b []) (publish_to i p b [])) e
      ∙ ap (λ o. processed (mid_set i p.publish.message_id b) (o, run.1)) found.0
      ∙ ap (done 0 b') found.1 in
    (
      b',
      published,
      deliver-received_by (topic_of p) content (matching p b) (mid_set i p.publish.message_id b),
      deliver-roots (topic_of p) content (matching p b) (mid_set i p.publish.message_id b),
    )
