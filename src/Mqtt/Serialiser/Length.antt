-- ===== src/Mqtt/Serialiser/Length.antt =====
-- The bytes that `mqtt_serialiser_write` writes are as many as `mqtt_serialiser_size` counts, which is what
-- its callers allocate (broker/mqtt.c, 381-510).
use mumq.Base.{
  ℕ, ◌+◌, ◌/◌, ◌%◌, ◌^◌, ◌≤◌, bit_and, ◌≡◌, refl, subst, ◌∙◌, Bool-cases, true, Option, none, some,
  [], ◌∷◌, ◌++◌, ◌==◌, leb, length, take, length-append, length-take, arith, ◌⊎◌, inl, inr,
}
use mumq.Base.Words.{Bytes}
use mumq.Base.Order.{lt_wf}
use mumq.Mqtt.Message.{Buffer, Message}
use mumq.Mqtt.Kind
use mumq.Mqtt.Serialiser.{
  length_size, connect_size, kind_size, mqtt_serialiser_size, copy_bytes, write_bytes, write_string,
  write_if, when, then_write, flags_byte, write_publish, write_connect, write_kind, write_header,
  mqtt_serialiser_write,
}
use mumq.Mqtt.Serialiser.Publish.{publish_of}
use mumq.Mqtt.Serialiser.Remaining.{length-remaining_loop}

-- A buffer that has the bytes its length counts.
abbrev pub IsHeld : Buffer → Type 0
IsHeld b = (b.length ≡ 0) ⊎ ((block : Bytes) × (b.bytes ≡ some block) × (b.length ≤ length block))

abbrev pub AreHeld : Message → Type 0
AreHeld m =
    let c = m.connect in
    IsHeld m.publish.topic_name
    × IsHeld m.publish.content
    × IsHeld c.protocol_name
    × IsHeld c.client_id
    × IsHeld c.will_topic
    × IsHeld c.will_message
    × IsHeld c.username
    × IsHeld c.password

-- A write that reads no byte outside a block and writes `n` bytes.
unfoldable pub Writes : Option Bytes → ℕ → Type 0
Writes w n = (out : Bytes) × (w ≡ some out) × (length out ≡ n)

leb-true : (a b : ℕ) → a ≤ b → leb a b ≡ true
leb-true a b h = ground arith

copy_bytes-Writes :
    (n : ℕ) (block : Bytes) → n ≤ length block → Writes (copy_bytes n (some block)) n
unfolding copy_bytes Writes
copy_bytes-Writes n block h =
    rw (leb-true n (length block) h) (take n block, refl, length-take n block ∙ omega arith)

copy_bytes-zero : (o : Option Bytes) → Writes (copy_bytes 0 o) 0
unfolding copy_bytes Writes
copy_bytes-zero none = ([], refl, refl)
copy_bytes-zero (some block) = copy_bytes-Writes 0 block (omega arith)

write_bytes-Writes : (b : Buffer) → IsHeld b → Writes (write_bytes b) b.length
unfolding write_bytes
write_bytes-Writes b (inl e) = rw e (copy_bytes-zero b.bytes)
write_bytes-Writes b (inr (block, e, h)) = rw e (copy_bytes-Writes b.length block h)

then_write-Writes :
    (w r : Option Bytes) (i j : ℕ) → Writes w i → Writes r j → Writes (then_write w r) (i + j)
unfolding Writes
then_write-Writes w r i j (u, e, l) (v, f, k) =
    (u ++ v, rw (e, f) refl, length-append u v ∙ omega arith)

some-Writes : (u : Bytes) → Writes (some u) (length u)
unfolding Writes
some-Writes u = (u, refl, refl)

write_string-Writes : (b : Buffer) → IsHeld b → Writes (write_string b) (2 + b.length)
unfolding write_string
write_string-Writes b h =
    then_write-Writes _ _ 2 b.length
      (some-Writes (b.length / 0xff % 2 ^ 8 ∷ bit_and b.length 0xff % 2 ^ 8 ∷ []))
      (write_bytes-Writes b h)

write_if-Writes :
    (flag : ℕ) (w : Option Bytes) (n : ℕ) → Writes w n → Writes (write_if flag w) (when flag n)
unfolding write_if
write_if-Writes flag w n h = elim (Bool-cases (flag == 0)) [
  | inl e ↦ rw e (some-Writes [])
  | inr e ↦ rw e h
]

write_publish-Writes :
    (m : Message)
    → AreHeld m
    → Writes (write_publish m) (2 + m.publish.topic_name.length + m.publish.content.length)
unfolding write_publish
write_publish-Writes m (topic, content, _, _, _, _, _, _) =
    then_write-Writes _ _ (2 + m.publish.topic_name.length) m.publish.content.length
      (write_string-Writes m.publish.topic_name topic)
      (write_bytes-Writes m.publish.content content)

Writes-cast : (w : Option Bytes) (i j : ℕ) → i ≡ j → Writes w i → Writes w j
Writes-cast w i j e h = subst (Writes w) e h

write_connect-Writes : (m : Message) → AreHeld m → Writes (write_connect m) (connect_size m)
unfolding write_connect connect_size
write_connect-Writes m (_, _, name, id, topic, will, user, pass) =
    let c = m.connect in
    let bytes = λ (b : Buffer) (h : IsHeld b). write_string-Writes b h in
    let wills = write_if-Writes c.flags.will _ _ (
      Writes-cast _ _ (4 + c.will_topic.length + c.will_message.length) (omega arith)
        (then_write-Writes _ _ _ _ (bytes c.will_topic topic) (bytes c.will_message will))) in
    let users = write_if-Writes c.flags.username_follows _ _ (bytes c.username user) in
    let passes = write_if-Writes c.flags.password_follows _ _ (bytes c.password pass) in
    let fixed = some-Writes (
      c.protocol_version % 2 ^ 8
      ∷ flags_byte c.flags
      ∷ c.keep_alive / 2 ^ 8
      ∷ bit_and c.keep_alive 0xff
      ∷ []) in
    Writes-cast _ _ _ (omega arith) (
      then_write-Writes _ _ _ _ (bytes c.protocol_name name) (
        then_write-Writes _ _ 4 _ fixed (
          then_write-Writes _ _ _ _ (bytes c.client_id id)
            (then_write-Writes _ _ _ _ wills (then_write-Writes _ _ _ _ users passes)))))

write_kind-Writes : (m : Message) → AreHeld m → Writes (write_kind m).0 (kind_size m)
unfolding write_kind kind_size
write_kind-Writes m h = elim (Bool-cases (m.kind == Kind.publish)) [
  | inl e ↦ rw e (write_publish-Writes m h)
  | inr e ↦ rw e (elim (Bool-cases (m.kind == Kind.suback)) [
    | inl f ↦ rw f (some-Writes _)
    | inr f ↦ rw f (elim (Bool-cases (m.kind == Kind.connect)) [
      | inl g ↦ rw g (write_connect-Writes m h)
      | inr g ↦ rw g (elim (Bool-cases (m.kind == Kind.connack)) [
        | inl k ↦ rw k (some-Writes _)
        | inr k ↦ rw k (some-Writes [])
      ])
    ])
  ])
]

write_header-Writes :
    (m : Message) → m.length ≤ 268435455 → Writes (some (write_header m)) (1 + length_size m.length)
unfolding Writes
write_header-Writes m h =
    (write_header m, refl, omega (arith, length-remaining_loop m.length (lt_wf.apply m.length) h))

-- When the message's length is at most 268435455 and every buffer has the bytes that its length counts,
-- the serialiser reads no byte outside a block and writes exactly as many bytes as the size function
-- counts, which is the block that its callers allocate.
pub mqtt_serialiser_write-mqtt_serialiser_size :
    (m : Message)
    → m.length ≤ 268435455
    → AreHeld m
    → Writes (mqtt_serialiser_write m).0 (mqtt_serialiser_size m)
unfolding mqtt_serialiser_write mqtt_serialiser_size
mqtt_serialiser_write-mqtt_serialiser_size m h held =
    then_write-Writes _ _ (1 + length_size m.length) (kind_size m) (write_header-Writes m h)
      (write_kind-Writes m held)

length_size-le : (n : ℕ) → length_size n ≤ 4
unfolding length_size
length_size-le n = ground arith

pub mqtt_serialiser_size-publish_of :
    (topic content : Bytes)
    → mqtt_serialiser_size (publish_of topic content) ≤ 7 + length topic + length content
unfolding mqtt_serialiser_size kind_size
mqtt_serialiser_size-publish_of topic content =
    let few = length_size-le (2 + length topic + length content) in omega arith

pub publish_of-AreHeld : (topic content : Bytes) → AreHeld (publish_of topic content)
publish_of-AreHeld topic content = (
  inr (topic, refl, omega arith),
  inr (content, refl, omega arith),
  inl refl,
  inl refl,
  inl refl,
  inl refl,
  inl refl,
  inl refl,
)
