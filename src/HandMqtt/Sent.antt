-- ===== src/HandMqtt/Sent.antt =====
-- From a PUBLISH to the bytes on the connection of a subscriber: `publish_msg` of broker/hand_mqtt.c, 27-58,
-- and then the sending of broker/event_io.c, 282-354.
use mumq.Base.{
  ℕ, ◌+◌, ◌^◌, ◌≤◌, ◌<◌, ◌≡◌, refl, ap, sym, ◌∙◌, none, List, [], ◌∷◌, ◌++◌, ==_iff, if_true,
  length, length-append, All, arith,
}
use mumq.Base.Words.{Bytes}
use mumq.Mqtt.Message.{Message}
use mumq.Mqtt.Serialiser.{mqtt_serialiser_size, mqtt_serialiser_write}
use mumq.Mqtt.Serialiser.Publish.{publish_of}
use mumq.Mqtt.Serialiser.Length.{
  AreHeld, Writes, mqtt_serialiser_write-mqtt_serialiser_size, mqtt_serialiser_size-publish_of,
  publish_of-AreHeld,
}
use mumq.Broker.{Packet, Client, Broker}
use mumq.EventIo.Send.{Sent, ends, send_client}
use mumq.EventIo.Send.Delivered.{Delivers, IsFresh, all_bytes, send_client-delivers}
use mumq.HandMqtt.{written, new_packet, enqueue, publish_msg}
use mathlib.Core.List.{append-nil, append_assoc}

new_packet-IsFresh :
    (m : Message) (fuel : ℕ)
    → m.length ≤ 268435455
    → AreHeld m
    → mqtt_serialiser_size m < 2 ^ 32
    → mqtt_serialiser_size m ≤ fuel
    → IsFresh fuel (new_packet m)
unfolding new_packet Writes
new_packet-IsFresh m fuel short held small enough =
    let (w, e, l) = mqtt_serialiser_write-mqtt_serialiser_size m short held in
    let n = ap (λ o. length (written o)) e in (refl, omega arith, omega arith, omega arith)

all_bytes-append :
    (ps : List Packet) (p : Packet) → all_bytes (ps ++ p ∷ []) ≡ all_bytes ps ++ p.send_buf
all_bytes-append [] p = append-nil p.send_buf
all_bytes-append (q ∷ ps) p =
    ap (λ xs. q.send_buf ++ xs) (all_bytes-append ps p)
    ∙ sym (append_assoc q.send_buf (all_bytes ps) p.send_buf)

All-append :
    (P : Packet → Type 0) (ps : List Packet) (p : Packet) → All P ps → P p → All P (ps ++ p ∷ [])
All-append P [] p a h = (h, tt)
All-append P (q ∷ ps) p (x, a) h = (x, All-append P ps p a h)

new_packet-send_buf : (m : Message) → (new_packet m).send_buf ≡ written (mqtt_serialiser_write m).0
unfolding new_packet
new_packet-send_buf m = refl

-- A client with none of its packets begun gets a message of less than 256 MiB with its topic, and then its
-- packets are sent by a `send` that takes at least one byte of what it gets and never fails: what is delivered
-- to it is the bytes of all the packets that waited, and after them the bytes that the serialiser writes for
-- the PUBLISH; nothing is left to send.
pub publish_msg-send_client {ℓ} :
    {S : Type ℓ} (send : Bytes → S → Sent × S) (delivered : S → Bytes)
    → Delivers send delivered
    → (topic content : Bytes) (i : ℕ) (b : Broker) (fuel : ℕ) (s : S)
    → 2 + length topic + length content ≤ 268435455
    → 7 + length topic + length content ≤ fuel
    → (b.clients i).sending_cur ≡ none
    → (b.clients i).num_sending_pack ≡ length (b.clients i).sending
    → All (IsFresh fuel) (b.clients i).sending
    → (d : Client) × (t : S) × (send_client send fuel ((publish_msg topic content i b).clients i) s
        ≡ ends d t)
      × (delivered t
          ≡ delivered s
            ++ (all_bytes (b.clients i).sending
                ++ written (mqtt_serialiser_write (publish_of topic content)).0))
      × (d.sending ≡ [])
      × (d.num_sending_pack ≡ 0)
publish_msg-send_client send delivered delivers topic content i b fuel s short enough idle counted
      fresh =
    let p = new_packet (publish_of topic content) in
    let c = enqueue p (b.clients i) in
    let here : (publish_msg topic content i b).clients i ≡ c = if_true _ _ ((==_iff i i).1 refl) in
    let size = mqtt_serialiser_size-publish_of topic content in
    let new =
      new_packet-IsFresh (publish_of topic content) fuel short (publish_of-AreHeld topic content)
        (omega arith) (omega arith) in
    let (d, t, run, log, empty, none_left, at_0) =
      send_client-delivers send delivered delivers fuel c s idle
        (omega (arith, length-append (b.clients i).sending (p ∷ [])))
        (All-append (IsFresh fuel) (b.clients i).sending p fresh new) in
    (
      d,
      t,
      ap (λ x. send_client send fuel x s) here ∙ run,
      log
          ∙ ap (λ xs. delivered s ++ xs)
              (all_bytes-append (b.clients i).sending p
                ∙ ap (λ xs. all_bytes (b.clients i).sending ++ xs)
                    (new_packet-send_buf (publish_of topic content))),
      empty,
      at_0,
    )
