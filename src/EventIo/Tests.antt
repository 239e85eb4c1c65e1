-- ===== src/EventIo/Tests.antt =====
-- The reading of a PUBLISH that comes byte by byte, and the sending of two packets, two bytes a call.
use mumq.Base.{
  ℕ, zero, suc, ◌%◌, refl, inl, true, false, none, [], ◌∷◌, ◌++◌, ◌≡◌, arith, ◌==◌, if◌then◌else◌,
  ◌-◌, ◌^◌,
}
use mumq.Base.Words.{Bytes}
use mumq.Mqtt.Message.{Message}
use mumq.EventIo.{Received, bytes, would_block, Reading, below, loop_read}
use mumq.EventIo.Framing.{IsAnswer, IsResumed}
use mumq.Broker.{Packet, Client, cs_connected, no_reading}
use mumq.EventIo.Send.{Sent, accepted, nothing, failed, sent, ends, send_loop, send_client}
use mumq.EventIo.Send.Delivered.{Delivers, all_bytes, send_client-delivers}
use mumq.EventIo.Send.Failed.{send_loop-failed}
use mumq.EventIo.Resumed.{Keeps, loop_read-Keeps}

-- A connection that gives one byte a call, and has no more after the last.
abbrev recv : ℕ → Bytes → Received × Bytes
recv zero s = (would_block, s)
recv (suc n) [] = (would_block, [])
recv (suc n) (b ∷ s) = (bytes (b % 256) [], s)

recv-IsAnswer : (n : ℕ) (s : Bytes) → IsAnswer n (recv n s).0
recv-IsAnswer zero s = tt
recv-IsAnswer (suc n) [] = tt
recv-IsAnswer (suc n) (b ∷ s) = (omega arith, omega arith)

abbrev accept : Message → Bytes → ℕ × Bytes
accept p s = (0, s)

abbrev packet : Bytes
packet = 48 ∷ 5 ∷ 0 ∷ 1 ∷ b'a' ∷ b'h' ∷ b'i' ∷ []

abbrev fresh : Reading
fresh = record {
  in_packet = none;
  remaining_count = below 0;
  remaining_mult = 0;
  block = none;
  payload = [];
  in_to_process = 0;
}

fresh-IsResumed : IsResumed fresh
fresh-IsResumed = inl (refl, refl, refl, refl, refl)

loop_read-Keeps_example : Keeps (loop_read recv accept false false true [] fresh packet)
loop_read-Keeps_example =
    loop_read-Keeps recv accept recv-IsAnswer false false true [] fresh packet fresh-IsResumed

-- A connection that takes two bytes a call, and holds what it took.
abbrev send : Bytes → Bytes → Sent × Bytes
send [] s = (nothing true, s)
send (b ∷ []) s = (accepted 0, s ++ b ∷ [])
send (b ∷ c ∷ bs) s = (accepted 1, s ++ b ∷ c ∷ [])

send-Delivers : Delivers send (λ s. s)
send-Delivers [] s h = absurd (omega arith)
send-Delivers (b ∷ []) s h = (0, s ++ b ∷ [], refl, omega arith, refl)
send-Delivers (b ∷ c ∷ bs) s h = (1, s ++ b ∷ c ∷ [], refl, omega arith, refl)

abbrev pingresp : Packet
pingresp = record { send_buf = 0xd0 ∷ 0 ∷ []; wcur = 0; wlen = 2 }

abbrev connack : Packet
connack = record { send_buf = 0x20 ∷ 2 ∷ 0 ∷ 0 ∷ []; wcur = 0; wlen = 4 }

abbrev client : Client
client = record {
  sock = 7;
  epoll_id = 0;
  id = b'x' ∷ [];
  last_mid = 0;
  state = cs_connected;
  reading = no_reading;
  snd_num = 0;
  sending = connack ∷ pingresp ∷ [];
  sending_cur = none;
  num_sending_pack = 2;
  is_subscribe = false;
  subs = [];
}

send_client-delivers_example :
    (d : Client) × (t : Bytes) × (send_client send 4 client [] ≡ ends d t)
    × (t ≡ [] ++ all_bytes client.sending)
    × (d.sending ≡ [])
    × (d.sending_cur ≡ none)
    × (d.num_sending_pack ≡ 0)
send_client-delivers_example =
    send_client-delivers send (λ s. s) send-Delivers 4 client [] refl refl
      ((refl, refl, omega arith, omega arith), ((refl, refl, omega arith, omega arith), tt))

-- A connection that was reset.
abbrev send_reset : Bytes → Bytes → Sent × Bytes
send_reset bs s = (failed false, s)

send_loop-failed_example : send_loop send_reset 4 connack [] ≡ (
    if connack.wcur == 0
    then sent (record connack { wcur = 2 ^ 32 - 1 }) []
    else send_loop send_reset 3 (record connack { wcur = connack.wcur - 1 }) [])
send_loop-failed_example =
    send_loop-failed send_reset 3 connack [] [] false (omega arith) (omega arith) refl
