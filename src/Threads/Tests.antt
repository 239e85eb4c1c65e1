-- ===== src/Threads/Tests.antt =====
-- A publisher links a second packet while the sender is at the first, of which two bytes are sent.
use mumq.Base.{◌⊎◌, true, ℕ, suc, ◌≤◌, ◌≡◌, refl, none, some, [], ◌∷◌, ◌++◌, map, length, arith}
use mumq.Broker.{clean_context, Packet, Client, cs_connected, no_reading}
use mumq.Base.Strings.{Str}
use mumq.Threads.{
  greeted, resting, linking, wait, counting, nobody, at_packet, looping, System, lock, link, count,
  begin, take_one, send_part, Reach, start, next,
}
use mumq.Threads.Kept.{Reach-IsReadable}
use mumq.Threads.Waiting.{Reach-waits}
use mumq.Threads.Order.{hand, bytes_of_outcome, Reach-IsInOrder}

abbrev first : Packet
first = record { wlen = 3; wcur = 0; send_buf = 48 ∷ 1 ∷ 97 ∷ [] }

abbrev second : Packet
second = record { wlen = 2; wcur = 0; send_buf = 208 ∷ 0 ∷ [] }

abbrev idle : Client
idle = record {
  sock = 7;
  epoll_id = 0;
  id = [];
  last_mid = 0;
  state = cs_connected;
  reading = no_reading;
  snd_num = 0;
  sending = [];
  sending_cur = none;
  num_sending_pack = 0;
  is_subscribe = true;
  subs = [];
}

-- With a counter that was loaded and not stored yet.
abbrev midway : System
midway = record {
  client = record idle { sending = second ∷ []; sending_cur = some (record first { wcur = 2 }) };
  holder = counting 0;
  sender = at_packet 0;
  history = (48 ∷ 1 ∷ 97 ∷ []) ∷ (208 ∷ 0 ∷ []) ∷ [];
  outcomes = [];
}

midway-reached : Reach idle midway
midway-reached =
    next
      (next
        (next
          (next
            (next
              (next (next (next (start refl refl refl) (lock first refl)) (link refl)) (count refl))
              (begin refl refl (omega arith)))
            (take_one refl refl))
          (send_part 2 refl refl (omega arith)))
        (lock second refl))
      (link refl)

Reach-IsReadable_example :
    ((n : ℕ) → midway.sender ≡ at_packet n → (p : Packet) × (midway.client.sending_cur ≡ some p))
    × ((n : ℕ)
        → midway.sender ≡ looping (suc n)
        → midway.holder ≡ nobody
        → 1 ≤ midway.client.num_sending_pack)
    × (midway.client.num_sending_pack ≤ length midway.client.sending)
Reach-IsReadable_example = Reach-IsReadable midway-reached

Reach-IsInOrder_example :
    midway.history
    ≡ map bytes_of_outcome midway.outcomes
      ++ (hand midway.client.sending_cur ++ map (λ p. p.send_buf) midway.client.sending)
Reach-IsInOrder_example = Reach-IsInOrder midway-reached

-- The rest of the only packet waits.
abbrev waiting : System
waiting = record {
  client = record idle { sending_cur = some (record first { wcur = 2 }) };
  holder = nobody;
  sender = resting;
  history = (48 ∷ 1 ∷ 97 ∷ []) ∷ [];
  outcomes = [];
}

waiting-reached : Reach idle waiting
waiting-reached =
    next
      (next
        (next
          (next
            (next (next (next (start refl refl refl) (lock first refl)) (link refl)) (count refl))
            (begin refl refl (omega arith)))
          (take_one refl refl))
        (send_part 2 refl refl (omega arith)))
      (wait refl)

Reach-waits_example :
    ((q : Packet) × (record waiting { holder = linking second }
        ≡ record waiting { holder = linking q }))
    ⊎ ((waiting.client ≡ clean_context waiting.client)
        ⊎ ((id : Str) × (record waiting { holder = linking second }
              ≡ record waiting { client = greeted id waiting.client })))
Reach-waits_example =
    Reach-waits (record first { wcur = 2 }) waiting-reached refl refl refl refl (lock second refl)
