-- ===== src/Broker/Tests.antt =====
-- A queue of one packet at the address 5, and a second packet at 9.
use mumq.Base.{refl, none, some, [], ◌∷◌, ◌++◌, arith}
use mumq.Broker.{Packet}
use mumq.Broker.Queue.{Queue, put, IsQueue}
use mumq.Broker.Queue.Linked.{Gets, put-IsQueue}

abbrev pingresp : Packet
pingresp = record { send_buf = 0xd0 ∷ 0 ∷ []; wcur = 0; wlen = 2 }

abbrev connack : Packet
connack = record { send_buf = 0x20 ∷ 2 ∷ 0 ∷ 0 ∷ []; wcur = 0; wlen = 4 }

abbrev one : Queue
one = record {
  heap = λ a. record { packet = connack; next = none };
  sending_packet = some 5;
  sending_packet_tail = some 5;
}

put-IsQueue_example :
    IsQueue (put 9 pingresp one) ((5 ∷ []) ++ 9 ∷ []) ((connack ∷ []) ++ pingresp ∷ [])
    × Gets one (connack ∷ [])
put-IsQueue_example =
    put-IsQueue one (5 ∷ []) (connack ∷ []) 9 pingresp ((refl, refl, tt), refl, (tt, tt))
      ((λ e. absurd (omega arith)), tt)
