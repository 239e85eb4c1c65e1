-- ===== src/Server/Tests.antt =====
-- Two clients connect, 7 subscribes to `a`, and 8 publishes to it.
use mumq.Base.{
  ℕ, zero, suc, ◌%◌, true, false, Option, none, some, List, [], ◌∷◌, ◌++◌, ◌==◌, if◌then◌else◌,
  length, arith,
}
use mumq.Base.Words.{Bytes}
use mumq.EventIo.{Received, bytes, would_block}
use mumq.EventIo.Framing.{IsAnswer}
use mumq.EventIo.Send.{Sent, accepted, nothing}
use mumq.Server.{System, Table, Event, Server, running, on_events, loop_run, empty_broker}
use mumq.Server.Kept.{IsSound, empty_broker-AreKept, on_events-IsSound, loop_run-IsSound}

-- What is still to come on each socket, the sockets still to accept, and what was sent on each.
record Net : Type 0 where
  coming : ℕ → Bytes
  waiting : List ℕ
  gone : ℕ → Bytes

abbrev written : (ℕ → Bytes) → ℕ → Bytes → ℕ → Bytes
written f i bs j = if j == i then bs else f j

-- One byte a call.
abbrev recv_from : ℕ → ℕ → Bytes → Net → Received × Net
recv_from fd zero bs s = (would_block, s)
recv_from fd (suc n) [] s = (would_block, s)
recv_from fd (suc n) (b ∷ bs) s = (bytes (b % 256) [], record s { coming = written s.coming fd bs })

abbrev send_on : ℕ → Bytes → Net → Sent × Net
send_on fd [] s = (nothing true, s)
send_on fd (b ∷ bs) s =
    (accepted (length bs), record s { gone = written s.gone fd (s.gone fd ++ b ∷ bs) })

abbrev next_of : List ℕ → Net → Option ℕ × Net
next_of [] s = (none, s)
next_of (sock ∷ socks) s = (some sock, record s { waiting = socks })

abbrev system : System Net
system = record {
  recv = λ fd n s. recv_from fd n (s.coming fd) s;
  send = send_on;
  accept = λ l_sock s. next_of s.waiting s;
  add_sock = λ fd s. s;
  disconnect_sock = λ fd s. s;
  close = λ fd s. s;
}

abbrev without : ℕ → List ℕ → List ℕ
without i [] = []
without i (j ∷ js) = let rest = without i js in if j == i then rest else j ∷ rest

abbrev table : Table (List ℕ)
table = record { add = λ i t. i ∷ t; del = without; count = length; walk = λ t. t }

recv_from-IsAnswer : (fd n : ℕ) (bs : Bytes) (s : Net) → IsAnswer n (recv_from fd n bs s).0
recv_from-IsAnswer fd zero bs s = tt
recv_from-IsAnswer fd (suc n) [] s = tt
recv_from-IsAnswer fd (suc n) (b ∷ bs) s = (omega arith, omega arith)

answers : (fd n : ℕ) (s : Net) → IsAnswer n (system.recv fd n s).0
answers fd n s = recv_from-IsAnswer fd n (s.coming fd) s

abbrev connect : ℕ → Bytes
connect name = 16 ∷ 13 ∷ 0 ∷ 4 ∷ b'M' ∷ b'Q' ∷ b'T' ∷ b'T' ∷ 4 ∷ 2 ∷ 0 ∷ 60 ∷ 0 ∷ 1 ∷ name ∷ []

abbrev subscribe : Bytes
subscribe = 130 ∷ 6 ∷ 0 ∷ 1 ∷ 0 ∷ 1 ∷ b'a' ∷ 0 ∷ []

abbrev publish : Bytes
publish = 48 ∷ 5 ∷ 0 ∷ 1 ∷ b'a' ∷ b'h' ∷ b'i' ∷ []

abbrev net : Net
net = record {
  coming = λ fd.
      if fd == 7
      then connect b's' ++ subscribe
      else if fd == 8
      then connect b'p' ++ publish
      else [];
  waiting = 7 ∷ 8 ∷ [];
  gone = λ fd. [];
}

abbrev event_on : ℕ → Event
event_on fd = record {
  fd = fd;
  hung = false;
  broken = false;
  readable = true;
  for_payload = [];
  for_tree = [];
}

-- The listening socket is 3.
abbrev rounds : List (List Event)
rounds =
    (event_on 3 ∷ event_on 3 ∷ [])
    ∷ (event_on 7 ∷ event_on 8 ∷ [])
    ∷ (event_on 7 ∷ event_on 8 ∷ [])
    ∷ []

abbrev start : Server Net (List ℕ)
start = running net [] empty_broker

loop_run-IsSound_example : IsSound Unit (loop_run system table 64 0 3 rounds start)
loop_run-IsSound_example =
    loop_run-IsSound system table answers 64 0 3 rounds start empty_broker-AreKept

on_events-IsSound_example :
    IsSound ⊥ (on_events system table 0 3 (event_on 3 ∷ event_on 7 ∷ []) start)
on_events-IsSound_example =
    on_events-IsSound system table ⊥ answers 0 3 (event_on 3 ∷ event_on 7 ∷ []) start
      empty_broker-AreKept
