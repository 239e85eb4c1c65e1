-- ===== src/Server/Kept.antt =====
-- What every turn of a thread keeps of the clients (broker/event_io.c, 195-355).
use mumq.Base.{
  ℕ, ◌≡◌, sym, ap, subst, inl, inr, Bool, true, false, Bool-cases, if_true, if_false, ◌∙◌, Option,
  none, some, List, [], ◌∷◌, ◌==◌, ltb, if◌then◌else◌, arith,
}
use mumq.Base.Memory.{Memory, alloc}
use mumq.Mqtt.Message.{Message}
use mumq.Broker.{Client, Broker, with_client, clean_context, remove_client}
use mumq.EventIo.{
  positive, nought, minus_1, minus_2, minus_3, Reading, Stage, go_on, returns, crashes, out_of_fuel,
}
use mumq.EventIo.Framing.{IsAnswer, IsResumed}
use mumq.EventIo.Resumed.{Keeps, loop_read-Keeps}
use mumq.EventIo.Threaded.{Holds, loop_read-Holds}
use mumq.EventIo.Send.{Sending, ends, drops, send_client}
use mumq.EventIo.Send
use mumq.EventIo.Send.Counted.{KeepsCount, send_client-KeepsCount}
use mumq.EventIo.Send.Readable.{Resumes, no_reading-IsResumed, send_client-Resumes}
use mumq.HandMqtt.{Handled, done, handle_mqtt_command}
use mumq.HandMqtt
use mumq.HandMqtt.Kept.{
  IsKept, AreKept, LeavesKept, with_client-AreKept, handle_mqtt_command-LeavesKept,
}
use mumq.Server.{
  System, Table, Event, Server, running, deadlocked, crashed, no_packet, unended, max_fd_per_loop,
  received, recv_at, handled, handle_at, put, remove, after_read, read_event, new_client, accepted,
  on_event, on_events, after_sending, send_to, send_all, clients_of, loop_run, empty_broker, ready,
  refused, crashes_at_start, Started, started, init_database,
}

-- In a thread that goes on every client is kept; no packet is read through NULL; and `U` holds when the
-- rounds of a loop were not enough.
abbrev pub IsSound {ℓ κ} : {S : Type ℓ} {T : Type κ} → Type 0 → Server S T → Type 0
IsSound U (running s t b) = AreKept b
IsSound U deadlocked = Unit
IsSound U crashed = Unit
IsSound U no_packet = ⊥
IsSound U unended = U

pub empty_broker-AreKept : AreKept empty_broker
empty_broker-AreKept i = (no_reading-IsResumed, omega arith)

-- Whenever `init_database` returns 0, the clients are kept.
pub init_database-AreKept :
    (locks : Bool) (m : Memory) (b : Broker) → init_database locks m ≡ ready b → AreKept b
unfolding init_database
init_database-AreKept locks m b e =
    by_answers (alloc m).0 (alloc (alloc m).1).0 locks (alloc (alloc (alloc m).1).1).0
      (alloc (alloc (alloc (alloc m).1).1).1).0 e
  where
    broker_of : Started → Broker
    broker_of (ready b) = b
    broker_of refused = empty_broker
    broker_of crashes_at_start = empty_broker

    by_answers :
        (x y z u v : Bool)
        → started x
            (started y
              (started z (started u (started v (ready empty_broker) refused) refused) refused)
              crashes_at_start)
            refused
          ≡ ready b
        → AreKept b
    by_answers true true true true true e = subst AreKept (ap broker_of e) empty_broker-AreKept
    by_answers _ _ _ _ _ e = subst AreKept (ap broker_of e) empty_broker-AreKept

clean_context-IsKept : (c : Client) → IsKept (clean_context c)
clean_context-IsKept c = (no_reading-IsResumed, omega arith)

-- The client that is removed need not have been kept.
remove_client-AreKept :
    (b : Broker) (fd : ℕ) (c : Client) → AreKept b → AreKept (remove_client fd (with_client b fd c))
remove_client-AreKept b fd c h j = elim (Bool-cases (j == fd)) [
  | inl e ↦
      subst IsKept (sym (if_true _ _ e)) (clean_context-IsKept ((with_client b fd c).clients fd))
  | inr e ↦ subst IsKept (sym (if_false _ _ e ∙ if_false c (b.clients j) e)) (h j)
]

module _ {ℓ κ} {S : Type ℓ} {T : Type κ} (system : System S) (table : Table T) (U : Type 0) where
  if-IsSound :
      (b : Bool) (x y : Server S T) → IsSound U x → IsSound U y → IsSound U (if b then x else y)
  if-IsSound true x y p q = p
  if-IsSound false x y p q = q

  recv_at-IsSound :
      (fd n : ℕ) (x : Server S T) → IsSound U x → IsSound U (recv_at system table fd n x).1
  unfolding recv_at received
  recv_at-IsSound fd n (running s t b) h = h
  recv_at-IsSound fd n deadlocked h = h
  recv_at-IsSound fd n crashed h = h
  recv_at-IsSound fd n no_packet h = h
  recv_at-IsSound fd n unended h = h

  handled-IsSound :
      (s : S) (t : T) (r : Handled) → LeavesKept r → IsSound U (handled system table s t r).1
  unfolding handled
  handled-IsSound s t (done rc b m) h = h
  handled-IsSound s t HandMqtt.hangs h = tt
  handled-IsSound s t HandMqtt.crashes h = tt

  handle_at-IsSound :
      (fd : ℕ) (m : Memory) (p : Message) (x : Server S T)
      → IsSound U x
      → IsSound U (handle_at system table fd m p x).1
  unfolding handle_at
  handle_at-IsSound fd m p (running s t b) h =
      handled-IsSound s t (handle_mqtt_command fd p b m) (handle_mqtt_command-LeavesKept fd p b m h)
  handle_at-IsSound fd m p deadlocked h = h
  handle_at-IsSound fd m p crashed h = h
  handle_at-IsSound fd m p no_packet h = h
  handle_at-IsSound fd m p unended h = h

  put-IsSound :
      (fd : ℕ) (r : Reading) (x : Server S T)
      → IsResumed r
      → IsSound U x
      → IsSound U (put system table fd r x)
  unfolding put
  put-IsSound fd r (running s t b) k h = with_client-AreKept b fd _ h (k, (h fd).1)
  put-IsSound fd r deadlocked k h = h
  put-IsSound fd r crashed k h = h
  put-IsSound fd r no_packet k h = h
  put-IsSound fd r unended k h = h

  remove-IsSound :
      (fd : ℕ) (r : Reading) (x : Server S T)
      → IsSound U x
      → IsSound U (remove system table fd (put system table fd r x))
  unfolding put remove
  remove-IsSound fd r (running s t b) h = remove_client-AreKept b fd _ h
  remove-IsSound fd r deadlocked h = h
  remove-IsSound fd r crashed h = h
  remove-IsSound fd r no_packet h = h
  remove-IsSound fd r unended h = h

  after_read-IsSound :
      (fd : ℕ) (x : Stage (Server S T))
      → Keeps x
      → Holds (IsSound U) x
      → IsSound U (after_read system table fd x)
  unfolding after_read
  after_read-IsSound fd (returns positive r x) k h = put-IsSound fd r x k h
  after_read-IsSound fd (returns nought r x) k h = remove-IsSound fd r x h
  after_read-IsSound fd (returns minus_1 r x) k h = remove-IsSound fd r x h
  after_read-IsSound fd (returns minus_2 r x) k h = remove-IsSound fd r x h
  after_read-IsSound fd (returns minus_3 r x) k h = remove-IsSound fd r x h
  after_read-IsSound fd (go_on r x) k h = absurd k
  after_read-IsSound fd crashes k h = tt
  after_read-IsSound fd out_of_fuel k h = absurd k

  new_client-IsSound :
      (th l_sock sock : ℕ) (s : S) (t : T) (b : Broker)
      → AreKept b
      → IsSound U (new_client system table th l_sock sock s t b)
  unfolding new_client remove
  new_client-IsSound th l_sock sock s t b h =
      let b' = with_client b sock (record (b.clients sock) { sock = sock; epoll_id = th }) in
      let h' = with_client-AreKept b sock _ h (h sock) in
      if-IsSound (ltb (table.count t) max_fd_per_loop) _ _ h'
        (with_client-AreKept b' l_sock _ h' (clean_context-IsKept (b'.clients l_sock)))

  accepted-IsSound :
      (th l_sock : ℕ) (t : T) (b : Broker) (a : Option ℕ × S)
      → AreKept b
      → IsSound U (accepted system table th l_sock t b a)
  unfolding accepted
  accepted-IsSound th l_sock t b (none, s) h = h
  accepted-IsSound th l_sock t b (some sock, s) h = new_client-IsSound th l_sock sock s t b h

  module _ (answers : (fd n : ℕ) (s : S) → IsAnswer n (system.recv fd n s).0) where
    recv_at-IsAnswer : (fd n : ℕ) (x : Server S T) → IsAnswer n (recv_at system table fd n x).0
    unfolding recv_at received
    recv_at-IsAnswer fd n (running s t b) = answers fd n s
    recv_at-IsAnswer fd n deadlocked = tt
    recv_at-IsAnswer fd n crashed = tt
    recv_at-IsAnswer fd n no_packet = tt
    recv_at-IsAnswer fd n unended = tt

    read_event-IsSound :
        (e : Event) (s : S) (t : T) (b : Broker)
        → AreKept b
        → IsSound U (read_event system table e s t b)
    unfolding read_event
    read_event-IsSound e s t b h =
        let recv = recv_at system table e.fd in
        let handle = handle_at system table e.fd e.for_tree in
        after_read-IsSound e.fd _
          (loop_read-Keeps recv handle (recv_at-IsAnswer e.fd) e.hung e.broken e.readable
            e.for_payload (b.clients e.fd).reading (running s t b) (h e.fd).0)
          (loop_read-Holds (IsSound U) recv (recv_at-IsSound e.fd) handle
            (handle_at-IsSound e.fd e.for_tree) e.hung e.broken e.readable e.for_payload
            (b.clients e.fd).reading (running s t b) h)

    on_event-IsSound :
        (th l_sock : ℕ) (e : Event) (x : Server S T)
        → IsSound U x
        → IsSound U (on_event system table th l_sock e x)
    unfolding on_event
    on_event-IsSound th l_sock e (running s t b) h =
        if-IsSound (e.fd == l_sock) _ _ (accepted-IsSound th l_sock t b _ h)
          (read_event-IsSound e s t b h)
    on_event-IsSound th l_sock e deadlocked h = h
    on_event-IsSound th l_sock e crashed h = h
    on_event-IsSound th l_sock e no_packet h = h
    on_event-IsSound th l_sock e unended h = h

    -- Whatever the events of a turn are, whatever bytes come and whatever `malloc` answers: when `recv`
    -- answers at most as many bytes as it was asked for, the turn handles them all in the rounds that the
    -- loops have, and keeps of all clients what the next call of `loop_read` and the sending need. It may
    -- only stop at a lock, or at a read past a payload or through NULL while a packet is handled.
    pub on_events-IsSound :
        (th l_sock : ℕ) (es : List Event) (x : Server S T)
        → IsSound U x
        → IsSound U (on_events system table th l_sock es x)
    unfolding on_events
    on_events-IsSound th l_sock [] x h = h
    on_events-IsSound th l_sock (e ∷ es) x h =
        on_events-IsSound th l_sock es _ (on_event-IsSound th l_sock e x h)

  module _ (late : U) where
    after_sending-IsSound :
        (i : ℕ) (t : T) (b : Broker) (x : Sending S)
        → AreKept b
        → KeepsCount x
        → Resumes x
        → IsSound U (after_sending system table i t b x)
    unfolding after_sending
    after_sending-IsSound i t b (ends c s) h k r = with_client-AreKept b i c h (r, k)
    after_sending-IsSound i t b (drops c s) h k r = with_client-AreKept b i c h (r, k)
    after_sending-IsSound i t b Send.crashes h k r = k
    after_sending-IsSound i t b Send.out_of_fuel h k r = late

    send_to-IsSound :
        (fuel i : ℕ) (x : Server S T) → IsSound U x → IsSound U (send_to system table fuel i x)
    unfolding send_to
    send_to-IsSound fuel i (running s t b) h =
        let c = b.clients i in
        if-IsSound (ltb 0 c.num_sending_pack) _ _
          (after_sending-IsSound i t b _ h
            (send_client-KeepsCount (system.send c.sock) fuel c s (h i).1)
            (send_client-Resumes (system.send c.sock) fuel c s (h i).0))
          h
    send_to-IsSound fuel i deadlocked h = h
    send_to-IsSound fuel i crashed h = h
    send_to-IsSound fuel i no_packet h = h
    send_to-IsSound fuel i unended h = h

    send_all-IsSound :
        (fuel : ℕ) (is : List ℕ) (x : Server S T)
        → IsSound U x
        → IsSound U (send_all system table fuel is x)
    unfolding send_all
    send_all-IsSound fuel [] x h = h
    send_all-IsSound fuel (i ∷ is) x h = send_all-IsSound fuel is _ (send_to-IsSound fuel i x h)

module _ {ℓ κ} {S : Type ℓ} {T : Type κ} (system : System S) (table : Table T)
    (answers : (fd n : ℕ) (s : S) → IsAnswer n (system.recv fd n s).0) where
  -- From clients that are kept, whatever happens in any number of turns: when `recv` answers at most as
  -- many bytes as it was asked for, the thread never reads a packet through NULL, and as long as it goes on
  -- all clients are kept. It may stop at a lock, at a read past a payload or through NULL while a packet is
  -- handled, or in the loop on a packet that `send` does not take.
  pub loop_run-IsSound :
      (fuel th l_sock : ℕ) (rounds : List (List Event)) (x : Server S T)
      → IsSound Unit x
      → IsSound Unit (loop_run system table fuel th l_sock rounds x)
  unfolding loop_run
  loop_run-IsSound fuel th l_sock [] x h = h
  loop_run-IsSound fuel th l_sock (es ∷ rest) x h =
      let x' = on_events system table th l_sock es x in
      loop_run-IsSound fuel th l_sock rest _ (
        send_all-IsSound system table Unit tt fuel (clients_of system table x') x'
          (on_events-IsSound system table Unit answers th l_sock es x h))
