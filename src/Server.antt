-- ===== src/Server.antt =====
-- One thread of the broker: `loop_run` and `accept_connection` of broker/event_io.c, with `loop_read` and
-- `handle_mqtt_command` in their places, and `init_database` of broker/broker.c. In the build without mTCP.
-- The sockets of the system and the table of uthash.h are interfaces; events come as a list for each turn.

pub mod Kept
mod Tests
use mumq.Base.{
  ℕ, ◌+◌, ◌*◌, Bool, true, false, Option, none, some, List, [], ◌∷◌, ◌==◌, ltb, if◌then◌else◌,
}
use mumq.Base.Memory.{Memory, alloc}
use mumq.Base.Words.{Bytes}
use mumq.Mqtt.Message.{Message}
use mumq.Substree.Tree.{initial, released}
use mumq.Broker.{cs_new, Client, Clients, Broker, with_client, no_reading, remove_client}
use mumq.EventIo.{
  Received, closed, Return, positive, nought, minus_1, minus_2, minus_3, Reading, Stage, go_on,
  returns, crashes, out_of_fuel, loop_read,
}
use mumq.EventIo.Send.{Sent, Sending, ends, drops, send_client}
use mumq.EventIo.Send
use mumq.HandMqtt.{Handled, done, handle_mqtt_command}
use mumq.HandMqtt

-- The calls of the system, on its state `S`; a socket is its number. `accept` answers -1 by `none`.
pub record System {ℓ} (S : Type ℓ) : Type ℓ where
  pub recv : ℕ → ℕ → S → Received × S
  pub send : ℕ → Bytes → S → Sent × S
  pub accept : ℕ → S → Option ℕ × S
  pub add_sock : ℕ → S → S
  pub disconnect_sock : ℕ → S → S
  pub close : ℕ → S → S

-- The hash table `contexts_by_ptr` of clients, by their numbers: `HASH_ADD_PTR`, `HASH_DEL`,
-- `HASH_COUNT` and the walk along `hh.next`.
pub record Table {ℓ} (T : Type ℓ) : Type ℓ where
  pub add : ℕ → T → T
  pub del : ℕ → T → T
  pub count : T → ℕ
  pub walk : T → List ℕ

-- An event of `epoll_wait`, with what `malloc` answers while it is handled: to the payload and to the
-- tree.
pub record Event : Type 0 where
  pub fd : ℕ
  pub hung : Bool
  pub broken : Bool
  pub readable : Bool
  pub for_payload : Memory
  pub for_tree : Memory

-- A thread that goes on; one that waits for a lock for ever; a read past a payload or through NULL while a
-- packet is handled; a packet read through NULL while packets are sent; and a loop on one packet that did
-- not end in the rounds it had.
pub data Server {ℓ κ} (S : Type ℓ) (T : Type κ) : Type (ℓ ⊔ κ) where
  running : S → T → Broker → Server S T
  deadlocked crashed no_packet unended : Server S T

abbrev pub max_fd_per_loop : ℕ
max_fd_per_loop = 32200

abbrev pub loop_count : ℕ
loop_count = 16

module _ {ℓ κ} {S : Type ℓ} {T : Type κ} (system : System S) (table : Table T) where
  -- `recv` and `handle_mqtt_command` on the state of the thread.
  received : S → T → Broker → Received × S → Received × Server S T
  received s t b (a, s') = (a, running s' t b)

  recv_at : ℕ → ℕ → Server S T → Received × Server S T
  unfolding received
  recv_at fd n (running s t b) = received s t b (system.recv fd n s)
  recv_at fd n x = (closed, x)

  handled : S → T → Handled → ℕ × Server S T
  handled s t (done rc b m) = (rc, running s t b)
  handled s t HandMqtt.hangs = (0, deadlocked)
  handled s t HandMqtt.crashes = (0, crashed)

  handle_at : ℕ → Memory → Message → Server S T → ℕ × Server S T
  unfolding handled
  handle_at fd m p (running s t b) = handled s t (handle_mqtt_command fd p b m)
  handle_at fd m p x = (0, x)

  -- The fields that `loop_read` leaves in the client.
  put : ℕ → Reading → Server S T → Server S T
  put fd r (running s t b) = running s t (with_client b fd (record (b.clients fd) { reading = r }))
  put fd r x = x

  -- `remove_client` with the hash table and the socket.
  remove : ℕ → Server S T → Server S T
  remove fd (running s t b) =
      running (system.disconnect_sock fd s) (table.del fd t) (remove_client fd b)
  remove fd x = x

  -- 262-264: a client is removed unless the result is positive.
  after_read : ℕ → Stage (Server S T) → Server S T
  unfolding put remove
  after_read fd (returns positive r x) = put fd r x
  after_read fd (returns nought r x) = remove fd (put fd r x)
  after_read fd (returns minus_1 r x) = remove fd (put fd r x)
  after_read fd (returns minus_2 r x) = remove fd (put fd r x)
  after_read fd (returns minus_3 r x) = remove fd (put fd r x)
  after_read fd (go_on r x) = unended
  after_read fd crashes = crashed
  after_read fd out_of_fuel = unended

  read_event : Event → S → T → Broker → Server S T
  unfolding recv_at handle_at after_read
  read_event e s t b = after_read e.fd (
      loop_read (recv_at e.fd) (handle_at e.fd e.for_tree) e.hung e.broken e.readable e.for_payload
        (b.clients e.fd).reading (running s t b))

  -- `sock` is put into its client, and then the table is counted; `l_sock` is removed when it is full.
  new_client : ℕ → ℕ → ℕ → S → T → Broker → Server S T
  unfolding remove
  new_client th l_sock sock s t b =
      let b' = with_client b sock (record (b.clients sock) { sock = sock; epoll_id = th }) in
      if ltb (table.count t) max_fd_per_loop
      then running (system.add_sock sock s) (table.add sock t) b'
      else remove l_sock (running s t b')

  -- `accept_connection`; 0 is no socket for it.
  accept_connection : Option ℕ × S → Option ℕ × S
  accept_connection (none, s) = (none, s)
  accept_connection (some sock, s) =
      if sock == 0
      then (none, s)
      else if ltb sock (max_fd_per_loop * loop_count)
      then (some sock, s)
      else (none, system.close sock s)

  accepted : ℕ → ℕ → T → Broker → Option ℕ × S → Server S T
  unfolding new_client
  accepted th l_sock t b (none, s) = running s t b
  accepted th l_sock t b (some sock, s) = new_client th l_sock sock s t b

  on_event : ℕ → ℕ → Event → Server S T → Server S T
  unfolding read_event accept_connection accepted
  on_event th l_sock e (running s t b) =
      if e.fd == l_sock
      then accepted th l_sock t b (accept_connection (system.accept l_sock s))
      else read_event e s t b
  on_event th l_sock e x = x

  pub on_events : ℕ → ℕ → List Event → Server S T → Server S T
  unfolding on_event
  on_events th l_sock [] x = x
  on_events th l_sock (e ∷ es) x = on_events th l_sock es (on_event th l_sock e x)

  -- A client that is dropped stands at the number of its socket.
  after_sending : ℕ → T → Broker → Sending S → Server S T
  after_sending i t b (ends c s) = running s t (with_client b i c)
  after_sending i t b (drops c s) =
      let sock = (b.clients i).sock in
      running (system.disconnect_sock sock s) (table.del sock t) (with_client b i c)
  after_sending i t b Send.crashes = no_packet
  after_sending i t b Send.out_of_fuel = unended

  -- The walk over the clients of the thread, 281-354.
  send_to : ℕ → ℕ → Server S T → Server S T
  unfolding after_sending
  send_to fuel i (running s t b) =
      let c = b.clients i in
      if ltb 0 c.num_sending_pack
      then after_sending i t b (send_client (system.send c.sock) fuel c s)
      else running s t b
  send_to fuel i x = x

  send_all : ℕ → List ℕ → Server S T → Server S T
  unfolding send_to
  send_all fuel [] x = x
  send_all fuel (i ∷ is) x = send_all fuel is (send_to fuel i x)

  clients_of : Server S T → List ℕ
  clients_of (running s t b) = table.walk t
  clients_of x = []

  -- A turn of `while (1)` for each list of events.
  pub loop_run : ℕ → ℕ → ℕ → List (List Event) → Server S T → Server S T
  unfolding on_events send_all clients_of
  loop_run fuel th l_sock [] x = x
  loop_run fuel th l_sock (es ∷ rest) x =
      let x' = on_events th l_sock es x in
      loop_run fuel th l_sock rest (send_all fuel (clients_of x') x')

-- What `memset` leaves of a client.
abbrev pub no_client : Client
no_client = record {
  sock = 0;
  epoll_id = 0;
  id = [];
  last_mid = 0;
  state = cs_new;
  reading = no_reading;
  snd_num = 0;
  sending = [];
  sending_cur = none;
  num_sending_pack = 0;
  is_subscribe = false;
  subs = [];
}

abbrev pub empty_broker : Broker
empty_broker = record { clients = λ i. no_client; roots = initial; locked = released }

-- What `init_database` returns: 0 with the broker, or -1; or the table of clients is cleared through NULL.
pub data Started : Type 0 where
  ready : Broker → Started
  refused crashes_at_start : Started

unfoldable pub started : Bool → Started → Started → Started
started true x y = x
started false x y = y

-- `malloc` is called for the broker, the clients and the first node, and `strdup` for its topic; `locks`
-- is whether every `pthread_rwlock_init` returned 0.
unfoldable pub init_database : Bool → Memory → Started
unfolding started
init_database locks m =
    let (broker, m1) = alloc m in
    let (clients, m2) = alloc m1 in
    let (child, m3) = alloc m2 in
    let (topic, m4) = alloc m3 in
    started broker
      (started clients
        (started locks (started child (started topic (ready empty_broker) refused) refused) refused)
        crashes_at_start)
      refused
