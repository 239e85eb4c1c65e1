-- ===== src/Broker.antt =====
-- The state that the threads share: `struct packet` and `struct broker` of broker/broker.h, `struct client`
-- of broker/client.h, and the operations of broker/broker.c on the table of clients. In the build
-- without mTCP `base_sock` is 0, so a client stands in the table at the number of its socket.
pub mod Queue
mod Tests
use mumq.Base.{ℕ, Bool, true, false, Option, none, some, List, [], ◌==◌, if◌then◌else◌, take}
use mumq.Base.Strings.{Str, until_nul}
use mumq.Base.Words.{Bytes}
use mumq.Mqtt.Message.{Buffer}
use mumq.EventIo.{Reading, below}
use mumq.Substree.Tree.{Hier, Address, RootLock}

pub record Packet : Type 0 where
  pub send_buf : Bytes
  pub wcur : ℕ
  pub wlen : ℕ

pub data ClientState : Type 0 where
  cs_new cs_connected cs_disconnecting cs_connect_async cs_connect_pending : ClientState
  cs_connect_srv cs_disconnect_ws cs_disconnected cs_expiring : ClientState

-- The fields that the broker uses. `id` is the text in the array; `sending` the packets from
-- `sending_packet` on, of which `sending_packet_tail` is the last one (Queue).
pub record Client : Type 0 where
  pub sock : ℕ
  pub epoll_id : ℕ
  pub id : Str
  pub last_mid : ℕ
  pub state : ClientState
  pub reading : Reading
  pub snd_num : ℕ
  pub sending : List Packet
  pub sending_cur : Option Packet
  pub num_sending_pack : ℕ
  pub is_subscribe : Bool
  pub subs : List (Option Address)

abbrev pub Clients : Type 0
Clients = ℕ → Client

-- The table, the nodes below the root of the tree, and `root_lock`, as the thread of
-- the model finds it.
pub record Broker : Type 0 where
  pub clients : Clients
  pub roots : Hier
  pub locked : RootLock

abbrev pub update : Clients → ℕ → Client → Clients
update f i c j = if j == i then c else f j

abbrev pub with_client : Broker → ℕ → Client → Broker
with_client b i c = record b { clients = update b.clients i c }

-- What `memset` to 0 leaves.
abbrev pub no_reading : Reading
no_reading = record {
  in_packet = none;
  remaining_count = below 0;
  remaining_mult = 0;
  block = none;
  payload = [];
  in_to_process = 0;
}

-- The bytes of a buffer; a buffer of the parser has its bytes in the payload.
abbrev pub bytes_of : Buffer → Bytes
bytes_of b = take b.length (elim b.bytes [ none ↦ [] | some block ↦ block ])

-- The queue and `subs` stay, and so does what `epoll_id` and `snd_num` hold.
abbrev pub clean_context : Client → Client
clean_context c = record c {
  is_subscribe = false;
  sock = 0;
  num_sending_pack = 0;
  id = [];
  last_mid = 0;
  state = cs_new;
  reading = no_reading;
  sending_cur = none;
}

-- Without the hash table and the socket.
abbrev pub remove_client : ℕ → Broker → Broker
remove_client fd b = with_client b fd (clean_context (b.clients fd))

-- It returns true for every id.
abbrev pub add_client : Buffer → ℕ → Broker → Bool × Broker
add_client id fd b = (
  true,
  with_client b fd (record (b.clients fd) {
    id = until_nul (bytes_of id);
    num_sending_pack = 0;
    state = cs_connected;
  }),
)
