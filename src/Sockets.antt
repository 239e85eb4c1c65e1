-- ===== src/Sockets.antt =====
-- The sockets of broker/event_io.c, 28-193, in the build without mTCP: what is done with a socket when it is
-- made, watched and closed. The calls of the system, and the numbers that its headers define, are the interface
-- Kernel.
pub mod Opened
use mumq.Base.{ℕ, ◌*◌, Bool, true, false, Option, none, some, ◌==◌, if◌then◌else◌, bit_or}
use mumq.Base.Memory.{Memory, alloc}
use mumq.Base.Strings.{Str}
use mumq.Base.Words.{Bytes}
use mumq.EventIo.{Received}
use mumq.EventIo.Send.{Sent}
use mumq.Server.{System, max_fd_per_loop, loop_count}

pub data Fcntl : Type 0 where
  getfl : Fcntl
  setfl setfd : ℕ → Fcntl

pub data SocketOption : Type 0 where
  so_reuseport so_rcvbuf so_sndbuf : SocketOption

pub data EpollCtl : Type 0 where
  epoll_ctl_add epoll_ctl_mod epoll_ctl_del : EpollCtl

-- The calls, on the state `S` of the system. `none` and `false` are the answer -1; the result of `setsockopt`
-- is not read. `bind` is for any address and a port in the order of the network.
pub record Kernel {ℓ} (S : Type ℓ) : Type ℓ where
  pub socket : S → Option ℕ × S
  pub setsockopt : ℕ → SocketOption → ℕ → S → S
  pub fcntl : ℕ → Fcntl → S → ℕ × S
  pub bind : ℕ → ℕ → S → Bool × S
  pub listen : ℕ → ℕ → S → Bool × S
  pub close : ℕ → S → S
  pub epoll_create : S → Option ℕ × S
  pub epoll_ctl : ℕ → EpollCtl → ℕ → Option ℕ → S → Bool × S
  pub recv : ℕ → ℕ → S → Received × S
  pub send : ℕ → Bytes → S → Sent × S
  pub accept : ℕ → S → Option ℕ × S
  pub atoi : Str → ℕ
  pub htons : ℕ → ℕ
  pub o_nonblock : ℕ
  pub fd_cloexec : ℕ
  pub epollin : ℕ
  pub epollerr : ℕ
  pub epollhup : ℕ

abbrev pub sock_recv_buff_size : ℕ
sock_recv_buff_size = 4 * 1024

abbrev pub sock_send_buff_size : ℕ
sock_send_buff_size = 4 * 1024

abbrev pub accept_queues : ℕ
accept_queues = max_fd_per_loop

abbrev pub max_event_per_loop : ℕ
max_event_per_loop = max_fd_per_loop * 3

-- The fields that a thread sets before its loop; `l_sock` is `none` for -1.
pub record EpollOp : Type 0 where
  pub epfd : ℕ
  pub num_events : ℕ
  pub l_sock : Option ℕ
  pub base_sock : ℕ
  pub th_id : ℕ

-- The results of `init_event_io`: -1; a `memset` at NULL; or the descriptor of epoll.
pub data Made {ℓ} (S : Type ℓ) : Type ℓ where
  refused : S → Made S
  at_null : Made S
  made : EpollOp → Memory → S → Made S

module _ {ℓ} {S : Type ℓ} (kernel : Kernel S) where
  set_rcv_wrt_buffer : ℕ → S → S
  set_rcv_wrt_buffer fd s =
      kernel.setsockopt fd so_sndbuf sock_send_buff_size
        (kernel.setsockopt fd so_rcvbuf sock_recv_buff_size s)

  set_nonblocking : ℕ → S → S
  set_nonblocking fd s =
      let (flag, s1) = kernel.fcntl fd getfl s in
      let (r, s2) = kernel.fcntl fd (setfl (bit_or flag kernel.o_nonblock)) s1 in
      (kernel.fcntl fd (setfd kernel.fd_cloexec) s2).1

  -- The event names `fd` itself as its data.
  operate_epoll : ℕ → EpollCtl → ℕ → ℕ → S → Bool × S
  operate_epoll epfd op fd events s =
      if events == 0
      then kernel.epoll_ctl epfd op fd none s
      else kernel.epoll_ctl epfd op fd
          (some (bit_or (bit_or events kernel.epollerr) kernel.epollhup)) s

  -- A failure is only logged, here and in `disconnect_sock`.
  pub modify_event : ℕ → ℕ → ℕ → S → S
  unfolding operate_epoll
  modify_event epfd fd events s = (operate_epoll epfd epoll_ctl_mod fd events s).1

  pub disconnect_sock : ℕ → ℕ → S → S
  unfolding operate_epoll
  disconnect_sock epfd fd s = kernel.close fd (operate_epoll epfd epoll_ctl_del fd 0 s).1

  -- Whether it returns 0.
  pub add_sock : ℕ → ℕ → S → Bool × S
  unfolding set_nonblocking set_rcv_wrt_buffer operate_epoll
  add_sock epfd fd s =
      operate_epoll epfd epoll_ctl_add fd kernel.epollin
        (set_rcv_wrt_buffer fd (set_nonblocking fd s))

  -- After `listen`, after `bind` and after `socket`.
  listening : ℕ → Bool × S → Option ℕ × S
  listening fd (true, s) = (some fd, s)
  listening fd (false, s) = (none, kernel.close fd s)

  bound : ℕ → Bool × S → Option ℕ × S
  unfolding listening
  bound fd (true, s) = listening fd (kernel.listen fd accept_queues s)
  bound fd (false, s) = (none, kernel.close fd s)

  with_socket : ℕ → Option ℕ × S → Option ℕ × S
  unfolding bound
  with_socket port (none, s) = (none, s)
  with_socket port (some fd, s) =
      bound fd (kernel.bind fd port (kernel.setsockopt fd so_reuseport 1 s))

  pub get_listen_sock : Str → S → Option ℕ × S
  unfolding with_socket
  get_listen_sock port s = with_socket (kernel.htons (kernel.atoi port)) (kernel.socket s)

  -- `calloc` of the table of events comes after the descriptor is there, and is not tested.
  event_table : ℕ → ℕ → EpollOp → Memory → S → Made S
  event_table max epfd op m s =
      let (given, m') = alloc m in
      let s' = (kernel.fcntl epfd (setfd kernel.fd_cloexec) s).1 in
      if given then made (record op { epfd = epfd; num_events = max }) m' s' else at_null

  with_epoll : ℕ → EpollOp → Memory → Option ℕ × S → Made S
  unfolding event_table
  with_epoll max op m (none, s) = refused s
  with_epoll max op m (some epfd, s) = event_table max epfd op m s

  pub init_event_io : ℕ → EpollOp → Memory → S → Made S
  unfolding with_epoll
  init_event_io max op m s = with_epoll max op m (kernel.epoll_create s)

  -- The system as a thread with the descriptor `epfd` uses it.
  abbrev pub system_of : ℕ → System S
  system_of epfd = record {
    recv = kernel.recv;
    send = kernel.send;
    accept = kernel.accept;
    add_sock = λ fd s. (add_sock epfd fd s).1;
    disconnect_sock = disconnect_sock epfd;
    close = kernel.close;
  }
