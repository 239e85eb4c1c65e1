-- ===== src/Sockets/Opened.antt =====
-- Which descriptors are open after the functions of Sockets (broker/event_io.c, 28-168).
use mumq.Base.{
  arith, ℕ, ◌≡◌, refl, ap, ◌∙◌, Bool, true, false, Option, none, some, List, [], ◌∷◌, ◌++◌, ◌==◌,
  if◌then◌else◌, if_true, bit_or, ==_iff,
}
use mumq.Base.Strings.{Str}
use mumq.Sockets.{
  getfl, setfl, Kernel, Fcntl, SocketOption, EpollCtl, set_rcv_wrt_buffer, set_nonblocking,
  operate_epoll, disconnect_sock, add_sock, listening, bound, with_socket, get_listen_sock,
}

-- The descriptor that a call opened, if it did.
abbrev pub of_result : Option ℕ → List ℕ
of_result none = []
of_result (some fd) = fd ∷ []

abbrev pub without : ℕ → List ℕ → List ℕ
without fd [] = []
without fd (d ∷ ds) = let rest = without fd ds in if d == fd then ds else d ∷ rest

-- What POSIX says of the calls: `socket` opens the descriptor that it answers, `close` closes its argument,
-- and the others open and close none.
pub record IsKernel {ℓ} {S : Type ℓ} (kernel : Kernel S) (opened : S → List ℕ) : Type ℓ where
  pub socket_opens :
      (s : S) → opened (kernel.socket s).1 ≡ of_result (kernel.socket s).0 ++ opened s
  pub close_closes : (fd : ℕ) (s : S) → opened (kernel.close fd s) ≡ without fd (opened s)
  pub setsockopt_keeps :
      (fd : ℕ) (o : SocketOption) (n : ℕ) (s : S) → opened (kernel.setsockopt fd o n s) ≡ opened s
  pub fcntl_keeps : (fd : ℕ) (f : Fcntl) (s : S) → opened (kernel.fcntl fd f s).1 ≡ opened s
  pub bind_keeps : (fd port : ℕ) (s : S) → opened (kernel.bind fd port s).1 ≡ opened s
  pub listen_keeps : (fd n : ℕ) (s : S) → opened (kernel.listen fd n s).1 ≡ opened s
  pub epoll_ctl_keeps :
      (epfd : ℕ) (op : EpollCtl) (fd : ℕ) (e : Option ℕ) (s : S)
      → opened (kernel.epoll_ctl epfd op fd e s).1 ≡ opened s

without-cons : (fd : ℕ) (ds : List ℕ) → without fd (fd ∷ ds) ≡ ds
without-cons fd ds = if_true _ _ ((==_iff fd fd).1 refl)

module _ {ℓ} {S : Type ℓ} (kernel : Kernel S) (opened : S → List ℕ)
    (laws : IsKernel kernel opened) where
  close-opened :
      (fd : ℕ) (ds : List ℕ) (s : S) → opened s ≡ fd ∷ ds → opened (kernel.close fd s) ≡ ds
  close-opened fd ds s e = laws.close_closes fd s ∙ ap (without fd) e ∙ without-cons fd ds

  listening-opened :
      (fd : ℕ) (ds : List ℕ) (r : Bool × S)
      → opened r.1 ≡ fd ∷ ds
      → let x = listening kernel fd r in opened x.1 ≡ of_result x.0 ++ ds
  unfolding listening
  listening-opened fd ds (true, s) e = e
  listening-opened fd ds (false, s) e = close-opened fd ds s e

  bound-opened :
      (fd : ℕ) (ds : List ℕ) (r : Bool × S)
      → opened r.1 ≡ fd ∷ ds
      → let x = bound kernel fd r in opened x.1 ≡ of_result x.0 ++ ds
  unfolding bound
  bound-opened fd ds (true, s) e = listening-opened fd ds _ (laws.listen_keeps fd _ s ∙ e)
  bound-opened fd ds (false, s) e = close-opened fd ds s e

  with_socket-opened :
      (port : ℕ) (ds : List ℕ) (r : Option ℕ × S)
      → opened r.1 ≡ of_result r.0 ++ ds
      → let x = with_socket kernel port r in opened x.1 ≡ of_result x.0 ++ ds
  unfolding with_socket
  with_socket-opened port ds (none, s) e = e
  with_socket-opened port ds (some fd, s) e =
      bound-opened fd ds _ (laws.bind_keeps fd port _ ∙ laws.setsockopt_keeps fd _ 1 s ∙ e)

  -- Whatever the calls answer, when `socket` opens the descriptor that it answers, `close` closes its own, and
  -- `setsockopt`, `bind` and `listen` open and close none: `get_listen_sock` has opened the socket that it
  -- returns and nothing else, and nothing at all when it returns -1.
  pub get_listen_sock-opened :
      (port : Str) (s : S)
      → let r = get_listen_sock kernel port s in opened r.1 ≡ of_result r.0 ++ opened s
  unfolding get_listen_sock
  get_listen_sock-opened port s = with_socket-opened _ (opened s) _ (laws.socket_opens s)

  operate_epoll-opened :
      (epfd : ℕ) (op : EpollCtl) (fd events : ℕ) (s : S)
      → opened (operate_epoll kernel epfd op fd events s).1 ≡ opened s
  unfolding operate_epoll
  operate_epoll-opened epfd op fd events s = ground (
    arith,
    laws.epoll_ctl_keeps epfd op fd none s,
    laws.epoll_ctl_keeps epfd op fd (some (bit_or (bit_or events kernel.epollerr) kernel.epollhup))
        s,
  )

  -- Whatever it answers, `add_sock` opens and closes nothing.
  pub add_sock-opened : (epfd fd : ℕ) (s : S) → opened (add_sock kernel epfd fd s).1 ≡ opened s
  unfolding add_sock set_nonblocking set_rcv_wrt_buffer
  add_sock-opened epfd fd s =
      let (flag, s1) = kernel.fcntl fd getfl s in
      let s2 = (kernel.fcntl fd (setfl (bit_or flag kernel.o_nonblock)) s1).1 in
      let s3 = set_nonblocking kernel fd s in
      operate_epoll-opened epfd _ fd _ _
      ∙ laws.setsockopt_keeps fd _ _ _
      ∙ laws.setsockopt_keeps fd _ _ s3
      ∙ laws.fcntl_keeps fd _ s2
      ∙ laws.fcntl_keeps fd _ s1
      ∙ laws.fcntl_keeps fd getfl s

  -- Whatever epoll answers, `disconnect_sock` closes its socket and nothing else.
  pub disconnect_sock-opened :
      (epfd fd : ℕ) (s : S) → opened (disconnect_sock kernel epfd fd s) ≡ without fd (opened s)
  unfolding disconnect_sock
  disconnect_sock-opened epfd fd s =
      laws.close_closes fd _ ∙ ap (without fd) (operate_epoll-opened epfd _ fd 0 s)
