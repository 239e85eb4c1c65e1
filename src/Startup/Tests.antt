-- ===== src/Startup/Tests.antt =====
-- A start with one port, on a machine that counts its descriptors, and a second thread that cannot be created.
use mumq.Base.{
  ◌<◌, arith, ℕ, ◌+◌, ◌≡◌, refl, true, false, none, some, List, [], ◌∷◌, ◌++◌, ◌==◌, if◌then◌else◌,
  length,
}
use mumq.Base.Strings.{Str}
use mumq.EventIo.{would_block}
use mumq.EventIo.Send.{nothing}
use mumq.Server.{loop_count, init_database, empty_broker}
use mumq.Sockets.{Kernel, get_listen_sock}
use mumq.Sockets.Opened.{IsKernel, of_result, without, get_listen_sock-opened}
use mumq.Startup.{
  Call, create, client_id_lock_init, client_id_lock_destroy, exit_0, run_worker, main,
}
use mumq.Startup.Exits.{logged, Works, starts, made_at, run_worker-Works}
use mumq.Startup.Failed.{main-fails}

-- The state is the list of the open descriptors; the socket 5 cannot be bound.
abbrev kernel : Kernel (List ℕ)
kernel = record {
  socket = λ s. (some (length s + 3), (length s + 3) ∷ s);
  setsockopt = λ fd o n s. s;
  fcntl = λ fd f s. (0, s);
  bind = λ fd port s. (if fd == 5 then false else true, s);
  listen = λ fd n s. (true, s);
  close = without;
  epoll_create = λ s. (some (length s + 3), (length s + 3) ∷ s);
  epoll_ctl = λ epfd op fd e s. (true, s);
  recv = λ fd n s. (would_block, s);
  send = λ fd bs s. (nothing true, s);
  accept = λ fd s. (none, s);
  atoi = λ port. 80;
  htons = λ n. n;
  o_nonblock = 2048;
  fd_cloexec = 1;
  epollin = 1;
  epollerr = 8;
  epollhup = 16;
}

kernel-IsKernel : IsKernel kernel (λ s. s)
kernel-IsKernel = record {
  socket_opens = λ s. refl;
  close_closes = λ fd s. refl;
  setsockopt_keeps = λ fd o n s. refl;
  fcntl_keeps = λ fd f s. refl;
  bind_keeps = λ fd port s. refl;
  listen_keeps = λ fd n s. refl;
  epoll_ctl_keeps = λ epfd op fd e s. refl;
}

abbrev port : Str
port = b'8' ∷ b'0' ∷ []

get_listen_sock-opened_example :
    (get_listen_sock kernel port (4 ∷ 3 ∷ [])).1
    ≡ of_result (get_listen_sock kernel port (4 ∷ 3 ∷ [])).0 ++ 4 ∷ 3 ∷ []
get_listen_sock-opened_example =
    get_listen_sock-opened kernel (λ s. s) kernel-IsKernel port (4 ∷ 3 ∷ [])

-- The state counts the calls; the thread 1 cannot be created.
abbrev call : Call → ℕ → ℕ × ℕ
call (create n) s = (if n == 1 then 11 else 0, s + 1)
call c s = (0, s + 1)

run_worker-Works_example :
    Works call 3 (run_worker (logged call) 3 (record { inner = 0; calls = [] }))
run_worker-Works_example = run_worker-Works call 3 0

main-fails_example :
    ((main (logged call) (port ∷ port ∷ []) true [] (record { inner = 0; calls = [] })).0 ≡ exit_0)
    × (j : ℕ) × (j < loop_count)
    × ((main (logged call) (port ∷ port ∷ []) true [] (record { inner = 0; calls = [] })).1.calls
        ≡ client_id_lock_init ∷ (starts j 0 ++ made_at call j) ++ client_id_lock_destroy ∷ [])
unfolding init_database
main-fails_example =
    main-fails call (port ∷ port ∷ []) true [] 0 empty_broker 1 refl refl refl (omega arith)
      (λ s e. omega arith)
