-- ===== src/Startup.antt =====
-- The start of the broker in broker/broker.c: `run`, which each thread begins with, `run_worker`,
-- `start_server` and `main`. In the build without mTCP.
pub mod Exits
pub mod Failed
mod Tests
use mumq.Base.{
  ℕ, zero, suc, ◌+◌, ◌*◌, Bool, true, false, Option, none, some, List, [], ◌∷◌, ◌==◌, length,
  if◌then◌else◌,
}
use mumq.Base.Memory.{Memory, alloc}
use mumq.Base.Strings.{Str}
use mumq.Broker.{Broker}
use mumq.Server.{
  Table, Event, Server, running, loop_run, loop_count, Started, ready, refused, crashes_at_start,
  init_database,
}
use mumq.Sockets.{
  Kernel, EpollOp, Made, made, at_null, max_event_per_loop, get_listen_sock, init_event_io,
  add_sock, system_of,
}
use mumq.Sockets

-- How `run` ends, or goes on: it returned; it stopped at NULL; or it is in `loop_run`.
pub data Ran {ℓ κ} (S : Type ℓ) (T : Type κ) : Type (ℓ ⊔ κ) where
  returned : S → Ran S T
  stopped_at_null : Ran S T
  looping : Server S T → Ran S T

module _ {ℓ κ} {S : Type ℓ} {T : Type κ} (kernel : Kernel S) (table : Table T) where
  -- `loop_run` begins with `malloc` for the events of a turn.
  looped : ℕ → EpollOp → ℕ → List (List Event) → Memory → S → T → Broker → Ran S T
  looped fuel op l_sock rounds m s t b =
      if (alloc m).0
      then looping
          (loop_run (system_of kernel op.epfd) table fuel op.th_id l_sock rounds (running s t b))
      else returned s

  -- The result of `add_sock` is not read.
  with_listener : ℕ → EpollOp → List (List Event) → Memory → T → Broker → Option ℕ × S → Ran S T
  unfolding looped
  with_listener fuel op rounds m t b (none, s) = returned s
  with_listener fuel op rounds m t b (some l_sock, s) =
      looped fuel (record op { l_sock = some l_sock; base_sock = 0 }) l_sock rounds m
        (add_sock kernel op.epfd l_sock s).1 t b

  with_events : ℕ → Str → List (List Event) → T → Broker → Made S → Ran S T
  unfolding with_listener
  with_events fuel port rounds t b (Sockets.refused s) = returned s
  with_events fuel port rounds t b at_null = stopped_at_null
  with_events fuel port rounds t b (made op m s) =
      with_listener fuel op rounds m t b (get_listen_sock kernel port s)

  -- The fields of `struct epollop` are 0 at the start.
  pub run : ℕ → ℕ → Str → List (List Event) → Memory → S → T → Broker → Ran S T
  unfolding with_events
  run fuel th_id port rounds m s t b =
      let op : EpollOp = record {
        epfd = 0;
        num_events = 0;
        l_sock = some 0;
        base_sock = 0;
        th_id = th_id;
      } in
      with_events fuel port rounds t b (init_event_io kernel max_event_per_loop op m s)

-- What `main` and `run_worker` call of the system. The threads run in between.
pub data Call : Type 0 where
  usleep attr_init create attr_getstacksize join attr_destroy : ℕ → Call
  client_id_lock_init client_id_lock_destroy : Call

-- The result of `main`, or a `memset` at NULL in it.
pub data Exit : Type 0 where
  exit_0 exit_minus_1 killed : Exit

-- The `int` -1.
abbrev pub minus_1 : ℕ
minus_1 = 4294967295

module _ {ℓ} {S : Type ℓ} (call : Call → S → ℕ × S) where
  pub do_call : Call → S → S
  do_call c s = (call c s).1

  -- The first loop of `run_worker`, for `k` threads from number `i` on; the result is 0 or the first
  -- result of `pthread_create` that is not.
  pub create_all : ℕ → ℕ → S → ℕ × S
  unfolding do_call
  create_all zero i s = (0, s)
  create_all (suc k) i s =
      let (rc, s') = call (create i) (do_call (attr_init i) (do_call (usleep 10000) s)) in
      let rest = create_all k (suc i) (do_call (attr_getstacksize i) s') in
      if rc == 0 then rest else (rc, s')

  -- The other two loops; a `pthread_join` that fails is only logged.
  pub call_all : (ℕ → Call) → ℕ → ℕ → S → S
  unfolding do_call
  call_all f zero i s = s
  call_all f (suc k) i s = call_all f k (suc i) (do_call (f i) s)

  pub run_worker : ℕ → S → ℕ × S
  unfolding create_all call_all
  run_worker g_core_limit s =
      let (rc, s') = create_all g_core_limit 0 s in
      if rc == 0
      then (0, call_all attr_destroy g_core_limit 0 (call_all join g_core_limit 0 s'))
      else (rc, s')

  pub start_server : ℕ → S → ℕ × S
  unfolding run_worker
  start_server g_core_limit s =
      let (rc, s') = run_worker g_core_limit s in if rc == minus_1 then (minus_1, s') else (0, s')

  -- `client_id_lock` is there; what `start_server` returns is not read. A run in which every call comes
  -- back: `pthread_join` does not, of a thread that is in its loop, and the process then goes on.
  serve : ℕ × S → Exit × S
  unfolding do_call start_server
  serve (zero, s) = (exit_0, do_call client_id_lock_destroy (start_server loop_count s).1)
  serve (suc rc, s) = (exit_minus_1, s)

  with_database : Started → S → Exit × S
  unfolding serve
  with_database (ready b) s = serve (call client_id_lock_init s)
  with_database refused s = (exit_minus_1, s)
  with_database crashes_at_start s = (killed, s)

  -- The arguments, with the name of the program, and what `init_database` meets.
  pub main : List Str → Bool → Memory → S → Exit × S
  unfolding with_database
  main args locks m s =
      if length args == 2 then with_database (init_database locks m) s else (exit_minus_1, s)
