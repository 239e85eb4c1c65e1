-- ===== src/Tools/Thread.antt =====
-- A thread of the subscriber tool: the loop of `RunMain` in tools/epsub.c, 433-525. What the clock, mosquitto
-- and epoll answer in a turn comes with the turn.
pub mod Bounded
use mumq.Base.{
  ℕ, zero, suc, ◌+◌, ◌-◌, Bool, true, false, ◌&&◌, ◌||◌, Option, none, some, List, [], ◌∷◌, ◌++◌,
  ◌==◌, ltb, leb, if◌then◌else◌, length,
}
use mumq.Base.Strings.{Str}
use mumq.Base.Words.{Bytes, add64}
use mumq.Tools.Measure.{
  Timeval, SubStat, ThreadContext, MosquittoVar, Created, creates, fails, overflows,
  create_connection, Totals, print_stats,
}
use mumq.Tools.Polling.{PollEvent, Polled, keeps, closes, reads_freed, reads_past, aborts, on_event}

-- What `CreateConnection` meets: whether the connection and the socket are there, and the times round it.
pub record Meets : Type 0 where
  pub accepted : Bool
  pub socketed : Bool
  pub before : Timeval
  pub after : Timeval

-- `answers` is for the call of `CreateConnection` after which so many are left; `polled` is what
-- `epoll_wait` gives, by the numbers of the connections, or `none` for -1; `others` are the counts of the
-- other threads; `signalled` is whether `SignalHandler` ran before the test of the loop.
pub record Turn : Type 0 where
  pub now : Timeval
  pub printed_at : Timeval
  pub others : List SubStat
  pub answers : ℕ → Meets
  pub polled : Option (List (ℕ × PollEvent))
  pub signalled : Bool

-- The connections in the order in which they were made, `none` when freed; `done` is `done[core]`.
pub record Runner : Type 0 where
  pub ctx : ThreadContext
  pub target : ℕ
  pub slots : List (Option MosquittoVar)
  pub done : Bool
  pub prev_tv : Timeval
  pub is_first : Bool
  pub exec_stv : Option Timeval
  pub acc_stat : Totals

-- The loop goes on or is left; or a text did not fit, freed memory or past a payload was read, or an assertion
-- failed.
pub data Running : Type 0 where
  goes_on leaves : Runner → Running
  overflowed freed_is_read past_is_read aborted : Running

abbrev pub slot_at : List (Option MosquittoVar) → ℕ → Option MosquittoVar
slot_at [] i = none
slot_at (v ∷ vs) zero = v
slot_at (v ∷ vs) (suc i) = slot_at vs i

abbrev pub set_slot :
    Option MosquittoVar → ℕ → List (Option MosquittoVar) → List (Option MosquittoVar)
set_slot x i [] = []
set_slot x zero (v ∷ vs) = x ∷ vs
set_slot x (suc i) (v ∷ vs) = v ∷ set_slot x i vs

-- `total` of `PrintStats` is 0 at its start.
abbrev pub no_total : Totals → Totals
no_total t = record t {
  rcv_msgs = 0;
  errors = 0;
  min_rcv_time = 0;
  max_rcv_time = 0;
  total_avg_time = 0;
}

-- `g_stat[0]` is the thread's own.
abbrev pub printed : Runner → Totals × List SubStat → Runner
printed r (t, []) = r
printed r (t, st ∷ sts) = record r { ctx = record r.ctx { stat = st }; acc_stat = t }

abbrev pub first_seen : Turn → Runner → Runner
first_seen turn r =
    if r.is_first && ltb 0 r.ctx.stat.rcv_msgs
    then record r { is_first = false; exec_stv = some turn.printed_at }
    else r

-- 440-448
abbrev pub tick : Turn → Runner → Runner
tick turn r =
    if (r.ctx.core == 0) && ltb r.prev_tv.tv_sec turn.now.tv_sec
    then record (printed (first_seen turn r)
        (print_stats (r.ctx.stat ∷ turn.others) (no_total r.acc_stat))) { prev_tv = turn.now }
    else r

abbrev after_create : Created → Runner → (Runner → Option Runner) → Option Runner
after_create (creates v ctx) r k = k (record r { ctx = ctx; slots = r.slots ++ some v ∷ [] })
after_create (fails ctx) r k = some (record r { ctx = ctx; done = true })
after_create overflows r k = none

abbrev after_event : ℕ → Runner → Polled → Running
after_event i r (keeps v ctx) =
    goes_on (record r { ctx = ctx; slots = set_slot (some v) i r.slots })
after_event i r (closes ctx) = goes_on (record r { ctx = ctx; slots = set_slot none i r.slots })
after_event i r reads_freed = freed_is_read
after_event i r reads_past = past_is_read
after_event i r aborts = aborted

abbrev then_slots : Running → (Runner → Running) → Running
then_slots (goes_on r) k = k r
then_slots x k = x

-- 519-525, and then the test of the loop.
abbrev at_end : Bool → Runner → Running
at_end signalled r =
    let r' : Runner = record r { done = r.done || signalled } in
    if leb r'.target r'.ctx.done || r'.done then leaves r' else goes_on r'

-- `stat.events += nevents`
abbrev polled_events : ℕ → Runner → Runner
polled_events n r = record r {
  ctx = record r.ctx { stat = record r.ctx.stat { events = add64 r.ctx.stat.events n } };
}

-- With `CreateConnection` and the branches on an event.
module _ (create : Meets → ThreadContext → Created)
    (event : PollEvent → MosquittoVar → ThreadContext → Polled) where
  -- The inner loop, for the `target - started` clients that are left.
  create_rest : ℕ → (ℕ → Meets) → Runner → Option Runner
  create_rest zero answers r = some r
  create_rest (suc k) answers r = after_create (create (answers k) r.ctx) r (create_rest k answers)

  on_slot : ℕ → PollEvent → Runner → Option MosquittoVar → Running
  on_slot i e r none = freed_is_read
  on_slot i e r (some v) = after_event i r (event e v r.ctx)

  on_slots : List (ℕ × PollEvent) → Runner → Running
  unfolding on_slot
  on_slots [] r = goes_on r
  on_slots ((i, e) ∷ es) r = then_slots (on_slot i e r (slot_at r.slots i)) (on_slots es)

  poll : Bool → Option (List (ℕ × PollEvent)) → Runner → Running
  unfolding on_slots
  poll signalled none r = leaves (record r { done = true })
  poll signalled (some es) r =
      then_slots (on_slots es (polled_events (length es) r)) (at_end signalled)

  after_creates : Turn → Option Runner → Running
  unfolding poll
  after_creates turn none = overflowed
  after_creates turn (some r) = poll turn.signalled turn.polled r

  take_turn : Turn → Runner → Running
  unfolding create_rest after_creates
  take_turn turn r =
      let r' = tick turn r in
      after_creates turn (create_rest (r'.target - r'.ctx.started) turn.answers r')

  take_turns : List Turn → Runner → Running
  unfolding take_turn
  take_turns [] r = goes_on r
  take_turns (turn ∷ turns) r = then_slots (take_turn turn r) (take_turns turns)

-- The loop of `RunMain`.
pub run_main :
    (load : Bytes → Timeval) (flows_per_con : ℕ) (decimal : ℕ → Str) (topic client_id : Str)
    (is_unique : Bool) (concurrency : ℕ) (concurs : List ℕ)
    → List Turn
    → Runner
    → Running
unfolding take_turns
run_main load flows_per_con decimal topic client_id is_unique concurrency concurs =
    take_turns
      (λ a.
        create_connection decimal topic client_id is_unique concurrency concurs a.accepted
          a.socketed a.before a.after)
      (on_event load flows_per_con)
