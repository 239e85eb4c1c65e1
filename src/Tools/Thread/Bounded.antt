-- ===== src/Tools/Thread/Bounded.antt =====
-- How many connections a thread of the subscriber tool begins, has open and ends (tools/epsub.c, 433-525).
use mumq.Base.{
  ℕ, zero, suc, ◌+◌, ◌-◌, ◌≤◌, ◌≡◌, refl, ap, Bool, true, false, ◌||◌, Option, none, some, List, [],
  ◌∷◌, ◌++◌, leb, if◌then◌else◌, arith,
}
use mumq.Base.Strings.{Str}
use mumq.Base.Words.{Bytes}
use mumq.Tools.Measure.{
  Timeval, ThreadContext, MosquittoVar, Created, creates, fails, overflows, create_connection,
}
use mumq.Tools.Measure.Kept.{Begins, create_connection-Begins}
use mumq.Tools.Polling.{PollEvent, Polled, keeps, closes, reads_freed, reads_past, aborts, on_event}
use mumq.Tools.Polling.Kept.{Ends, on_event-Ends}
use mumq.Tools.Thread.{
  Turn, Meets, Runner, Running, goes_on, leaves, overflowed, freed_is_read, past_is_read, aborted,
  slot_at, set_slot, tick, after_create, create_rest, after_event, on_slot, then_slots, on_slots,
  at_end, take_turns, poll, after_creates, take_turn, run_main,
}

-- The connections that are open.
abbrev pub live : List (Option MosquittoVar) → ℕ
live [] = 0
live (none ∷ vs) = live vs
live (some v ∷ vs) = suc (live vs)

abbrev pub IsBounded : Runner → Type 0
IsBounded r = (live r.slots + r.ctx.done ≤ r.ctx.started) × (r.ctx.started ≤ r.target)

live-snoc :
    (vs : List (Option MosquittoVar)) (v : MosquittoVar) → live (vs ++ some v ∷ []) ≡ suc (live vs)
live-snoc [] v = refl
live-snoc (none ∷ vs) v = live-snoc vs v
live-snoc (some w ∷ vs) v = ap suc (live-snoc vs v)

live-set_slot :
    (vs : List (Option MosquittoVar)) (i : ℕ) (v w : MosquittoVar)
    → slot_at vs i ≡ some v
    → (live (set_slot (some w) i vs) ≡ live vs) × (suc (live (set_slot none i vs)) ≡ live vs)
live-set_slot [] i v w e = cc e
live-set_slot (none ∷ vs) zero v w e = cc e
live-set_slot (some x ∷ vs) zero v w e = (refl, refl)
live-set_slot (none ∷ vs) (suc i) v w e = live-set_slot vs i v w e
live-set_slot (some x ∷ vs) (suc i) v w e =
    let (same, less) = live-set_slot vs i v w e in (ap suc same, ap suc less)

-- `started` and `target` without the connections that are open.
abbrev pub AreBounded : Running → Type 0
AreBounded (goes_on r) = IsBounded r
AreBounded (leaves r) =
    IsBounded r
    × (r.done ≡ false → (live r.slots ≡ 0) × (r.ctx.started ≡ r.target) × (r.ctx.done ≡ r.target))
AreBounded overflowed = Unit
AreBounded freed_is_read = Unit
AreBounded past_is_read = Unit
AreBounded aborted = Unit

tick-IsBounded : (turn : Turn) (r : Runner) → IsBounded r → IsBounded (tick turn r)
tick-IsBounded turn r h = ground (arith)

if-AreBounded :
    (c : Bool) (r : Runner)
    → IsBounded r
    → (c ≡ true → r.done ≡ false → r.target ≤ r.ctx.done)
    → AreBounded (if c then leaves r else goes_on r)
if-AreBounded true r h f = (h, λ e. let le = f refl e in (omega arith, omega arith, omega arith))
if-AreBounded false r h f = h

tested : (m n : ℕ) (b : Bool) → (leb m n || b) ≡ true → b ≡ false → m ≤ n
tested m n b c e = ground arith

-- What `CreateConnection` and an event do to the counts.
module _ (create : Meets → ThreadContext → Created)
    (event : PollEvent → MosquittoVar → ThreadContext → Polled)
    (begins : (a : Meets) (ctx : ThreadContext) → Begins ctx (create a ctx))
    (ends : (e : PollEvent) (v : MosquittoVar) (ctx : ThreadContext)
      → Ends ctx (event e v ctx)) where
  IsBoundedThen : Option Runner → Type 0
  IsBoundedThen none = Unit
  IsBoundedThen (some r) = IsBounded r

  after_create-IsBounded :
      (x : Created) (r : Runner) (k : Runner → Option Runner)
      → IsBounded r
      → r.ctx.started + 1 ≤ r.target
      → Begins r.ctx x
      → ((q : Runner)
          → IsBounded q
          → q.ctx.started ≡ r.ctx.started + 1
          → q.target ≡ r.target
          → IsBoundedThen (k q))
      → IsBoundedThen (after_create x r k)
  unfolding IsBoundedThen
  after_create-IsBounded (creates v ctx) r k h few (one, same) f =
      f (record r { ctx = ctx; slots = r.slots ++ some v ∷ [] })
        (omega (arith, live-snoc r.slots v), omega arith) one refl
  after_create-IsBounded (fails ctx) r k h few (le, most, same) f = (omega arith, omega arith)
  after_create-IsBounded overflows r k h few b f = tt

  create_rest-IsBounded :
      (k : ℕ) (answers : ℕ → Meets) (r : Runner)
      → IsBounded r
      → r.ctx.started + k ≤ r.target
      → IsBoundedThen (create_rest create event k answers r)
  unfolding create_rest IsBoundedThen
  create_rest-IsBounded zero answers r h few = h
  create_rest-IsBounded (suc k) answers r h few =
      after_create-IsBounded (create (answers k) r.ctx) r _ h (omega arith)
        (begins (answers k) r.ctx)
        (λ q b one same. create_rest-IsBounded k answers q b (omega arith))

  after_event-AreBounded :
      (i : ℕ) (r : Runner) (v : MosquittoVar) (x : Polled)
      → IsBounded r
      → slot_at r.slots i ≡ some v
      → Ends r.ctx x
      → AreBounded (after_event i r x)
  after_event-AreBounded i r v (keeps w ctx) h at (begun, done) =
      (omega (arith, live-set_slot r.slots i v w at), omega arith)
  after_event-AreBounded i r v (closes ctx) h at (begun, done) =
      (omega (arith, live-set_slot r.slots i v v at), omega arith)
  after_event-AreBounded i r v reads_freed h at e = tt
  after_event-AreBounded i r v reads_past h at e = tt
  after_event-AreBounded i r v aborts h at e = tt

  then_slots-AreBounded :
      (x : Running) (k : Runner → Running)
      → AreBounded x
      → ((r : Runner) → IsBounded r → AreBounded (k r))
      → AreBounded (then_slots x k)
  then_slots-AreBounded (goes_on r) k h f = f r h
  then_slots-AreBounded (leaves r) k h f = h
  then_slots-AreBounded overflowed k h f = tt
  then_slots-AreBounded freed_is_read k h f = tt
  then_slots-AreBounded past_is_read k h f = tt
  then_slots-AreBounded aborted k h f = tt

  on_slot-AreBounded :
      (i : ℕ) (e : PollEvent) (r : Runner) (o : Option MosquittoVar)
      → IsBounded r
      → slot_at r.slots i ≡ o
      → AreBounded (on_slot create event i e r o)
  unfolding on_slot
  on_slot-AreBounded i e r none h at = tt
  on_slot-AreBounded i e r (some v) h at =
      after_event-AreBounded i r v (event e v r.ctx) h at (ends e v r.ctx)

  on_slots-AreBounded :
      (es : List (ℕ × PollEvent)) (r : Runner)
      → IsBounded r
      → AreBounded (on_slots create event es r)
  unfolding on_slots
  on_slots-AreBounded [] r h = h
  on_slots-AreBounded ((i, e) ∷ es) r h =
      then_slots-AreBounded _ (on_slots create event es)
        (on_slot-AreBounded i e r (slot_at r.slots i) h refl) (on_slots-AreBounded es)

  at_end-AreBounded :
      (signalled : Bool) (r : Runner) → IsBounded r → AreBounded (at_end signalled r)
  at_end-AreBounded signalled r h =
      let q : Runner = record r { done = r.done || signalled } in
      if-AreBounded (leb q.target q.ctx.done || q.done) q h
        (λ c e. tested q.target q.ctx.done q.done c e)

  poll-AreBounded :
      (signalled : Bool) (o : Option (List (ℕ × PollEvent))) (r : Runner)
      → IsBounded r
      → AreBounded (poll create event signalled o r)
  unfolding poll
  poll-AreBounded signalled none r h = (h, λ e. cc)
  poll-AreBounded signalled (some es) r h =
      then_slots-AreBounded _ (at_end signalled) (on_slots-AreBounded es _ h)
        (at_end-AreBounded signalled)

  after_creates-AreBounded :
      (turn : Turn) (o : Option Runner)
      → IsBoundedThen o
      → AreBounded (after_creates create event turn o)
  unfolding after_creates IsBoundedThen
  after_creates-AreBounded turn none h = tt
  after_creates-AreBounded turn (some r) h = poll-AreBounded turn.signalled turn.polled r h

  take_turns-AreBounded :
      (turns : List Turn) (r : Runner) → IsBounded r → AreBounded (take_turns create event turns r)
  unfolding take_turns take_turn
  take_turns-AreBounded [] r h = h
  take_turns-AreBounded (turn ∷ turns) r h =
      let b = tick-IsBounded turn r h in
      then_slots-AreBounded _ (take_turns create event turns)
        (after_creates-AreBounded turn _ (
          create_rest-IsBounded ((tick turn r).target - (tick turn r).ctx.started) turn.answers
            (tick turn r) b (omega (arith, b))))
        (take_turns-AreBounded turns)

-- After any turns of a thread that began no client yet, whatever the clock, mosquitto and epoll answer, as
-- long as the program reads no freed connection (which it does after an EPOLLERR or a failed read), no byte
-- past a payload, puts no text past its array and fails no assertion: the connections that are open and
-- those that ended are together at most as many as were begun, and those at most as many as the thread has to
-- begin. When it left the loop and neither a failure nor a signal stopped it, then no connection is open, and all that it had to begin were begun and ended.
pub run_main-AreBounded :
    (load : Bytes → Timeval) (flows_per_con : ℕ) (decimal : ℕ → Str) (topic client_id : Str)
    (is_unique : Bool) (concurrency : ℕ) (concurs : List ℕ) (turns : List Turn) (r : Runner)
    → r.slots ≡ []
    → r.ctx.started ≡ 0
    → r.ctx.done ≡ 0
    → AreBounded
        (run_main load flows_per_con decimal topic client_id is_unique concurrency concurs turns r)
unfolding run_main
run_main-AreBounded load flows_per_con decimal topic client_id is_unique concurrency concurs turns r
      e begun done =
    take_turns-AreBounded
      (λ a.
        create_connection decimal topic client_id is_unique concurrency concurs a.accepted
          a.socketed a.before a.after)
      (on_event load flows_per_con)
      (λ a.
        create_connection-Begins decimal topic client_id is_unique concurrency concurs a.accepted
          a.socketed a.before a.after)
      (on_event-Ends load flows_per_con) turns r (omega (arith, ap live e), omega arith)
