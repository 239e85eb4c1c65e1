-- ===== src/Tools/Measure/Kept.antt =====
-- The callbacks begin and end no client, and a call of `CreateConnection` begins at most one (tools/epsub.c,
-- 153-210 and 228-309).
use mumq.Base.{
  ℕ, ◌+◌, ◌*◌, ◌≤◌, ◌≡◌, refl, Bool, true, false, Option, none, some, List, ltb, if◌then◌else◌,
  length, take, arith,
}
use mumq.Base.Strings.{Str}
use mumq.Base.Words.{Bytes}
use mumq.Tools.Measure.{
  Timeval, timeval_size, time_diff, ThreadContext, MosquittoVar, received, first_time,
  then_completed, my_connect_callback, my_message_callback, Created, creates, fails, overflows,
  create_connection,
}

-- The counts of clients that are begun and ended.
abbrev pub IsSame : ThreadContext → ThreadContext → Type 0
IsSame a b = (a.started ≡ b.started) × (a.done ≡ b.done)

abbrev pub IsSameThen : ThreadContext → Option (MosquittoVar × ThreadContext) → Type 0
IsSameThen ctx none = Unit
IsSameThen ctx (some (v, c)) = IsSame ctx c

pub my_connect_callback-IsSame :
    (n : ℕ) (v : MosquittoVar) (ctx : ThreadContext) → IsSame ctx (my_connect_callback n v ctx).1
unfolding my_connect_callback
my_connect_callback-IsSame n v ctx = ground arith

if-IsSameThen :
    (c : Bool) (ctx : ThreadContext) (x y : Option (MosquittoVar × ThreadContext))
    → IsSameThen ctx x
    → IsSameThen ctx y
    → IsSameThen ctx (if c then x else y)
if-IsSameThen true ctx x y h k = h
if-IsSameThen false ctx x y h k = k

then_completed-IsSameThen :
    (load : Bytes → Timeval) (n : ℕ) (ctx : ThreadContext)
    (x : Option (MosquittoVar × ThreadContext))
    → IsSameThen ctx x
    → IsSameThen ctx (then_completed load n x)
unfolding then_completed
then_completed-IsSameThen load n ctx none h = tt
then_completed-IsSameThen load n ctx (some (v, c)) h = ground arith

pub my_message_callback-IsSameThen :
    (load : Bytes → Timeval) (n : ℕ) (now : Timeval) (bs : Bytes) (v : MosquittoVar)
    (ctx : ThreadContext)
    → IsSameThen ctx (my_message_callback load n now bs v ctx)
unfolding my_message_callback first_time
my_message_callback-IsSameThen load n now bs v ctx =
    let c = received (time_diff now (load (take timeval_size bs))) ctx in
    then_completed-IsSameThen load n ctx _ (
      if-IsSameThen (ltb timeval_size (length bs)) ctx _ _
        (if-IsSameThen v.is_recv_st ctx _ _
          (if-IsSameThen (ltb (length bs) (2 * timeval_size)) ctx none _ tt (refl, refl))
          (refl, refl))
        (refl, refl))

-- A connection that is made is one more begun; one that failed may be.
abbrev pub Begins : ThreadContext → Created → Type 0
Begins ctx (creates v c) = (c.started ≡ ctx.started + 1) × (c.done ≡ ctx.done)
Begins ctx (fails c) =
    (ctx.started ≤ c.started) × (c.started ≤ ctx.started + 1) × (c.done ≡ ctx.done)
Begins ctx overflows = Unit

if-Begins :
    (c : Bool) (ctx : ThreadContext) (x y : Created)
    → Begins ctx x
    → Begins ctx y
    → Begins ctx (if c then x else y)
if-Begins true ctx x y h k = h
if-Begins false ctx x y h k = k

pub create_connection-Begins :
    (decimal : ℕ → Str) (topic client_id : Str) (is_unique : Bool) (n : ℕ) (concurs : List ℕ)
    (accepted socketed : Bool) (before after : Timeval) (ctx : ThreadContext)
    → Begins ctx (
        create_connection decimal topic client_id is_unique n concurs accepted socketed before after
          ctx)
unfolding create_connection
create_connection-Begins decimal topic client_id is_unique n concurs accepted socketed before after
      ctx =
    if-Begins _ ctx overflows _ tt (
      if-Begins accepted ctx _ _
        (if-Begins socketed ctx _ _ (refl, refl) (omega arith, omega arith, refl))
        (omega arith, omega arith, refl))
