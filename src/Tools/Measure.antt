-- ===== src/Tools/Measure.antt =====
-- What the subscriber tool measures: the callbacks, `CreateConnection`, `CloseConnection` and `PrintStats`
-- of tools/epsub.c. The library mosquitto, the clock and the epoll of the system are not modelled: what they
-- answer is an argument.

pub mod Sums
pub mod Taken
pub mod Stamped
pub mod Step
pub mod Kept
use mumq.Base.{
  ℕ, zero, suc, ◌+◌, ◌-◌, ◌*◌, ◌/◌, ◌%◌, ◌^◌, Bool, true, false, ◌||◌, Option, none, some, List, [],
  ◌∷◌, ◌++◌, ◌==◌, ltb, if◌then◌else◌, length, take, drop,
}
use mumq.Base.Strings.{Str}
use mumq.Base.Words.{Bytes, add64, sub64}
use mumq.Tools.Load.{id_of}

pub record Timeval : Type 0 where
  pub tv_sec : ℕ
  pub tv_usec : ℕ

-- `sizeof(struct timeval)`
abbrev pub timeval_size : ℕ
timeval_size = 16

-- Microseconds in 64 bits.
abbrev pub time_diff : Timeval → Timeval → ℕ
time_diff now then_ =
    sub64 ((sub64 now.tv_sec then_.tv_sec * 1000000 + now.tv_usec) % 2 ^ 64) then_.tv_usec

-- A sum, and the least and the greatest of what was added; a least of 0 is none yet.
pub record Times : Type 0 where
  pub sum : ℕ
  pub min : ℕ
  pub max : ℕ

pub noted : ℕ → Times → Times
noted d t = record {
  sum = add64 t.sum d;
  min = if t.min == 0 || ltb d t.min then d else t.min;
  max = if ltb t.max d then d else t.max;
}

pub record SubStat : Type 0 where
  pub events : ℕ
  pub connects : ℕ
  pub rcv_msgs : ℕ
  pub completes : ℕ
  pub errors : ℕ
  pub rcv_time : Times

pub record ThreadContext : Type 0 where
  pub core : ℕ
  pub started : ℕ
  pub done : ℕ
  pub stat : SubStat
  pub con_time : Times
  pub rcv_con_time : Times

pub data MosquittoState : Type 0 where
  invalid closed connecting connected conacked disconnected will_disconnect : MosquittoState

pub record MosquittoVar : Type 0 where
  pub id : ℕ
  pub topic : Str
  pub mosq_state : MosquittoState
  pub msg_count : ℕ
  pub is_recv_st : Bool

pub my_connect_callback : ℕ → MosquittoVar → ThreadContext → MosquittoVar × ThreadContext
my_connect_callback result v ctx =
    if result == 0
    then (
      record v { mosq_state = conacked },
      record ctx { stat = record ctx.stat { connects = add64 ctx.stat.connects 1 } },
    )
    else (v, ctx)

-- `flows_per_con` messages are all that a client waits for.
abbrev pub completed : ℕ → MosquittoVar × ThreadContext → MosquittoVar × ThreadContext
completed flows_per_con (v, ctx) =
    if v.msg_count == flows_per_con
    then (
      record v { mosq_state = will_disconnect },
      record ctx { stat = record ctx.stat { completes = add64 ctx.stat.completes 1 } },
    )
    else (v, ctx)

abbrev pub counted : MosquittoVar → MosquittoVar
counted v = record v { msg_count = (v.msg_count + 1) % 2 ^ 32 }

abbrev pub received : ℕ → ThreadContext → ThreadContext
received d ctx = record ctx {
  stat = record ctx.stat {
    rcv_msgs = add64 ctx.stat.rcv_msgs 1;
    rcv_time = noted d ctx.stat.rcv_time;
  };
}

-- How the machine keeps a `struct timeval` in 16 bytes.
module _ (load : Bytes → Timeval) where
  -- `none` is a read past the payload: the second time needs 32 bytes.
  first_time :
      Timeval → Bytes → MosquittoVar → ThreadContext → Option (MosquittoVar × ThreadContext)
  first_time now payload v ctx =
      if v.is_recv_st
      then (if ltb (length payload) (2 * timeval_size)
          then none
          else some (
            record v { is_recv_st = false },
            record ctx {
              rcv_con_time =
                  noted (time_diff now (load (take timeval_size (drop timeval_size payload))))
                    ctx.rcv_con_time;
            },
          ))
      else some (v, ctx)

  then_completed : ℕ → Option (MosquittoVar × ThreadContext) → Option (MosquittoVar × ThreadContext)
  then_completed flows_per_con none = none
  then_completed flows_per_con (some x) = some (completed flows_per_con x)

  pub my_message_callback :
      ℕ → Timeval → Bytes → MosquittoVar → ThreadContext → Option (MosquittoVar × ThreadContext)
  unfolding first_time then_completed
  my_message_callback flows_per_con now payload v ctx = then_completed flows_per_con (
      if ltb timeval_size (length payload)
      then first_time now payload (counted v)
          (received (time_diff now (load (take timeval_size payload))) ctx)
      else some (v, ctx))

-- A connection that waits for its messages; or -1; or a text of more than 127 characters in an array of 128.
pub data Created : Type 0 where
  creates : MosquittoVar → ThreadContext → Created
  fails : ThreadContext → Created
  overflows : Created

-- `decimal` is `%d` of `sprintf`; the name is `client_id-id`, or `subscriber-id`.
module _ (decimal : ℕ → Str) (topic : Str) (client_id : Str) (is_unique : Bool) where
  abbrev top_of : ℕ → Str
  top_of id = if is_unique then topic ++ decimal id else topic

  abbrev c_id_of : ℕ → Str
  c_id_of id = client_id ++ b'-' ∷ decimal id

  -- `accepted` is whether `mosquitto_connect` returned success, between the two times, and `socketed` whether
  -- `mosquitto_socket` gave a socket.
  pub create_connection : ℕ → List ℕ → Bool → Bool → Timeval → Timeval → ThreadContext → Created
  create_connection concurrency concurs accepted socketed before after ctx =
      let id = id_of concurrency concurs ctx.core ctx.started in
      let ctx' = record ctx {
        con_time = noted (time_diff after before) ctx.con_time;
        started = ctx.started + 1;
      } in
      if ltb 127 (length (top_of id)) || ltb 127 (length (c_id_of id))
      then overflows
      else if accepted
      then (if socketed
          then creates
              (record {
                id = id;
                topic = top_of id;
                mosq_state = connected;
                msg_count = 0;
                is_recv_st = true;
              })
              ctx'
          else fails ctx')
      else fails ctx

-- The connection is freed.
abbrev pub close_connection : ThreadContext → ThreadContext
close_connection ctx = record ctx { done = ctx.done + 1 }

abbrev pub no_times : Times
no_times = record { sum = 0; min = 0; max = 0 }

abbrev pub no_stat : SubStat
no_stat = record {
  events = 0;
  connects = 0;
  rcv_msgs = 0;
  completes = 0;
  errors = 0;
  rcv_time = no_times;
}

-- `total`, with `total_avg_time`, and `acc_stat`.
pub record Totals : Type 0 where
  pub rcv_msgs : ℕ
  pub errors : ℕ
  pub min_rcv_time : ℕ
  pub max_rcv_time : ℕ
  pub total_avg_time : ℕ
  pub acc_connects : ℕ
  pub acc_rcv_msgs : ℕ
  pub acc_completes : ℕ
  pub acc_errors : ℕ

abbrev average : SubStat → ℕ
average st = if st.rcv_msgs == 0 then 0 else st.rcv_time.sum / st.rcv_msgs

pub add_stat : SubStat → Totals → Totals
add_stat st t = record {
  rcv_msgs = add64 t.rcv_msgs st.rcv_msgs;
  errors = add64 t.errors st.errors;
  min_rcv_time =
      if t.min_rcv_time == 0 || ltb st.rcv_time.min t.min_rcv_time
      then st.rcv_time.min
      else t.min_rcv_time;
  max_rcv_time = if ltb t.max_rcv_time st.rcv_time.max then st.rcv_time.max else t.max_rcv_time;
  total_avg_time = add64 t.total_avg_time (average st);
  acc_connects = add64 t.acc_connects st.connects;
  acc_rcv_msgs = add64 t.acc_rcv_msgs st.rcv_msgs;
  acc_completes = add64 t.acc_completes st.completes;
  acc_errors = add64 t.acc_errors st.errors;
}

-- The loop over the statistics of the threads, each of which is cleared.
pub print_stats : List SubStat → Totals → Totals × List SubStat
unfolding add_stat
print_stats [] t = (t, [])
print_stats (st ∷ sts) t = let (t', rest) = print_stats sts (add_stat st t) in (t', no_stat ∷ rest)
