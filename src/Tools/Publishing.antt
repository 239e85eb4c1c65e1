-- ===== src/Tools/Publishing.antt =====
-- The events of a connection in `RunMain` of tools/eppub.c, 429-487, and its `PrintStats`. What mosquitto does
-- comes with the event.
pub mod Completed
pub mod Received
use mumq.Base.{
  ℕ, zero, suc, ◌+◌, Bool, true, false, ◌&&◌, Option, none, some, List, [], ◌∷◌, ◌++◌, ◌==◌,
  if◌then◌else◌,
}
use mumq.Base.Words.{Bytes, add64}
use mumq.Tools.Measure.{Timeval, Times, MosquittoState, conacked}
use mumq.Tools.Polling.{is_will_disconnect, is_connecting}
use mumq.Tools.Publisher.{Publisher, PubStat, my_publish_callback, stamp}

-- `published` is what `mosquitto_publish` was called with so far.
pub record PubContext : Type 0 where
  pub core : ℕ
  pub started : ℕ
  pub done : ℕ
  pub payload : Bytes
  pub stat : PubStat
  pub con_time : Times
  pub published : List Bytes

-- A socket that can be read, with the codes of the CONNACKs that come; and one that can be written, at a
-- time of the clock, with the number of calls of `my_publish_callback`.
pub data PubEvent : Type 0 where
  broken other : PubEvent
  readable : List ℕ → (success : Bool) → PubEvent
  writable : Timeval → (published written : Bool) → (callbacks : ℕ) → PubEvent

pub data PubPolled : Type 0 where
  keeps : Publisher → PubContext → PubPolled
  closes : PubContext → PubPolled
  writes_past aborts : PubPolled

abbrev pub close_connection : PubContext → PubContext
close_connection ctx = record ctx { done = ctx.done + 1 }

abbrev pub failed : PubContext → PubContext
failed ctx = record ctx { stat = record ctx.stat { errors = add64 ctx.stat.errors 1 } }

abbrev pub my_connect_callback : ℕ → Publisher × PubContext → Publisher × PubContext
my_connect_callback result (v, ctx) =
    if result == 0
    then (
      record v { mosq_state = conacked },
      record ctx { stat = record ctx.stat { connects = add64 ctx.stat.connects 1 } },
    )
    else (v, ctx)

abbrev pub connacks : List ℕ → Publisher × PubContext → Publisher × PubContext
connacks [] x = x
connacks (result ∷ results) x = connacks results (my_connect_callback result x)

abbrev pub after_read : Bool → Publisher × PubContext → PubPolled
after_read success (v, ctx) =
    if success then keeps v ctx else closes (close_connection (failed ctx))

module _ (store : Timeval → Bytes) (flows_per_con : ℕ) where
  publish_callbacks : ℕ → Publisher → PubStat → Publisher × PubStat
  publish_callbacks zero v st = (v, st)
  publish_callbacks (suc n) v st =
      let (v', st') = my_publish_callback flows_per_con v st in publish_callbacks n v' st'

  -- 469-485
  after_publish : Bool → Publisher × PubStat → PubContext → PubPolled
  after_publish sent (v, st) ctx =
      let ctx' : PubContext = record ctx { stat = st } in
      if sent
      then (if is_will_disconnect v.mosq_state
          then closes (close_connection ctx')
          else keeps v ctx')
      else closes (close_connection (failed ctx'))

  publish : Bool → ℕ → Option (Bytes × Publisher) → PubContext → PubPolled
  unfolding after_publish publish_callbacks
  publish sent n none ctx = writes_past
  publish sent n (some (payload, v)) ctx =
      after_publish sent (publish_callbacks n v ctx.stat)
        (record ctx { payload = payload; published = ctx.published ++ payload ∷ [] })

  on_pub_event : PubEvent → Publisher → PubContext → PubPolled
  unfolding publish
  on_pub_event broken v ctx = closes (close_connection (failed ctx))
  on_pub_event other v ctx = aborts
  on_pub_event (readable results success) v ctx = after_read success (connacks results (v, ctx))
  on_pub_event (writable now published written n) v ctx =
      if is_connecting v.mosq_state
      then keeps v ctx
      else publish (published && written) n (stamp store now ctx.payload v) ctx

  then_pub_events : PubPolled → (Publisher → PubContext → PubPolled) → PubPolled
  then_pub_events (keeps v ctx) k = k v ctx
  then_pub_events x k = x

  -- The events of one connection, until it is closed.
  pub on_pub_events : List PubEvent → Publisher → PubContext → PubPolled
  unfolding on_pub_event then_pub_events
  on_pub_events [] v ctx = keeps v ctx
  on_pub_events (e ∷ es) v ctx = then_pub_events (on_pub_event e v ctx) (on_pub_events es)

-- `total.snd_msgs` and `total.errors`, and `acc_stat`.
pub record PubTotals : Type 0 where
  pub snd_msgs : ℕ
  pub errors : ℕ
  pub acc : PubStat

abbrev pub no_pub_stat : PubStat
no_pub_stat = record { connects = 0; snd_msgs = 0; completes = 0; errors = 0 }

abbrev pub add_pub_stat : PubStat → PubTotals → PubTotals
add_pub_stat st t = record {
  snd_msgs = add64 t.snd_msgs st.snd_msgs;
  errors = add64 t.errors st.errors;
  acc = record {
    connects = add64 t.acc.connects st.connects;
    snd_msgs = add64 t.acc.snd_msgs st.snd_msgs;
    completes = add64 t.acc.completes st.completes;
    errors = add64 t.acc.errors st.errors;
  };
}

-- The loop of `PrintStats` over the threads, each of which is cleared.
pub print_pub_stats : List PubStat → PubTotals → PubTotals × List PubStat
print_pub_stats [] t = (t, [])
print_pub_stats (st ∷ sts) t =
    let (t', rest) = print_pub_stats sts (add_pub_stat st t) in (t', no_pub_stat ∷ rest)
