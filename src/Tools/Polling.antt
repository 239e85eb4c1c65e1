-- ===== src/Tools/Polling.antt =====
-- The events of a connection in `RunMain` of tools/epsub.c, 469-518. What the calls of mosquitto return,
-- and which callbacks they run, comes with the event.
pub mod Completed
pub mod Kept
use mumq.Base.{ℕ, ◌+◌, Bool, true, false, Option, none, some, List, [], ◌∷◌, ◌&&◌, if◌then◌else◌}
use mumq.Base.Words.{Bytes, add64}
use mumq.Tools.Measure.{
  Timeval, MosquittoState, will_disconnect, connecting, ThreadContext, MosquittoVar,
  my_connect_callback, my_message_callback, close_connection,
}

-- The callbacks of a read: a CONNACK with its code, or a message with the time of the clock.
pub data Callback : Type 0 where
  connack : ℕ → Callback
  message : Timeval → Bytes → Callback

pub data PollEvent : Type 0 where
  broken other : PollEvent
  readable : List Callback → (success : Bool) → PollEvent
  writable : (subscribed written : Bool) → PollEvent

-- The connection stays, or it is closed and freed; or freed memory is read, or a payload past its end, or an
-- assertion fails.
pub data Polled : Type 0 where
  keeps : MosquittoVar → ThreadContext → Polled
  closes : ThreadContext → Polled
  reads_freed reads_past aborts : Polled

abbrev pub is_will_disconnect : MosquittoState → Bool
is_will_disconnect will_disconnect = true
is_will_disconnect _ = false

abbrev pub is_connecting : MosquittoState → Bool
is_connecting connecting = true
is_connecting _ = false

abbrev failed : ThreadContext → ThreadContext
failed ctx = record ctx { stat = record ctx.stat { errors = add64 ctx.stat.errors 1 } }

module _ (load : Bytes → Timeval) (flows_per_con : ℕ) where
  callback : Callback → MosquittoVar → ThreadContext → Option (MosquittoVar × ThreadContext)
  callback (connack result) v ctx = some (my_connect_callback result v ctx)
  callback (message now payload) v ctx = my_message_callback load flows_per_con now payload v ctx

  and_then :
      Option (MosquittoVar × ThreadContext)
      → (MosquittoVar → ThreadContext → Option (MosquittoVar × ThreadContext))
      → Option (MosquittoVar × ThreadContext)
  and_then none k = none
  and_then (some (v, ctx)) k = k v ctx

  callbacks : List Callback → MosquittoVar → ThreadContext → Option (MosquittoVar × ThreadContext)
  unfolding callback and_then
  callbacks [] v ctx = some (v, ctx)
  callbacks (c ∷ cs) v ctx = and_then (callback c v ctx) (callbacks cs)

  -- After a failed read the connection is closed, and then its state is read.
  after_loop_read : Bool → Option (MosquittoVar × ThreadContext) → Polled
  after_loop_read success none = reads_past
  after_loop_read false (some (v, ctx)) = reads_freed
  after_loop_read true (some (v, ctx)) =
      if is_will_disconnect v.mosq_state then closes (close_connection ctx) else keeps v ctx

  -- After an error the connection is closed, and then its `fd` is read.
  pub on_event : PollEvent → MosquittoVar → ThreadContext → Polled
  unfolding callbacks after_loop_read
  on_event broken v ctx = reads_freed
  on_event other v ctx = aborts
  on_event (readable cs success) v ctx = after_loop_read success (callbacks cs v ctx)
  on_event (writable subscribed written) v ctx =
      if is_connecting v.mosq_state
      then keeps v ctx
      else if subscribed && written
      then keeps v ctx
      else closes (close_connection (failed ctx))

  then_events : Polled → (MosquittoVar → ThreadContext → Polled) → Polled
  then_events (keeps v ctx) k = k v ctx
  then_events x k = x

  -- The events of one connection, until it is closed.
  pub on_events : List PollEvent → MosquittoVar → ThreadContext → Polled
  unfolding on_event then_events
  on_events [] v ctx = keeps v ctx
  on_events (e ∷ es) v ctx = then_events (on_event e v ctx) (on_events es)
