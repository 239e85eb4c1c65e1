-- ===== src/Tools/Polling/Completed.antt =====
-- A client that gets all its messages (tools/epsub.c, 169-210 and 469-518).
use mumq.Base.{
  ℕ, suc, ◌+◌, ◌^◌, ◌≤◌, ◌<◌, ◌≡◌, ap, ◌∙◌, true, false, if_true, if_false, some, List, [], ◌∷◌,
  ◌==◌, length, All, arith,
}
use mumq.Base.Words.{Bytes, add64}
use mumq.Tools.Measure.{Timeval, ThreadContext, MosquittoVar}
use mumq.Tools.Measure.Step.{my_message_callback-completed}
use mumq.Tools.Polling.{
  message, PollEvent, readable, keeps, closes, is_will_disconnect, callback, callbacks, and_then,
  after_loop_read, on_event, then_events, on_events,
}

-- A read for each message.
abbrev pub reads : List (Timeval × Bytes) → List PollEvent
reads [] = []
reads ((now, payload) ∷ ms) = readable (message now payload ∷ []) true ∷ reads ms

module _ (load : Bytes → Timeval) (flows : ℕ) where
  -- A read that is not the last one, and the last one.
  on_event-keeps :
      (now : Timeval) (payload : Bytes) (v : MosquittoVar) (ctx : ThreadContext)
      → 32 ≤ length payload
      → is_will_disconnect v.mosq_state ≡ false
      → suc v.msg_count < flows
      → flows < 2 ^ 32
      → (v' : MosquittoVar) × (ctx' : ThreadContext) × (on_event load flows
            (readable (message now payload ∷ []) true)
            v
            ctx
          ≡ keeps v' ctx')
        × (v'.msg_count ≡ suc v.msg_count)
        × (is_will_disconnect v'.mosq_state ≡ false)
        × (ctx'.stat.rcv_msgs ≡ add64 ctx.stat.rcv_msgs 1)
        × (ctx'.stat.completes ≡ ctx.stat.completes)
        × (ctx'.done ≡ ctx.done)
  unfolding on_event callbacks callback and_then after_loop_read
  on_event-keeps now payload v ctx long on more small =
      let (v', ctx', run, count, state, rcv, complete, done) =
        my_message_callback-completed load flows now payload v ctx long in
      let not_yet : (v'.msg_count == flows) ≡ false = ground arith in
      let on' : is_will_disconnect v'.mosq_state ≡ false = ap is_will_disconnect state ∙ on in
      (
        v',
        ctx',
        ap (λ r. after_loop_read load flows true (and_then load flows r (callbacks load flows [])))
              (run ∙ ap some (if_false _ _ not_yet))
            ∙ if_false _ _ on',
        omega arith,
        on',
        rcv,
        complete,
        done,
      )

  on_event-closes :
      (now : Timeval) (payload : Bytes) (v : MosquittoVar) (ctx : ThreadContext)
      → 32 ≤ length payload
      → suc v.msg_count ≡ flows
      → flows < 2 ^ 32
      → (ctx' : ThreadContext) × (on_event load flows
            (readable (message now payload ∷ []) true)
            v
            ctx
          ≡ closes ctx')
        × (ctx'.stat.rcv_msgs ≡ add64 ctx.stat.rcv_msgs 1)
        × (ctx'.stat.completes ≡ add64 ctx.stat.completes 1)
        × (ctx'.done ≡ ctx.done + 1)
  unfolding on_event callbacks callback and_then after_loop_read
  on_event-closes now payload v ctx long last small =
      let (v', ctx', run, count, state, rcv, complete, done) =
        my_message_callback-completed load flows now payload v ctx long in
      let now_last : (v'.msg_count == flows) ≡ true = ground arith in
      (
        _,
        ap (λ r. after_loop_read load flows true (and_then load flows r (callbacks load flows [])))
            (run ∙ ap some (if_true _ _ now_last)),
        rcv,
        ap (λ n. add64 n 1) complete,
        ap (λ n. n + 1) done,
      )

  -- A connected client of the subscriber tool that waits for as many messages as come, each read by a call of
  -- its own that succeeds and of at least 32 bytes, is closed with the last one and not before: the thread has
  -- then counted all of them, one completed client and one client that is done.
  pub on_events-closes :
      (m : Timeval × Bytes) (ms : List (Timeval × Bytes)) (v : MosquittoVar) (ctx : ThreadContext)
      → All (λ (x : Timeval × Bytes). 32 ≤ length x.1) (m ∷ ms)
      → is_will_disconnect v.mosq_state ≡ false
      → v.msg_count + length (m ∷ ms) ≡ flows
      → flows < 2 ^ 32
      → ctx.stat.rcv_msgs + length (m ∷ ms) < 2 ^ 64
      → (ctx' : ThreadContext) × (on_events load flows (reads (m ∷ ms)) v ctx ≡ closes ctx')
        × (ctx'.stat.rcv_msgs ≡ ctx.stat.rcv_msgs + length (m ∷ ms))
        × (ctx'.stat.completes ≡ add64 ctx.stat.completes 1)
        × (ctx'.done ≡ ctx.done + 1)
  unfolding on_events then_events
  on_events-closes (now, payload) [] v ctx (long, h) on all small room =
      let (ctx', run, rcv, complete, done) =
        on_event-closes now payload v ctx long (omega arith) small in
      (
        ctx',
        ap (λ r. then_events load flows r (on_events load flows [])) run,
        omega arith,
        complete,
        done,
      )
  on_events-closes (now, payload) (n ∷ ms) v ctx (long, h) on all small room =
      let (v1, ctx1, run, count, on1, rcv, complete, done) =
        on_event-keeps now payload v ctx long on (omega arith) small in
      let (ctx', runs, rcv', complete', done') =
        on_events-closes n ms v1 ctx1 h on1 (omega arith) small (omega arith) in
      (
        ctx',
        ap (λ r. then_events load flows r (on_events load flows (reads (n ∷ ms)))) run ∙ runs,
        omega arith,
        complete' ∙ ap (λ k. add64 k 1) complete,
        omega arith,
      )
