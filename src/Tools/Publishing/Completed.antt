-- ===== src/Tools/Publishing/Completed.antt =====
-- A client that publishes all its messages (tools/eppub.c, 167-183 and 453-483).
use mumq.Base.{
  ℕ, suc, ◌+◌, ◌*◌, ◌%◌, ◌^◌, ◌≤◌, ◌<◌, ◌≡◌, refl, subst, ap, ◌∙◌, true, false, Bool-cases, inl,
  inr, if_true, if_false, Option, some, List, [], ◌∷◌, ◌++◌, ltb, length, length-append,
  length-take, length-drop, take, drop, All, arith,
}
use mathlib.Core.List.{append_assoc}
use mumq.Base.Words.{Bytes, add64}
use mumq.Tools.Measure.{Timeval, timeval_size}
use mumq.Tools.Polling.{is_will_disconnect, is_connecting}
use mumq.Tools.Publisher.{Publisher, PubStat, write_at, my_publish_callback, stamp}
use mumq.Tools.Publishing.{
  PubContext, PubEvent, writable, keeps, closes, close_connection, publish_callbacks, after_publish,
  publish, on_pub_event, then_pub_events, on_pub_events,
}

-- A message is sent at each of the times.
abbrev pub writes : List Timeval → List PubEvent
writes [] = []
writes (now ∷ times) = writable now true true 1 ∷ writes times

length-write_at :
    (start : ℕ) (bs block : Bytes)
    → start + length bs ≤ length block
    → length (write_at start bs block) ≡ length block
length-write_at start bs block h =
    let tail = drop (start + length bs) block in
    omega (
      arith,
      length-append (take start block) (bs ++ tail),
      length-append bs tail,
      length-take start block,
      length-drop (start + length bs) block,
    )

-- The state in which a client may publish.
abbrev pub IsReady : Publisher → Type 0
IsReady v = (is_connecting v.mosq_state ≡ false) × (is_will_disconnect v.mosq_state ≡ false)

module _ (store : Timeval → Bytes) (size : (t : Timeval) → length (store t) ≡ 16) where
  -- A message is as long as the payload, and only `is_publish_st` may change.
  Stamps : Publisher → Bytes → Option (Bytes × Publisher) → Type 0
  Stamps v payload o =
      (m : Bytes) × (v' : Publisher) × (o ≡ some (m, v'))
      × (length m ≡ length payload)
      × (v'.msg_count ≡ v.msg_count)
      × (v'.mosq_state ≡ v.mosq_state)

  stamp-Stamps :
      (now : Timeval) (payload : Bytes) (v : Publisher)
      → 32 ≤ length payload
      → Stamps v payload (stamp store now payload v)
  unfolding stamp Stamps
  stamp-Stamps now payload v h =
      let short : ltb (length payload) timeval_size ≡ false = ground arith in
      let shorter : ltb (length payload) (2 * timeval_size) ≡ false = ground arith in
      let front = write_at 0 (store now) payload in
      let a = length-write_at 0 (store now) payload (omega (arith, size now)) in
      let b =
        length-write_at 16 (store v.connect_time) front (omega (arith, size v.connect_time)) in
      elim (Bool-cases v.is_publish_st) [
        | inl first ↦ (
          write_at 16 (store v.connect_time) front,
          record v { is_publish_st = false },
          if_false _ _ short ∙ if_true _ _ first ∙ if_false _ _ shorter,
          b ∙ a,
          refl,
          refl,
        )
        | inr later ↦ (front, v, if_false _ _ short ∙ if_false _ _ later, a, refl, refl)
      ]

  module _ (flows : ℕ) where
    -- What a message that was sent does to the context.
    Sends : Bytes → PubContext → PubContext → Type 0
    Sends m ctx ctx' =
        (ctx'.published ≡ ctx.published ++ m ∷ [])
        × (length ctx'.payload ≡ length ctx.payload)
        × (length m ≡ length ctx.payload)
        × (ctx'.stat.snd_msgs ≡ add64 ctx.stat.snd_msgs 1)

    on_write-keeps :
        (now : Timeval) (v : Publisher) (ctx : PubContext)
        → 32 ≤ length ctx.payload
        → IsReady v
        → suc v.msg_count < flows
        → flows < 2 ^ 32
        → (m : Bytes) × (v' : Publisher) × (ctx' : PubContext) × (on_pub_event store flows
              (writable now true true 1)
              v
              ctx
            ≡ keeps v' ctx')
          × (v'.msg_count ≡ suc v.msg_count)
          × IsReady v'
          × Sends m ctx ctx'
          × (ctx'.stat.completes ≡ ctx.stat.completes)
          × (ctx'.done ≡ ctx.done)
    unfolding on_pub_event publish after_publish publish_callbacks my_publish_callback Sends Stamps
    on_write-keeps now v ctx long (on, going) more small =
        let (m, v1, e, len, count, state) = stamp-Stamps now ctx.payload v long in
        let next : ((v1.msg_count + 1) % 2 ^ 32) ≡ suc v.msg_count = omega arith in
        let fewer : ltb ((v1.msg_count + 1) % 2 ^ 32) flows ≡ true = ground arith in
        let ctx2 : PubContext = record ctx { payload = m; published = ctx.published ++ m ∷ [] } in
        let counted : PubStat = record ctx.stat { snd_msgs = add64 ctx.stat.snd_msgs 1 } in
        let going' = ap is_will_disconnect state ∙ going in
        (
          m,
          record v1 { msg_count = (v1.msg_count + 1) % 2 ^ 32 },
          record ctx2 { stat = counted },
          if_false _ _ on
              ∙ ap (λ o. publish store flows true 1 o ctx) e
              ∙ ap (λ x. after_publish store flows true x ctx2) (if_true _ _ fewer)
              ∙ if_false _ _ going',
          next,
          (ap is_connecting state ∙ on, going'),
          (refl, len, len, refl),
          refl,
          refl,
        )

    on_write-closes :
        (now : Timeval) (v : Publisher) (ctx : PubContext)
        → 32 ≤ length ctx.payload
        → IsReady v
        → suc v.msg_count ≡ flows
        → flows < 2 ^ 32
        → (m : Bytes) × (ctx' : PubContext) × (on_pub_event store flows
              (writable now true true 1)
              v
              ctx
            ≡ closes ctx')
          × Sends m ctx ctx'
          × (ctx'.stat.completes ≡ add64 ctx.stat.completes 1)
          × (ctx'.done ≡ ctx.done + 1)
    unfolding on_pub_event publish after_publish publish_callbacks my_publish_callback Sends Stamps
    on_write-closes now v ctx long (on, going) last small =
        let (m, v1, e, len, count, state) = stamp-Stamps now ctx.payload v long in
        let over : ltb ((v1.msg_count + 1) % 2 ^ 32) flows ≡ false = ground arith in
        let ctx2 : PubContext = record ctx { payload = m; published = ctx.published ++ m ∷ [] } in
        let counted : PubStat = record ctx.stat {
          snd_msgs = add64 ctx.stat.snd_msgs 1;
          completes = add64 ctx.stat.completes 1;
        } in
        (
          m,
          close_connection (record ctx2 { stat = counted }),
          if_false _ _ on
              ∙ ap (λ o. publish store flows true 1 o ctx) e
              ∙ ap (λ x. after_publish store flows true x ctx2) (if_false _ _ over),
          (refl, len, len, refl),
          refl,
          refl,
        )

    -- When a time takes 16 bytes and the payload has at least 32: a connected client of the publisher tool
    -- that can write as many times as it has messages to send, each of them with success and one callback,
    -- is closed with the last one and not before. It then published that many messages, each as long as the
    -- payload, and the thread has counted them, one completed client and one client that is done.
    pub on_pub_events-closes :
        (now : Timeval) (times : List Timeval) (v : Publisher) (ctx : PubContext)
        → 32 ≤ length ctx.payload
        → IsReady v
        → v.msg_count + length (now ∷ times) ≡ flows
        → flows < 2 ^ 32
        → ctx.stat.snd_msgs + length (now ∷ times) < 2 ^ 64
        → (ms : List Bytes) × (ctx' : PubContext) × (on_pub_events store flows
              (writes (now ∷ times))
              v
              ctx
            ≡ closes ctx')
          × (ctx'.published ≡ ctx.published ++ ms)
          × (length ms ≡ length (now ∷ times))
          × All (λ m. length m ≡ length ctx.payload) ms
          × (ctx'.stat.snd_msgs ≡ ctx.stat.snd_msgs + length (now ∷ times))
          × (ctx'.stat.completes ≡ add64 ctx.stat.completes 1)
          × (ctx'.done ≡ ctx.done + 1)
    unfolding on_pub_events then_pub_events Sends
    on_pub_events-closes now [] v ctx long ready all small room =
        let (m, ctx', run, (pub_, len, same, snd), complete, done) =
          on_write-closes now v ctx long ready (omega arith) small in
        (
          m ∷ [],
          ctx',
          ap (λ r. then_pub_events store flows r (on_pub_events store flows [])) run,
          pub_,
          refl,
          (same, tt),
          omega arith,
          complete,
          done,
        )
    on_pub_events-closes now (next ∷ times) v ctx long ready all small room =
        let (m, v1, ctx1, run, count, ready1, (pub_, len, same, snd), complete, done) =
          on_write-keeps now v ctx long ready (omega arith) small in
        let (ms, ctx', runs, pubs, lens, sames, snd', complete', done') =
          on_pub_events-closes next times v1 ctx1 (omega arith) ready1 (omega arith) small
            (omega arith) in
        (
          m ∷ ms,
          ctx',
          ap
                (λ r.
                  then_pub_events store flows r (on_pub_events store flows (writes (next ∷ times))))
                run
              ∙ runs,
          pubs ∙ ap (λ l. l ++ ms) pub_ ∙ append_assoc ctx.published (m ∷ []) ms,
          ap suc lens,
          (same, subst (λ k. All (λ b. length b ≡ k) ms) len sames),
          omega arith,
          complete' ∙ ap (λ k. add64 k 1) complete,
          omega arith,
        )
