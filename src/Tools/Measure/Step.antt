-- ===== src/Tools/Measure/Step.antt =====
-- One message at the subscriber tool (tools/epsub.c, 169-210).
use mumq.Base.{
  ℕ, ◌+◌, ◌%◌, ◌^◌, ◌≤◌, ◌≡◌, refl, ap, ◌∙◌, true, false, inl, inr, Bool-cases, if_true, if_false,
  some, ltb, length, take, arith,
}
use mumq.Base.Words.{Bytes, add64}
use mumq.Tools.Measure.{
  Timeval, time_diff, ThreadContext, MosquittoVar, my_message_callback, first_time, then_completed,
  completed, counted, received,
}

module _ (load : Bytes → Timeval) where
  first_time-some :
      (now : Timeval) (payload : Bytes) (v : MosquittoVar) (ctx : ThreadContext)
      → 32 ≤ length payload
      → (v' : MosquittoVar) × (ctx' : ThreadContext) × (first_time load now payload v ctx
          ≡ some (v', ctx'))
        × (v'.msg_count ≡ v.msg_count)
        × (v'.mosq_state ≡ v.mosq_state)
        × (ctx'.stat ≡ ctx.stat)
        × (ctx'.done ≡ ctx.done)
  unfolding first_time
  first_time-some now payload v ctx h =
      let two : ltb (length payload) 32 ≡ false = ground arith in
      elim (Bool-cases v.is_recv_st) [
        | inl e ↦ (_, _, if_true _ _ e ∙ if_false _ _ two, refl, refl, refl, refl)
        | inr e ↦ (_, _, if_false _ _ e, refl, refl, refl, refl)
      ]

  -- A message of at least 32 bytes is counted, and then the client is looked at.
  pub my_message_callback-completed :
      (flows : ℕ) (now : Timeval) (payload : Bytes) (v : MosquittoVar) (ctx : ThreadContext)
      → 32 ≤ length payload
      → (v' : MosquittoVar) × (ctx' : ThreadContext) × (my_message_callback load flows now payload v
            ctx
          ≡ some (completed flows (v', ctx')))
        × (v'.msg_count ≡ (v.msg_count + 1) % 2 ^ 32)
        × (v'.mosq_state ≡ v.mosq_state)
        × (ctx'.stat.rcv_msgs ≡ add64 ctx.stat.rcv_msgs 1)
        × (ctx'.stat.completes ≡ ctx.stat.completes)
        × (ctx'.done ≡ ctx.done)
  unfolding my_message_callback then_completed
  my_message_callback-completed flows now payload v ctx h =
      let long : ltb 16 (length payload) ≡ true = ground arith in
      let ctx1 = received (time_diff now (load (take 16 payload))) ctx in
      let (v', ctx', run, count, state, stat, done) =
        first_time-some now payload (counted v) ctx1 h in
      (
        v',
        ctx',
        ap (then_completed load flows) (if_true _ _ long ∙ run),
        count,
        state,
        ap (λ s. s.rcv_msgs) stat,
        ap (λ s. s.completes) stat,
        done,
      )
