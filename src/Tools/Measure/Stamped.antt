-- ===== src/Tools/Measure/Stamped.antt =====
-- A message of the publisher tool at the subscriber tool (tools/eppub.c, 461-468, tools/epsub.c, 169-210).
use mumq.Base.{
  ℕ, ◌+◌, ◌-◌, ◌≤◌, ◌≡◌, ap, sym, ◌∙◌, true, false, if_true, if_false, some, ◌++◌, ltb, length,
  length-append, take, drop, take-append_length, drop-append_length, arith,
}
use mumq.Base.Words.{Bytes}
use mumq.Tools.Measure.{
  Timeval, time_diff, ThreadContext, MosquittoVar, my_message_callback, first_time, then_completed,
  completed,
}
use mumq.Tools.Publisher.{Publisher, write_at, stamp}
use mumq.Tools.Measure.Taken.{micros, IsTime, time_diff_lem, Takes, taken, completed-Takes}

-- Two blocks of 16 bytes at the front.
take_first : (xs ys : Bytes) → length xs ≡ 16 → take 16 (xs ++ ys) ≡ xs
take_first xs ys e = ap (λ n. take n (xs ++ ys)) (sym e) ∙ take-append_length xs ys

drop_first : (xs ys : Bytes) → length xs ≡ 16 → drop 16 (xs ++ ys) ≡ ys
drop_first xs ys e = ap (λ n. drop n (xs ++ ys)) (sym e) ∙ drop-append_length xs ys

module _ (store : Timeval → Bytes) (load : Bytes → Timeval)
    (size : (t : Timeval) → length (store t) ≡ 16)
    (stored : (t : Timeval) → load (store t) ≡ t) where
  -- The message with both times.
  both : Timeval → Timeval → Bytes → Bytes
  both sent started payload = write_at 16 (store started) (write_at 0 (store sent) payload)

  both-append :
      (sent started : Timeval) (payload : Bytes)
      → 32 ≤ length payload
      → (rest : Bytes) × (both sent started payload ≡ store sent ++ (store started ++ rest))
  unfolding both
  both-append sent started payload h =
      let front = write_at 0 (store sent) payload in
      (
        drop (16 + length (store started)) front,
        ap (λ xs. xs ++ (store started ++ drop (16 + length (store started)) front))
            (take_first (store sent) (drop (0 + length (store sent)) payload) (size sent)),
      )

  length-both :
      (sent started : Timeval) (payload : Bytes)
      → 32 ≤ length payload
      → 32 ≤ length (both sent started payload)
  length-both sent started payload h =
      let (rest, e) = both-append sent started payload h in
      let a = ap length e in
      let b = length-append (store sent) (store started ++ rest) in
      let c = length-append (store started) rest in
      let d = size sent in let f = size started in omega arith

  load-both :
      (sent started : Timeval) (payload : Bytes)
      → 32 ≤ length payload
      → load (take 16 (both sent started payload)) ≡ sent
  load-both sent started payload h =
      let (rest, e) = both-append sent started payload h in
      ap (λ xs. load (take 16 xs)) e
      ∙ ap load (take_first (store sent) (store started ++ rest) (size sent))
      ∙ stored sent

  load-both_second :
      (sent started : Timeval) (payload : Bytes)
      → 32 ≤ length payload
      → load (take 16 (drop 16 (both sent started payload))) ≡ started
  load-both_second sent started payload h =
      let (rest, e) = both-append sent started payload h in
      ap (λ xs. load (take 16 (drop 16 xs))) e
      ∙ ap (λ xs. load (take 16 xs)) (drop_first (store sent) (store started ++ rest) (size sent))
      ∙ ap load (take_first (store started) rest (size started))
      ∙ stored started

  my_message_callback-both :
      (sent now : Timeval) (payload : Bytes) (p : Publisher) (flows : ℕ) (v : MosquittoVar)
      (ctx : ThreadContext)
      → 32 ≤ length payload
      → v.is_recv_st ≡ true
      → my_message_callback load flows now (both sent p.connect_time payload) v ctx
        ≡ some (completed flows (taken (time_diff now sent) (time_diff now p.connect_time) v ctx))
  unfolding both my_message_callback first_time then_completed
  my_message_callback-both sent now payload p flows v ctx h on =
      let message = both sent p.connect_time payload in
      let l = length-both sent p.connect_time payload h in
      let long : ltb 16 (length message) ≡ true = ground arith in
      let two : ltb (length message) 32 ≡ false = ground arith in
      let second = load (take 16 (drop 16 message)) in
      ap (then_completed load flows) (
        if_true _ _ long
        ∙ if_true _ _ on
        ∙ if_false _ _ two
        ∙ ap (λ t. some (taken (time_diff now t) (time_diff now second) v ctx))
            (load-both sent p.connect_time payload h)
        ∙ ap (λ t. some (taken (time_diff now sent) (time_diff now t) v ctx))
            (load-both_second sent p.connect_time payload h))

  -- When the machine reads a time back as it was written, in 16 bytes, and the clock did not go back: the
  -- first message of a client of the publisher tool, of at least 32 bytes, is sent with the time. When it is
  -- also the first message of its client of the subscriber tool, that counts the message once, adds the time
  -- since it was sent to the one sum and the time since the publisher began to connect to the other, in
  -- microseconds, with the least and the greatest of each, and ends the client exactly when that was the last
  -- message it waits for.
  pub my_message_callback-stamp :
      (sent now : Timeval) (payload : Bytes) (p : Publisher) (flows : ℕ) (v : MosquittoVar)
      (ctx : ThreadContext)
      → 32 ≤ length payload
      → p.is_publish_st ≡ true
      → v.is_recv_st ≡ true
      → IsTime now
      → IsTime sent
      → IsTime p.connect_time
      → micros sent ≤ micros now
      → micros p.connect_time ≤ micros now
      → (message : Bytes) × (p' : Publisher) × (r : MosquittoVar × ThreadContext) × (stamp store
            sent payload p
          ≡ some (message, p'))
        × (my_message_callback load flows now message v ctx ≡ some r)
        × Takes flows (micros now - micros sent) (micros now - micros p.connect_time) v ctx r
  unfolding both stamp
  my_message_callback-stamp sent now payload p flows v ctx h first on is is_sent is_started after
        after' =
      let full : ltb (length payload) 16 ≡ false = ground arith in
      let room : ltb (length payload) 32 ≡ false = ground arith in
      let d = time_diff_lem now sent is is_sent after in
      let e = time_diff_lem now p.connect_time is is_started after' in
      (
        both sent p.connect_time payload,
        record p { is_publish_st = false },
        completed flows
            (taken (micros now - micros sent) (micros now - micros p.connect_time) v ctx),
        if_false _ _ full ∙ if_true _ _ first ∙ if_false _ _ room,
        my_message_callback-both sent now payload p flows v ctx h on
            ∙ ap (λ t. some (completed flows (taken t (time_diff now p.connect_time) v ctx))) d
            ∙ ap (λ t. some (completed flows (taken (micros now - micros sent) t v ctx))) e,
        completed-Takes flows (micros now - micros sent) (micros now - micros p.connect_time) v ctx,
      )
