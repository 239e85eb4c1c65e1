-- ===== src/Tools/Publishing/Received.antt =====
-- The messages of a client of the publisher tool at a client of the subscriber tool (tools/eppub.c,
-- 453-483, and tools/epsub.c, 169-210 and 469-518).
use mumq.Base.{ℕ, suc, ◌+◌, ◌^◌, ◌≤◌, ◌<◌, ◌≡◌, false, List, [], ◌∷◌, ◌++◌, length, All, arith}
use mumq.Base.Words.{Bytes, add64}
use mumq.Tools.Measure.{Timeval, ThreadContext, MosquittoVar}
use mumq.Tools.Polling.{is_will_disconnect, on_events}
use mumq.Tools.Polling
use mumq.Tools.Polling.Completed.{reads, on_events-closes}
use mumq.Tools.Publisher.{Publisher}
use mumq.Tools.Publishing.{PubContext, closes, on_pub_events}
use mumq.Tools.Publishing.Completed.{writes, IsReady, on_pub_events-closes}

-- The messages with the times at which they come.
abbrev pub with_times : (ℕ → Timeval) → List Bytes → List (Timeval × Bytes)
with_times clock [] = []
with_times clock (m ∷ ms) = (clock 0, m) ∷ with_times (λ n. clock (suc n)) ms

length-with_times :
    (clock : ℕ → Timeval) (ms : List Bytes) → length (with_times clock ms) ≡ length ms
length-with_times clock [] = omega arith
length-with_times clock (m ∷ ms) = omega (arith, length-with_times (λ n. clock (suc n)) ms)

with_times-All :
    (clock : ℕ → Timeval) (k : ℕ) (ms : List Bytes)
    → 32 ≤ k
    → All (λ m. length m ≡ k) ms
    → All (λ (x : Timeval × Bytes). 32 ≤ length x.1) (with_times clock ms)
with_times-All clock k [] h a = tt
with_times-All clock k (m ∷ ms) h (e, a) =
    (omega arith, with_times-All (λ n. clock (suc n)) k ms h a)

module _ (store : Timeval → Bytes) (load : Bytes → Timeval)
    (size : (t : Timeval) → length (store t) ≡ 16) (flows : ℕ) (small : flows < 2 ^ 32) where
  -- A client that waits for as many messages as come is closed, having counted all of them.
  Receives : List Bytes → MosquittoVar → ThreadContext → (ℕ → Timeval) → Type 0
  Receives ms w sub clock =
      (sub' : ThreadContext) × (on_events load flows (reads (with_times clock ms)) w sub
        ≡ Polling.closes sub')
      × (sub'.stat.rcv_msgs ≡ sub.stat.rcv_msgs + length ms)
      × (sub'.stat.completes ≡ add64 sub.stat.completes 1)
      × (sub'.done ≡ sub.done + 1)

  length_positive-Receives :
      (k n : ℕ) (ms : List Bytes) (w : MosquittoVar) (sub : ThreadContext) (clock : ℕ → Timeval)
      → length ms ≡ suc n
      → 32 ≤ k
      → All (λ m. length m ≡ k) ms
      → is_will_disconnect w.mosq_state ≡ false
      → w.msg_count + length ms ≡ flows
      → sub.stat.rcv_msgs + length ms < 2 ^ 64
      → Receives ms w sub clock
  unfolding Receives
  length_positive-Receives k n [] w sub clock e h a on all room = absurd (omega arith)
  length_positive-Receives k n (m ∷ ms) w sub clock e h a on all room =
      let l = length-with_times (λ n. clock (suc n)) ms in
      let (sub', run, rcv, completes, done) =
        on_events-closes load flows (clock 0, m) (with_times (λ n. clock (suc n)) ms) w sub
          (with_times-All clock k (m ∷ ms) h a) on (omega arith) small (omega arith) in
      (sub', run, omega arith, completes, done)

  -- When a time takes 16 bytes and the payload has at least 32: a connected client of the publisher tool
  -- that can write as many times as it has messages to send, each of them with success and one callback, is
  -- closed with the last one and not before, and its thread has counted them. A connected client of the
  -- subscriber tool that waits for as many messages, and reads those that were published, at any times, is
  -- closed with the last one and not before, and its thread has counted as many, one completed client and
  -- one client that is done.
  pub on_pub_events-on_events :
      (now : Timeval) (times : List Timeval) (v : Publisher) (ctx : PubContext) (w : MosquittoVar)
      (sub : ThreadContext) (clock : ℕ → Timeval)
      → 32 ≤ length ctx.payload
      → IsReady v
      → is_will_disconnect w.mosq_state ≡ false
      → v.msg_count + length (now ∷ times) ≡ flows
      → w.msg_count + length (now ∷ times) ≡ flows
      → ctx.stat.snd_msgs + length (now ∷ times) < 2 ^ 64
      → sub.stat.rcv_msgs + length (now ∷ times) < 2 ^ 64
      → (ms : List Bytes) × (ctx' : PubContext) × (sub' : ThreadContext) × (on_pub_events store
            flows
            (writes (now ∷ times))
            v
            ctx
          ≡ closes ctx')
        × (ctx'.published ≡ ctx.published ++ ms)
        × (ctx'.stat.snd_msgs ≡ ctx.stat.snd_msgs + length (now ∷ times))
        × (on_events load flows (reads (with_times clock ms)) w sub ≡ Polling.closes sub')
        × (sub'.stat.rcv_msgs ≡ sub.stat.rcv_msgs + length (now ∷ times))
        × (sub'.stat.completes ≡ add64 sub.stat.completes 1)
        × (sub'.done ≡ sub.done + 1)
  unfolding Receives
  on_pub_events-on_events now times v ctx w sub clock long ready on all all' room room' =
      let (ms, ctx', run, pub_, len, same, snd, completes, done) =
        on_pub_events-closes store size flows now times v ctx long ready all small room in
      let (sub', reads_, rcv, completes', done') =
        length_positive-Receives (length ctx.payload) (length times) ms w sub clock len long same on
          (omega arith) (omega arith) in
      (ms, ctx', sub', run, pub_, snd, reads_, omega arith, completes', done')
