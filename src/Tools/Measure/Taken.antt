-- ===== src/Tools/Measure/Taken.antt =====
-- What a message does to the counts of the subscriber tool, in microseconds (tools/epsub.c, 169-210).
use mumq.Base.{
  ℕ, ◌+◌, ◌-◌, ◌*◌, ◌%◌, ◌^◌, ◌<◌, ◌≢◌, ◌⊎◌, ◌↔◌, inl, inr, refl, Bool, ◌==◌, ==_iff, if◌then◌else◌,
  ◌≤◌, ◌≡◌, true, false, arith,
}
use mumq.Base.Words.{add64}
use native.Mathlib.Decide.{dec_lt}
use mumq.Tools.Measure.{
  Timeval, time_diff, noted, Times, will_disconnect, ThreadContext, MosquittoVar, completed,
  counted, received,
}

-- A time in microseconds.
abbrev pub micros : Timeval → ℕ
micros t = t.tv_sec * 1000000 + t.tv_usec

-- A time as the clock gives it: the microseconds are less than a second, and 64 bits hold it.
abbrev pub IsTime : Timeval → Type 0
IsTime t = (t.tv_usec < 1000000) × (micros t < 2 ^ 64)

pub time_diff_lem :
    (now then_ : Timeval)
    → IsTime now
    → IsTime then_
    → micros then_ ≤ micros now
    → time_diff now then_ ≡ micros now - micros then_
time_diff_lem now then_ (small, all) (small', all') h = omega arith

-- The duration `d` counted in: added in 64 bits, the least lowered to it when there was none or a greater one,
-- the greatest raised to it when it is less.
abbrev pub Counts : ℕ → Times → Times → Type 0
Counts d t t' =
    (t'.sum ≡ (t.sum + d) % 2 ^ 64)
    × (((t.min ≡ 0) × (t'.min ≡ d))
        ⊎ ((0 < t.min) × (t'.min ≤ t.min) × (t'.min ≤ d) × ((t'.min ≡ d) ⊎ (t'.min ≡ t.min))))
    × (t.max ≤ t'.max)
    × (d ≤ t'.max)
    × ((t'.max ≡ d) ⊎ (t'.max ≡ t.max))

noted-Counts : (d : ℕ) (t : Times) → Counts d t (noted d t)
unfolding noted
noted-Counts d t = (omega arith, least, ground arith, ground arith, most)
  where
    least :
        ((t.min ≡ 0) × ((noted d t).min ≡ d))
        ⊎ ((0 < t.min)
            × ((noted d t).min ≤ t.min)
            × ((noted d t).min ≤ d)
            × (((noted d t).min ≡ d) ⊎ ((noted d t).min ≡ t.min)))
    least = elim (dec_lt 0 t.min) [
      | yes pos ↦ elim (dec_lt d t.min) [
        | yes l ↦ inr (pos, ground arith, ground arith, inl (ground arith))
        | no g ↦ inr (pos, ground arith, ground arith, inr (ground arith))
      ]
      | no z ↦ inl (omega arith, ground arith)
    ]

    most : ((noted d t).max ≡ d) ⊎ ((noted d t).max ≡ t.max)
    most = elim (dec_lt t.max d) [ yes l ↦ inl (ground arith) | no g ↦ inr (ground arith) ]

-- The client ends with the last of `flows` messages, and is counted then.
abbrev pub Ends : ℕ → MosquittoVar → ThreadContext → MosquittoVar → ThreadContext → Type 0
Ends flows v ctx v' ctx' =
    ((v'.msg_count ≡ flows)
      × (v'.mosq_state ≡ will_disconnect)
      × (ctx'.stat.completes ≡ (ctx.stat.completes + 1) % 2 ^ 64))
    ⊎ ((v'.msg_count ≢ flows)
        × (v'.mosq_state ≡ v.mosq_state)
        × (ctx'.stat.completes ≡ ctx.stat.completes))

-- A message that was `d` on its way, the first of its client, which `e` ago began to connect.
abbrev pub Takes : ℕ → ℕ → ℕ → MosquittoVar → ThreadContext → MosquittoVar × ThreadContext → Type 0
Takes flows d e v ctx r =
    (r.0.msg_count ≡ (v.msg_count + 1) % 2 ^ 32)
    × (r.0.is_recv_st ≡ false)
    × (r.1.stat.rcv_msgs ≡ (ctx.stat.rcv_msgs + 1) % 2 ^ 64)
    × Counts d ctx.stat.rcv_time r.1.stat.rcv_time
    × Counts e ctx.rcv_con_time r.1.rcv_con_time
    × Ends flows v ctx r.0 r.1

-- What the callback makes of them before it looks whether the client is done.
abbrev pub taken : ℕ → ℕ → MosquittoVar → ThreadContext → MosquittoVar × ThreadContext
taken d e v ctx = (
  record (counted v) { is_recv_st = false },
  record (received d ctx) { rcv_con_time = noted e ctx.rcv_con_time },
)

if-Takes :
    (c : Bool) (flows d e : ℕ) (v : MosquittoVar) (ctx : ThreadContext)
    → ((c ≡ true) ↔ ((v.msg_count + 1) % 2 ^ 32 ≡ flows))
    → Takes flows d e v ctx (
        if c
        then (
          record (taken d e v ctx).0 { mosq_state = will_disconnect },
          record (taken d e v ctx).1 {
            stat = record (taken d e v ctx).1.stat { completes = add64 ctx.stat.completes 1 };
          },
        )
        else taken d e v ctx)
if-Takes true flows d e v ctx iff = (
  refl,
  refl,
  omega arith,
  noted-Counts d ctx.stat.rcv_time,
  noted-Counts e ctx.rcv_con_time,
  inl (iff.0 refl, refl, omega arith),
)
if-Takes false flows d e v ctx iff = (
  refl,
  refl,
  omega arith,
  noted-Counts d ctx.stat.rcv_time,
  noted-Counts e ctx.rcv_con_time,
  inr ((λ z. cc (iff.1 z)), refl, refl),
)

pub completed-Takes :
    (flows d e : ℕ) (v : MosquittoVar) (ctx : ThreadContext)
    → Takes flows d e v ctx (completed flows (taken d e v ctx))
completed-Takes flows d e v ctx =
    if-Takes ((v.msg_count + 1) % 2 ^ 32 == flows) flows d e v ctx
      (==_iff ((v.msg_count + 1) % 2 ^ 32) flows)
