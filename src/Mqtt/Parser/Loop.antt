-- ===== src/Mqtt/Parser/Loop.antt =====
-- The loop of the parser of broker/mqtt.c, 146-372: that it ends, and that it stays inside the payload.
use mumq.Base.{ℕ, zero, suc, ◌^◌, ◌≤◌, ◌<◌, ◌≡◌, ◌≢◌, refl, sym, ap, ◌∙◌, false, arith, length}
use mumq.Base.Words.{Bytes}
use mumq.Mqtt.Kind
use mumq.Mqtt.Parser.{
  subscribe_topic_name, Cursor, Step, go, ret, fault, Outcome, returned, crashed, out_of_fuel,
  outcome, step_in, run,
}
use mumq.Mqtt.Parser.Bounds.{IsInside, step_in-IsInside}
use mumq.Mqtt.Parser.Goes.{rank, in_subscribe, in_header, Goes, step_in-Goes, rank_pos}

pub run-suc :
    (input : Bytes) (len fuel : ℕ) (c : Cursor)
    → run input len (suc fuel) c ≡ outcome (step_in input len c.state c) (run input len fuel)
unfolding run
run-suc input len fuel c = refl

-- From every state but `variable_header` the loop ends: eleven rounds are enough.
pub run-ne-out_of_fuel :
    (input : Bytes) (len fuel : ℕ) (c : Cursor)
    → in_header c.state ≡ false
    → rank c.state ≤ fuel
    → run input len fuel c ≢ out_of_fuel
run-ne-out_of_fuel input len zero c h r = absurd (rank_pos c.state (omega arith))
run-ne-out_of_fuel input len (suc fuel) c h r = rw (run-suc input len fuel c) (
    by_step (λ c' h' r'. run-ne-out_of_fuel input len fuel c' h' r') (step_in input len c.state c)
      (step_in-Goes input len c.state c h))
  where
    by_step :
        ((c' : Cursor)
          → in_header c'.state ≡ false
          → rank c'.state ≤ fuel
          → run input len fuel c' ≢ out_of_fuel)
        → (x : Step) → Goes input len c.message.kind c.state x
        → outcome x (run input len fuel) ≢ out_of_fuel
    by_step next (ret rc c') f = λ e. cc
    by_step next fault f = λ e. cc
    by_step next (go c') f = next c' f.no_header (omega (arith, f.lower))

-- The state outcome of a loop that stays inside.
abbrev pub IsClean : ℕ → Outcome → Type 0
IsClean len (returned rc c) = c.nread ≤ len
IsClean len crashed = ⊥
IsClean len out_of_fuel = ⊥

-- On a payload of `len` bytes, whatever they are, the loop ends within eleven rounds, reads nothing
-- outside the payload and leaves `nread` inside it, for every packet that is not SUBSCRIBE.
pub run-IsClean :
    (input : Bytes) (len fuel : ℕ) (c : Cursor)
    → length input ≡ len
    → len < 2 ^ 64
    → c.nread ≤ len
    → c.message.kind ≢ Kind.subscribe
    → in_header c.state ≡ false
    → in_subscribe c.state ≡ false
    → rank c.state ≤ fuel
    → IsClean len (run input len fuel c)
run-IsClean input len zero c whole small n k h o r = absurd (rank_pos c.state (omega arith))
run-IsClean input len (suc fuel) c whole small n k h o r = rw (run-suc input len fuel c) (
    by_step (λ c' n' k' h' o' r'. run-IsClean input len fuel c' whole small n' k' h' o' r')
      (step_in input len c.state c) (step_in-Goes input len c.state c h)
      (step_in-IsInside input len whole small c.state c (outside_topic o) n))
  where
    outside_topic : in_subscribe c.state ≡ false → c.state ≢ subscribe_topic_name
    outside_topic o e = cc (o, ap in_subscribe e)

    by_step :
        ((c' : Cursor)
          → c'.nread ≤ len
          → c'.message.kind ≢ Kind.subscribe
          → in_header c'.state ≡ false
          → in_subscribe c'.state ≡ false
          → rank c'.state ≤ fuel
          → IsClean len (run input len fuel c'))
        → (x : Step) → Goes input len c.message.kind c.state x
        → IsInside input len whole small x
        → IsClean len (outcome x (run input len fuel))
    by_step next (ret rc c') f i = i
    by_step next fault f i = i
    by_step next (go c') f i =
        next c' i (λ e. k (sym f.same_kind ∙ e)) f.no_header (f.outside o k)
          (omega (arith, f.lower))
