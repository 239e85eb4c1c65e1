-- ===== src/Mqtt/Serialiser/Remaining.antt =====
-- The remaining length in the fixed header (broker/mqtt.c, 398-407 and 441-449): the bytes are the groups
-- of seven bits, the lowest first, and all but the last have the bit 128.
use mumq.Base.{
  ℕ, zero, suc, ◌+◌, ◌*◌, ◌-◌, ◌/◌, ◌%◌, ◌<◌, ◌≤◌, bit_or-128, true, false, Option, none, some, [],
  ◌∷◌, ◌++◌, ltb, if◌then◌else◌, if_true, if_false, length, arith,
}
use mumq.Base.Words.{Bytes}
use mumq.Mqtt.Serialiser.{length_size, remaining_loop, shrinks}
use mathlib.Core.WellFounded.{Acc}
use mathlib.Core.Logic.{dif_pos, dif_neg, ◌⊎◌, inl, inr}
use mathlib.Core.Path.{◌≡◌, sym, ◌∙◌, ap}
use native.Mathlib.Decide.{dec_lt}
use native.Mathlib.Bridge.{le_prop}

-- The decoder of the protocol, which reads at most `k` bytes: a byte of 128 or more says that another one
-- follows, and there is none after the last of the `k`. The protocol allows four.
pub decode : ℕ → Bytes → Option (ℕ × Bytes)
decode zero bytes = none
decode (suc k) [] = none
decode (suc k) (b ∷ r) =
    let rest = decode k r in
    if ltb b 128
    then some (b, r)
    else elim rest [ none ↦ none | some (v, s) ↦ some (b - 128 + 128 * v, s) ]

-- One round of the loop: the last byte, or a byte with the bit 128 and the rest.
More : (n : ℕ) → Acc ◌<◌ n → Type 0
unfolding remaining_loop
More n a =
    (128 ≤ n)
    × (b : Acc ◌<◌ (n / 128)) × (remaining_loop n a ≡ (n % 128 + 128) ∷ remaining_loop (n / 128) b)

loop-cases : (n : ℕ) (a : Acc ◌<◌ n) → ((n < 128) × (remaining_loop n a ≡ n ∷ [])) ⊎ More n a
unfolding remaining_loop More
loop-cases n (Acc.intro _ s) = elim (dec_lt 0 (n / 128)) [
  | yes m ↦
      let b = s (n / 128) (shrinks n m) in
      inr (
        omega arith,
        b,
        dif_pos (dec_lt 0 (n / 128)) le_prop m _ _
            ∙ ap (λ x. x ∷ remaining_loop (n / 128) b) (bit_or-128 (n % 128) (omega arith)),
      )
  | no q ↦ inl (omega arith, dif_neg (dec_lt 0 (n / 128)) q _ _ ∙ ap (λ b. b ∷ []) (omega arith))
]

ltb-true : (a b : ℕ) → a < b → ltb a b ≡ true
ltb-true a b h = ground arith

ltb-false : (a b : ℕ) → b ≤ a → ltb a b ≡ false
ltb-false a b h = ground arith

-- What `k` groups of seven bits can hold: the numbers below it.
span : ℕ → ℕ
span zero = 1
span (suc k) = 128 * span k

-- The bytes before any other bytes.
decode-loop :
    (k n : ℕ)
    → 0 < k
    → n < span k
    → (a : Acc ◌<◌ n) (r : Bytes) → decode k (remaining_loop n a ++ r) ≡ some (n, r)
unfolding decode More span
decode-loop zero n some_ h a r = absurd (omega arith)
decode-loop (suc zero) n some_ h a r = elim (loop-cases n a) [
  | inl (lt, e) ↦ rw e (if_true _ _ (ltb-true n 128 lt))
  | inr (ge, b, e) ↦ absurd (omega arith)
]
decode-loop (suc (suc k)) n some_ h a r = elim (loop-cases n a) [
  | inl (lt, e) ↦ rw e (if_true _ _ (ltb-true n 128 lt))
  | inr (ge, b, e) ↦
      let rest = decode-loop (suc k) (n / 128) (omega arith) (omega arith) b r in
      rw e (
        if_false _ _ (ltb-false (n % 128 + 128) 128 (omega arith))
        ∙ rw rest (ap (λ v. some (v, r)) (omega arith)))
]

-- Every remaining length of at most 268435455, the greatest the protocol allows, is written in at most four
-- bytes, from which the protocol's decoder reads it back, stopping exactly before the bytes that follow.
pub decode-remaining_loop :
    (n : ℕ) (a : Acc ◌<◌ n) (r : Bytes)
    → n ≤ 268435455
    → decode 4 (remaining_loop n a ++ r) ≡ some (n, r)
unfolding span
decode-remaining_loop n a r h = decode-loop 4 n (omega arith) (omega arith) a r

length_size-small : (n : ℕ) → n < 128 → length_size n ≡ 1
unfolding length_size
length_size-small n h = ground arith

length_size-more : (n : ℕ) → 128 ≤ n → n ≤ 268435455 → length_size n ≡ suc (length_size (n / 128))
unfolding length_size
length_size-more n h b = ground arith

length-loop :
    (k n : ℕ) (a : Acc ◌<◌ n) → n < k → n ≤ 268435455 → length (remaining_loop n a) ≡ length_size n
unfolding More
length-loop zero n a h b = absurd (omega arith)
length-loop (suc k) n a h b = elim (loop-cases n a) [
  | inl (lt, e) ↦ ap length e ∙ sym (length_size-small n lt)
  | inr (ge, c, e) ↦
      ap length e
      ∙ ap suc (length-loop k (n / 128) c (omega arith) (omega arith))
      ∙ sym (length_size-more n ge b)
]

-- The loop writes as many bytes as `mqtt_serialiser_size` counts, for a remaining length of at most
-- 268435455.
pub length-remaining_loop :
    (n : ℕ) (a : Acc ◌<◌ n) → n ≤ 268435455 → length (remaining_loop n a) ≡ length_size n
length-remaining_loop n a = length-loop (suc n) n a (omega arith)
