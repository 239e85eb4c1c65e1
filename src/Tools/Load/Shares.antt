-- ===== src/Tools/Load/Shares.antt =====
-- The shares of the threads (tools/epsub.c, 615-651).
use mumq.Base.{
  ℕ, zero, suc, ◌+◌, ◌-◌, ◌*◌, ◌/◌, ◌%◌, ◌≤◌, ◌<◌, ◌≡◌, refl, ap, ◌∙◌, false, some, List, [], ◌∷◌,
  ◌==◌, ltb, if◌then◌else◌, if_false, ◌⊎◌, inl, inr, length, All, arith,
}
use mumq.Base.Strings.{Str}
use mumq.Tools.Load.{Options, shares, launches, launch_with, limited, launch, at}
use native.Mathlib.Decide.{dec_lt}
use native.Mathlib.Nat.{suc-mul, div-add-mod, mod-lt, le-div_iff_mul-le}

abbrev pub sum : List ℕ → ℕ
sum [] = 0
sum (n ∷ ns) = n + sum ns

pub length-shares : (n c r : ℕ) → length (shares n c r) ≡ n
unfolding shares
length-shares zero c r = refl
length-shares (suc n) c r = omega (arith, length-shares n c (r - 1))

pub sum-shares : (n c r : ℕ) → r ≤ n → sum (shares n c r) ≡ n * c + r
unfolding shares
sum-shares zero c r h = omega arith
sum-shares (suc n) c r h =
    let rest = sum-shares n c (r - 1) (omega arith) in let more = suc-mul n c in ground arith

-- The first `r` threads have one client more.
pub at-shares : (n c r i : ℕ) → i < n → at (shares n c r) i ≡ (if ltb i r then c + 1 else c)
unfolding shares
at-shares zero c r i h = absurd (omega arith)
at-shares (suc n) c r zero h = refl
at-shares (suc n) c r (suc i) h = let rest = at-shares n c (r - 1) i (omega arith) in ground arith

shares-all : (n c r : ℕ) → All (λ m. (c ≤ m) × (m ≤ c + 1)) (shares n c r)
unfolding shares
shares-all zero c r = tt
shares-all (suc n) c r = (ground arith, shares-all n c (r - 1))

-- Not more threads than were asked for, and one of the two numbers.
limited_lem :
    (o : Options)
    → (limited o ≤ o.core_limit) × ((limited o ≡ o.core_limit) ⊎ (limited o ≡ o.total_concurrency))
limited_lem o = elim (dec_lt o.total_concurrency o.core_limit) [
  | yes l ↦ (ground arith, inr (ground arith))
  | no g ↦ (ground arith, inl (ground arith))
]

either : {k n a b : ℕ} → n ≡ k → (k ≡ a) ⊎ (k ≡ b) → (n ≡ a) ⊎ (n ≡ b)
either e (inl f) = inl (e ∙ f)
either e (inr f) = inr (e ∙ f)

-- With a topic, at least one client and at least one thread asked for, the clients are divided among as
-- many threads as were asked for, or as there are clients if those are fewer, never more than either: every thread has at least
-- one client, the shares differ by at most one, and together they are as many as were asked for.
pub launch-shares :
    (o : Options) (topic : Str)
    → o.topic ≡ some topic
    → 0 < o.total_concurrency
    → 0 < o.core_limit
    → (c : ℕ) × (concurs : List ℕ) × (launch o ≡ launches c concurs)
      × (sum concurs ≡ o.total_concurrency)
      × (length concurs ≤ o.core_limit)
      × (length concurs ≤ o.total_concurrency)
      × ((length concurs ≡ o.core_limit) ⊎ (length concurs ≡ o.total_concurrency))
      × (1 ≤ c)
      × All (λ m. (c ≤ m) × (m ≤ c + 1)) concurs
unfolding launch launch_with
launch-shares o topic given some_clients some_threads =
    let k = limited o in
    let pos : 0 < k = ground arith in
    let few : k ≤ o.total_concurrency = ground arith in
    let least = limited_lem o in
    let nonzero : (k == 0) ≡ false = ground arith in
    let c = o.total_concurrency / k in
    let r = o.total_concurrency % k in
    let counted = length-shares k c r in
    (
      c,
      shares k c r,
      ap (λ t. launch_with t o.total_concurrency k) given ∙ if_false _ _ nonzero,
      sum-shares k c r (omega (arith, mod-lt o.total_concurrency pos))
          ∙ div-add-mod o.total_concurrency k,
      omega (arith, counted, least.0),
      omega (arith, counted, few),
      either counted least.1,
      (le-div_iff_mul-le pos).1 (omega arith),
      shares-all k c r,
    )
