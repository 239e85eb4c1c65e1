-- ===== src/Tools/Load/Ids.antt =====
-- The numbers of the clients of all threads (tools/epsub.c, 246-248).
use mumq.Base.{
  ℕ, suc, ◌+◌, ◌-◌, ◌*◌, ◌≤◌, ◌<◌, ◌≡◌, ap, sym, subst, ◌∙◌, ◌⊎◌, inl, inr, false, Bool-cases, ltb,
  if◌then◌else◌, if_false, arith,
}
use mumq.Tools.Load.{shares, at, number, id_of}
use mumq.Tools.Load.Shares.{sum, sum-shares, length-shares, at-shares}
use native.Mathlib.Nat.{suc-mul, mul-le-mul_right}

id_of-shares :
    (n c r i s : ℕ)
    → r < n
    → i < n
    → id_of c (shares n c r) i s ≡ number c n c (if ltb i r then c + 1 else c) i s
unfolding id_of
id_of-shares n c r i s h hi =
    let cs = shares n c r in
    let late : ltb (n - 1) r ≡ false = ground arith in
    ap (λ k. number c k (at cs (k - 1)) (at cs i) i s) (length-shares n c r)
    ∙ ap (λ l. number c n l (at cs i) i s)
        (at-shares n c r (n - 1) (omega arith) ∙ if_false _ _ late)
    ∙ ap (λ o. number c n c o i s) (at-shares n c r i hi)

-- A client is one of the first `c` of its thread, or the one more that it has.
number-cases :
    (n c r i s : ℕ)
    → s < (if ltb i r then c + 1 else c)
    → ((s < c) × (number c n c (if ltb i r then c + 1 else c) i s ≡ i * c + s))
      ⊎ ((s ≡ c) × (i < r) × (number c n c (if ltb i r then c + 1 else c) i s ≡ n * c + i))
unfolding number
number-cases n c r i s h = ground arith

id_of-cases :
    (n c r i s : ℕ)
    → r < n
    → i < n
    → s < at (shares n c r) i
    → ((s < c) × (id_of c (shares n c r) i s ≡ i * c + s))
      ⊎ ((s ≡ c) × (i < r) × (id_of c (shares n c r) i s ≡ n * c + i))
id_of-cases n c r i s h hi hs =
    let same = id_of-shares n c r i s h hi in
    let share = at-shares n c r i hi in
    elim (number-cases n c r i s (omega arith)) [
      | inl (few, e) ↦ inl (few, same ∙ e)
      | inr (last, more, e) ↦ inr (last, more, same ∙ e)
    ]

-- A thread's clients end before those of the next thread.
before : (i j c s : ℕ) → i < j → s < c → i * c + s < j * c
before i j c s lt few =
    let next = suc-mul i c in let up : suc i * c ≤ j * c = mul-le-mul_right c lt in omega arith

same_place : (i j c s t : ℕ) → s < c → t < c → i * c + s ≡ j * c + t → (i ≡ j) × (s ≡ t)
same_place i j c s t hs ht e = elim (Bool-cases (ltb i j)) [
  | inl lt ↦ let b = before i j c s (ground arith) hs in absurd (omega arith)
  | inr ge ↦ elim (Bool-cases (ltb j i)) [
    | inl gt ↦ let b = before j i c t (ground arith) ht in absurd (omega arith)
    | inr le ↦
        let same : i ≡ j = ground arith in
        let times : i * c ≡ j * c = ap (λ k. k * c) same in (same, omega arith)
  ]
]

-- Where a number stands: its thread and place, or behind all the equal shares.
abbrev Place : ℕ → ℕ → ℕ → ℕ → ℕ → ℕ → Type 0
Place n c r i s id = ((s < c) × (id ≡ i * c + s)) ⊎ ((s ≡ c) × (i < r) × (id ≡ n * c + i))

Place-below : (n c r i s id : ℕ) → i < n → Place n c r i s id → id < n * c + r
Place-below n c r i s id hi (inl (few, e)) = let b = before i n c s hi few in omega arith
Place-below n c r i s id hi (inr (last, more, e)) = omega arith

Place-differs :
    (n c r i j s t id : ℕ)
    → i < n
    → j < n
    → Place n c r i s id
    → Place n c r j t id
    → (i ≡ j) × (s ≡ t)
Place-differs n c r i j s t id hi hj (inl (few, e)) (inl (few', e')) =
    same_place i j c s t few few' (sym e ∙ e')
Place-differs n c r i j s t id hi hj (inl (few, e)) (inr (last, more, e')) =
    let b = before i n c s hi few in absurd (omega arith)
Place-differs n c r i j s t id hi hj (inr (last, more, e)) (inl (few, e')) =
    let b = before j n c t hj few in absurd (omega arith)
Place-differs n c r i j s t id hi hj (inr (last, more, e)) (inr (last', more', e')) =
    (omega arith, last ∙ sym last')

-- When `c` and `r` are the share of each of `n` threads and a remainder below `n`: the clients of all threads
-- get numbers below the number of all clients, and two clients with one number are the same.
pub id_of-differs :
    (n c r i j s t : ℕ)
    → r < n
    → i < n
    → j < n
    → s < at (shares n c r) i
    → t < at (shares n c r) j
    → (id_of c (shares n c r) i s < sum (shares n c r))
      × (id_of c (shares n c r) i s ≡ id_of c (shares n c r) j t → (i ≡ j) × (s ≡ t))
id_of-differs n c r i j s t h hi hj hs ht =
    let all = sum-shares n c r (omega arith) in
    let place = id_of-cases n c r i s h hi hs in
    let place' = id_of-cases n c r j t h hj ht in
    let below = Place-below n c r i s _ hi place in
    (
      omega arith,
      λ e. Place-differs n c r i j s t _ hi hj place (subst (Place n c r j t) (sym e) place'),
    )
