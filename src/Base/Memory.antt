-- ===== src/Base/Memory.antt =====
-- `malloc`, `calloc`, `realloc` and `strdup` of the C library may return NULL. What they answer is an
-- argument of the model: a list with an entry for each call to come, `false` for NULL. After the end
-- of the list every call succeeds, so `[]` is a machine with memory enough.
use mathlib.Core.Path.{◌≡◌, refl}
use mathlib.Core.Logic.{◌≢◌, ◌⊎◌, inl, inr}
use mathlib.Core.Bool.{Bool, true, false}
use mathlib.Core.Option.{Option, none, some}
use mathlib.Core.List.{List, [], ◌∷◌}

abbrev pub Memory : Type 0
Memory = List Bool

abbrev pub alloc : Memory → Bool × Memory
alloc [] = (true, [])
alloc (b ∷ m) = (b, m)

-- A computation that allocates: `none` where a call answered NULL.
abbrev pub Alloc {ℓ} : Type ℓ → Type ℓ
Alloc A = Memory → Option A × Memory

abbrev pub pure {ℓ} : {A : Type ℓ} → A → Alloc A
pure a m = (some a, m)

abbrev then_run {ℓ κ} : {A : Type ℓ} {B : Type κ} → (A → Alloc B) → Option A → Alloc B
then_run f none m = (none, m)
then_run f (some a) m = f a m

infixl 5 ◌>>=◌
abbrev pub ◌>>=◌ {ℓ κ} : {A : Type ℓ} {B : Type κ} → Alloc A → (A → Alloc B) → Alloc B
◌>>=◌ x f m = then_run f (x m).0 (x m).1

-- A fresh block that holds `a`.
abbrev given {ℓ} : {A : Type ℓ} → A → Bool → Option A
given a true = some a
given a false = none

abbrev pub new {ℓ} : {A : Type ℓ} → A → Alloc A
new a m = (given a (alloc m).0, (alloc m).1)

-- The computation answers `a`, or some call in it answered NULL; with memory enough it answers, and
-- memory is enough after it.
abbrev pub Answers {ℓ} : {A : Type ℓ} → Option A × Memory → Memory → A → Type ℓ
Answers r m a = ((r.0 ≡ none) × (m ≢ [])) ⊎ ((r.0 ≡ some a) × ((r.1 ≡ []) ⊎ (m ≢ [])))

pub pure-Answers {ℓ} : {A : Type ℓ} (a : A) (m : Memory) → Answers (pure a m) m a
pure-Answers a [] = inr (refl, inl refl)
pure-Answers a (b ∷ m) = inr (refl, inr λ e. cc)

pub new-Answers {ℓ} : {A : Type ℓ} (a : A) (m : Memory) → Answers (new a m) m a
new-Answers a [] = inr (refl, inl refl)
new-Answers a (true ∷ m) = inr (refl, inr λ e. cc)
new-Answers a (false ∷ m) = inl (refl, λ e. cc)

pub bind-Answers {ℓ κ} :
    {A : Type ℓ} {B : Type κ} (x : Alloc A) (f : A → Alloc B) (a : A) (b : B) (m : Memory)
    → Answers (x m) m a
    → ((m' : Memory) → Answers (f a m') m' b)
    → Answers ((x >>= f) m) m b
bind-Answers x f a b m (inl (e, ne)) k = rw (e, then_run) (inl (refl, ne))
bind-Answers x f a b m (inr (e, enough)) k = rw (e, then_run) (later enough (k (x m).1))
  where
    later : ((x m).1 ≡ []) ⊎ (m ≢ []) → Answers (f a (x m).1) (x m).1 b → Answers (f a (x m).1) m b
    later (inl z) (inl (d, ne)) = absurd (ne z)
    later (inl z) (inr (d, inl more)) = inr (d, inl more)
    later (inl z) (inr (d, inr ne)) = absurd (ne z)
    later (inr short) (inl (d, ne)) = inl (d, short)
    later (inr short) (inr (d, _)) = inr (d, inr short)

-- With memory enough the answer is there.
pub Answers-enough {ℓ} :
    {A : Type ℓ} {r : Option A × Memory} {a : A} → Answers r [] a → (r.0 ≡ some a) × (r.1 ≡ [])
Answers-enough (inl (e, ne)) = absurd (ne refl)
Answers-enough (inr (e, inl more)) = (e, more)
Answers-enough (inr (e, inr ne)) = absurd (ne refl)

pub new-none_or_some {ℓ} :
    {A : Type ℓ} (a : A) (m : Memory) → ((new a m).0 ≡ none) ⊎ ((new a m).0 ≡ some a)
new-none_or_some a [] = inr refl
new-none_or_some a (true ∷ m) = inr refl
new-none_or_some a (false ∷ m) = inl refl
