-- ===== src/Substree/Search/Matching.antt =====
-- What a search has to find, independently of the search: which filters match a topic, and the
-- subscriptions that a tree holds.
use mumq.Base.{
  ◌≡◌, ◌≢◌, refl, Bool, true, ◌&&◌, ◌||◌, inl, inr, List, [], ◌∷◌, ◌++◌, if◌then◌else◌, &&-true,
  ||-true, All, arith,
}
use mumq.Base.Strings.{Str, same_str, same_str_iff, same_str_refl}
use mumq.Substree.Tree.{Leaf, Hier, null, node, plus, hash}
use mumq.Substree.Search.{is_last}
use mathlib.Core.Logic.{◌↔◌}

-- A filter matches a topic level by level: `+` stands for one level, and a last `#` for any number
-- of levels, none included.
pub data Matches : List Str → List Str → Type 0 where
  done : Matches [] []
  same : (t : Str) {fs ts : List Str} → Matches fs ts → Matches (t ∷ fs) (t ∷ ts)
  any_one : {t : Str} {fs ts : List Str} → Matches fs ts → Matches (plus ∷ fs) (t ∷ ts)
  any_rest : {ts : List Str} → Matches (hash ∷ []) ts

abbrev pub matches : List Str → List Str → Bool
matches [] ts = is_last ts
matches (f ∷ fs) [] = same_str f hash && is_last fs
matches (f ∷ fs) (t ∷ ts) =
    (same_str f t || same_str f plus) && matches fs ts || same_str f hash && is_last fs

-- The subscriptions of a chain of nodes, each with its filter, in the order in which the code visits
-- them: what stands below a node before the node itself.
abbrev pub Entry : Type 0
Entry = List Str × Leaf

abbrev pub below : Str → List Entry → List Entry
below t [] = []
below t ((f, l) ∷ es) = (t ∷ f, l) ∷ below t es

abbrev pub at : Str → List Leaf → List Entry
at t [] = []
at t (l ∷ ls) = (t ∷ [], l) ∷ at t ls

abbrev pub entries : Hier → List Entry
entries null = []
entries (node t ls children next) = below t (entries children) ++ (at t ls ++ entries next)

-- The leaves whose filter passes the test.
abbrev pub receivers : (List Str → Bool) → List Entry → List Leaf
receivers p [] = []
receivers p ((f, l) ∷ es) = let rest = receivers p es in if p f then l ∷ rest else rest

-- No node `#` has children. A filter such as `a/#/b` would give it one.
abbrev pub IsHashLast : Hier → Type 0
IsHashLast null = Unit
IsHashLast (node t ls children next) =
    (same_str t hash ≡ true → children ≡ null) × IsHashLast children × IsHashLast next

-- No level of a topic is `#`, as `pub_topic_valid` asks.
abbrev pub IsTopic : List Str → Type 0
IsTopic = All (λ t. t ≢ hash)

is_last-nil : (fs : List Str) → is_last fs ≡ true → fs ≡ []
is_last-nil [] h = refl
is_last-nil (f ∷ fs) h = cc

rest-Matches :
    (f : Str) (fs ts : List Str) → (same_str f hash && is_last fs) ≡ true → Matches (f ∷ fs) ts
rest-Matches f fs ts h =
    let (e, l) = &&-true (same_str f hash) (is_last fs) h in
    rw ((same_str_iff f hash).0 e, is_last-nil fs l) any_rest

level-Matches :
    (f t : Str) (fs ts : List Str)
    → (same_str f t || same_str f plus) ≡ true
    → Matches fs ts
    → Matches (f ∷ fs) (t ∷ ts)
level-Matches f t fs ts h m = elim (||-true (same_str f t) (same_str f plus) h) [
  | inl e ↦ rw ((same_str_iff f t).0 e) (same t m)
  | inr e ↦ rw ((same_str_iff f plus).0 e) (any_one m)
]

matches-Matches : (fs ts : List Str) → matches fs ts ≡ true → Matches fs ts
matches-Matches [] [] h = done
matches-Matches [] (t ∷ ts) h = cc
matches-Matches (f ∷ fs) [] h = rest-Matches f fs [] h
matches-Matches (f ∷ fs) (t ∷ ts) h =
    let here = (same_str f t || same_str f plus) && matches fs ts in
    elim (||-true here (same_str f hash && is_last fs) h) [
      | inl e ↦
          let (l, m) = &&-true (same_str f t || same_str f plus) (matches fs ts) e in
          level-Matches f t fs ts l (matches-Matches fs ts m)
      | inr e ↦ rest-Matches f fs (t ∷ ts) e
    ]

Matches-matches : {fs ts : List Str} → Matches fs ts → matches fs ts ≡ true
Matches-matches done = refl
Matches-matches (same t m) = ground (arith, same_str_refl t, Matches-matches m)
Matches-matches (any_one {t} {fs} {ts} m) = ground (arith, Matches-matches m)
Matches-matches (any_rest {ts = []}) = refl
Matches-matches (any_rest {ts = t ∷ ts}) = ground arith

-- The test decides the relation.
pub matches_iff : (fs ts : List Str) → (matches fs ts ≡ true) ↔ Matches fs ts
matches_iff fs ts = (matches-Matches fs ts, Matches-matches)
