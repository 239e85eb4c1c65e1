-- ===== src/Utility/Topics.antt =====
-- What the tests on topics accept, in terms of the levels of a topic.
use mumq.Base.{
  ℕ, ◌+◌, ◌≤◌, ◌≡◌, ◌≢◌, ◌↔◌, ◌⊎◌, refl, inl, inr, Bool, true, false, List, [], ◌∷◌, ◌++◌, ◌==◌,
  ==_iff, if◌then◌else◌, Bool-cases, not, length, All, arith,
}
use mumq.Base.Strings.{Str, IsStr, char_at}
use mumq.Substree.Tree.{plus, hash}
use mumq.Substree.Tokens.Levels.{levels, levels_from, tokens_of}
use mumq.Substree.Search.Matching.{IsTopic}
use mumq.Utility.{pub_loop, pub_topic_valid, sub_loop, bad_plus, bad_hash, sub_topic_valid}

-- Neither `+` nor `#`.
abbrev pub IsPlain : ℕ → Type 0
IsPlain c = (c ≢ b'+') × (c ≢ b'#')

abbrev pub IsWord : Str → Type 0
IsWord = All IsPlain

pub_loop_iff : (len : ℕ) (s : Str) → (pub_loop len s ≡ true) ↔ (IsWord s × (len + length s ≤ 65535))
unfolding pub_loop
pub_loop_iff len [] = ground arith
pub_loop_iff len (c ∷ s) = ground (arith, pub_loop_iff (len + 1) s)

-- A topic to publish is accepted exactly if no character is `+` or `#` and it has at most 65535
-- characters.
pub pub_topic_valid_iff : (s : Str) → (pub_topic_valid s ≡ true) ↔ (IsWord s × (length s ≤ 65535))
unfolding pub_topic_valid
pub_topic_valid_iff s = (
  λ h. let (word, short) = (pub_loop_iff 0 s).0 h in (word, omega arith),
  λ h. (pub_loop_iff 0 s).1 (h.0, omega arith),
)

IsWord-concat : (cur : Str) (c : ℕ) → IsWord cur → IsPlain c → IsWord (cur ++ c ∷ [])
IsWord-concat [] c h k = (k, tt)
IsWord-concat (x ∷ cur) c h k = (h.0, IsWord-concat cur c h.1 k)

word-ne-hash : (l : Str) → IsWord l → l ≢ hash
word-ne-hash [] w e = cc
word-ne-hash (c ∷ l) w e = ground arith

levels_from-IsTopic : (cur s : Str) → IsWord cur → IsWord s → IsTopic (levels_from cur s)
levels_from-IsTopic cur [] h k = (word-ne-hash cur h, tt)
levels_from-IsTopic cur (c ∷ s) h k = elim (Bool-cases (c == b'/')) [
  | inl e ↦ rw e (word-ne-hash cur h, levels_from-IsTopic [] s tt k.1)
  | inr e ↦ rw e (levels_from-IsTopic (cur ++ c ∷ []) s (IsWord-concat cur c h k.0) k.1)
]

-- A topic that is accepted for publishing has no level `#`, so the search for it is exact.
pub pub_topic_valid-IsTopic : (s : Str) → pub_topic_valid s ≡ true → IsTopic (tokens_of s)
pub_topic_valid-IsTopic s h =
    let word = ((pub_topic_valid_iff s).0 h).0 in
    elim (Bool-cases (not (char_at s 0 == b'$'))) [
      | inl e ↦ rw e ((λ x. cc), levels_from-IsTopic [] s tt word)
      | inr e ↦ rw e (levels_from-IsTopic [] s tt word)
    ]

-- A filter, level by level: a level is a word or `+`, and the last one may be `#`.
abbrev pub IsLevelFilter : Str → Type 0
IsLevelFilter l = IsWord l ⊎ (l ≡ plus)

abbrev pub IsFilter : List Str → Type 0
IsFilter [] = Unit
IsFilter (l ∷ []) = IsLevelFilter l ⊎ (l ≡ hash)
IsFilter (l ∷ m ∷ ls) = IsLevelFilter l × IsFilter (m ∷ ls)

IsFilter-cons : (l : Str) (ls : List Str) → IsLevelFilter l → IsFilter ls → IsFilter (l ∷ ls)
IsFilter-cons l [] h k = inl h
IsFilter-cons l (m ∷ ls) h k = (h, k)

-- The level read so far is a word, and the character before is its last one, or ended a level.
abbrev Before : ℕ → Str → Type 0
Before c [] = (c ≡ 0) ⊎ (c ≡ b'/')
Before c (x ∷ cur) = (c ≢ 0) × (c ≢ b'/')

Before-concat : (c : ℕ) (cur : Str) → c ≢ 0 → c ≢ b'/' → Before c (cur ++ c ∷ [])
Before-concat c [] h k = (h, k)
Before-concat c (x ∷ cur) h k = (h, k)

-- A level that must end here.
abbrev EndsHere : Str → Type 0
EndsHere [] = Unit
EndsHere (y ∷ s) = y ≡ b'/'

plus_ends :
    (s : Str) (c : ℕ) (cur : Str) (rest : Bool)
    → IsStr s
    → Before c cur
    → (if bad_plus c s then false else rest) ≡ true
    → (cur ≡ []) × EndsHere s × (rest ≡ true)
plus_ends [] c [] rest w b h = ground arith
plus_ends (y ∷ s) c [] rest w b h = ground arith
plus_ends [] c (x ∷ cur) rest w b h = ground arith
plus_ends (y ∷ s) c (x ∷ cur) rest w b h = ground arith

hash_ends :
    (s : Str) (c : ℕ) (cur : Str) (rest : Bool)
    → IsStr s
    → Before c cur
    → (if bad_hash c s then false else rest) ≡ true
    → (cur ≡ []) × (s ≡ [])
hash_ends [] c [] rest w b h = ground arith
hash_ends (y ∷ s) c [] rest w b h = ground arith
hash_ends [] c (x ∷ cur) rest w b h = ground arith
hash_ends (y ∷ s) c (x ∷ cur) rest w b h = ground arith

IsLevelFilter-of : (cur s : Str) → IsWord cur ⊎ ((cur ≡ plus) × EndsHere s) → IsLevelFilter cur
IsLevelFilter-of cur s (inl w) = inl w
IsLevelFilter-of cur s (inr (e, n)) = inr e

sub_loop-IsFilter :
    (s : Str) (len c : ℕ) (cur : Str)
    → IsStr s
    → IsWord cur ⊎ ((cur ≡ plus) × EndsHere s)
    → Before c cur
    → sub_loop len c s ≡ true
    → IsFilter (levels_from cur s)
unfolding sub_loop
sub_loop-IsFilter [] len c cur w k b h = inl (IsLevelFilter-of cur [] k)
sub_loop-IsFilter (x ∷ s) len c cur w k b h = elim (Bool-cases (x == b'/')) [
  | inl slash ↦ rw slash (
      IsFilter-cons cur (levels_from [] s) (IsLevelFilter-of cur (x ∷ s) k)
        (sub_loop-IsFilter s (len + 1) x [] w.1 (inl tt) (ground arith) (ground arith)))
  | inr other ↦ rw other (elim k [
    | inr (e, ends) ↦ absurd (ground arith)
    | inl word ↦ elim (Bool-cases (x == b'+')) [
      | inl p ↦
          let (start, ends, rest) = plus_ends s c cur (sub_loop (len + 1) x s) w.1 b (rw p at h) in
          rw (start, (==_iff x b'+').0 p)
            (sub_loop-IsFilter s (len + 1) x plus w.1 (inr (refl, ends)) (ground arith) rest)
      | inr not_plus ↦ elim (Bool-cases (x == b'#')) [
        | inl q ↦
            let (start, end) =
              hash_ends s c cur (sub_loop (len + 1) x s) w.1 b (rw (not_plus, q) at h) in
            rw (start, end, (==_iff x b'#').0 q) (inr refl)
        | inr not_hash ↦
            sub_loop-IsFilter s (len + 1) x (cur ++ x ∷ []) w.1
              (inl (IsWord-concat cur x word (ground arith)))
              (Before-concat x cur w.0 (ground arith)) (ground arith)
      ]
    ]
  ])
]

-- A filter that the test accepts is well formed: `+` stands only for a whole level, and `#` only for a
-- whole last level.
pub sub_topic_valid-IsFilter : (s : Str) → IsStr s → sub_topic_valid s ≡ true → IsFilter (levels s)
unfolding sub_topic_valid
sub_topic_valid-IsFilter s w h = sub_loop-IsFilter s 0 0 [] w (inl tt) (inl refl) h
