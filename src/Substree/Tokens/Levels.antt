-- ===== src/Substree/Tokens/Levels.antt =====
-- The levels of a topic, independently of the code: the pieces between the slashes.
use mumq.Base.{
  ℕ, ◌≡◌, refl, sym, ◌≢◌, inl, inr, not, List, [], ◌∷◌, ◌++◌, ◌==◌, ==_iff, if◌then◌else◌, All,
  Bool-cases, arith,
}
use mathlib.Core.List.{append-nil, append_assoc}
use mumq.Base.Strings.{Str, char_at}

-- `cur` is the level read so far.
abbrev pub levels_from : Str → Str → List Str
levels_from cur [] = cur ∷ []
levels_from cur (c ∷ s) =
    let next = levels_from [] s in
    let more = levels_from (cur ++ c ∷ []) s in if c == b'/' then cur ∷ next else more

abbrev pub levels : Str → List Str
levels = levels_from []

-- A topic that does not start with `$` stands below a level with no name.
abbrev pub tokens_of : Str → List Str
tokens_of s = (if not (char_at s 0 == b'$') then [] ∷ [] else []) ++ levels s

abbrev pub join : List Str → Str
join [] = []
join (l ∷ []) = l
join (l ∷ m ∷ ls) = l ++ (b'/' ∷ join (m ∷ ls))

abbrev pub IsLevel : Str → Type 0
IsLevel = All (λ c. c ≢ b'/')

pub levels_from-shape : (cur s : Str) → (l : Str) × (ls : List Str) × (levels_from cur s ≡ l ∷ ls)
levels_from-shape cur [] = (cur, [], refl)
levels_from-shape cur (c ∷ s) = elim (Bool-cases (c == b'/')) [
  | inl slash ↦ (cur, levels_from [] s, rw slash)
  | inr other ↦ let (l, ls, e) = levels_from-shape (cur ++ c ∷ []) s in (l, ls, rw other e)
]

join_cons :
    (l : Str) (ls : List Str) (m : Str) (ms : List Str)
    → ls ≡ m ∷ ms
    → join (l ∷ ls) ≡ l ++ (b'/' ∷ join ls)
join_cons l ls m ms e = rw e

-- Joined by slashes again, the levels are the text that was read.
join-levels_from : (cur s : Str) → join (levels_from cur s) ≡ cur ++ s
join-levels_from cur [] = sym (append-nil cur)
join-levels_from cur (c ∷ s) = elim (Bool-cases (c == b'/')) [
  | inl slash ↦
      let (l, ls, e) = levels_from-shape [] s in
      rw (
        slash,
        join_cons cur (levels_from [] s) l ls e,
        join-levels_from [] s,
        (==_iff c b'/').0 slash,
      )
  | inr other ↦ rw (other, join-levels_from (cur ++ c ∷ []) s) (append_assoc cur (c ∷ []) s)
]

All-concat : (l : Str) (c : ℕ) → IsLevel l → c ≢ b'/' → IsLevel (l ++ c ∷ [])
All-concat [] c h k = (k, tt)
All-concat (x ∷ l) c h k = (h.0, All-concat l c h.1 k)

levels_from-IsLevel : (cur s : Str) → IsLevel cur → All IsLevel (levels_from cur s)
levels_from-IsLevel cur [] h = (h, tt)
levels_from-IsLevel cur (c ∷ s) h = elim (Bool-cases (c == b'/')) [
  | inl slash ↦ rw slash (h, levels_from-IsLevel [] s tt)
  | inr other ↦ rw other (levels_from-IsLevel (cur ++ c ∷ []) s (All-concat cur c h (ground arith)))
]

-- The levels are the one way to cut the text at its slashes: no level holds a slash, and joined by
-- slashes they are the text.
pub levels-join : (s : Str) → (join (levels s) ≡ s) × All IsLevel (levels s)
levels-join s = (join-levels_from [] s, levels_from-IsLevel [] s tt)
