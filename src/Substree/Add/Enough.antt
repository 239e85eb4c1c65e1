-- ===== src/Substree/Add/Enough.antt =====
-- With memory enough and the lock free, a subscription is made and the lock is free after it.
use mumq.Base.{
  ℕ, ◌≡◌, refl, true, inl, inr, Option, none, some, List, [], ◌∷◌, ◌++◌, Bool-cases, Option-cases,
  not, ◌==◌,
}
use mumq.Base.Memory.{Answers-enough}
use mumq.Base.Strings.{Str, IsStr, same_str, char_at}
use mumq.Substree.Tree.{Leaf, Hier, null, node, Address, released}
use mumq.Substree.Tokens.Levels.{tokens_of, levels, levels_from-shape}
use mumq.Substree.Tokens.Correct.{sub_topic_tokenise-tokens_of}
use mumq.Substree.Add.{
  set_qos, place_sub, link_leaf, sub_leaf, Added, sub_add, add_root, past_root, new_root,
  new_branch, sub_add_tokens, sub_add_locked, mqtt3_sub_add, success,
}

-- The call ended well and used no more memory than there is.
abbrev IsDone : Added → Type 0
IsDone r = (r.done ≡ true) × (r.memory ≡ [])

-- The same of the result, if there is one.
abbrev IfDone : Option Added → Type 0
IfDone none = Unit
IfDone (some r) = IsDone r

past_root-IfDone :
    (topic : Str) (ls : List Leaf) (ch : Hier) (o : Option Added)
    → IfDone o
    → IfDone (past_root topic ls ch o)
past_root-IfDone topic ls ch none h = tt
past_root-IfDone topic ls ch (some r) h = h

place_sub-enough :
    (here : Address) (subs : List (Option Address))
    → (out : List (Option Address)) × (place_sub here subs [] ≡ (some out, []))
unfolding place_sub
place_sub-enough here [] = (some here ∷ [], refl)
place_sub-enough here (none ∷ subs) = (some here ∷ subs, refl)
place_sub-enough here (some a ∷ subs) =
    let (out, e) = place_sub-enough here subs in (some a ∷ out, rw e refl)

module _ (ids : ℕ → Str) (context qos : ℕ) where
  sub_leaf-IsDone :
      (here : Address) (leaves : List Leaf) (children : Hier) (subs : List (Option Address))
      → IsDone (sub_leaf ids context qos here leaves children subs [])
  unfolding sub_leaf link_leaf
  sub_leaf-IsDone here leaves children subs =
      let (out, e) = place_sub-enough here subs in
      elim (Option-cases (set_qos ids (ids context) qos leaves)) [
        | inl none_there ↦ rw (sub_leaf, none_there, e) (refl, refl)
        | inr (_, there) ↦ rw (sub_leaf, there) (refl, refl)
      ]

  sub_add-IsDone :
      (ts : List Str) (here : Address) (leaves : List Leaf) (children : Hier)
      (subs : List (Option Address))
      → IsDone (sub_add ids context qos ts here leaves children subs [])
  unfolding sub_add new_branch
  sub_add-IsDone [] here leaves children subs = sub_leaf-IsDone here leaves children subs
  sub_add-IsDone (t ∷ ts) here leaves null subs = sub_add-IsDone ts (here ++ t ∷ []) [] null subs
  sub_add-IsDone (t ∷ ts) here leaves (node topic ls ch nx) subs =
      elim (Bool-cases (same_str topic t)) [
        | inl e ↦ rw (sub_add, e) (sub_add-IsDone ts (here ++ t ∷ []) ls ch subs)
        | inr e ↦ rw (sub_add, e) (sub_add-IsDone (t ∷ ts) here leaves nx subs)
      ]

  add_root-IfDone :
      (ts : List Str) (roots : Hier) (subs : List (Option Address))
      → IfDone (add_root ids context qos ts roots subs [])
  unfolding add_root
  add_root-IfDone [] roots subs = tt
  add_root-IfDone (t ∷ ts) null subs = tt
  add_root-IfDone (t ∷ ts) (node topic ls ch nx) subs = elim (Bool-cases (same_str topic t)) [
    | inl same ↦ rw (add_root, same) (sub_add-IsDone (t ∷ ts) (topic ∷ []) ls ch subs)
    | inr other ↦
        rw (add_root, other)
          (past_root-IfDone topic ls ch (add_root ids context qos (t ∷ ts) nx subs [])
            (add_root-IfDone (t ∷ ts) nx subs))
  ]

  new_root-enough :
      (t : Str) (ts : List Str) (roots : Hier) (subs : List (Option Address))
      → let r = new_root ids context qos t ts roots subs [] in
        (r.rc ≡ success) × (r.locked ≡ released)
  unfolding new_root new_branch
  new_root-enough t ts roots subs =
      rw ((sub_add-IsDone (t ∷ ts) (t ∷ []) [] null subs).0) (refl, refl)

  sub_add_tokens-enough :
      (t : Str) (ts : List Str) (roots : Hier) (subs : List (Option Address))
      → let r = sub_add_tokens ids context qos (t ∷ ts) roots subs [] in
        (r.rc ≡ success) × (r.locked ≡ released)
  unfolding sub_add_tokens
  sub_add_tokens-enough t ts roots subs =
      elim (Option-cases (add_root ids context qos (t ∷ ts) roots subs [])) [
        | inl e ↦ rw (sub_add_tokens, e) (new_root-enough t ts roots subs)
        | inr (r, e) ↦
            let done : IsDone r = rw e at (add_root-IfDone (t ∷ ts) roots subs) in
            rw (sub_add_tokens, e, done.0) (refl, refl)
      ]

pub tokens_of-shape : (s : Str) → (t : Str) × (ts : List Str) × (tokens_of s ≡ t ∷ ts)
tokens_of-shape s = elim (Bool-cases (not (char_at s 0 == b'$'))) [
  | inl e ↦ ([], levels s, rw e refl)
  | inr e ↦ let (t, ts, f) = levels_from-shape [] s in (t, ts, rw e f)
]

-- When no call to allocate fails and the lock is free, the subscription returns 0 for every filter,
-- and the lock is free again.
pub mqtt3_sub_add-enough :
    (ids : ℕ → Str) (context : ℕ) (sub : Str) (qos : ℕ) (roots : Hier)
    (subs : List (Option Address))
    → IsStr sub
    → let r = mqtt3_sub_add ids context sub qos roots released subs [] in
      (r.rc ≡ success) × (r.locked ≡ released)
mqtt3_sub_add-enough ids context sub qos roots subs w =
    let (e, m) = Answers-enough (sub_topic_tokenise-tokens_of sub [] w) in
    let (t, ts, f) = tokens_of-shape sub in
    unfold mqtt3_sub_add sub_add_locked in
    rw (mqtt3_sub_add, e, m, f) (sub_add_tokens-enough ids context qos t ts roots subs)
