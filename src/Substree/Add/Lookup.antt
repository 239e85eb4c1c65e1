-- ===== src/Substree/Add/Lookup.antt =====
-- What `_sub_add` changes: the leaves at one address, and no others.
use mumq.Base.{
  ℕ, ◌≡◌, refl, sym, ap, subst, ◌∙◌, Bool, true, false, ◌&&◌, inl, inr, Option, none, some, List,
  [], ◌∷◌, ◌++◌, if◌then◌else◌, Bool-cases, Option-cases, arith,
}
use mumq.Base.Memory.{Memory}
use mumq.Base.Strings.{Str, same_str, same_str_iff}
use mumq.Substree.Tree.{Leaf, Hier, null, node, Address}
use mumq.Substree.Add.{set_qos, sub_leaf, Added, sub_add, no_branch, new_branch}

-- The leaves of a node whose children hold `deeper` at the rest of the address.
abbrev pub own_or : List Leaf → Address → List Leaf → List Leaf
own_or ls [] deeper = ls
own_or ls (t ∷ ts) deeper = deeper

-- The leaves at an address below a node with these children.
abbrev pub leaves_at : Hier → Address → List Leaf
leaves_at null p = []
leaves_at (node topic ls ch nx) [] = []
leaves_at (node topic ls ch nx) (t ∷ ts) =
    let here = own_or ls ts (leaves_at ch ts) in
    let later = leaves_at nx (t ∷ ts) in if same_str topic t then here else later

abbrev pub same_address : Address → Address → Bool
same_address [] [] = true
same_address [] (y ∷ b) = false
same_address (x ∷ a) [] = false
same_address (x ∷ a) (y ∷ b) = same_str x y && same_address a b

-- The leaves with a subscription of `context`: the first leaf with its id gets the `qos`, or a leaf is
-- added at the end.
unfoldable pub subscribed : (ℕ → Str) → ℕ → ℕ → List Leaf → List Leaf
subscribed ids context qos [] = record { context = context; qos = qos } ∷ []
subscribed ids context qos (l ∷ ls) =
    let rest = subscribed ids context qos ls in
    if same_str (ids l.context) (ids context) then record l { qos = qos } ∷ ls else l ∷ rest

-- The same as the code finds it.
abbrev or_added : ℕ → ℕ → List Leaf → Option (List Leaf) → List Leaf
or_added context qos ls none = ls ++ record { context = context; qos = qos } ∷ []
or_added context qos ls (some ls') = ls'

or_added-cons :
    (context qos : ℕ) (l : Leaf) (ls : List Leaf) (o : Option (List Leaf))
    → or_added context qos (l ∷ ls) (elim o [ none ↦ none | some ls' ↦ some (l ∷ ls') ])
      ≡ l ∷ or_added context qos ls o
or_added-cons context qos l ls none = refl
or_added-cons context qos l ls (some ls') = refl

set_qos-subscribed :
    (ids : ℕ → Str) (context qos : ℕ) (ls : List Leaf)
    → or_added context qos ls (set_qos ids (ids context) qos ls) ≡ subscribed ids context qos ls
unfolding subscribed set_qos
set_qos-subscribed ids context qos [] = refl
set_qos-subscribed ids context qos (l ∷ ls) =
    elim (Bool-cases (same_str (ids l.context) (ids context))) [
      | inl e ↦ rw e refl
      | inr e ↦ rw e (
          or_added-cons context qos l ls (set_qos ids (ids context) qos ls)
          ∙ ap (◌∷◌ l) (set_qos-subscribed ids context qos ls))
    ]

other_str :
    (t topic q : Str) → same_str topic t ≡ false → same_str topic q ≡ true → same_str t q ≡ false
other_str t topic q e here = elim (Bool-cases (same_str t q)) [
  | inr differs ↦ differs
  | inl same ↦
      let there : topic ≡ t = (same_str_iff topic q).0 here ∙ sym ((same_str_iff t q).0 same) in
      cc (e, (same_str_iff topic t).1 there)
]

module _ (ids : ℕ → Str) (context qos : ℕ) where
  -- What the leaves at `p` become by a call for `tokens`.
  abbrev pub after : Bool → List Str → Address → List Leaf → List Leaf
  after done tokens p ls =
      if same_address tokens p && done then subscribed ids context qos ls else ls

  sub_leaf-leaves :
      (here : Address) (leaves : List Leaf) (children : Hier) (subs : List (Option Address))
      (m : Memory)
      → (sub_leaf ids context qos here leaves children subs m).leaves ≡ (
          if (sub_leaf ids context qos here leaves children subs m).done
          then subscribed ids context qos leaves
          else leaves)
  unfolding sub_leaf
  sub_leaf-leaves here leaves children subs m =
      rw (← set_qos-subscribed ids context qos leaves) (ground arith)

  sub_leaf-children :
      (here : Address) (leaves : List Leaf) (children : Hier) (subs : List (Option Address))
      (m : Memory)
      → (sub_leaf ids context qos here leaves children subs m).children ≡ children
  unfolding sub_leaf
  sub_leaf-children here leaves children subs m = ground arith

  pub new_branch-topic : (t topic : Str) (m : Memory) → (new_branch t m).0 ≡ some topic → topic ≡ t
  unfolding new_branch
  new_branch-topic t topic [] e = cc
  new_branch-topic t topic (true ∷ []) e = cc
  new_branch-topic t topic (true ∷ true ∷ m) e = cc
  new_branch-topic t topic (true ∷ false ∷ m) e = cc
  new_branch-topic t topic (false ∷ m) e = cc

  -- The node with the result of a call on it.
  abbrev pub rebuilt : Str → List Leaf → Hier → Added → Added
  rebuilt topic leaves nx r = record r {
    leaves = leaves;
    children = node topic r.leaves r.children nx;
  }

  pub sub_add_made :
      (t topic : Str) (ts : List Str) (here : Address) (leaves : List Leaf)
      (subs : List (Option Address)) (m : Memory)
      → (new_branch t m).0 ≡ some topic
      → sub_add ids context qos (t ∷ ts) here leaves null subs m
        ≡ rebuilt t leaves null
            (sub_add ids context qos ts (here ++ t ∷ []) [] null subs (new_branch t m).1)
  unfolding sub_add
  sub_add_made t topic ts here leaves subs m e = rw (sub_add, e, new_branch-topic t topic m e)

  pub sub_add_not_made :
      (t : Str) (ts : List Str) (here : Address) (leaves : List Leaf) (subs : List (Option Address))
      (m : Memory)
      → (new_branch t m).0 ≡ none
      → sub_add ids context qos (t ∷ ts) here leaves null subs m
        ≡ no_branch leaves subs (new_branch t m).1
  unfolding sub_add
  sub_add_not_made t ts here leaves subs m e = rw (sub_add, e)

  pub sub_add_same :
      (t topic : Str) (ts : List Str) (here : Address) (leaves ls : List Leaf) (ch nx : Hier)
      (subs : List (Option Address)) (m : Memory)
      → same_str topic t ≡ true
      → sub_add ids context qos (t ∷ ts) here leaves (node topic ls ch nx) subs m
        ≡ rebuilt t leaves nx (sub_add ids context qos ts (here ++ t ∷ []) ls ch subs m)
  unfolding sub_add
  sub_add_same t topic ts here leaves ls ch nx subs m e =
      rw (sub_add, e, (same_str_iff topic t).0 e)

  pub sub_add_other :
      (t topic : Str) (ts : List Str) (here : Address) (leaves ls : List Leaf) (ch nx : Hier)
      (subs : List (Option Address)) (m : Memory)
      → same_str topic t ≡ false
      → sub_add ids context qos (t ∷ ts) here leaves (node topic ls ch nx) subs m ≡ (
          let r = sub_add ids context qos (t ∷ ts) here leaves nx subs m in
          record r { children = node topic ls ch r.children })
  unfolding sub_add
  sub_add_other t topic ts here leaves ls ch nx subs m e = rw (sub_add, e)

  abbrev pub At : Added → Address → List Leaf → Type 0
  At r p ls = own_or r.leaves p (leaves_at r.children p) ≡ ls

  -- A call that went into the node.
  pub At-rebuilt :
      (t : Str) (ts : List Str) (leaves ls : List Leaf) (ch nx : Hier) (r : Added)
      → ((q : Address) → At r q (after r.done ts q (own_or ls q (leaves_at ch q))))
      → (p : Address)
      → At
          (rebuilt t leaves nx r)
          p
          (after r.done (t ∷ ts) p (own_or leaves p (leaves_at (node t ls ch nx) p)))
  At-rebuilt t ts leaves ls ch nx r h [] = refl
  At-rebuilt t ts leaves ls ch nx r h (q ∷ qs) = elim (Bool-cases (same_str t q)) [
    | inl e ↦ rw e (h qs)
    | inr e ↦ rw e
  ]

  -- A call that went past the node.
  pub At-past :
      (t topic : Str) (ts : List Str) (leaves ls : List Leaf) (ch nx : Hier) (r : Added)
      → same_str topic t ≡ false
      → ((q : Address) → At r q (after r.done (t ∷ ts) q (own_or leaves q (leaves_at nx q))))
      → (p : Address)
      → At
          (record r { children = node topic ls ch r.children })
          p
          (after r.done (t ∷ ts) p (own_or leaves p (leaves_at (node topic ls ch nx) p)))
  At-past t topic ts leaves ls ch nx r e h [] = h []
  At-past t topic ts leaves ls ch nx r e h (q ∷ qs) = elim (Bool-cases (same_str topic q)) [
    | inl here ↦ rw (here, other_str t topic q e here)
    | inr past ↦ rw past (h (q ∷ qs))
  ]

  -- An address below a node with nothing in it.
  leaves_at-empty : (t : Str) (p : Address) → leaves_at (node t [] null null) p ≡ []
  leaves_at-empty t [] = refl
  leaves_at-empty t (q ∷ []) = ground arith
  leaves_at-empty t (q ∷ u ∷ us) = ground arith

  -- A call that went into a new branch.
  pub At-made :
      (t : Str) (ts : List Str) (leaves : List Leaf) (r : Added)
      → ((q : Address) → At r q (after r.done ts q (own_or [] q (leaves_at null q))))
      → (p : Address)
      → At (rebuilt t leaves null r) p (after r.done (t ∷ ts) p (own_or leaves p []))
  At-made t ts leaves r h p =
      subst (λ x. At (rebuilt t leaves null r) p (after r.done (t ∷ ts) p (own_or leaves p x)))
        (leaves_at-empty t p) (At-rebuilt t ts leaves [] null null r h p)

  pub sub_add-leaves_at :
      (tokens : List Str) (here : Address) (leaves : List Leaf) (children : Hier)
      (subs : List (Option Address)) (m : Memory) (p : Address)
      → (let r = sub_add ids context qos tokens here leaves children subs m in
          At r p (after r.done tokens p (own_or leaves p (leaves_at children p))))
  sub_add-leaves_at [] here leaves children subs m [] =
      unfold sub_add in sub_leaf-leaves here leaves children subs m
  sub_add-leaves_at [] here leaves children subs m (q ∷ qs) =
      unfold sub_add in
      ap (λ h. leaves_at h (q ∷ qs)) (sub_leaf-children here leaves children subs m)
  sub_add-leaves_at (t ∷ ts) here leaves null subs m p = elim (Option-cases (new_branch t m).0) [
    | inl e ↦ rw (sub_add_not_made t ts here leaves subs m e) (unfold no_branch in ground arith)
    | inr (topic, e) ↦ rw (sub_add_made t topic ts here leaves subs m e) (
        At-made t ts leaves
          (sub_add ids context qos ts (here ++ t ∷ []) [] null subs (new_branch t m).1)
          (λ q. sub_add-leaves_at ts (here ++ t ∷ []) [] null subs (new_branch t m).1 q) p)
  ]
  sub_add-leaves_at (t ∷ ts) here leaves (node topic ls ch nx) subs m p =
      elim (Bool-cases (same_str topic t)) [
        | inl e ↦
            rw (sub_add_same t topic ts here leaves ls ch nx subs m e, (same_str_iff topic t).0 e)
              (At-rebuilt t ts leaves ls ch nx
                (sub_add ids context qos ts (here ++ t ∷ []) ls ch subs m)
                (λ q. sub_add-leaves_at ts (here ++ t ∷ []) ls ch subs m q) p)
        | inr e ↦ rw (sub_add_other t topic ts here leaves ls ch nx subs m e) (
            At-past t topic ts leaves ls ch nx
              (sub_add ids context qos (t ∷ ts) here leaves nx subs m) e
              (λ q. sub_add-leaves_at (t ∷ ts) here leaves nx subs m q) p)
      ]
