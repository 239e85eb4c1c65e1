-- ===== src/Substree/Search/Correct.antt =====
-- The search calls back exactly the subscribed clients with a matching filter, in the tree's order.
use mumq.Base.{
  ℕ, ◌≡◌, ◌≢◌, refl, sym, ap, ◌∙◌, Bool, true, false, ◌&&◌, ◌||◌, inl, inr, List, [], ◌∷◌, ◌++◌,
  if◌then◌else◌, Bool-cases, if_false, ||-true, arith,
}
use mumq.Base.Strings.{Str, same_str, same_str_iff}
use mumq.Substree.Tree.{Leaf, Hier, null, node, plus, hash}
use mumq.Substree.Search.{is_last, is_null, subs_process, sub_search}
use mumq.Substree.Search.Matching.{
  matches, Entry, below, at, entries, receivers, IsHashLast, IsTopic,
}

pub receivers-append :
    (p : List Str → Bool) (xs ys : List Entry)
    → receivers p (xs ++ ys) ≡ receivers p xs ++ receivers p ys
receivers-append p [] ys = refl
receivers-append p ((f, l) ∷ xs) ys = ground (arith, receivers-append p xs ys)

receivers-below :
    (p : List Str → Bool) (t : Str) (es : List Entry)
    → receivers p (below t es) ≡ receivers (λ f. p (t ∷ f)) es
receivers-below p t [] = refl
receivers-below p t ((f, l) ∷ es) = rw (receivers-below p t es)

receivers-at :
    (p : List Str → Bool) (t : Str) (ls : List Leaf)
    → receivers p (at t ls) ≡ (if p (t ∷ []) then ls else [])
receivers-at p t [] = ground arith
receivers-at p t (l ∷ ls) = ground (arith, receivers-at p t ls)

receivers_cong :
    (p q : List Str → Bool) (es : List Entry)
    → ((f : List Str) → p f ≡ q f)
    → receivers p es ≡ receivers q es
receivers_cong p q [] h = refl
receivers_cong p q ((f, l) ∷ es) h = rw (h f, receivers_cong p q es h)

receivers_none :
    (p : List Str → Bool) (es : List Entry) → ((f : List Str) → p f ≡ false) → receivers p es ≡ []
receivers_none p [] h = refl
receivers_none p ((f, l) ∷ es) h = rw (h f) (receivers_none p es h)

named_ne_hash :
    (f t : Str) → t ≢ hash → (same_str f t || same_str f plus) ≡ true → same_str f hash ≡ false
named_ne_hash f t ne named = elim (Bool-cases (same_str f hash)) [
  | inr no_hash ↦ no_hash
  | inl is_hash ↦ elim (||-true (same_str f t) (same_str f plus) named) [
    | inl e ↦ absurd (ne (sym ((same_str_iff f t).0 e) ∙ (same_str_iff f hash).0 is_hash))
    | inr e ↦ cc ((same_str_iff f plus).0 e, (same_str_iff f hash).0 is_hash)
  ]
]

-- A level of the filter that names the topic's level, or is `+`.
named_level :
    (f t : Str) (ts fs : List Str)
    → t ≢ hash
    → (same_str f t || same_str f plus) ≡ true
    → matches (f ∷ fs) (t ∷ ts) ≡ matches fs ts
named_level f t ts fs ne named = rw (named, named_ne_hash f t ne named) (ground arith)

module _ {ℓ} {S : Type ℓ} (is_subscribe : S → ℕ → Bool) (callback : ℕ → S → S) where
  pub subs_process-append :
      (xs ys : List Leaf) (s : S)
      → subs_process is_subscribe callback (xs ++ ys) s
        ≡ subs_process is_subscribe callback ys (subs_process is_subscribe callback xs s)
  unfolding subs_process
  subs_process-append [] ys s = refl
  subs_process-append (x ∷ xs) ys s = subs_process-append xs ys _

  subs_process-if :
      (b : Bool) (xs : List Leaf) (s : S)
      → subs_process is_subscribe callback (if b then xs else []) s
        ≡ (if b then subs_process is_subscribe callback xs s else s)
  unfolding subs_process
  subs_process-if true xs s = refl
  subs_process-if false xs s = refl

  process : (List Str → Bool) → Hier → S → S
  process p h s = subs_process is_subscribe callback (receivers p (entries h)) s

  -- What a node contributes: what is below it, itself, and its siblings.
  process_node :
      (p : List Str → Bool) (t : Str) (ls : List Leaf) (ch nx : Hier) (s : S)
      → process p (node t ls ch nx) s
        ≡ process p nx (
            let d = process (λ f. p (t ∷ f)) ch s in
            if p (t ∷ []) then subs_process is_subscribe callback ls d else d)
  unfolding process
  process_node p t ls ch nx s = rw (
    receivers-append p (below t (entries ch)) (at t ls ++ entries nx),
    receivers-append p (at t ls) (entries nx),
    receivers-below p t (entries ch),
    receivers-at p t ls,
    subs_process-append (receivers (λ f. p (t ∷ f)) (entries ch))
        ((if p (t ∷ []) then ls else []) ++ receivers p (entries nx)) s,
    subs_process-append (if p (t ∷ []) then ls else []) (receivers p (entries nx)),
    subs_process-if (p (t ∷ [])) ls,
  )

  process_none :
      (p : List Str → Bool) (h : Hier) (s : S) → ((f : List Str) → p f ≡ false) → process p h s ≡ s
  unfolding process subs_process
  process_none p h s none = rw (receivers_none p (entries h) none)

  process_cong :
      (p q : List Str → Bool) (h : Hier) (s : S)
      → ((f : List Str) → p f ≡ q f)
      → process p h s ≡ process q h s
  unfolding process
  process_cong p q h s e = rw (receivers_cong p q (entries h) e)

  process_null : (p : List Str → Bool) (s : S) → process p null s ≡ s
  unfolding process subs_process
  process_null p s = refl

  -- One node below `topic`, where no level is left.
  hash_node :
      (t : Str) (ls : List Leaf) (ch : Hier) (s : S)
      → (same_str t hash ≡ true → ch ≡ null)
      → (if same_str t hash && is_null ch then subs_process is_subscribe callback ls s else s) ≡ (
          let d = process (λ f. same_str t hash && is_last f) ch s in
          if same_str t hash then subs_process is_subscribe callback ls d else d)
  hash_node t ls ch s k = elim (Bool-cases (same_str t hash)) [
    | inl e ↦ rw (e, k e, process_null)
    | inr e ↦ rw (e, process_none (λ f. false) ch s (λ f. refl))
  ]

  -- A node that the topic's level does not name.
  other_node :
      (t : Str) (ls : List Leaf) (ch : Hier) (p : List Str → Bool) (s : S)
      → (same_str t hash ≡ true → ch ≡ null)
      → ((f : List Str) → p (t ∷ f) ≡ (same_str t hash && is_last f))
      → (if same_str t hash && is_null ch then subs_process is_subscribe callback ls s else s) ≡ (
          let d = process (λ f. p (t ∷ f)) ch s in
          if p (t ∷ []) then subs_process is_subscribe callback ls d else d)
  other_node t ls ch p s k e =
      let one : (same_str t hash && is_last []) ≡ same_str t hash = ground arith in
      hash_node t ls ch s k
      ∙ rw (e [], one, process_cong (λ f. p (t ∷ f)) (λ f. same_str t hash && is_last f) ch s e)

  level_node :
      (f t : Str) (ts : List Str) (ls : List Leaf) (ch : Hier) (s deeper : S)
      → (same_str f hash ≡ true → ch ≡ null)
      → t ≢ hash
      → deeper ≡ process (λ g. matches g ts) ch s
      → (if same_str f t || same_str f plus
          then (if is_last ts then subs_process is_subscribe callback ls deeper else deeper)
          else if same_str f hash && is_null ch
          then subs_process is_subscribe callback ls s
          else s)
        ≡ (let d = process (λ g. matches (f ∷ g) (t ∷ ts)) ch s in
            if matches (f ∷ []) (t ∷ ts) then subs_process is_subscribe callback ls d else d)
  level_node f t ts ls ch s deeper k ne e = elim (Bool-cases (same_str f t || same_str f plus)) [
    | inl named ↦ rw (
      process_cong (λ g. matches (f ∷ g) (t ∷ ts)) (λ g. matches g ts) ch s
          (λ g. named_level f t ts g ne named),
      named_level f t ts [] ne named,
      named,
      e,
    )
    | inr other ↦
        if_false _ _ other ∙ other_node f ls ch (λ g. matches g (t ∷ ts)) s k (λ g. rw other)
  ]

  sub_search-process :
      (h : Hier) (ts : List Str) (s : S)
      → IsHashLast h
      → IsTopic ts
      → sub_search is_subscribe callback h ts s ≡ process (λ f. matches f ts) h s
  unfolding sub_search
  sub_search-process null ts s w k = sym (process_null (λ f. matches f ts) s)
  sub_search-process (node t ls ch nx) [] s w k =
      sub_search-process nx [] _ w.2 k
      ∙ ap (process (λ f. matches f []) nx)
          (other_node t ls ch (λ f. matches f []) s w.0 (λ f. refl))
      ∙ sym (process_node (λ f. matches f []) t ls ch nx s)
  sub_search-process (node f ls ch nx) (t ∷ ts) s w k =
      sub_search-process nx (t ∷ ts) _ w.2 k
      ∙ ap (process (λ f. matches f (t ∷ ts)) nx)
          (level_node f t ts ls ch s _ w.0 k.0 (sub_search-process ch ts s w.1 k.1))
      ∙ sym (process_node (λ f. matches f (t ∷ ts)) f ls ch nx s)

-- In a tree where no node `#` has children, a search for a topic with no level `#` runs the callback
-- for exactly the subscriptions whose filter matches the topic, where the client is subscribed at
-- that moment, once for each, in the order of the tree.
pub sub_search-receivers {ℓ} :
    {S : Type ℓ} (is_subscribe : S → ℕ → Bool) (callback : ℕ → S → S) (h : Hier) (ts : List Str)
    (s : S)
    → IsHashLast h
    → IsTopic ts
    → sub_search is_subscribe callback h ts s
      ≡ subs_process is_subscribe callback (receivers (λ f. matches f ts) (entries h)) s
unfolding process
sub_search-receivers is_subscribe callback h ts s = sub_search-process is_subscribe callback h ts s
