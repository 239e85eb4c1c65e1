-- ===== src/Substree/Add/Roots.antt =====
-- `mqtt3_sub_add` as an operation on the leaves at each address.
use mumq.Base.{
  ℕ, ◌≡◌, refl, sym, ap, subst, ◌∙◌, Bool, true, false, ◌&&◌, inl, inr, Option, none, some, List,
  [], ◌∷◌, if◌then◌else◌, Bool-cases, Option-cases, arith,
}
use mumq.Base.Memory.{Memory}
use mumq.Base.Strings.{Str, IsStr, same_str, same_str_iff}
use mathlib.Core.Option.{some-injective}
use mumq.Substree.Tree.{
  Leaf, Hier, null, node, Address, RootLock, released, held_here, held_elsewhere,
}
use mumq.Substree.Tokens.{sub_topic_tokenise}
use mumq.Substree.Tokens.Levels.{tokens_of}
use mumq.Substree.Tokens.Correct.{sub_topic_tokenise-tokens_of}
use mumq.Substree.Add.{
  Added, sub_add, add_root, past_root, new_root, sub_add_tokens, sub_add_locked, new_branch,
  mqtt3_sub_add, rc_of, Rc, success, failure, no_memory, deadlock, null_pointer, Subscribed,
  unlocked,
}
use mumq.Substree.Add.Lookup.{
  own_or, leaves_at, same_address, subscribed, after, At, rebuilt, At-rebuilt, At-past,
  sub_add-leaves_at, new_branch-topic,
}

leaves_at-nil : (h : Hier) → leaves_at h [] ≡ []
leaves_at-nil null = refl
leaves_at-nil (node t ls ch nx) = refl

own_or-nil : (h : Hier) (p : Address) → own_or [] p (leaves_at h p) ≡ leaves_at h p
own_or-nil null [] = refl
own_or-nil (node t ls ch nx) [] = refl
own_or-nil h (q ∷ qs) = refl

-- The return of 0.
abbrev pub is_success : Rc → Bool
is_success success = true
is_success failure = false
is_success no_memory = false
is_success deadlock = false
is_success null_pointer = false

is_success-rc_of : (b : Bool) → is_success (rc_of b) ≡ b
is_success-rc_of true = refl
is_success-rc_of false = refl

-- The address of the node for the tokens: the code hands the first token down once more below the
-- node that it names.
abbrev pub address_of : List Str → Address
address_of [] = []
address_of (t ∷ ts) = t ∷ t ∷ ts

module _ (ids : ℕ → Str) (context qos : ℕ) where
  -- `r` is the chain of roots after a call for `tokens`.
  abbrev Roots : Added → List Str → Hier → Type 0
  Roots r tokens roots =
      (p : Address)
      → leaves_at r.children p ≡ after ids context qos r.done tokens p (leaves_at roots p)

  Roots-of :
      (r : Added) (tokens : List Str) (roots : Hier)
      → ((p : Address)
          → own_or [] p (leaves_at r.children p)
            ≡ after ids context qos r.done tokens p (own_or [] p (leaves_at roots p)))
      → Roots r tokens roots
  Roots-of r tokens roots h p =
      sym (own_or-nil r.children p)
      ∙ h p
      ∙ ap (after ids context qos r.done tokens p) (own_or-nil roots p)

  Roots-to :
      (r : Added) (tokens : List Str) (roots : Hier)
      → Roots r tokens roots
      → ((p : Address)
          → own_or [] p (leaves_at r.children p)
            ≡ after ids context qos r.done tokens p (own_or [] p (leaves_at roots p)))
  Roots-to r tokens roots h p =
      own_or-nil r.children p
      ∙ h p
      ∙ ap (after ids context qos r.done tokens p) (sym (own_or-nil roots p))

  add_root_here :
      (t topic : Str) (ts : List Str) (ls : List Leaf) (ch nx : Hier) (subs : List (Option Address))
      (m : Memory)
      → same_str topic t ≡ true
      → add_root ids context qos (t ∷ ts) (node topic ls ch nx) subs m
        ≡ some (
            rebuilt ids context qos t [] nx
              (sub_add ids context qos (t ∷ ts) (t ∷ []) ls ch subs m))
  unfolding add_root
  add_root_here t topic ts ls ch nx subs m e = rw (e, (same_str_iff topic t).0 e)

  add_root_next :
      (t topic : Str) (ts : List Str) (ls : List Leaf) (ch nx : Hier) (subs : List (Option Address))
      (m : Memory)
      → same_str topic t ≡ false
      → add_root ids context qos (t ∷ ts) (node topic ls ch nx) subs m
        ≡ past_root topic ls ch (add_root ids context qos (t ∷ ts) nx subs m)
  unfolding add_root
  add_root_next t topic ts ls ch nx subs m e = rw e

  add_root-some :
      (t : Str) (ts : List Str) (roots : Hier) (subs : List (Option Address)) (m : Memory)
      (r : Added)
      → add_root ids context qos (t ∷ ts) roots subs m ≡ some r
      → Roots r (t ∷ t ∷ ts) roots
  add_root-some t ts null subs m r e = unfold add_root in cc
  add_root-some t ts (node topic ls ch nx) subs m r e = elim (Bool-cases (same_str topic t)) [
    | inl same ↦
        let inside = sub_add ids context qos (t ∷ ts) (t ∷ []) ls ch subs m in
        let made : r ≡ rebuilt ids context qos t [] nx inside =
          some-injective _ _ (sym e ∙ add_root_here t topic ts ls ch nx subs m same) in
        rw ((same_str_iff topic t).0 same) (
          subst (λ x. Roots x (t ∷ t ∷ ts) (node t ls ch nx)) (sym made)
            (Roots-of (rebuilt ids context qos t [] nx inside) (t ∷ t ∷ ts) (node t ls ch nx) (
              At-rebuilt ids context qos t (t ∷ ts) [] ls ch nx inside
                (sub_add-leaves_at ids context qos (t ∷ ts) (t ∷ []) ls ch subs m))))
    | inr other ↦ elim (Option-cases (add_root ids context qos (t ∷ ts) nx subs m)) [
      | inl x ↦ cc (add_root_next t topic ts ls ch nx subs m other)
      | inr (r', x) ↦
          let made : r ≡ record r' { children = node topic ls ch r'.children } =
            some-injective _ _ (sym e ∙ add_root_next t topic ts ls ch nx subs m other ∙ rw x) in
          subst (λ y. Roots y (t ∷ t ∷ ts) (node topic ls ch nx)) (sym made)
            (Roots-of (record r' { children = node topic ls ch r'.children }) (t ∷ t ∷ ts)
              (node topic ls ch nx)
              (At-past ids context qos t topic (t ∷ ts) [] ls ch nx (record r' { leaves = [] })
                other (Roots-to r' (t ∷ t ∷ ts) nx (add_root-some t ts nx subs m r' x))))
    ]
  ]

  add_root-none :
      (t : Str) (ts : List Str) (roots : Hier) (subs : List (Option Address)) (m : Memory)
      (q : Address)
      → add_root ids context qos (t ∷ ts) roots subs m ≡ none
      → leaves_at roots (t ∷ q) ≡ []
  add_root-none t ts null subs m q e = refl
  add_root-none t ts (node topic ls ch nx) subs m q e = elim (Bool-cases (same_str topic t)) [
    | inl same ↦ cc (add_root_here t topic ts ls ch nx subs m same)
    | inr other ↦ elim (Option-cases (add_root ids context qos (t ∷ ts) nx subs m)) [
      | inl x ↦ rw other (add_root-none t ts nx subs m q x)
      | inr (r', x) ↦ cc (add_root_next t topic ts ls ch nx subs m other)
    ]
  ]

  -- A new root before the others, when none of them has its topic.
  new_root-Roots :
      (t : Str) (ts : List Str) (roots : Hier) (r : Added)
      → ((q : Address) → leaves_at roots (t ∷ q) ≡ [])
      → ((q : Address)
          → At ids context qos r q
              (after ids context qos r.done (t ∷ ts) q (own_or [] q (leaves_at null q))))
      → Roots (rebuilt ids context qos t [] roots r) (t ∷ t ∷ ts) roots
  new_root-Roots t ts roots r empty h [] = rw (leaves_at-nil roots)
  new_root-Roots t ts roots r empty h (q ∷ qs) = elim (Bool-cases (same_str t q)) [
    | inl e ↦
        let nothing : leaves_at roots (q ∷ qs) ≡ [] = rw (← (same_str_iff t q).0 e) (empty qs) in
        rw (e, nothing) (h qs ∙ ap (after ids context qos r.done (t ∷ ts) qs) (own_or-nil null qs))
    | inr e ↦ rw e
  ]

  -- The leaves at every address after the call, by whether it returned 0.
  abbrev Effect : List Str → Hier → Subscribed → Type 0
  Effect tokens roots s =
      (p : Address)
      → leaves_at s.roots p ≡ after ids context qos (is_success s.rc) tokens p (leaves_at roots p)

  unlocked-Effect :
      (tokens : List Str) (roots : Hier) (r : Added)
      → Roots r tokens roots
      → Effect tokens roots (unlocked r)
  unlocked-Effect tokens roots r h p = rw (is_success-rc_of r.done) (h p)

  failed-Effect :
      (tokens : List Str) (roots : Hier) (s : Subscribed)
      → s.roots ≡ roots
      → is_success s.rc ≡ false
      → Effect tokens roots s
  failed-Effect tokens roots s e f p = rw (e, f) (ground arith)

  new_root-Effect :
      (t : Str) (ts : List Str) (roots : Hier) (subs : List (Option Address)) (m : Memory)
      → ((q : Address) → leaves_at roots (t ∷ q) ≡ [])
      → Effect (t ∷ t ∷ ts) roots (new_root ids context qos t ts roots subs m)
  new_root-Effect t ts roots subs m empty = elim (Option-cases (new_branch t m).0) [
    | inl e ↦
        failed-Effect (t ∷ t ∷ ts) roots (new_root ids context qos t ts roots subs m)
          (unfold new_root in rw (new_root, e)) (unfold new_root in rw (new_root, e))
    | inr (topic, e) ↦
        let r = sub_add ids context qos (t ∷ ts) (t ∷ []) [] null subs (new_branch t m).1 in
        let made : new_root ids context qos t ts roots subs m
            ≡ unlocked (rebuilt ids context qos t [] roots r) =
          unfold new_root in rw (new_root, e, new_branch-topic ids context qos t topic m e) in
        rw made (
          unlocked-Effect (t ∷ t ∷ ts) roots (rebuilt ids context qos t [] roots r) (
            new_root-Roots t ts roots r empty (
              sub_add-leaves_at ids context qos (t ∷ ts) (t ∷ []) [] null subs (new_branch t m).1)))
  ]

  tokens-Effect :
      (t : Str) (ts : List Str) (roots : Hier) (subs : List (Option Address)) (m : Memory)
      → Effect (t ∷ t ∷ ts) roots (sub_add_tokens ids context qos (t ∷ ts) roots subs m)
  unfolding sub_add_tokens
  tokens-Effect t ts roots subs m =
      elim (Option-cases (add_root ids context qos (t ∷ ts) roots subs m)) [
        | inl e ↦
            rw (sub_add_tokens, e)
              (new_root-Effect t ts roots subs m λ q. add_root-none t ts roots subs m q e)
        | inr (r, e) ↦
            rw (sub_add_tokens, e)
              (unlocked-Effect (t ∷ t ∷ ts) roots r (add_root-some t ts roots subs m r e))
      ]

  locked-Effect :
      (tokens : List Str) (roots : Hier) (locked : RootLock) (subs : List (Option Address))
      (m : Memory)
      → Effect (address_of tokens) roots (sub_add_locked ids context qos tokens roots locked subs m)
  locked-Effect tokens roots held_elsewhere subs m p = unfold sub_add_locked in ground arith
  locked-Effect [] roots released subs m p = unfold sub_add_locked in ground arith
  locked-Effect [] roots held_here subs m p = unfold sub_add_locked in ground arith
  locked-Effect (t ∷ ts) roots released subs m p =
      unfold sub_add_locked in tokens-Effect t ts roots subs m p
  locked-Effect (t ∷ ts) roots held_here subs m p =
      unfold sub_add_locked in tokens-Effect t ts roots subs m p

-- A subscription changes the leaves at one address of the tree, that of the filter's levels, and only
-- if the call returns 0: there the first leaf whose client has the caller's id gets the new `qos`, or
-- a new leaf of the caller goes to the end. On every other return, that of a failed allocation after
-- some branches were made included, the leaves at all addresses are as before.
pub mqtt3_sub_add-leaves_at :
    (ids : ℕ → Str) (context : ℕ) (sub : Str) (qos : ℕ) (roots : Hier) (locked : RootLock)
    (subs : List (Option Address)) (m : Memory) (p : Address)
    → IsStr sub
    → (let r = mqtt3_sub_add ids context sub qos roots locked subs m in
        leaves_at r.roots p ≡ (
          if same_address (address_of (tokens_of sub)) p && is_success r.rc
          then subscribed ids context qos (leaves_at roots p)
          else leaves_at roots p))
mqtt3_sub_add-leaves_at ids context sub qos roots locked subs m p w =
    elim (sub_topic_tokenise-tokens_of sub m w) [
      | inl (e, _) ↦ unfold mqtt3_sub_add in rw (mqtt3_sub_add, e) (ground arith)
      | inr (e, _) ↦
          unfold mqtt3_sub_add in
          rw (mqtt3_sub_add, e)
            (locked-Effect ids context qos (tokens_of sub) roots locked subs
              (sub_topic_tokenise sub m).1 p)
    ]
