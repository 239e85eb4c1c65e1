-- ===== src/Substree/Add/Lock.antt =====
-- `root_lock` of `mqtt3_sub_add` in broker/substree.c: when a call leaves it held.
use mumq.Base.{ℕ, ◌≡◌, ◌⊎◌, refl, inl, inr, Option, List, ◌∷◌, Option-cases}
use mumq.Base.Memory.{Memory}
use mumq.Base.Strings.{Str, IsStr}
use mumq.Substree.Tree.{Hier, Address, released, held_here}
use mumq.Substree.Tokens.{sub_topic_tokenise}
use mumq.Substree.Tokens.Correct.{sub_topic_tokenise-tokens_of}
use mumq.Substree.Add.{
  no_memory, Subscribed, add_root, new_root, new_branch, sub_add_tokens, sub_add_locked,
  mqtt3_sub_add,
}
use mumq.Substree.Add.Enough.{tokens_of-shape}

-- The lock is free, or held after a failed allocation that changed nothing in the tree.
abbrev pub IsReleased : Hier → Subscribed → Type 0
IsReleased roots r =
    (r.locked ≡ released) ⊎ ((r.locked ≡ held_here) × (r.rc ≡ no_memory) × (r.roots ≡ roots))

module _ (ids : ℕ → Str) (context qos : ℕ) where
  new_root-IsReleased :
      (t : Str) (ts : List Str) (roots : Hier) (subs : List (Option Address)) (m : Memory)
      → IsReleased roots (new_root ids context qos t ts roots subs m)
  unfolding new_root
  new_root-IsReleased t ts roots subs m = elim (Option-cases (new_branch t m).0) [
    | inl e ↦ rw (new_root, e) (inr (refl, refl, refl))
    | inr (topic, e) ↦ rw (new_root, e) (inl refl)
  ]

  sub_add_tokens-IsReleased :
      (t : Str) (ts : List Str) (roots : Hier) (subs : List (Option Address)) (m : Memory)
      → IsReleased roots (sub_add_tokens ids context qos (t ∷ ts) roots subs m)
  unfolding sub_add_tokens
  sub_add_tokens-IsReleased t ts roots subs m =
      elim (Option-cases (add_root ids context qos (t ∷ ts) roots subs m)) [
        | inl e ↦ rw (sub_add_tokens, e) (new_root-IsReleased t ts roots subs m)
        | inr (r, e) ↦ rw (sub_add_tokens, e) (inl refl)
      ]

-- A call with the lock free leaves it free, or returns -2 with the lock still held, by the thread of the
-- call, and the tree as it was.
pub mqtt3_sub_add-IsReleased :
    (ids : ℕ → Str) (context : ℕ) (sub : Str) (qos : ℕ) (roots : Hier)
    (subs : List (Option Address)) (m : Memory)
    → IsStr sub
    → IsReleased roots (mqtt3_sub_add ids context sub qos roots released subs m)
mqtt3_sub_add-IsReleased ids context sub qos roots subs m w =
    let (t, ts, f) = tokens_of-shape sub in
    elim (sub_topic_tokenise-tokens_of sub m w) [
      | inl (e, _) ↦ unfold mqtt3_sub_add in rw (mqtt3_sub_add, e) (inl refl)
      | inr (e, _) ↦
          unfold mqtt3_sub_add sub_add_locked in
          rw (mqtt3_sub_add, e, f)
            (sub_add_tokens-IsReleased ids context qos t ts roots subs (sub_topic_tokenise sub m).1)
    ]
