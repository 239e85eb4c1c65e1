-- ===== src/Substree/Search.antt =====
-- `_subs_process`, `_sub_search` and `mqtt3_sub_tree_process` of broker/substree.c. `S` is what the
-- callback changes: the clients and their queues of packets. The topic and the payload are the
-- callback's own. `context->id` is an array, and so never NULL.
pub mod Matching
pub mod Correct
pub mod Roots
pub mod Kept
use mumq.Base.{
  ℕ, Bool, true, false, not, ◌&&◌, ◌||◌, Option, none, some, List, [], ◌∷◌, if◌then◌else◌,
}
use mumq.Base.Memory.{Memory}
use mumq.Base.Strings.{Str, same_str}
use mumq.Substree.Tree.{Leaf, Hier, null, node, plus, hash}
use mumq.Substree.Tokens.{sub_topic_tokenise}

abbrev pub is_null : Hier → Bool
is_null null = true
is_null (node t ls ch nx) = false

abbrev pub is_last : List Str → Bool
is_last [] = true
is_last (t ∷ ts) = false

module _ {ℓ} {S : Type ℓ} (is_subscribe : S → ℕ → Bool) (callback : ℕ → S → S) where
  -- The result says whether there was a leaf; no caller reads it.
  unfoldable pub subs_process : List Leaf → S → S
  subs_process [] s = s
  subs_process (l ∷ ls) s =
      subs_process ls (if is_subscribe s l.context then callback l.context s else s)

  -- The loop over the branches, from `branch` on.
  unfoldable pub sub_search : Hier → List Str → S → S
  unfolding subs_process
  sub_search null tokens s = s
  sub_search (node topic subs children next) [] s =
      sub_search next []
        (if same_str topic hash && is_null children then subs_process subs s else s)
  sub_search (node topic subs children next) (t ∷ ts) s =
      let deeper = sub_search children ts s in
      sub_search next (t ∷ ts) (
        if same_str topic t || same_str topic plus
        then (if is_last ts then subs_process subs deeper else deeper)
        else if same_str topic hash && is_null children
        then subs_process subs s
        else s)

  -- The loop over the nodes below the root.
  unfoldable pub search_roots : Hier → List Str → S → S
  unfolding sub_search
  search_roots null tokens s = s
  search_roots (node topic subs children next) [] s = s
  search_roots (node topic subs children next) (t ∷ ts) s =
      search_roots next (t ∷ ts) (if same_str topic t then sub_search children (t ∷ ts) s else s)

  search_tokens : Hier → Option (List Str) × Memory → S → Option S × Memory
  search_tokens roots (none, m) s = (none, m)
  search_tokens roots (some tokens, m) s = (some (search_roots roots tokens s), m)

  -- `none` is the return of 1: the topic could not be cut into tokens, and nobody was called.
  unfoldable pub mqtt3_sub_tree_process : Hier → Str → Memory → S → Option S × Memory
  unfolding search_tokens search_roots
  mqtt3_sub_tree_process roots topic m s = search_tokens roots (sub_topic_tokenise topic m) s
