-- ===== src/Substree/Search/Kept.antt =====
-- What the callback of a search keeps, the search keeps (broker/substree.c, 264-321).
use mumq.Base.{ℕ, Bool, true, false, Option, none, some, List, [], ◌∷◌, if◌then◌else◌, ◌&&◌, ◌||◌}
use mumq.Base.Memory.{Memory}
use mumq.Base.Strings.{Str, same_str}
use mumq.Substree.Tree.{Leaf, Hier, null, node, plus, hash}
use mumq.Substree.Tokens.{sub_topic_tokenise}
use mumq.Substree.Search.{
  is_null, is_last, subs_process, sub_search, search_roots, search_tokens, mqtt3_sub_tree_process,
}

-- A search that was made keeps it.
abbrev pub Leaves {ℓ κ} : {S : Type ℓ} → (S → Type κ) → Option S × Memory → Type κ
Leaves P (none, m) = Unit
Leaves P (some s, m) = P s

module _ {ℓ κ} {S : Type ℓ} (is_subscribe : S → ℕ → Bool) (callback : ℕ → S → S) (P : S → Type κ)
    (kept : (i : ℕ) (s : S) → P s → P (callback i s)) where
  if-kept : (b : Bool) (x y : S) → P x → P y → P (if b then x else y)
  if-kept true x y p q = p
  if-kept false x y p q = q

  subs_process-kept : (ls : List Leaf) (s : S) → P s → P (subs_process is_subscribe callback ls s)
  unfolding subs_process
  subs_process-kept [] s p = p
  subs_process-kept (l ∷ ls) s p =
      subs_process-kept ls _ (if-kept (is_subscribe s l.context) _ _ (kept l.context s p) p)

  sub_search-kept :
      (h : Hier) (tokens : List Str) (s : S) → P s → P (sub_search is_subscribe callback h tokens s)
  unfolding sub_search
  sub_search-kept null tokens s p = p
  sub_search-kept (node topic subs children next) [] s p =
      sub_search-kept next [] _
        (if-kept (same_str topic hash && is_null children) _ _ (subs_process-kept subs s p) p)
  sub_search-kept (node topic subs children next) (t ∷ ts) s p =
      let deeper = sub_search-kept children ts s p in
      sub_search-kept next (t ∷ ts) _ (
        if-kept (same_str topic t || same_str topic plus) _ _
          (if-kept (is_last ts) _ _ (subs_process-kept subs _ deeper) deeper)
          (if-kept (same_str topic hash && is_null children) _ _ (subs_process-kept subs s p) p))

  search_roots-kept :
      (h : Hier) (tokens : List Str) (s : S)
      → P s
      → P (search_roots is_subscribe callback h tokens s)
  unfolding search_roots
  search_roots-kept null tokens s p = p
  search_roots-kept (node topic subs children next) [] s p = p
  search_roots-kept (node topic subs children next) (t ∷ ts) s p =
      search_roots-kept next (t ∷ ts) _
        (if-kept (same_str topic t) _ _ (sub_search-kept children (t ∷ ts) s p) p)

  pub mqtt3_sub_tree_process-Leaves :
      (roots : Hier) (topic : Str) (m : Memory) (s : S)
      → P s
      → Leaves P (mqtt3_sub_tree_process is_subscribe callback roots topic m s)
  unfolding mqtt3_sub_tree_process search_tokens
  mqtt3_sub_tree_process-Leaves roots topic m s p = by_tokens (sub_topic_tokenise topic m)
    where
      by_tokens :
          (r : Option (List Str) × Memory)
          → Leaves P (search_tokens is_subscribe callback roots r s)
      by_tokens (none, m') = tt
      by_tokens (some tokens, m') = search_roots-kept roots tokens s p
