-- ===== src/Substree/Search/Roots.antt =====
-- `mqtt3_sub_tree_process` as an operation on the subscriptions that the tree holds.
use mumq.Base.{
  ℕ, ◌≡◌, refl, ap, ◌∙◌, Bool, false, inl, inr, Option, none, some, List, [], ◌∷◌, ◌++◌,
  if◌then◌else◌, Bool-cases,
}
use mumq.Base.Memory.{Memory, Answers}
use mumq.Base.Strings.{Str, IsStr, same_str}
use mathlib.Core.Option.{some-injective}
use mumq.Substree.Tree.{Leaf, Hier, null, node}
use mumq.Substree.Tokens.{sub_topic_tokenise}
use mumq.Substree.Tokens.Levels.{tokens_of}
use mumq.Substree.Tokens.Correct.{sub_topic_tokenise-tokens_of}
use mumq.Substree.Search.{
  subs_process, sub_search, search_roots, search_tokens, mqtt3_sub_tree_process,
}
use mumq.Substree.Search.Matching.{matches, Entry, entries, receivers, IsHashLast, IsTopic}
use mumq.Substree.Search.Correct.{receivers-append, subs_process-append, sub_search-receivers}

abbrev pub starts_with : List Str → Str → Bool
starts_with [] t = false
starts_with (u ∷ us) t = same_str t u

-- The subscriptions below the roots with the topic's first token.
abbrev pub root_entries : Hier → List Str → List Entry
root_entries null ts = []
root_entries (node t ls children next) ts =
    (if starts_with ts t then entries children else []) ++ root_entries next ts

abbrev pub IsHashLastBelow : Hier → Type 0
IsHashLastBelow null = Unit
IsHashLastBelow (node t ls children next) = IsHashLast children × IsHashLastBelow next

root_entries-nil : (h : Hier) → root_entries h [] ≡ []
root_entries-nil null = refl
root_entries-nil (node t ls ch nx) = root_entries-nil nx

module _ {ℓ} {S : Type ℓ} (is_subscribe : S → ℕ → Bool) (callback : ℕ → S → S) where
  search_roots-receivers :
      (roots : Hier) (ts : List Str) (s : S)
      → IsHashLastBelow roots
      → IsTopic ts
      → search_roots is_subscribe callback roots ts s
        ≡ subs_process is_subscribe callback
            (receivers (λ f. matches f ts) (root_entries roots ts))
            s
  unfolding search_roots subs_process
  search_roots-receivers null ts s w k = refl
  search_roots-receivers (node t ls ch nx) [] s w k = rw (root_entries-nil nx) refl
  search_roots-receivers (node t ls ch nx) (u ∷ us) s w k =
      let p = λ (f : List Str). matches f (u ∷ us) in
      let here : List Entry = if same_str t u then entries ch else [] in
      search_roots-receivers nx (u ∷ us)
        (if same_str t u then sub_search is_subscribe callback ch (u ∷ us) s else s) w.1 k
      ∙ rw
          (
            receivers-append p here (root_entries nx (u ∷ us)),
            subs_process-append is_subscribe callback (receivers p here)
                (receivers p (root_entries nx (u ∷ us))) s,
          )
          (ap (subs_process is_subscribe callback (receivers p (root_entries nx (u ∷ us)))) one)
    where
      one :
          (if same_str t u then sub_search is_subscribe callback ch (u ∷ us) s else s)
          ≡ subs_process is_subscribe callback
              (receivers
                (λ (f : List Str). matches f (u ∷ us))
                (if same_str t u then entries ch else []))
              s
      one = elim (Bool-cases (same_str t u)) [
        | inl e ↦ rw e (sub_search-receivers is_subscribe callback ch (u ∷ us) s w.0 k)
        | inr e ↦ rw e refl
      ]

-- One call for each leaf, in order, whose client is subscribed when its turn comes.
abbrev pub call_each {ℓ} : {S : Type ℓ} → (S → ℕ → Bool) → (ℕ → S → S) → List Leaf → S → S
call_each subscribed call [] s = s
call_each subscribed call (l ∷ ls) s =
    call_each subscribed call ls (if subscribed s l.context then call l.context s else s)

subs_process-call_each {ℓ} :
    {S : Type ℓ} (is_subscribe : S → ℕ → Bool) (callback : ℕ → S → S) (ls : List Leaf) (s : S)
    → subs_process is_subscribe callback ls s ≡ call_each is_subscribe callback ls s
unfolding subs_process
subs_process-call_each is_subscribe callback [] s = refl
subs_process-call_each is_subscribe callback (l ∷ ls) s =
    subs_process-call_each is_subscribe callback ls
      (if is_subscribe s l.context then callback l.context s else s)

-- In a tree where no node `#` has children, publishing a topic with no level `#` runs the callback once
-- for each subscription that stands below the root of the topic's first token, has a filter that matches
-- the tokens, and belongs to a client that is subscribed at that moment: in the order of the tree, and
-- for nothing else. If the topic cannot be cut for lack of memory, nothing is run and the call reports it.
pub mqtt3_sub_tree_process-receivers {ℓ} :
    {S : Type ℓ} (is_subscribe : S → ℕ → Bool) (callback : ℕ → S → S) (roots : Hier) (topic : Str)
    (m : Memory) (s : S)
    → IsStr topic
    → IsHashLastBelow roots
    → IsTopic (tokens_of topic)
    → Answers (mqtt3_sub_tree_process is_subscribe callback roots topic m s) m (
        call_each is_subscribe callback
          (receivers (λ f. matches f (tokens_of topic)) (root_entries roots (tokens_of topic)))
          s)
unfolding mqtt3_sub_tree_process
mqtt3_sub_tree_process-receivers is_subscribe callback roots topic m s str w k =
    by_tokens (sub_topic_tokenise topic m) (sub_topic_tokenise-tokens_of topic m str)
  where
    by_tokens :
        (r : Option (List Str) × Memory)
        → Answers r m (tokens_of topic)
        → Answers (search_tokens is_subscribe callback roots r s) m (
            call_each is_subscribe callback
              (receivers (λ f. matches f (tokens_of topic)) (root_entries roots (tokens_of topic)))
              s)
    by_tokens (none, m') (inl (e, ne)) = inl (refl, ne)
    by_tokens (none, m') (inr (e, more)) = cc
    by_tokens (some ts, m') (inl (e, ne)) = cc
    by_tokens (some ts, m') (inr (e, more)) = inr (
      rw (some-injective _ _ e) (
          ap some (
            search_roots-receivers is_subscribe callback roots (tokens_of topic) s w k
            ∙ subs_process-call_each is_subscribe callback
                (receivers (λ f. matches f (tokens_of topic))
                  (root_entries roots (tokens_of topic)))
                s)),
      more,
    )
