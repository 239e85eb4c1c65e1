-- ===== src/Substree/Tests.antt =====
-- The subscription tree at concrete inputs: clients 7 and 8 subscribe to `a/b` and `a/+`.
use mumq.Base.{ℕ, ◌≡◌, refl, true, false, some, List, [], ◌∷◌, ◌++◌}
use mumq.Base.Memory.{Answers}
use mumq.Base.Strings.{Str, IsStr}
use mumq.Substree.Tree.{Leaf, Hier, null, node, initial, plus, released, held_here}
use mumq.Substree.Tokens.{sub_topic_tokenise}
use mumq.Substree.Tokens.Levels.{tokens_of}
use mumq.Substree.Tokens.Correct.{sub_topic_tokenise-tokens_of}
use mumq.Substree.Add.{mqtt3_sub_add, Subscribed, success}
use mumq.Substree.Add.Lookup.{leaves_at, subscribed}
use mumq.Substree.Add.Roots.{mqtt3_sub_add-leaves_at}
use mumq.Substree.Add.Enough.{mqtt3_sub_add-enough}
use mumq.Substree.Add.Lock.{IsReleased, mqtt3_sub_add-IsReleased}
use mumq.Substree.Search.{mqtt3_sub_tree_process, subs_process}
use mumq.Substree.Search.Matching.{
  Matches, same, any_one, done, matches, receivers, IsTopic, IsHashLast,
}
use mumq.Substree.Search.Roots.{mqtt3_sub_tree_process-receivers, root_entries}
use mumq.Substree.Deliver.{mqtt3_sub_add-receivers}
use mathlib.Core.List.{Memᴰ}

-- Client `n` has the id of the one byte `n`.
abbrev ids : ℕ → Str
ids n = n ∷ []

abbrev a_b : Str
a_b = b'a' ∷ b'/' ∷ b'b' ∷ []

abbrev a_plus : Str
a_plus = b'a' ∷ b'/' ∷ b'+' ∷ []

a_b-IsStr : IsStr a_b
a_b-IsStr = (λ e. cc, (λ e. cc, (λ e. cc, tt)))

a_plus-IsStr : IsStr a_plus
a_plus-IsStr = (λ e. cc, (λ e. cc, (λ e. cc, tt)))

abbrev after_a_b : Subscribed
after_a_b =
    unfold mqtt3_sub_add sub_topic_tokenise in mqtt3_sub_add ids 7 a_b 0 initial released [] []

abbrev call : ℕ → List ℕ → List ℕ
call c s = s ++ c ∷ []

abbrev leaf_7 : Leaf
leaf_7 = record { context = 7; qos = 0 }

-- The children of the first root after the first subscription.
abbrev below_root : Hier
below_root = node [] [] (node (b'a' ∷ []) [] (node (b'b' ∷ []) (leaf_7 ∷ []) null null) null) null

abbrev tree_7 : Hier
tree_7 = node [] [] below_root null

tree_a_b : after_a_b.roots ≡ tree_7
unfolding mqtt3_sub_add sub_topic_tokenise
tree_a_b = refl

search_a_b :
    mqtt3_sub_tree_process (λ s c. true) call after_a_b.roots a_b [] [] ≡ (some (7 ∷ []), [])
unfolding mqtt3_sub_add sub_topic_tokenise mqtt3_sub_tree_process
search_a_b = refl

a_b-IsTopic : IsTopic (tokens_of a_b)
a_b-IsTopic = (λ e. cc, (λ e. cc, (λ e. cc, tt)))

below_root-IsHashLast : IsHashLast below_root
below_root-IsHashLast = (λ e. cc, (λ e. cc, (λ e. cc, tt, tt), tt), tt)

mqtt3_sub_tree_process-receivers_example :
    Answers (mqtt3_sub_tree_process (λ s c. true) call tree_7 a_b [] []) [] (7 ∷ [])
unfolding subs_process
mqtt3_sub_tree_process-receivers_example =
    mqtt3_sub_tree_process-receivers (λ s c. true) call tree_7 a_b [] [] a_b-IsStr
      (below_root-IsHashLast, tt) a_b-IsTopic

sub_topic_tokenise-tokens_of_example :
    Answers
      (sub_topic_tokenise a_b (true ∷ true ∷ false ∷ []))
      (true ∷ true ∷ false ∷ [])
      ([] ∷ (b'a' ∷ []) ∷ (b'b' ∷ []) ∷ [])
sub_topic_tokenise-tokens_of_example =
    sub_topic_tokenise-tokens_of a_b (true ∷ true ∷ false ∷ []) a_b-IsStr

mqtt3_sub_add-leaves_at_example :
    leaves_at
      (mqtt3_sub_add ids 8 a_b 1 tree_7 released [] []).roots
      ([] ∷ [] ∷ (b'a' ∷ []) ∷ (b'b' ∷ []) ∷ [])
    ≡ leaf_7 ∷ record { context = 8; qos = 1 } ∷ []
unfolding mqtt3_sub_add sub_topic_tokenise subscribed
mqtt3_sub_add-leaves_at_example =
    mqtt3_sub_add-leaves_at ids 8 a_b 1 tree_7 released [] []
      ([] ∷ [] ∷ (b'a' ∷ []) ∷ (b'b' ∷ []) ∷ []) a_b-IsStr

mqtt3_sub_add-enough_example :
    let r = mqtt3_sub_add ids 8 a_plus 1 tree_7 released [] [] in
    (r.rc ≡ success) × (r.locked ≡ released)
mqtt3_sub_add-enough_example = mqtt3_sub_add-enough ids 8 a_plus 1 tree_7 [] a_plus-IsStr

added_a_plus : (mqtt3_sub_add ids 8 a_plus 1 tree_7 released [] []).rc ≡ success
added_a_plus = (mqtt3_sub_add-enough ids 8 a_plus 1 tree_7 [] a_plus-IsStr).0

a_plus-Matches : Matches (tokens_of a_plus) (tokens_of a_b)
a_plus-Matches = same [] (same (b'a' ∷ []) (any_one done))

mqtt3_sub_add-receivers_example :
    (l : Leaf) × Memᴰ l (
      receivers
        (λ g. matches g (tokens_of a_b))
        (root_entries (mqtt3_sub_add ids 8 a_plus 1 tree_7 released [] []).roots (tokens_of a_b)))
    × (ids l.context ≡ 8 ∷ [])
    × (l.qos ≡ 1)
mqtt3_sub_add-receivers_example =
    mqtt3_sub_add-receivers ids 8 a_plus 1 tree_7 released [] [] [] ((b'a' ∷ []) ∷ plus ∷ [])
      (tokens_of a_b) a_plus-IsStr refl refl a_plus-Matches added_a_plus

-- A filter with a new first token, `$s`.
abbrev dollar : Str
dollar = b'$' ∷ b's' ∷ []

dollar-IsStr : IsStr dollar
dollar-IsStr = (λ e. cc, (λ e. cc, tt))

-- The two allocations of the token succeed and that of the node fails.
lock_held :
    (mqtt3_sub_add ids 8 dollar 1 tree_7 released [] (true ∷ true ∷ false ∷ [])).locked ≡ held_here
unfolding mqtt3_sub_add sub_topic_tokenise
lock_held = refl

mqtt3_sub_add-IsReleased_example :
    IsReleased tree_7 (mqtt3_sub_add ids 8 dollar 1 tree_7 released [] (true ∷ true ∷ false ∷ []))
mqtt3_sub_add-IsReleased_example =
    mqtt3_sub_add-IsReleased ids 8 dollar 1 tree_7 [] (true ∷ true ∷ false ∷ []) dollar-IsStr
