-- ===== src/Substree/Tokens/Correct.antt =====
-- The tokens are the levels of the topic, or the code reports an error.
use mumq.Base.{
  ℕ, suc, ◌+◌, ◌≡◌, refl, subst, ◌∙◌, inl, inr, true, false, not, ◌||◌, Bool-cases, List, [], ◌∷◌,
  ◌++◌, ◌==◌, if◌then◌else◌, arith, length, length-append,
}
use mumq.Base.Memory.{Memory, ◌>>=◌, pure, new, Answers, new-Answers, pure-Answers, bind-Answers}
use mumq.Base.Strings.{Str, IsStr, char_at, slice, char_at-append, slice-append}
use mumq.Substree.Tokens.{
  append_copy, tokenise_loop, tokenise_head, tokenise_slash, sub_topic_tokenise,
}
use mumq.Substree.Tokens.Levels.{levels_from, levels, tokens_of}
use native.Mathlib.Numerals.{add-one}
use mathlib.Core.List.{append_assoc}

pub append_copy-Answers :
    (tokens : List Str) (s : Str) (m : Memory)
    → Answers (append_copy tokens s m) m (tokens ++ s ∷ [])
unfolding append_copy
append_copy-Answers tokens s m =
    bind-Answers (new s) _ s _ m (new-Answers s m)
      λ m'. bind-Answers (new s) _ s _ m' (new-Answers s m') λ m''. pure-Answers _ _

-- The character at `i`, where `s` is split at `i`.
char_here :
    (p cur rest s : Str) (i : ℕ)
    → s ≡ p ++ (cur ++ rest)
    → i ≡ length p + length cur
    → char_at s i ≡ char_at rest 0
char_here p cur rest s i e h =
    let k : i ≡ length (p ++ cur) = omega (arith, length-append p cur) in
    rw (e, k, ← append_assoc p cur rest) (char_at-append (p ++ cur) rest)

level_here :
    (p cur rest s : Str) (i start : ℕ)
    → s ≡ p ++ (cur ++ rest)
    → start ≡ length p
    → i ≡ length p + length cur
    → (if not (start == i) then slice s start i else []) ≡ cur
level_here p [] rest s i start e h k = ground (arith)
level_here p (c ∷ cur) rest s i start e h k =
    let there : slice (p ++ ((c ∷ cur) ++ rest)) (length p) i ≡ c ∷ cur =
      slice-append p (c ∷ cur) rest i k in
    let moved : (not (start == i)) ≡ true = ground arith in rw (moved, e, h) there

loop_stop :
    (n : ℕ) (s : Str) (i start : ℕ) (tokens : List Str)
    → (char_at s i == b'/' || char_at s i == 0) ≡ true
    → tokenise_loop (suc n) s i start tokens ≡ (
        append_copy tokens (if not (start == i) then slice s start i else [])
        >>= tokenise_loop n s (i + 1) (i + 1))
unfolding tokenise_loop
loop_stop n s i start tokens e = rw (tokenise_loop, e)

loop_on :
    (n : ℕ) (s : Str) (i start : ℕ) (tokens : List Str)
    → (char_at s i == b'/' || char_at s i == 0) ≡ false
    → tokenise_loop (suc n) s i start tokens ≡ tokenise_loop n s (i + 1) start tokens
unfolding tokenise_loop
loop_on n s i start tokens e = rw (tokenise_loop, e)

loop-Answers :
    (rest p cur s : Str) (i start : ℕ) (tokens out : List Str) (m : Memory)
    → IsStr rest
    → s ≡ p ++ (cur ++ rest)
    → start ≡ length p
    → i ≡ length p + length cur
    → tokens ++ levels_from cur rest ≡ out
    → Answers (tokenise_loop (suc (length rest)) s i start tokens m) m out
loop-Answers [] p cur s i start tokens out m w e h k o =
    let end : (char_at s i == b'/' || char_at s i == 0) ≡ true =
      rw (char_here p cur [] s i e k) refl in
    rw (loop_stop 0 s i start tokens end, level_here p cur [] s i start e h k)
      (bind-Answers (append_copy tokens cur) _ _ _ m (append_copy-Answers tokens cur m) λ m'.
        unfold tokenise_loop in
        subst (λ x. Answers (pure (tokens ++ cur ∷ []) m') m' x) o
          (pure-Answers (tokens ++ cur ∷ []) m'))
loop-Answers (c ∷ rest) p cur s i start tokens out m w e h k o = elim (Bool-cases (c == b'/')) [
  | inl slash ↦
      let end : (char_at s i == b'/' || char_at s i == 0) ≡ true =
        rw (char_here p cur (c ∷ rest) s i e k, slash) refl in
      rw
        (
          loop_stop (suc (length rest)) s i start tokens end,
          level_here p cur (c ∷ rest) s i start e h k,
        )
        (bind-Answers (append_copy tokens cur) _ _ _ m (append_copy-Answers tokens cur m) λ m'.
          loop-Answers rest (p ++ (cur ++ c ∷ [])) [] s (i + 1) (i + 1) (tokens ++ cur ∷ []) out m'
            w.1 (e ∙ simp append_assoc)
            (omega (arith, length-append p (cur ++ c ∷ []), length-append cur (c ∷ [])))
            (omega (arith, length-append p (cur ++ c ∷ []), length-append cur (c ∷ [])))
            (append_assoc tokens (cur ∷ []) (levels_from [] rest) ∙ (rw slash at o)))
  | inr other ↦
      let more : (char_at s i == b'/' || char_at s i == 0) ≡ false =
        rw (char_here p cur (c ∷ rest) s i e k) (ground arith) in
      rw (loop_on (suc (length rest)) s i start tokens more) (
        loop-Answers rest p (cur ++ c ∷ []) s (i + 1) start tokens out m w.1 (e ∙ simp append_assoc)
          h (omega (arith, length-append cur (c ∷ []))) (rw other at o))
]

head-Answers :
    (s : Str) (m : Memory)
    → Answers (tokenise_head s m) m (if not (char_at s 0 == b'$') then [] ∷ [] else [])
unfolding tokenise_head
head-Answers s m = elim (Bool-cases (not (char_at s 0 == b'$'))) [
  | inl named ↦ rw named (append_copy-Answers [] [] m)
  | inr other ↦ rw other (pure-Answers _ _)
]

slash-Answers :
    (s : Str) (tokens : List Str) (m : Memory)
    → IsStr s
    → Answers (tokenise_slash s tokens m) m (tokens ++ levels s)
unfolding tokenise_slash
slash-Answers [] tokens m w = loop-Answers [] [] [] [] 0 0 tokens _ m w refl refl refl refl
slash-Answers (c ∷ s) tokens m w = elim (Bool-cases (c == b'/')) [
  | inl slash ↦ rw slash (
      bind-Answers (append_copy tokens []) _ _ _ m (append_copy-Answers tokens [] m) λ m'.
        loop-Answers s (c ∷ []) [] (c ∷ s) 1 1 (tokens ++ [] ∷ []) _ m' w.1 refl refl refl
          (append_assoc tokens ([] ∷ []) (levels s)))
  | inr other ↦
      rw (other, add-one)
        (loop-Answers (c ∷ s) [] [] (c ∷ s) 0 0 tokens _ m w refl refl refl (rw other refl))
]

-- Whatever the allocator answers, the tokenise of a C string returns exactly its levels, below a
-- level with no name unless it starts with `$`, or it reports an error and some call answered NULL.
pub sub_topic_tokenise-tokens_of :
    (s : Str) (m : Memory) → IsStr s → Answers (sub_topic_tokenise s m) m (tokens_of s)
unfolding sub_topic_tokenise
sub_topic_tokenise-tokens_of s m w =
    bind-Answers (tokenise_head s) (tokenise_slash s) _ _ m (head-Answers s m)
      λ m'. slash-Answers s _ m' w
