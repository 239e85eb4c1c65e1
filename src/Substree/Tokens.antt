-- ===== src/Substree/Tokens.antt =====
-- `_sub_topic_append` and `_sub_topic_tokenise` of broker/substree.c. The linked list of tokens is a
-- list; the blocks that the cleanup frees are not followed.
pub mod Levels
pub mod Correct
use mumq.Base.{
  ℕ, zero, suc, ◌+◌, ◌-◌, Bool, true, false, not, ◌||◌, Option, none, some, List, [], ◌∷◌, ◌++◌,
  ◌==◌, if◌then◌else◌, length,
}
use mumq.Base.Memory.{Memory, Alloc, pure, ◌>>=◌, new}
use mumq.Base.Strings.{Str, char_at, slice}

-- The topic is already a copy: the caller's `strdup` or `malloc` that failed has ended the tokenise.
pub sub_topic_append : List Str → Str → Alloc (List Str)
sub_topic_append tokens topic = do t ← new topic; pure (tokens ++ t ∷ [])

-- `strdup(s)`, or `malloc` and `memcpy`, and the append.
pub append_copy : List Str → Str → Alloc (List Str)
unfolding sub_topic_append
append_copy tokens s = do topic ← new s; sub_topic_append tokens topic

-- `for (i = start; i < len+1; i++)`, by the rounds left.
pub tokenise_loop : ℕ → Str → ℕ → ℕ → List Str → Alloc (List Str)
unfolding append_copy
tokenise_loop zero s i start tokens = pure tokens
tokenise_loop (suc n) s i start tokens = elim (char_at s i == b'/' || char_at s i == 0) [
  | true ↦
      append_copy tokens (if not (start == i) then slice s start i else [])
      >>= tokenise_loop n s (i + 1) (i + 1)
  | false ↦ tokenise_loop n s (i + 1) start tokens
]

-- The tokens before the loop, and where the loop starts.
pub tokenise_head : Str → Alloc (List Str)
unfolding append_copy
tokenise_head s = if not (char_at s 0 == b'$') then append_copy [] [] else pure []

pub tokenise_slash : Str → List Str → Alloc (List Str)
unfolding append_copy tokenise_loop
tokenise_slash s tokens =
    if char_at s 0 == b'/'
    then append_copy tokens [] >>= tokenise_loop (length s) s 1 1
    else tokenise_loop (length s + 1) s 0 0 tokens

-- `none` is the return of 1.
unfoldable pub sub_topic_tokenise : Str → Alloc (List Str)
unfolding tokenise_head tokenise_slash
sub_topic_tokenise s = tokenise_head s >>= tokenise_slash s
