-- ===== src/Substree/Add.antt =====
-- `_sub_add` and `mqtt3_sub_add` of broker/substree.c. `ids` gives the `id` of each client in the table
-- of the broker. The lock `branch_lock` is taken and released round one assignment and is left out.
pub mod Lookup
pub mod Roots
pub mod Enough
pub mod Lock
use mumq.Base.{ℕ, Bool, true, false, Option, none, some, List, [], ◌∷◌, ◌++◌, if◌then◌else◌}
use mumq.Base.Memory.{Memory, Alloc, pure, ◌>>=◌, new, alloc}
use mumq.Base.Strings.{Str, same_str}
use mumq.Substree.Tree.{
  Leaf, Hier, null, node, Address, RootLock, released, held_here, held_elsewhere,
}
use mumq.Substree.Tokens.{sub_topic_tokenise}

-- The loop over the leaves: the list with the new `qos`, if a leaf is there whose client has the id.
unfoldable pub set_qos : (ℕ → Str) → Str → ℕ → List Leaf → Option (List Leaf)
set_qos ids id qos [] = none
set_qos ids id qos (l ∷ ls) =
    let rest : Option (List Leaf) = elim (set_qos ids id qos ls) [
      | none ↦ none
      | some ls' ↦ some (l ∷ ls')
    ] in
    if same_str (ids l.context) id then some (record l { qos = qos } ∷ ls) else rest

-- The loop over `context->subs`: the first free place, or a place more by `realloc`.
pub place_sub : Address → List (Option Address) → Alloc (List (Option Address))
place_sub here [] = new (some here ∷ [])
place_sub here (none ∷ subs) = pure (some here ∷ subs)
place_sub here (some a ∷ subs) = place_sub here subs >>= λ subs'. pure (some a ∷ subs')

-- What a call of `_sub_add` leaves: of the node, its leaves and its children; of the client, the
-- addresses in `context->subs`; `done` is the return of 0, and not `done` that of -2.
pub record Added : Type 0 where
  pub leaves : List Leaf
  pub children : Hier
  pub subs : List (Option Address)
  pub done : Bool
  pub memory : Memory

-- The leaf is linked after the address has its place.
link_leaf :
    ℕ
    → ℕ
    → List Leaf
    → Hier
    → List (Option Address)
    → Option (List (Option Address)) × Memory
    → Added
link_leaf context qos leaves children subs (none, m) = record {
  leaves = leaves;
  children = children;
  subs = subs;
  done = false;
  memory = m;
}
link_leaf context qos leaves children subs (some subs', m) = record {
  leaves = leaves ++ record { context = context; qos = qos } ∷ [];
  children = children;
  subs = subs';
  done = true;
  memory = m;
}

-- At the last token: a leaf with the client's id gets the new `qos`, or a new leaf is added.
pub sub_leaf :
    (ℕ → Str) → ℕ → ℕ → Address → List Leaf → Hier → List (Option Address) → Memory → Added
unfolding set_qos place_sub link_leaf
sub_leaf ids context qos here leaves children subs m = elim (set_qos ids (ids context) qos leaves) [
  | some leaves' ↦ record {
    leaves = leaves';
    children = children;
    subs = subs;
    done = true;
    memory = m;
  }
  | none ↦
      link_leaf context qos leaves children subs
        ((new tt >>= λ (leaf : Unit {0}). place_sub here subs) m)
]

-- `calloc` of the branch and `strdup` of its topic.
pub new_branch : Str → Alloc Str
new_branch t = new t >>= λ t'. new t'

-- A branch that could not be made is not linked.
pub no_branch : List Leaf → List (Option Address) → Memory → Added
no_branch leaves subs m = record {
  leaves = leaves;
  children = null;
  subs = subs;
  done = false;
  memory = m;
}

-- `here` is the address of the node with the leaves; `children` is the rest of its children from
-- where the loop stands.
pub sub_add :
    (ℕ → Str)
    → ℕ
    → ℕ
    → List Str
    → Address
    → List Leaf
    → Hier
    → List (Option Address)
    → Memory
    → Added
unfolding sub_leaf no_branch
sub_add ids context qos [] here leaves children subs m =
    sub_leaf ids context qos here leaves children subs m
sub_add ids context qos (t ∷ ts) here leaves null subs m =
    let (made, m') = new_branch t m in
    elim made [
      | none ↦ no_branch leaves subs m'
      | some topic ↦
          let r = sub_add ids context qos ts (here ++ t ∷ []) [] null subs m' in
          record r { leaves = leaves; children = node topic r.leaves r.children null }
    ]
sub_add ids context qos (t ∷ ts) here leaves (node topic ls ch nx) subs m =
    elim (same_str topic t) [
      | true ↦
          let r = sub_add ids context qos ts (here ++ t ∷ []) ls ch subs m in
          record r { leaves = leaves; children = node topic r.leaves r.children nx }
      | false ↦
          let r = sub_add ids context qos (t ∷ ts) here leaves nx subs m in
          record r { children = node topic ls ch r.children }
    ]

-- The chain of roots again, one node before where the loop stands.
abbrev pub past_root : Str → List Leaf → Hier → Option Added → Option Added
past_root topic ls ch none = none
past_root topic ls ch (some r) = some (record r { children = node topic ls ch r.children })

-- The loop over the nodes below the root: a node with the first token's topic takes the whole list of
-- tokens. Of the result `children` is the chain of nodes below the root.
pub add_root : (ℕ → Str) → ℕ → ℕ → List Str → Hier → List (Option Address) → Memory → Option Added
unfolding sub_add
add_root ids context qos [] roots subs m = none
add_root ids context qos (t ∷ ts) null subs m = none
add_root ids context qos (t ∷ ts) (node topic ls ch nx) subs m =
    let next = past_root topic ls ch (add_root ids context qos (t ∷ ts) nx subs m) in
    if same_str topic t
    then (let r = sub_add ids context qos (t ∷ ts) (topic ∷ []) ls ch subs m in
        some (record r { leaves = []; children = node topic r.leaves r.children nx }))
    else next

-- What the caller of `mqtt3_sub_add` sees: 0, 1 and -2; a wait for a lock that another thread holds;
-- a read through the NULL pointer.
pub data Rc : Type 0 where
  success failure no_memory deadlock null_pointer : Rc

abbrev pub rc_of : Bool → Rc
rc_of true = success
rc_of false = no_memory

-- `locked` is `root_lock` after the call.
pub record Subscribed : Type 0 where
  pub roots : Hier
  pub locked : RootLock
  pub subs : List (Option Address)
  pub rc : Rc
  pub memory : Memory

abbrev pub unlocked : Added → Subscribed
unlocked r = record {
  roots = r.children;
  locked = released;
  subs = r.subs;
  rc = rc_of r.done;
  memory = r.memory;
}

-- No node has the first token's topic: a new one becomes the first. The two returns of -2 on this
-- path leave `root_lock` held.
pub new_root :
    (ℕ → Str) → ℕ → ℕ → Str → List Str → Hier → List (Option Address) → Memory → Subscribed
unfolding sub_add
new_root ids context qos t ts roots subs m =
    let (made, m') = new_branch t m in
    elim made [
      | none ↦ record {
        roots = roots;
        locked = held_here;
        subs = subs;
        rc = no_memory;
        memory = m';
      }
      | some topic ↦
          let r = sub_add ids context qos (t ∷ ts) (topic ∷ []) [] null subs m' in
          unlocked (record r { leaves = []; children = node topic r.leaves r.children roots })
    ]

pub sub_add_tokens :
    (ℕ → Str) → ℕ → ℕ → List Str → Hier → List (Option Address) → Memory → Subscribed
unfolding add_root new_root
sub_add_tokens ids context qos [] roots subs m = record {
  roots = roots;
  locked = held_here;
  subs = subs;
  rc = null_pointer;
  memory = m;
}
sub_add_tokens ids context qos (t ∷ ts) roots subs m =
    elim (add_root ids context qos (t ∷ ts) roots subs m) [
      | some r ↦ unlocked r
      | none ↦ new_root ids context qos t ts roots subs m
    ]

-- After the tokenise, `pthread_rwlock_wrlock(&root_lock)`, whose result is not read: for the thread that
-- holds the lock already it is the error EDEADLK, as POSIX allows and glibc does, and the call goes on.
pub sub_add_locked :
    (ℕ → Str) → ℕ → ℕ → List Str → Hier → RootLock → List (Option Address) → Memory → Subscribed
unfolding sub_add_tokens
sub_add_locked ids context qos tokens roots released subs m =
    sub_add_tokens ids context qos tokens roots subs m
sub_add_locked ids context qos tokens roots held_here subs m =
    sub_add_tokens ids context qos tokens roots subs m
sub_add_locked ids context qos tokens roots held_elsewhere subs m = record {
  roots = roots;
  locked = held_elsewhere;
  subs = subs;
  rc = deadlock;
  memory = m;
}

unfoldable pub mqtt3_sub_add :
    (ℕ → Str) → ℕ → Str → ℕ → Hier → RootLock → List (Option Address) → Memory → Subscribed
unfolding sub_add_locked new_branch
mqtt3_sub_add ids context sub qos roots locked subs m =
    let (tokens, m') = sub_topic_tokenise sub m in
    elim tokens [
      | none ↦ record { roots = roots; locked = locked; subs = subs; rc = failure; memory = m' }
      | some ts ↦ sub_add_locked ids context qos ts roots locked subs m'
    ]
