-- ===== src/Substree/Tree.antt =====
-- `struct subleaf` and `struct subhier` of broker/substree.h.
use mumq.Base.{ℕ, List, [], ◌∷◌}
use mumq.Base.Strings.{Str}

-- `context` is the index of the client in the table `clients` of the broker. `prev` is the leaf
-- before it in the list.
pub record Leaf : Type 0 where
  pub context : ℕ
  pub qos : ℕ

-- A pointer to a `subhier`, with what it points to: `null`, or a node with its topic, its list of
-- leaves, and the pointers `children` and `next`. `parent` is the node above. `retained` is never set.
pub data Hier : Type 0 where
  null : Hier
  node : (topic : Str) (subs : List Leaf) (children next : Hier) → Hier

-- `root_lock` of `mqtt3_sub_add`, as the thread that takes it finds it: free; held by this very thread; or
-- held by another thread, which is waited for.
pub data RootLock : Type 0 where
  released held_here held_elsewhere : RootLock

-- The address of a node: the topics from the node below the root down to it.
abbrev pub Address : Type 0
Address = List Str

-- `"+"` and `"#"`
abbrev pub plus : Str
plus = b'+' ∷ []

abbrev pub hash : Str
hash = b'#' ∷ []

-- `root.children` as `init_database` leaves it.
abbrev pub initial : Hier
initial = node [] [] null null
