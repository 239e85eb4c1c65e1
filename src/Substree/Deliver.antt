-- ===== src/Substree/Deliver.antt =====
-- Subscribing and publishing together: who subscribed to a filter that matches receives the message.
use mumq.Base.{
  ℕ, ◌≡◌, refl, ap, ◌∙◌, Bool, true, inl, inr, Option, List, [], ◌∷◌, ◌++◌, if◌then◌else◌,
  Bool-cases,
}
use mumq.Base.Memory.{Memory}
use mumq.Base.Strings.{Str, IsStr, same_str, same_str_iff, same_str_refl}
use mumq.Substree.Tree.{Leaf, Hier, null, node, Address, RootLock}
use mumq.Substree.Tokens.Levels.{tokens_of}
use mumq.Substree.Search.Matching.{
  Matches, matches, matches_iff, Entry, below, at, entries, receivers,
}
use mumq.Substree.Search.Roots.{starts_with, root_entries}
use mumq.Substree.Add.{mqtt3_sub_add, success}
use mumq.Substree.Add.Lookup.{own_or, leaves_at, same_address, subscribed}
use mumq.Substree.Add.Roots.{mqtt3_sub_add-leaves_at}
use mathlib.Core.List.{Memᴰ}
use mathlib.Core.List.Memᴰ

mem-at : (t : Str) {l : Leaf} {ls : List Leaf} → Memᴰ l ls → Memᴰ (t ∷ [], l) (at t ls)
mem-at t (Memᴰ.head e) = Memᴰ.head (rw e)
mem-at t (Memᴰ.tail m) = Memᴰ.tail (mem-at t m)

mem-below :
    (t : Str) {f : List Str} {l : Leaf} {es : List Entry}
    → Memᴰ (f, l) es
    → Memᴰ (t ∷ f, l) (below t es)
mem-below t {f} {l} (Memᴰ.head {x} e) = Memᴰ.head (ap (λ (y : Entry). (t ∷ y.0, y.1)) e)
mem-below t (Memᴰ.tail m) = Memᴰ.tail (mem-below t m)

mem-own :
    (t : Str) (ls : List Leaf) (ch : Hier) (rest : List Entry) (ts : Address) (l : Leaf)
    → (Memᴰ l (leaves_at ch ts) → Memᴰ (ts, l) (entries ch))
    → Memᴰ l (own_or ls ts (leaves_at ch ts))
    → Memᴰ (t ∷ ts, l) (below t (entries ch) ++ (at t ls ++ rest))
mem-own t ls ch rest [] l deeper m =
    Memᴰ.append_right (below t (entries ch)) (Memᴰ.append_left rest (mem-at t m))
mem-own t ls ch rest (u ∷ us) l deeper m =
    Memᴰ.append_left (at t ls ++ rest) (mem-below t (deeper m))

-- A leaf at an address is a subscription of the tree.
mem-entries : (h : Hier) (p : Address) (l : Leaf) → Memᴰ l (leaves_at h p) → Memᴰ (p, l) (entries h)
mem-entries null p l m = absurd (Memᴰ.not-nil m)
mem-entries (node topic ls ch nx) [] l m = absurd (Memᴰ.not-nil m)
mem-entries (node topic ls ch nx) (t ∷ ts) l m = elim (Bool-cases (same_str topic t)) [
  | inl e ↦
      rw ((same_str_iff topic t).0 e)
        (mem-own t ls ch (entries nx) ts l (λ d. mem-entries ch ts l d) (rw e at m))
  | inr e ↦
      Memᴰ.append_right (below topic (entries ch))
        (Memᴰ.append_right (at topic ls) (mem-entries nx (t ∷ ts) l (rw e at m)))
]

mem-receivers :
    (p : List Str → Bool) (f : List Str) (l : Leaf) (es : List Entry)
    → p f ≡ true
    → Memᴰ (f, l) es
    → Memᴰ l (receivers p es)
mem-receivers p f l [] h m = absurd (Memᴰ.not-nil m)
mem-receivers p f l ((g, k) ∷ es) h m = elim (Memᴰ.cases_cons m) [
  | inl e ↦ rw (← ap (λ (y : Entry). y.0) e, h) (Memᴰ.head (ap (λ (y : Entry). y.1) e))
  | inr m' ↦ elim (Bool-cases (p g)) [
    | inl x ↦ rw x (Memᴰ.tail (mem-receivers p f l es h m'))
    | inr x ↦ rw x (mem-receivers p f l es h m')
  ]
]

-- A leaf below a root is a subscription that a search for the root's topic comes to.
mem-root_entries :
    (roots : Hier) (t u : Str) (f ts : List Str) (l : Leaf)
    → starts_with ts t ≡ true
    → Memᴰ l (leaves_at roots (t ∷ u ∷ f))
    → Memᴰ (u ∷ f, l) (root_entries roots ts)
mem-root_entries null t u f ts l h m = absurd (Memᴰ.not-nil m)
mem-root_entries (node topic ls ch nx) t u f ts l h m = elim (Bool-cases (same_str topic t)) [
  | inl e ↦
      rw ((same_str_iff topic t).0 e, h)
        (Memᴰ.append_left (root_entries nx ts) (mem-entries ch (u ∷ f) l (rw e at m)))
  | inr e ↦
      Memᴰ.append_right (if starts_with ts topic then entries ch else [])
        (mem-root_entries nx t u f ts l h (rw e at m))
]

-- The leaves after a subscription hold one of a client with the id, and with the `qos`.
subscribed-IsFor :
    (ids : ℕ → Str) (context qos : ℕ) (ls : List Leaf)
    → (l : Leaf) × Memᴰ l (subscribed ids context qos ls)
      × (ids l.context ≡ ids context)
      × (l.qos ≡ qos)
unfolding subscribed
subscribed-IsFor ids context qos [] =
    (record { context = context; qos = qos }, Memᴰ.head refl, refl, refl)
subscribed-IsFor ids context qos (l ∷ ls) =
    elim (Bool-cases (same_str (ids l.context) (ids context))) [
      | inl e ↦ rw e (
        record l { qos = qos },
        Memᴰ.head refl,
        (same_str_iff (ids l.context) (ids context)).0 e,
        refl,
      )
      | inr e ↦
          let (k, there, id, q) = subscribed-IsFor ids context qos ls in
          rw e (k, Memᴰ.tail there, id, q)
    ]

same_address_refl : (p : Address) → same_address p p ≡ true
same_address_refl [] = refl
same_address_refl (t ∷ p) = rw (same_str_refl t) (same_address_refl p)

-- After a subscription that returned 0, a topic that the filter matches, with the same first token,
-- reaches a client that has the caller's id: it is among those that a search for the topic calls, with
-- the `qos` that was asked for.
pub mqtt3_sub_add-receivers :
    (ids : ℕ → Str) (context : ℕ) (sub : Str) (qos : ℕ) (roots : Hier) (locked : RootLock)
    (subs : List (Option Address)) (m : Memory) (t : Str) (f ts : List Str)
    → IsStr sub
    → tokens_of sub ≡ t ∷ f
    → starts_with ts t ≡ true
    → Matches (tokens_of sub) ts
    → (mqtt3_sub_add ids context sub qos roots locked subs m).rc ≡ success
    → (l : Leaf) × Memᴰ l (
        receivers
          (λ g. matches g ts)
          (root_entries (mqtt3_sub_add ids context sub qos roots locked subs m).roots ts))
      × (ids l.context ≡ ids context)
      × (l.qos ≡ qos)
mqtt3_sub_add-receivers ids context sub qos roots locked subs m t f ts str first starts match done =
    let r = mqtt3_sub_add ids context sub qos roots locked subs m in
    let (l, there, id, q) = subscribed-IsFor ids context qos (leaves_at roots (t ∷ t ∷ f)) in
    let now : leaves_at r.roots (t ∷ t ∷ f)
        ≡ subscribed ids context qos (leaves_at roots (t ∷ t ∷ f)) =
      mqtt3_sub_add-leaves_at ids context sub qos roots locked subs m (t ∷ t ∷ f) str
      ∙ rw (first, done, same_address_refl (t ∷ t ∷ f)) in
    (
      l,
      mem-receivers (λ g. matches g ts) (t ∷ f) l (root_entries r.roots ts)
          ((matches_iff (t ∷ f) ts).1 (rw first at match))
          (mem-root_entries r.roots t t f ts l starts (rw now there)),
      id,
      q,
    )
