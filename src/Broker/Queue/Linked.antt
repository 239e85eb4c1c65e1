-- ===== src/Broker/Queue/Linked.antt =====
-- The two ends of the queue of a client (broker/hand_mqtt.c, 49-57, broker/event_io.c, 309-315).
use mumq.Base.{
  ℕ, ◌≡◌, ◌≢◌, refl, sym, ap, subst, ◌∙◌, false, if_true, if_false, Option, none, some, List, [],
  ◌∷◌, ◌++◌, ◌==◌, ==_iff, All, arith,
}
use mumq.Broker.{Packet}
use mumq.Broker.Queue.{
  Node, Heap, set, Queue, put, tail_of, get, IsLinked, last_of, AreDistinct, IsQueue,
}

set-same : (h : Heap) (a : ℕ) (n : Node) → set h a n a ≡ n
set-same h a n = if_true _ _ ((==_iff a a).1 refl)

set-other : (h : Heap) (a b : ℕ) (n : Node) → b ≢ a → set h a n b ≡ h b
set-other h a b n ne = let e : (b == a) ≡ false = ground arith in if_false _ _ e

tail_of-last_of :
    (h : Heap) (next tail : Option ℕ) (b : ℕ) (bs : List ℕ) (ps : List Packet)
    → IsLinked h next bs ps
    → tail ≡ last_of (b ∷ bs)
    → tail_of next tail ≡ last_of bs
tail_of-last_of h none tail b [] [] l e = refl
tail_of-last_of h none tail b [] (p ∷ ps) l e = elim l [ ]
tail_of-last_of h none tail b (c ∷ cs) ps l e = elim l [ ]
tail_of-last_of h (some n) tail b [] ps l e = elim l [ ]
tail_of-last_of h (some n) tail b (c ∷ cs) [] l e = elim l [ ]
tail_of-last_of h (some n) tail b (c ∷ cs) (p ∷ ps) l e = e

get-first :
    (h : Heap) (o tail : Option ℕ) (bs : List ℕ) (p : Packet) (ps : List Packet)
    → IsQueue (record { heap = h; sending_packet = o; sending_packet_tail = tail }) bs (p ∷ ps)
    → (q : Queue) × (cs : List ℕ) × (get
          (record { heap = h; sending_packet = o; sending_packet_tail = tail })
        ≡ some (p, q))
      × IsQueue q cs ps
get-first h none tail [] p ps (l, _, _) = elim l [ ]
get-first h none tail (b ∷ bs) p ps (l, _, _) = elim l [ ]
get-first h (some a) tail [] p ps (l, _, _) = elim l [ ]
get-first h (some a) tail (b ∷ bs) p ps ((here, first, rest), last, (_, distinct)) = (
  record { heap = h; sending_packet = (h a).next; sending_packet_tail = tail_of (h a).next tail },
  bs,
  ap
      (λ x. some (
        x,
        record {
          heap = h;
          sending_packet = (h a).next;
          sending_packet_tail = tail_of (h a).next tail;
        },
      ))
      (ap (λ x. (h x).packet) here ∙ first),
  (
    subst (λ x. IsLinked h (h x).next bs ps) (sym here) rest,
    tail_of-last_of h (h a).next tail b bs ps
        (subst (λ x. IsLinked h (h x).next bs ps) (sym here) rest) last,
    distinct,
  ),
)

-- The heap after a packet was put behind the node `t`.
abbrev extended : Heap → ℕ → ℕ → Packet → Heap
extended h a t p =
    let h' = set h a (record { packet = p; next = none }) in
    set h' t (record (h' t) { next = some a })

known : ℕ → Option ℕ → ℕ
known n none = n
known n (some k) = k

some-known : {a b : ℕ} → some a ≡ some b → a ≡ b
unfolding known
some-known {a} e = ap (known a) e

All-last_of :
    (P : ℕ → Type 0) (b : ℕ) (bs : List ℕ) (t : ℕ)
    → All P (b ∷ bs)
    → last_of (b ∷ bs) ≡ some t
    → P t
All-last_of P b [] t (x, _) e = subst P (some-known e) x
All-last_of P b (c ∷ cs) t (x, all) e = All-last_of P c cs t all e

extended-IsLinked :
    (h : Heap) (o : Option ℕ) (b : ℕ) (bs : List ℕ) (ps : List Packet) (a t : ℕ) (p : Packet)
    → IsLinked h o (b ∷ bs) ps
    → AreDistinct (b ∷ bs)
    → All (λ c. c ≢ a) (b ∷ bs)
    → last_of (b ∷ bs) ≡ some t
    → IsLinked (extended h a t p) o ((b ∷ bs) ++ a ∷ []) (ps ++ p ∷ [])
extended-IsLinked h none b bs ps a t p l distinct fresh e = elim l [ ]
extended-IsLinked h (some x) b bs [] a t p l distinct fresh e = elim l [ ]
extended-IsLinked h (some x) b [] (q ∷ r ∷ rs) a t p (here, first, rest) distinct fresh e =
    absurd (too_many (h b).next r rs rest)
  where
    too_many : (o : Option ℕ) (r : Packet) (rs : List Packet) → IsLinked h o [] (r ∷ rs) → ⊥
    too_many none r rs l = l
    too_many (some y) r rs l = l
extended-IsLinked h (some x) b [] (q ∷ []) a t p (here, first, rest) distinct (fresh, _) e =
    let same : b ≡ t = some-known e in
    let h' = set h a (record { packet = p; next = none }) in
    let at : extended h a t p b ≡ record (h' t) { next = some a } =
      ap (extended h a t p) same ∙ set-same h' t _ in
    let old : (h' t).packet ≡ q =
      ap (λ n. (h' n).packet) (sym same) ∙ ap (λ n. n.packet) (set-other h a b _ fresh) ∙ first in
    let new : extended h a t p a ≡ record { packet = p; next = none } =
      set-other h' t a _ (λ k. fresh (same ∙ sym k)) ∙ set-same h a _ in
    (
      here,
      ap (λ n. n.packet) at ∙ old,
      subst (λ n. IsLinked (extended h a t p) n (a ∷ []) (p ∷ [])) (sym (ap (λ n. n.next) at))
          (
            refl,
            ap (λ n. n.packet) new,
            subst (λ n. IsLinked (extended h a t p) n [] []) (sym (ap (λ n. n.next) new)) tt,
          ),
    )
extended-IsLinked h (some x) b (c ∷ cs) (q ∷ ps) a t p (here, first, rest) (differs, distinct)
      (fresh, others) e =
    let at : extended h a t p b ≡ h b =
      set-other (set h a (record { packet = p; next = none })) t b _
        (All-last_of (λ d. b ≢ d) c cs t differs e)
      ∙ set-other h a b _ fresh in
    (
      here,
      ap (λ n. n.packet) at ∙ first,
      subst (λ n. IsLinked (extended h a t p) n ((c ∷ cs) ++ a ∷ []) (ps ++ p ∷ []))
          (sym (ap (λ n. n.next) at))
          (extended-IsLinked h (h b).next c cs ps a t p rest distinct others e),
    )

last_of-append : (b : ℕ) (bs : List ℕ) (a : ℕ) → last_of ((b ∷ bs) ++ a ∷ []) ≡ some a
last_of-append b [] a = refl
last_of-append b (c ∷ cs) a = last_of-append c cs a

append-AreDistinct :
    (bs : List ℕ) (a : ℕ) → AreDistinct bs → All (λ b. b ≢ a) bs → AreDistinct (bs ++ a ∷ [])
append-AreDistinct [] a d f = (tt, tt)
append-AreDistinct (b ∷ bs) a (x, d) (ne, f) = (others bs x, append-AreDistinct bs a d f)
  where
    others : (cs : List ℕ) → All (λ c. b ≢ c) cs → All (λ c. b ≢ c) (cs ++ a ∷ [])
    others [] y = (ne, tt)
    others (c ∷ cs) (z, y) = (z, others cs y)

last_of-some : (b : ℕ) (bs : List ℕ) → (t : ℕ) × (last_of (b ∷ bs) ≡ some t)
last_of-some b [] = (b, refl)
last_of-some b (c ∷ cs) = last_of-some c cs

put-last :
    (h : Heap) (o tail : Option ℕ) (bs : List ℕ) (ps : List Packet) (a : ℕ) (p : Packet)
    → IsQueue (record { heap = h; sending_packet = o; sending_packet_tail = tail }) bs ps
    → All (λ b. b ≢ a) bs
    → IsQueue
        (put a p (record { heap = h; sending_packet = o; sending_packet_tail = tail }))
        (bs ++ a ∷ [])
        (ps ++ p ∷ [])
put-last h (some x) tail [] ps a p (l, _, _) fresh = elim l [ ]
put-last h none tail [] (q ∷ ps) a p (l, _, _) fresh = elim l [ ]
put-last h none tail [] [] a p (l, last, _) fresh =
    let new : set h a (record { packet = p; next = none }) a ≡ record { packet = p; next = none } =
      set-same h a _ in
    subst
      (λ x.
        IsQueue (put a p (record { heap = h; sending_packet = none; sending_packet_tail = x }))
          (a ∷ []) (p ∷ []))
      (sym last)
      (
        (
          refl,
          ap (λ n. n.packet) new,
          subst (λ n. IsLinked (set h a (record { packet = p; next = none })) n [] [])
              (sym (ap (λ n. n.next) new)) tt,
        ),
        refl,
        (tt, tt),
      )
put-last h o tail (b ∷ bs) ps a p (l, last, distinct) fresh =
    let (t, e) = last_of-some b bs in
    subst
      (λ x.
        IsQueue (put a p (record { heap = h; sending_packet = o; sending_packet_tail = x }))
          ((b ∷ bs) ++ a ∷ []) (ps ++ p ∷ []))
      (sym (last ∙ e))
      (
        extended-IsLinked h o b bs ps a t p l distinct fresh e,
        sym (last_of-append b bs a),
        append-AreDistinct (b ∷ bs) a distinct fresh,
      )

-- The first packet of the list, with a queue that holds the rest.
abbrev pub Gets : Queue → List Packet → Type 0
Gets q [] = get q ≡ none
Gets q (p ∷ ps) = (q' : Queue) × (cs : List ℕ) × (get q ≡ some (p, q')) × IsQueue q' cs ps

gets :
    (h : Heap) (o tail : Option ℕ) (bs : List ℕ) (ps : List Packet)
    → IsQueue (record { heap = h; sending_packet = o; sending_packet_tail = tail }) bs ps
    → Gets (record { heap = h; sending_packet = o; sending_packet_tail = tail }) ps
gets h none tail bs [] i = refl
gets h (some x) tail [] [] (l, _, _) = elim l [ ]
gets h (some x) tail (b ∷ bs) [] (l, _, _) = elim l [ ]
gets h o tail bs (p ∷ ps) i = get-first h o tail bs p ps i

-- When the nodes from `sending_packet` on hold the packets of a list, at addresses that are all different, and
-- `sending_packet_tail` is the last of them or NULL: a new packet, at an address of its own, goes to the end
-- of the list, and the packet that is taken is the first of it, with the rest left; NULL is taken from the
-- empty list only.
pub put-IsQueue :
    (q : Queue) (bs : List ℕ) (ps : List Packet) (a : ℕ) (p : Packet)
    → IsQueue q bs ps
    → All (λ b. b ≢ a) bs
    → IsQueue (put a p q) (bs ++ a ∷ []) (ps ++ p ∷ []) × Gets q ps
put-IsQueue q bs ps a p i fresh = (
  put-last q.heap q.sending_packet q.sending_packet_tail bs ps a p i fresh,
  gets q.heap q.sending_packet q.sending_packet_tail bs ps i,
)
