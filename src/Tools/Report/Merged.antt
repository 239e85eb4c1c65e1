-- ===== src/Tools/Report/Merged.antt =====
-- The totals of `main` against those of all times together (tools/epsub.c, 677-703).
use mumq.Base.{
  ℕ, ◌+◌, ◌^◌, ◌<◌, ◌≡◌, refl, sym, ap, subst, ◌/◌, ◌∙◌, List, [], ◌∷◌, ◌++◌, map, All, arith,
}
use mumq.Tools.Measure.{Times, no_times, noted, ThreadContext}
use mumq.Tools.Measure.Sums.{
  all_noted, sum, all_noted-sum, all_noted-min, all_noted-max, least-IsLeast, IsLeast, IsGreatest,
  all_noted-IsLeast,
}
use mumq.Tools.Report.{add_times, total_times, Report, report_of, report}

abbrev pub flatten : List (List ℕ) → List ℕ
flatten [] = []
flatten (ds ∷ rest) = ds ++ flatten rest

-- The times of a thread: at least one, and none is 0.
abbrev pub AreTimes : List ℕ → Type 0
AreTimes [] = ⊥
AreTimes (d ∷ ds) = All (λ e. 0 < e) (d ∷ ds)

Times-same : {t u : Times} → t.sum ≡ u.sum → t.min ≡ u.min → t.max ≡ u.max → t ≡ u
Times-same a b c = cc

sum-append : (ds es : List ℕ) → sum (ds ++ es) ≡ sum ds + sum es
sum-append [] es = omega arith
sum-append (d ∷ ds) es = omega (arith, sum-append ds es)

all_noted-append :
    (ds es : List ℕ) (t : Times) → all_noted (ds ++ es) t ≡ all_noted es (all_noted ds t)
all_noted-append [] es t = refl
all_noted-append (d ∷ ds) es t = all_noted-append ds es (noted d t)

-- The times of one thread, noted on their own and then added, or noted on top.
add_times-all_noted :
    (ds : List ℕ) (t : Times)
    → AreTimes ds
    → t.sum + sum ds < 2 ^ 64
    → add_times (all_noted ds no_times) t ≡ all_noted ds t
unfolding add_times
add_times-all_noted [] t none small = elim none [ ]
add_times-all_noted (d ∷ ds) t pos small =
    let l = least-IsLeast d ds pos in
    Times-same
      (omega (arith, all_noted-sum (d ∷ ds) no_times (omega arith), all_noted-sum (d ∷ ds) t small))
      (ground (arith, all_noted-min (d ∷ ds) no_times pos, all_noted-min (d ∷ ds) t pos))
      (ground (arith, all_noted-max (d ∷ ds) no_times, all_noted-max (d ∷ ds) t))

-- A context, with the times that were noted in it.
pub record Part : Type 0 where
  pub ctx : ThreadContext
  pub connecting : List ℕ
  pub receiving : List ℕ

total_times-flatten :
    (f : ThreadContext → Times) (g : Part → List ℕ) (parts : List Part) (t : Times)
    → All (λ p. AreTimes (g p) × (f p.ctx ≡ all_noted (g p) no_times)) parts
    → t.sum + sum (flatten (map g parts)) < 2 ^ 64
    → total_times (map f (map (λ p. p.ctx) parts)) t ≡ all_noted (flatten (map g parts)) t
unfolding total_times
total_times-flatten f g [] t h small = refl
total_times-flatten f g (p ∷ rest) t ((are, noted_), h) small =
    let split = sum-append (g p) (flatten (map g rest)) in
    ap (λ u. total_times (map f (map (λ p. p.ctx) rest)) (add_times u t)) noted_
    ∙ ap (λ u. total_times (map f (map (λ p. p.ctx) rest)) u)
        (add_times-all_noted (g p) t are (omega arith))
    ∙ total_times-flatten f g rest (all_noted (g p) t) h
        (omega (arith, all_noted-sum (g p) t (omega arith)))
    ∙ sym (all_noted-append (g p) (flatten (map g rest)) t)

AreTimes-append : (ds es : List ℕ) → AreTimes ds → All (λ e. 0 < e) es → AreTimes (ds ++ es)
AreTimes-append [] es none h = elim none [ ]
AreTimes-append (d ∷ []) es (pos, _) h = (pos, h)
AreTimes-append (d ∷ c ∷ ds) es (pos, more) h = (pos, AreTimes-append (c ∷ ds) es more h)

all_of-AreTimes : (ds : List ℕ) → AreTimes ds → All (λ e. 0 < e) ds
all_of-AreTimes [] none = elim none [ ]
all_of-AreTimes (d ∷ ds) h = h

module _ (f : ThreadContext → Times) (g : Part → List ℕ) where
  flatten-AreTimes :
      (p : Part) (parts : List Part)
      → All (λ p. AreTimes (g p) × (f p.ctx ≡ all_noted (g p) no_times)) (p ∷ parts)
      → AreTimes (flatten (map g (p ∷ parts)))
  flatten-AreTimes p [] ((h, _), _) = AreTimes-append (g p) [] h tt
  flatten-AreTimes p (q ∷ parts) ((h, _), more) =
      let rest = flatten (map g (q ∷ parts)) in
      AreTimes-append (g p) rest h (all_of-AreTimes rest (flatten-AreTimes q parts more))

-- What is printed of the times `ds` for `n` clients: their sum, divided by the number of the clients, the
-- least of them and the greatest.
abbrev pub Reports : ℕ → List ℕ → Report → Type 0
Reports n ds r = (r.avg ≡ sum ds / n) × IsLeast r.min ds × IsGreatest r.max ds

all_noted-Reports :
    (n : ℕ) (ds : List ℕ)
    → AreTimes ds
    → sum ds < 2 ^ 64
    → Reports n ds (report_of n (all_noted ds no_times))
all_noted-Reports n [] none small = elim none [ ]
all_noted-Reports n (d ∷ ds) h small =
    let (s, least_, greatest_) = all_noted-IsLeast d ds h small in
    (ap (λ k. k / n) s, least_, greatest_)

-- When there is a thread, in every thread some connection and some first message were timed, none of the
-- times is 0, and the sums of all are below 2^64: of the times to connect of all threads together, and of
-- the times to the first message, `main` prints the sum divided by the number of the clients (which is the
-- average only when each client was timed once), one of them such that none is less, and one of them such that
-- none is greater.
pub report-flatten :
    (total_concurrency : ℕ) (p : Part) (parts : List Part)
    → 0 < total_concurrency
    → All
        (λ p. AreTimes p.connecting × (p.ctx.con_time ≡ all_noted p.connecting no_times))
        (p ∷ parts)
    → All
        (λ p. AreTimes p.receiving × (p.ctx.rcv_con_time ≡ all_noted p.receiving no_times))
        (p ∷ parts)
    → sum (flatten (map (λ p. p.connecting) (p ∷ parts))) < 2 ^ 64
    → sum (flatten (map (λ p. p.receiving) (p ∷ parts))) < 2 ^ 64
    → Reports total_concurrency
        (flatten (map (λ p. p.connecting) (p ∷ parts)))
        (report total_concurrency (map (λ p. p.ctx) (p ∷ parts))).0
      × Reports total_concurrency
          (flatten (map (λ p. p.receiving) (p ∷ parts)))
          (report total_concurrency (map (λ p. p.ctx) (p ∷ parts))).1
unfolding report
report-flatten n p parts some_clients c r small small' = (
  subst (λ t. Reports n (flatten (map (λ p. p.connecting) (p ∷ parts))) (report_of n t))
      (sym (
        total_times-flatten (λ ctx. ctx.con_time) (λ p. p.connecting) (p ∷ parts) no_times c
          (omega arith)))
      (all_noted-Reports n _ (flatten-AreTimes (λ ctx. ctx.con_time) (λ p. p.connecting) p parts c)
        small),
  subst (λ t. Reports n (flatten (map (λ p. p.receiving) (p ∷ parts))) (report_of n t))
      (sym (
        total_times-flatten (λ ctx. ctx.rcv_con_time) (λ p. p.receiving) (p ∷ parts) no_times r
          (omega arith)))
      (all_noted-Reports n _
        (flatten-AreTimes (λ ctx. ctx.rcv_con_time) (λ p. p.receiving) p parts r) small'),
)
