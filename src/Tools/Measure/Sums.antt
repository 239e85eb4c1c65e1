-- ===== src/Tools/Measure/Sums.antt =====
-- The sums of the subscriber tool (tools/epsub.c, 185-189 and 328-357).
use mumq.Base.{
  ℕ, ◌+◌, ◌^◌, ◌≤◌, ◌<◌, ◌≡◌, refl, sym, subst, ◌∙◌, ◌⊎◌, inl, inr, List, [], ◌∷◌, ◌==◌, ltb, ◌||◌,
  if◌then◌else◌, All, arith,
}
use mumq.Base.Words.{add64}
use mumq.Tools.Measure.{Times, no_times, noted, SubStat, Totals, no_stat, add_stat, print_stats}
use mathlib.Core.List.{Memᴰ}

abbrev pub all_noted : List ℕ → Times → Times
all_noted [] t = t
all_noted (d ∷ ds) t = all_noted ds (noted d t)

abbrev pub sum : List ℕ → ℕ
sum [] = 0
sum (d ∷ ds) = d + sum ds

-- The greatest and, of numbers that are not 0, the least.
abbrev pub greatest : List ℕ → ℕ
greatest [] = 0
greatest (d ∷ ds) = let m = greatest ds in if ltb m d then d else m

abbrev pub least : List ℕ → ℕ
least [] = 0
least (d ∷ ds) = let m = least ds in if m == 0 || ltb d m then d else m

pub all_noted-sum :
    (ds : List ℕ) (t : Times) → t.sum + sum ds < 2 ^ 64 → (all_noted ds t).sum ≡ t.sum + sum ds
unfolding noted
all_noted-sum [] t h = omega arith
all_noted-sum (d ∷ ds) t h =
    let next : (noted d t).sum ≡ t.sum + d = omega arith in
    all_noted-sum ds (noted d t) (omega arith) ∙ omega arith

pub all_noted-max :
    (ds : List ℕ) (t : Times)
    → (all_noted ds t).max ≡ (if ltb t.max (greatest ds) then greatest ds else t.max)
unfolding noted
all_noted-max [] t = ground arith
all_noted-max (d ∷ ds) t = all_noted-max ds (noted d t) ∙ ground arith

pub all_noted-min :
    (ds : List ℕ) (t : Times)
    → All (λ d. 0 < d) ds
    → (all_noted ds t).min ≡ (
        if t.min == 0
        then least ds
        else if least ds == 0
        then t.min
        else if ltb (least ds) t.min
        then least ds
        else t.min)
unfolding noted
all_noted-min [] t h = ground arith
all_noted-min (d ∷ ds) t (pos, h) = all_noted-min ds (noted d t) h ∙ ground arith

All-≤ : (m n : ℕ) (ds : List ℕ) → m ≤ n → All (λ d. n ≤ d) ds → All (λ d. m ≤ d) ds
All-≤ m n [] h a = tt
All-≤ m n (d ∷ ds) h (x, a) = (omega arith, All-≤ m n ds h a)

lesser :
    (d m : ℕ)
    → 0 < m
    → (((if m == 0 || ltb d m then d else m) ≡ d) × (d ≤ m))
      ⊎ (((if m == 0 || ltb d m then d else m) ≡ m) × (m ≤ d))
lesser d m h = ground arith

greater :
    (d m : ℕ)
    → (((if ltb m d then d else m) ≡ d) × (m ≤ d)) ⊎ (((if ltb m d then d else m) ≡ m) × (d ≤ m))
greater d m = ground arith

-- `m` is one of `ds`, and none is less.
abbrev pub IsLeast : ℕ → List ℕ → Type 0
IsLeast m ds = Memᴰ m ds × All (λ d. m ≤ d) ds

abbrev pub IsGreatest : ℕ → List ℕ → Type 0
IsGreatest m ds = Memᴰ m ds × All (λ d. d ≤ m) ds

All-≥ : (m n : ℕ) (ds : List ℕ) → n ≤ m → All (λ d. d ≤ n) ds → All (λ d. d ≤ m) ds
All-≥ m n [] h a = tt
All-≥ m n (d ∷ ds) h (x, a) = (omega arith, All-≥ m n ds h a)

pub least-IsLeast :
    (d : ℕ) (ds : List ℕ)
    → All (λ e. 0 < e) (d ∷ ds)
    → (0 < least (d ∷ ds)) × IsLeast (least (d ∷ ds)) (d ∷ ds)
least-IsLeast d [] (pos, h) = (pos, (Memᴰ.head refl, (omega arith, tt)))
least-IsLeast d (e ∷ es) (pos, h) =
    let (pos', (there, all)) = least-IsLeast e es h in
    elim (lesser d (least (e ∷ es)) pos') [
      | inl (same, le) ↦
          subst (λ m. (0 < m) × IsLeast m (d ∷ e ∷ es)) (sym same)
            (pos, (Memᴰ.head refl, (omega arith, All-≤ d (least (e ∷ es)) (e ∷ es) le all)))
      | inr (same, le) ↦
          subst (λ m. (0 < m) × IsLeast m (d ∷ e ∷ es)) (sym same)
            (pos', (Memᴰ.tail there, (le, all)))
    ]

greatest-IsGreatest :
    (d : ℕ) (ds : List ℕ) → All (λ e. 0 < e) (d ∷ ds) → IsGreatest (greatest (d ∷ ds)) (d ∷ ds)
greatest-IsGreatest d [] (pos, h) =
    let e : greatest (d ∷ []) ≡ d = ground arith in
    subst (λ m. IsGreatest m (d ∷ [])) (sym e) (Memᴰ.head refl, (omega arith, tt))
greatest-IsGreatest d (e ∷ es) (pos, h) =
    let (there, all) = greatest-IsGreatest e es h in
    elim (greater d (greatest (e ∷ es))) [
      | inl (same, le) ↦
          subst (λ m. IsGreatest m (d ∷ e ∷ es)) (sym same)
            (Memᴰ.head refl, (omega arith, All-≥ d (greatest (e ∷ es)) (e ∷ es) le all))
      | inr (same, le) ↦
          subst (λ m. IsGreatest m (d ∷ e ∷ es)) (sym same) (Memᴰ.tail there, (le, all))
    ]

-- After the times of any number of connections or messages, none of them 0, were noted one after the other,
-- with a sum below 2^64: `sum` is their sum, `min` is one of them and none is less, and `max` is one of them
-- and none is greater.
pub all_noted-IsLeast :
    (d : ℕ) (ds : List ℕ)
    → All (λ e. 0 < e) (d ∷ ds)
    → sum (d ∷ ds) < 2 ^ 64
    → ((all_noted (d ∷ ds) no_times).sum ≡ sum (d ∷ ds))
      × IsLeast (all_noted (d ∷ ds) no_times).min (d ∷ ds)
      × IsGreatest (all_noted (d ∷ ds) no_times).max (d ∷ ds)
all_noted-IsLeast d ds h small =
    let m : (all_noted (d ∷ ds) no_times).min ≡ least (d ∷ ds) =
      all_noted-min (d ∷ ds) no_times h in
    let g : (all_noted (d ∷ ds) no_times).max ≡ greatest (d ∷ ds) =
      all_noted-max (d ∷ ds) no_times ∙ max_0 (greatest (d ∷ ds)) in
    (
      omega (arith, all_noted-sum (d ∷ ds) no_times (omega arith)),
      subst (λ k. IsLeast k (d ∷ ds)) (sym m) (least-IsLeast d ds h).1,
      subst (λ k. IsGreatest k (d ∷ ds)) (sym g) (greatest-IsGreatest d ds h),
    )
  where
    max_0 : (k : ℕ) → (if ltb 0 k then k else 0) ≡ k
    max_0 k = ground arith

-- A count of the threads and its total.
abbrev pub total_of : (SubStat → ℕ) → List SubStat → ℕ
total_of f [] = 0
total_of f (st ∷ sts) = f st + total_of f sts

adds :
    (f : SubStat → ℕ) (g : Totals → ℕ)
    → ((st : SubStat) (t : Totals) → g (add_stat st t) ≡ add64 (g t) (f st))
    → (sts : List SubStat) (t : Totals) → g t + total_of f sts < 2 ^ 64
    → g (print_stats sts t).0 ≡ g t + total_of f sts
unfolding print_stats
adds f g step [] t h = omega arith
adds f g step (st ∷ sts) t h =
    let one = step st t in adds f g step sts (add_stat st t) (omega arith) ∙ omega arith

cleared : (sts : List SubStat) (t : Totals) → All (λ st. st ≡ no_stat) (print_stats sts t).1
unfolding print_stats
cleared [] t = tt
cleared (st ∷ sts) t = (refl, cleared sts (add_stat st t))

-- While the counts stay below 2^64, `PrintStats` moves what the threads counted since the last time to the
-- totals, of connections, messages, completed clients and errors, and leaves every thread at 0: nothing is
-- lost or counted twice.
pub print_stats-total_of :
    (sts : List SubStat) (t : Totals)
    → t.acc_connects + total_of (λ st. st.connects) sts < 2 ^ 64
    → t.acc_rcv_msgs + total_of (λ st. st.rcv_msgs) sts < 2 ^ 64
    → t.acc_completes + total_of (λ st. st.completes) sts < 2 ^ 64
    → t.acc_errors + total_of (λ st. st.errors) sts < 2 ^ 64
    → ((print_stats sts t).0.acc_connects ≡ t.acc_connects + total_of (λ st. st.connects) sts)
      × ((print_stats sts t).0.acc_rcv_msgs ≡ t.acc_rcv_msgs + total_of (λ st. st.rcv_msgs) sts)
      × ((print_stats sts t).0.acc_completes ≡ t.acc_completes + total_of (λ st. st.completes) sts)
      × ((print_stats sts t).0.acc_errors ≡ t.acc_errors + total_of (λ st. st.errors) sts)
      × All (λ st. st ≡ no_stat) (print_stats sts t).1
unfolding add_stat
print_stats-total_of sts t a b c d = (
  adds (λ st. st.connects) (λ u. u.acc_connects) (λ st u. refl) sts t a,
  adds (λ st. st.rcv_msgs) (λ u. u.acc_rcv_msgs) (λ st u. refl) sts t b,
  adds (λ st. st.completes) (λ u. u.acc_completes) (λ st u. refl) sts t c,
  adds (λ st. st.errors) (λ u. u.acc_errors) (λ st u. refl) sts t d,
  cleared sts t,
)
