-- ===== src/Startup/Exits.antt =====
-- What the process of the broker does with its threads (broker/broker.c, 120-155).
use mumq.Base.{
  ℕ, zero, suc, ◌+◌, ◌<◌, ◌≡◌, ◌≢◌, refl, ap, ◌∙◌, ◌↔◌, ◌⊎◌, inl, inr, Bool, true, false, List, [],
  ◌∷◌, ◌++◌, ◌==◌, ==_iff, if◌then◌else◌, arith,
}
use mathlib.Core.List.{append_assoc, append-nil}
use mumq.Startup.{
  Call, usleep, attr_init, create, attr_getstacksize, join, attr_destroy, do_call, create_all,
  call_all, run_worker,
}

abbrev pub starts : ℕ → ℕ → List Call
starts zero i = []
starts (suc k) i = usleep 10000 ∷ attr_init i ∷ create i ∷ attr_getstacksize i ∷ starts k (suc i)

abbrev pub each : (ℕ → Call) → ℕ → ℕ → List Call
each f zero i = []
each f (suc k) i = f i ∷ each f k (suc i)

-- The calls that were made, with the state of the system.
pub record Logged {ℓ} (S : Type ℓ) : Type ℓ where
  pub inner : S
  pub calls : List Call

module _ {ℓ} {S : Type ℓ} (call : Call → S → ℕ × S) where
  abbrev pub logged : Call → Logged S → ℕ × Logged S
  logged c s =
      let (rc, inner) = call c s.inner in (rc, record { inner = inner; calls = s.calls ++ c ∷ [] })

  call_all-calls :
      (f : ℕ → Call) (k i : ℕ) (s : Logged S)
      → (call_all logged f k i s).calls ≡ s.calls ++ each f k i
  unfolding call_all do_call
  call_all-calls f zero i s = simp (append-nil)
  call_all-calls f (suc k) i s =
      call_all-calls f k (suc i) _ ∙ append_assoc s.calls (f i ∷ []) (each f k (suc i))

  -- All threads are created, or one is not and none after it.
  unfoldable pub Creates : ℕ → ℕ → List Call → ℕ × Logged S → Type 0
  Creates k i before (rc, s) =
      ((rc ≡ 0) × (s.calls ≡ before ++ starts k i))
      ⊎ ((n : ℕ) × (n < k)
          × (rc ≢ 0)
          × (s.calls
              ≡ before ++ (starts n i ++ usleep 10000 ∷ attr_init (n + i) ∷ create (n + i) ∷ [])))

  abbrev pub made_at : ℕ → List Call
  made_at i = usleep 10000 ∷ attr_init i ∷ create i ∷ []

  append_started :
      (before : List Call) (i : ℕ) (l : List Call)
      → before
          ++ usleep 10000 ∷ []
          ++ attr_init i ∷ []
          ++ create i ∷ []
          ++ attr_getstacksize i ∷ []
          ++ l
        ≡ before ++ (usleep 10000 ∷ attr_init i ∷ create i ∷ attr_getstacksize i ∷ l)
  append_started before i l = simp (append_assoc)

  Creates-suc :
      (k i : ℕ) (before : List Call) (r : ℕ × Logged S)
      → Creates k
          (suc i)
          (before
            ++ usleep 10000 ∷ []
            ++ attr_init i ∷ []
            ++ create i ∷ []
            ++ attr_getstacksize i ∷ [])
          r
      → Creates (suc k) i before r
  unfolding Creates
  Creates-suc k i before (rc, s) (inl (e, calls)) =
      inl (e, calls ∙ append_started before i (starts k (suc i)))
  Creates-suc k i before (rc, s) (inr (n, lt, ne, calls)) =
      let same : n + suc i ≡ suc n + i = omega arith in
      inr (
        suc n,
        omega arith,
        ne,
        calls
            ∙ append_started before i (starts n (suc i) ++ made_at (n + suc i))
            ∙ ap (λ j. before ++ (starts (suc n) i ++ made_at j)) same,
      )

  if-Creates :
      (z : Bool) (k i rc : ℕ) (before : List Call) (rest : ℕ × Logged S) (s : Logged S)
      → (rc ≡ 0 → z ≡ true)
      → Creates (suc k) i before rest
      → s.calls ≡ before ++ made_at i
      → Creates (suc k) i before (if z then rest else (rc, s))
  unfolding Creates
  if-Creates true k i rc before rest s zero_is h e = h
  if-Creates false k i rc before rest s zero_is h e =
      inr (0, omega arith, (λ z. cc (zero_is z)), e ∙ ap (λ j. before ++ made_at j) (omega arith))

  pub create_all-Creates : (k i : ℕ) (s : Logged S) → Creates k i s.calls (create_all logged k i s)
  unfolding create_all do_call Creates
  create_all-Creates zero i s = inl (refl, simp (append-nil))
  create_all-Creates (suc k) i s =
      let (rc, t) =
        logged (create i) (do_call logged (attr_init i) (do_call logged (usleep 10000) s)) in
      let rest = create_all logged k (suc i) (do_call logged (attr_getstacksize i) t) in
      if-Creates (rc == 0) k i rc s.calls rest t (==_iff rc 0).1
        (Creates-suc k i s.calls rest
          (create_all-Creates k (suc i) (do_call logged (attr_getstacksize i) t)))
        (simp (append_assoc))

  -- All threads are created, each by its number in turn, then all are joined and their attributes destroyed, in
  -- turn, with the result 0; or one is not created, the result is not 0, and nothing is called after.
  abbrev pub Works : ℕ → ℕ × Logged S → Type 0
  Works k r =
      ((r.0 ≡ 0) × (r.1.calls ≡ starts k 0 ++ (each join k 0 ++ each attr_destroy k 0)))
      ⊎ ((n : ℕ) × (n < k) × (r.0 ≢ 0) × (r.1.calls ≡ starts n 0 ++ made_at n))

  joins-Works :
      (z : Bool) (k rc : ℕ) (t : Logged S)
      → ((z ≡ true) ↔ (rc ≡ 0))
      → Creates k 0 [] (rc, t)
      → Works k (
          if z then (0, call_all logged attr_destroy k 0 (call_all logged join k 0 t)) else (rc, t))
  unfolding Creates
  joins-Works true k rc t iff (inl (e, calls)) = inl (
    refl,
    call_all-calls attr_destroy k 0 (call_all logged join k 0 t)
        ∙ ap (λ l. l ++ each attr_destroy k 0)
            (call_all-calls join k 0 t ∙ ap (λ l. l ++ each join k 0) calls)
        ∙ append_assoc (starts k 0) (each join k 0) (each attr_destroy k 0),
  )
  joins-Works true k rc t iff (inr (n, lt, ne, calls)) = absurd (ne (iff.0 refl))
  joins-Works false k rc t iff (inl (e, calls)) = cc (iff.1 e)
  joins-Works false k rc t iff (inr (n, lt, ne, calls)) =
      inr (n, lt, ne, calls ∙ ap (λ j. starts n 0 ++ made_at j) (omega arith))

  -- Whatever the calls answer: `run_worker` creates all threads, each by its number in turn, then joins
  -- them all and destroys their attributes, in turn, and returns 0; or one cannot be created, and then it
  -- returns what is not 0, creates no other and joins none.
  pub run_worker-Works :
      (k : ℕ) (s : S) → Works k (run_worker logged k (record { inner = s; calls = [] }))
  unfolding run_worker
  run_worker-Works k s =
      let (rc, t) = create_all logged k 0 (record { inner = s; calls = [] }) in
      joins-Works (rc == 0) k rc t (==_iff rc 0)
        (create_all-Creates k 0 (record { inner = s; calls = [] }))
