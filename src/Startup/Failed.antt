-- ===== src/Startup/Failed.antt =====
-- How the process of the broker exits when a thread cannot be created (broker/broker.c, 120-155 and
-- 229-263).
use mumq.Base.{
  ℕ, zero, suc, ◌+◌, ◌<◌, ◌≡◌, ◌≢◌, refl, subst, ap, ◌∙◌, ◌↔◌, ◌⊎◌, inl, inr, Bool, true, false,
  Bool-cases, if_true, if_false, List, [], ◌∷◌, ◌++◌, ◌==◌, ==_iff, length, if◌then◌else◌, arith,
}
use mumq.Base.Memory.{Memory}
use mumq.Base.Strings.{Str}
use mumq.Broker.{Broker}
use mumq.Server.{loop_count, ready, init_database}
use mumq.Startup.{
  Call, usleep, attr_init, create, attr_getstacksize, client_id_lock_init, client_id_lock_destroy,
  exit_0, minus_1, do_call, create_all, run_worker, start_server, serve, with_database, main,
}
use mumq.Startup.Exits.{starts, Logged, logged, Creates, made_at, create_all-Creates}

if-fails {ℓ} :
    {S : Type ℓ} (z : Bool) (rc : ℕ) (s : S) (rest : ℕ × S)
    → ((z ≡ true) ↔ (rc ≡ 0))
    → (rest.0 ≢ 0) ⊎ (rc ≢ 0)
    → (if z then rest else (rc, s)).0 ≢ 0
if-fails true rc s rest is (inl h) = h
if-fails true rc s rest is (inr h) = absurd (h (is.0 refl))
if-fails false rc s rest is h = λ e. cc (is.1 e)

create_all-fails {ℓ} :
    {S : Type ℓ} (call : Call → S → ℕ × S) (k i n : ℕ) (s : S)
    → n < k
    → ((u : S) → (call (create (n + i)) u).0 ≢ 0)
    → (create_all call k i s).0 ≢ 0
unfolding create_all do_call
create_all-fails call zero i n s h bad = absurd (omega arith)
create_all-fails call (suc k) i zero s h bad =
    let before = do_call call (attr_init i) (do_call call (usleep 10000) s) in
    let r = call (create i) before in
    if-fails (r.0 == 0) r.0 r.1 (create_all call k (suc i) (do_call call (attr_getstacksize i) r.1))
      (==_iff r.0 0) (inr (subst (λ j. (call (create j) before).0 ≢ 0) (omega arith) (bad before)))
create_all-fails call (suc k) i (suc n) s h bad =
    let r = call (create i) (do_call call (attr_init i) (do_call call (usleep 10000) s)) in
    let t = do_call call (attr_getstacksize i) r.1 in
    let same : suc n + i ≡ n + suc i = omega arith in
    if-fails (r.0 == 0) r.0 r.1 (create_all call k (suc i) t) (==_iff r.0 0) (
      inl (
        create_all-fails call k (suc i) n t (omega arith)
          (λ u. subst (λ j. (call (create j) u).0 ≢ 0) same (bad u))))

if-state {ℓ} :
    {S : Type ℓ} (z : Bool) (a b : ℕ) (s : S) → (if◌then◌else◌ {A = ℕ × S} z (a, s) (b, s)).1 ≡ s
if-state true a b s = refl
if-state false a b s = refl

module _ {ℓ} {S : Type ℓ} (call : Call → S → ℕ × S) where
  -- `start_server` after `client_id_lock_init`, when a thread cannot be created.
  start_server-calls :
      (k n : ℕ) (s : Logged S)
      → n < k
      → ((u : Logged S) → (logged call (create n) u).0 ≢ 0)
      → (j : ℕ) × (j < k)
        × ((start_server (logged call) k s).1.calls ≡ s.calls ++ (starts j 0 ++ made_at call j))
  unfolding start_server run_worker Creates
  start_server-calls k n s h bad =
      let made = create_all (logged call) k 0 s in
      let fails =
        create_all-fails (logged call) k 0 n s h
          (subst (λ i. (u : Logged S) → (logged call (create i) u).0 ≢ 0) (omega arith) bad) in
      let stops : run_worker (logged call) k s ≡ made = elim (Bool-cases (made.0 == 0)) [
        | inl z ↦ absurd (fails ((==_iff made.0 0).0 z))
        | inr z ↦ if_false _ _ z
      ] in
      let log : (start_server (logged call) k s).1.calls ≡ made.1.calls =
        ap (λ t. t.calls)
          (if-state ((run_worker (logged call) k s).0 == minus_1) _ _
            (run_worker (logged call) k s).1)
        ∙ ap (λ r. r.1.calls) stops in
      elim (create_all-Creates call k 0 s) [
        | inl (z, calls) ↦ absurd (fails z)
        | inr (j, lt, ne, calls) ↦
            (j, lt, log ∙ calls ∙ ap (λ i. s.calls ++ (starts j 0 ++ made_at call i)) (omega arith))
      ]

  serve-fails :
      (n : ℕ) (r : ℕ × Logged S)
      → r.0 ≡ 0
      → n < loop_count
      → ((u : Logged S) → (logged call (create n) u).0 ≢ 0)
      → ((serve (logged call) r).0 ≡ exit_0)
        × (j : ℕ) × (j < loop_count)
        × ((serve (logged call) r).1.calls
            ≡ r.1.calls ++ (starts j 0 ++ made_at call j) ++ client_id_lock_destroy ∷ [])
  unfolding serve do_call
  serve-fails n (zero, s) e low bad =
      let (j, lt, log) = start_server-calls loop_count n s low bad in
      (refl, j, lt, ap (λ l. l ++ client_id_lock_destroy ∷ []) log)
  serve-fails n (suc rc, s) e low bad = cc e

  -- When one of the threads can never be created, after all else succeeded: the process makes
  -- `client_id_lock`, starts some threads and then not the next, joins none of them, destroys the lock and
  -- exits, with 0.
  pub main-fails :
      (args : List Str) (locks : Bool) (m : Memory) (s : S) (b : Broker) (n : ℕ)
      → length args ≡ 2
      → init_database locks m ≡ ready b
      → (call client_id_lock_init s).0 ≡ 0
      → n < loop_count
      → ((u : S) → (call (create n) u).0 ≢ 0)
      → ((main (logged call) args locks m (record { inner = s; calls = [] })).0 ≡ exit_0)
        × (j : ℕ) × (j < loop_count)
        × ((main (logged call) args locks m (record { inner = s; calls = [] })).1.calls
            ≡ client_id_lock_init ∷ (starts j 0 ++ made_at call j) ++ client_id_lock_destroy ∷ [])
  unfolding main with_database
  main-fails args locks m s b n two is_ready lock low bad =
      let log : Logged S = record { inner = s; calls = [] } in
      let (e, j, lt, calls) =
        serve-fails n (logged call client_id_lock_init log) lock low (λ u. bad u.inner) in
      let same : main (logged call) args locks m log
          ≡ serve (logged call) (logged call client_id_lock_init log) =
        if_true _ _ ((==_iff (length args) 2).1 two)
        ∙ ap (λ x. with_database (logged call) x log) is_ready in
      (ap (λ r. r.0) same ∙ e, j, lt, ap (λ r. r.1.calls) same ∙ calls)
