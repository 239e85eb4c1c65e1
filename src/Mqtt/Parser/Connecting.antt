-- ===== src/Mqtt/Parser/Connecting.antt =====
-- The rounds of the parser of broker/mqtt.c, 190-284, over the bytes of a CONNECT with no will, user name and
-- password.
use mumq.Base.{
  ℕ, zero, suc, [], get_elem?, drop, ◌+◌, ◌*◌, ◌%◌, ◌^◌, ◌<◌, ◌≡◌, refl, ap, ◌∙◌, if_true, some,
  ◌∷◌, ◌++◌, length, ==_iff, arith,
}
use mumq.Base.Words.{Bytes}
use mumq.Mqtt.Kind
use mumq.Mqtt.Message.{message_init, Connect, no_connect}
use mumq.Mqtt.Parser.Enough.{needs-enough, byte_at-enough, read_string-enough}
use mumq.Mqtt.Parser.Loop.{run-suc}
use mumq.Mqtt.Serialiser.Connect.{connect_body}
use mumq.Mqtt.Parser.{
  State, initial, connect, connect_protocol_name, connect_protocol_version, connect_flags,
  connect_keep_alive, connect_client_identifier, connect_will_topic, connect_will_message,
  connect_username, connect_password, Cursor, go, ret, no_error, run, returned, finished, flags_of,
  step_in, outcome, case_initial, case_connect_protocol_name, case_connect_protocol_version,
  case_connect_flags, case_connect_keep_alive, case_connect_client_identifier,
  case_connect_will_topic, case_connect_will_message, case_connect_username, case_connect_password,
}

abbrev pub at : State → Connect → ℕ → ℕ → Cursor
at state c length nread = record {
  state = state;
  error = no_error;
  message = record message_init { kind = Kind.connect; length = length; connect = c };
  nread = nread;
}

-- What stands behind the bytes `xs`.
get_behind : (xs ys : Bytes) (k i : ℕ) → i ≡ length xs + k → get_elem? (xs ++ ys) i ≡ get_elem? ys k
get_behind [] ys k i h = ap (get_elem? ys) (omega (arith, h))
get_behind (x ∷ xs) ys k zero h = absurd (omega arith)
get_behind (x ∷ xs) ys k (suc i) h = get_behind xs ys k i (omega arith)

drop_behind : (xs ys : Bytes) (k i : ℕ) → i ≡ length xs + k → drop i (xs ++ ys) ≡ drop k ys
drop_behind [] ys k i h = ap (λ n. drop n ys) (omega (arith, h))
drop_behind (x ∷ xs) ys k zero h = absurd (omega arith)
drop_behind (x ∷ xs) ys k (suc i) h = drop_behind xs ys k i (omega arith)

-- `f` is the byte of the flags.
module _ (name : Bytes) (version f hi lo : ℕ) (id : Bytes) (short : length name < 255)
    (small : length id < 255) (no_will : (flags_of f).will ≡ 0)
    (no_user : (flags_of f).username_follows ≡ 0)
    (no_pass : (flags_of f).password_follows ≡ 0) where
  abbrev pub body : Bytes
  body = connect_body name version f hi lo id

  abbrev pub front : Bytes
  front = 0 ∷ length name ∷ name

  -- The body behind the name.
  abbrev pub tail : Bytes
  tail = version ∷ f ∷ hi ∷ lo ∷ 0 ∷ length id ∷ id

  abbrev pub whole : ℕ
  whole = 8 + length name + length id

  abbrev pub named : Connect
  named = record no_connect {
    protocol_name = record { length = length name; bytes = some (name ++ tail) };
  }

  abbrev pub versioned : Connect
  versioned = record named { protocol_version = version }

  abbrev pub flagged : Connect
  flagged = record versioned { flags = flags_of f }

  abbrev pub kept : Connect
  kept = record flagged { keep_alive = (hi * 2 ^ 8 + lo) % 2 ^ 16 }

  abbrev pub whose : Connect
  whose = record kept { client_id = record { length = length id; bytes = some id } }

  fits : whole < 2 ^ 64
  fits = omega arith

  in_tail : (k i : ℕ) → i ≡ length name + 2 + k → get_elem? body i ≡ get_elem? tail k
  in_tail k i h = get_behind front tail k i (omega arith)

  -- A cursor with the same but the number of bytes read.
  moved : {s : State} {c : Connect} {m n : ℕ} → m ≡ n → go (at s c whole m) ≡ go (at s c whole n)
  moved {s} {c} e = ap (λ n. go (at s c whole n)) e

  name_step :
      step_in body whole connect_protocol_name (at connect_protocol_name no_connect whole 0)
      ≡ go (at connect_protocol_version named whole (length name + 2))
  unfolding step_in case_connect_protocol_name
  name_step =
      read_string-enough body whole fits (at connect_protocol_name no_connect whole 0) _ 0
        (length name) (length name) refl refl (omega arith) (omega arith)
      ∙ moved (omega arith)

  version_step :
      step_in body whole connect_protocol_version
        (at connect_protocol_version named whole (length name + 2))
      ≡ go (at connect_flags versioned whole (length name + 3))
  unfolding step_in case_connect_protocol_version
  version_step =
      needs-enough body whole fits 1 (at connect_protocol_version named whole (length name + 2)) _
        (omega arith)
      ∙ byte_at-enough body whole fits (length name + 2) version _ (in_tail 0 _ (omega arith))
      ∙ moved (omega arith)

  flags_step :
      step_in body whole connect_flags (at connect_flags versioned whole (length name + 3))
      ≡ go (at connect_keep_alive flagged whole (length name + 4))
  unfolding step_in case_connect_flags
  flags_step =
      needs-enough body whole fits 1 (at connect_flags versioned whole (length name + 3)) _
        (omega arith)
      ∙ byte_at-enough body whole fits (length name + 3) f _ (in_tail 1 _ (omega arith))
      ∙ moved (omega arith)

  keep_alive_step :
      step_in body whole connect_keep_alive (at connect_keep_alive flagged whole (length name + 4))
      ≡ go (at connect_client_identifier kept whole (length name + 6))
  unfolding step_in case_connect_keep_alive
  keep_alive_step =
      needs-enough body whole fits 2 (at connect_keep_alive flagged whole (length name + 4)) _
        (omega arith)
      ∙ byte_at-enough body whole fits (length name + 4) hi _ (in_tail 2 _ (omega arith))
      ∙ byte_at-enough body whole fits (length name + 4 + 1) lo _ (in_tail 3 _ (omega arith))
      ∙ moved (omega arith)

  client_step :
      step_in body whole connect_client_identifier
        (at connect_client_identifier kept whole (length name + 6))
      ≡ go (at connect_will_topic whose whole whole)
  unfolding step_in case_connect_client_identifier
  client_step =
      read_string-enough body whole fits (at connect_client_identifier kept whole (length name + 6))
        _ 0 (length id) (length id) (in_tail 4 _ (omega arith)) (in_tail 5 _ (omega arith))
        (omega arith) (omega arith)
      ∙ ap
          (λ bs. go (
            at connect_will_topic
              (record kept { client_id = record { length = length id; bytes = some bs } }) whole
              (length name + 6 + (2 + length id))))
          (drop_behind front tail 6 (length name + 6 + 2) (omega arith))
      ∙ moved (omega arith)

  skips :
      (step_in body whole connect_will_topic (at connect_will_topic whose whole whole)
        ≡ go (at connect_will_message whose whole whole))
      × (step_in body whole connect_will_message (at connect_will_message whose whole whole)
          ≡ go (at connect_username whose whole whole))
      × (step_in body whole connect_username (at connect_username whose whole whole)
          ≡ go (at connect_password whose whole whole))
      × (step_in body whole connect_password (at connect_password whose whole whole)
          ≡ ret finished (at initial whose whole whole))
  unfolding step_in case_connect_will_topic case_connect_will_message case_connect_username
      case_connect_password
  skips = (
    if_true _ _ ((==_iff _ 0).1 no_will),
    if_true _ _ ((==_iff _ 0).1 no_will),
    if_true _ _ ((==_iff _ 0).1 no_user),
    if_true _ _ ((==_iff _ 0).1 no_pass),
  )

  -- A round that goes on, or returns.
  round :
      (n : ℕ) (c d : Cursor)
      → step_in body whole c.state c ≡ go d
      → run body whole (suc n) c ≡ run body whole n d
  round n c d e = run-suc body whole n c ∙ ap (λ x. outcome x (run body whole n)) e

  pub run_connect :
      run body whole 11 (at initial no_connect whole 0)
      ≡ returned finished (at initial whose whole whole)
  unfolding step_in case_initial
  run_connect =
      let (topic, message, user, pass) = skips in
      round 10 (at initial no_connect whole 0) (at connect no_connect whole 0) refl
      ∙ round 9 (at connect no_connect whole 0) (at connect_protocol_name no_connect whole 0) refl
      ∙ round 8 (at connect_protocol_name no_connect whole 0) _ name_step
      ∙ round 7 (at connect_protocol_version named whole (length name + 2)) _ version_step
      ∙ round 6 (at connect_flags versioned whole (length name + 3)) _ flags_step
      ∙ round 5 (at connect_keep_alive flagged whole (length name + 4)) _ keep_alive_step
      ∙ round 4 (at connect_client_identifier kept whole (length name + 6)) _ client_step
      ∙ round 3 (at connect_will_topic whose whole whole) _ topic
      ∙ round 2 (at connect_will_message whose whole whole) _ message
      ∙ round 1 (at connect_username whose whole whole) _ user
      ∙ run-suc body whole 0 (at connect_password whose whole whole)
      ∙ ap (λ x. outcome x (run body whole 0)) pass
