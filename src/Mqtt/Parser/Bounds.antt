-- ===== src/Mqtt/Parser/Bounds.antt =====
-- The parser stays inside the payload.
use mumq.Base.{
  ℕ, ◌+◌, ◌*◌, ◌^◌, ◌≤◌, ◌<◌, ◌≡◌, ◌≢◌, refl, inl, inr, Bool, true, false, ◌==◌, ltb, if◌then◌else◌,
  Bool-cases, arith, length, get_elem?, get_elem?-some,
}
use mumq.Base.Words.{Bytes, sub64}
use mumq.Mqtt.Message.{Buffer}
use mumq.Mqtt.Kind
use mumq.Mqtt.Parser.{
  Outcome, returned, crashed, out_of_fuel, State, initial, variable_header, connect_protocol_name,
  connect_protocol_version, connect_flags, connect_keep_alive, connect_client_identifier,
  connect_will_topic, connect_will_message, connect_username, connect_password, connack,
  publish_topic_name, publish_message_id, publish_message, subscribe, subscribe_topic_name, Cursor,
  Step, go, ret, fault, with_byte, read_body, read_string, read_message, step_in, needs, to, finish,
  set_connect, case_initial, case_variable_header, case_publish_message_id, has_message_id,
}

module _ (input : Bytes) (len : ℕ) (whole : length input ≡ len) (small : len < 2 ^ 64) where
  -- The step reads nothing outside the payload, and leaves `nread` inside it.
  abbrev pub IsInside : Step → Type 0
  IsInside (go c) = c.nread ≤ len
  IsInside (ret rc c) = c.nread ≤ len
  IsInside fault = ⊥

  with_byte-IsInside :
      (i : ℕ) (k : ℕ → Step)
      → i < len
      → ((b : ℕ) → IsInside (k b))
      → IsInside (with_byte (get_elem? input i) k)
  with_byte-IsInside i k h f = let (b, e) = get_elem?-some input i (omega arith) in rw e (f b)

  needs-IsInside :
      (n : ℕ) (c : Cursor) (rest : Step)
      → c.nread ≤ len
      → (c.nread + n ≤ len → IsInside rest)
      → IsInside (needs input len n c rest)
  needs-IsInside n c rest h f = elim (Bool-cases (ltb (sub64 len c.nread) n)) [
    | inl e ↦ rw e h
    | inr e ↦ rw e (f (ground arith))
  ]

  read_body-IsInside :
      (c : Cursor) (L : ℕ) (k : Buffer → ℕ → Step)
      → c.nread + 2 ≤ len
      → ((b : Buffer) (n : ℕ) → n ≤ len → IsInside (k b n))
      → IsInside (read_body input len c L k)
  unfolding read_body
  read_body-IsInside c L k h f = elim (Bool-cases (ltb (sub64 (sub64 len c.nread) 2) L)) [
    | inl e ↦ rw e (omega arith)
    | inr e ↦ rw e (f _ _ (ground arith))
  ]

  read_string-IsInside :
      (c : Cursor) (k : Buffer → ℕ → Step)
      → c.nread ≤ len
      → ((b : Buffer) (n : ℕ) → n ≤ len → IsInside (k b n))
      → IsInside (read_string input len c k)
  unfolding read_string
  read_string-IsInside c k h f = needs-IsInside 2 c _ h λ room.
      with_byte-IsInside c.nread _ (omega arith) λ hi.
        with_byte-IsInside (c.nread + 1) _ (omega arith)
          λ lo. read_body-IsInside c (hi * 256 + lo) k room f

  read_message-IsInside :
      (c : Cursor) (L : ℕ) (k : Buffer → ℕ → Step)
      → c.nread ≤ len
      → ((b : Buffer) (n : ℕ) → n ≤ len → IsInside (k b n))
      → IsInside (read_message input len c L k)
  unfolding read_message
  read_message-IsInside c L k h f = elim (Bool-cases (ltb (sub64 len c.nread) L)) [
    | inl e ↦ rw e h
    | inr e ↦ rw e (f _ _ (ground arith))
  ]

  initial-IsInside : (c : Cursor) → c.nread ≤ len → IsInside (case_initial c)
  unfolding case_initial
  initial-IsInside c h = ground arith

  variable_header-IsInside : (c : Cursor) → c.nread ≤ len → IsInside (case_variable_header c)
  unfolding case_variable_header
  variable_header-IsInside c h = ground arith

  byte-IsInside :
      (c : Cursor) (k : ℕ → Step)
      → c.nread ≤ len
      → ((b : ℕ) → c.nread + 1 ≤ len → IsInside (k b))
      → IsInside (needs input len 1 c (with_byte (get_elem? input c.nread) k))
  byte-IsInside c k h f =
      needs-IsInside 1 c _ h λ room. with_byte-IsInside c.nread k (omega arith) λ b. f b room

  two-IsInside :
      (c : Cursor) (k : ℕ → ℕ → Step)
      → c.nread ≤ len
      → ((x y : ℕ) → c.nread + 2 ≤ len → IsInside (k x y))
      → IsInside (
          needs input len 2 c (
            with_byte
              (get_elem? input c.nread)
              λ x. with_byte (get_elem? input (c.nread + 1)) (k x)))
  two-IsInside c k h f = needs-IsInside 2 c _ h λ room.
      with_byte-IsInside c.nread _ (omega arith)
        λ x. with_byte-IsInside (c.nread + 1) _ (omega arith) λ y. f x y room

  -- A string that is read only if a flag is set.
  optional-IsInside :
      (b : Bool) (c : Cursor) (skip : Step) (k : Buffer → ℕ → Step)
      → c.nread ≤ len
      → IsInside skip
      → ((x : Buffer) (n : ℕ) → n ≤ len → IsInside (k x n))
      → IsInside (if b then skip else read_string input len c k)
  optional-IsInside true c skip k h s f = s
  optional-IsInside false c skip k h s f = read_string-IsInside c k h f

  publish_message_id-IsInside :
      (c : Cursor) → c.nread ≤ len → IsInside (case_publish_message_id input len c)
  unfolding case_publish_message_id
  publish_message_id-IsInside c h = elim (Bool-cases (has_message_id c)) [
    | inl e ↦ rw e (two-IsInside c _ h λ x y room. omega arith)
    | inr e ↦ rw e (needs-IsInside 2 c _ h λ room. h)
  ]

  pub step_in-IsInside :
      (s : State) (c : Cursor)
      → s ≢ subscribe_topic_name
      → c.nread ≤ len
      → IsInside (step_in input len s c)
  unfolding step_in
  step_in-IsInside initial c ne h = initial-IsInside c h
  step_in-IsInside variable_header c ne h = variable_header-IsInside c h
  step_in-IsInside connect_protocol_name c ne h = read_string-IsInside c _ h (λ b n k. k)
  step_in-IsInside connect_protocol_version c ne h = byte-IsInside c _ h (λ b k. omega arith)
  step_in-IsInside connect_flags c ne h = byte-IsInside c _ h (λ b k. omega arith)
  step_in-IsInside connect_keep_alive c ne h = two-IsInside c _ h (λ x y k. omega arith)
  step_in-IsInside connect_client_identifier c ne h = read_string-IsInside c _ h (λ b n k. k)
  step_in-IsInside connect_will_topic c ne h =
      optional-IsInside (c.message.connect.flags.will == 0) c (to connect_will_message c)
        (λ b n.
          to connect_will_message (set_connect c (record c.message.connect { will_topic = b }) n))
        h h (λ b n k. k)
  step_in-IsInside connect_will_message c ne h =
      optional-IsInside (c.message.connect.flags.will == 0) c (to connect_username c)
        (λ b n.
          to connect_username (set_connect c (record c.message.connect { will_message = b }) n))
        h h (λ b n k. k)
  step_in-IsInside connect_username c ne h =
      optional-IsInside (c.message.connect.flags.username_follows == 0) c (to connect_password c)
        (λ b n. to connect_password (set_connect c (record c.message.connect { username = b }) n)) h
        h (λ b n k. k)
  step_in-IsInside connect_password c ne h =
      optional-IsInside (c.message.connect.flags.password_follows == 0) c (finish c)
        (λ b n. finish (set_connect c (record c.message.connect { password = b }) n)) h h
        (λ b n k. k)
  step_in-IsInside connack c ne h = two-IsInside c _ h (λ x y k. omega arith)
  step_in-IsInside publish_topic_name c ne h = read_string-IsInside c _ h (λ b n k. k)
  step_in-IsInside publish_message_id c ne h = publish_message_id-IsInside c h
  step_in-IsInside publish_message c ne h = read_message-IsInside c _ _ h (λ b n k. k)
  step_in-IsInside subscribe c ne h = two-IsInside c _ h (λ x y k. omega arith)
  step_in-IsInside subscribe_topic_name c ne h = absurd (ne refl)
  step_in-IsInside _ c ne h = h

  abbrev Ended : Outcome → Type 0
  Ended (returned rc c) = c.nread ≤ len
  Ended crashed = ⊥
  Ended out_of_fuel = Unit

  -- The state that reads outside is only reached from the start of a SUBSCRIBE packet.
  abbrev IsSafe : State → Cursor → Type 0
  IsSafe s c = (s ≢ subscribe) × (s ≢ subscribe_topic_name) × (c.message.kind ≢ Kind.subscribe)
