-- ===== src/Mqtt/Parser/Goes.antt =====
-- Where the steps of the parser of broker/mqtt.c, 146-372, lead.
use mumq.Base.{
  ℕ, ◌+◌, ◌*◌, ◌≤◌, ◌<◌, ◌≡◌, ◌≢◌, refl, inl, inr, Bool, true, false, Option, none, some, ◌==◌, ltb,
  if◌then◌else◌, Bool-cases, arith, get_elem?,
}
use mumq.Base.Words.{Bytes, sub64}
use mumq.Mqtt.Message.{Buffer}
use mumq.Mqtt.Kind
use mumq.Mqtt.Parser.{
  State, initial, variable_header, connect, connect_protocol_name, connect_protocol_version,
  connect_flags, connect_keep_alive, connect_client_identifier, connect_will_topic,
  connect_will_message, connect_username, connect_password, connack, publish, publish_topic_name,
  publish_message_id, publish_message, subscribe, subscribe_topic_name, Cursor, Step, go, ret,
  fault, finish, set_connect, with_byte, read_body, read_string, read_message, needs, to,
  case_initial, case_publish_message_id, has_message_id, step_in,
}

-- How many rounds of the loop are left at most. `variable_header` has no such number.
abbrev pub rank : State → ℕ
rank initial = 11
rank connect = 10
rank connect_protocol_name = 9
rank connect_protocol_version = 8
rank connect_flags = 7
rank connect_keep_alive = 6
rank connect_client_identifier = 5
rank connect_will_topic = 4
rank connect_will_message = 3
rank connect_username = 2
rank publish = 4
rank publish_topic_name = 3
rank publish_message_id = 2
rank subscribe = 2
rank _ = 1

-- The two states of a SUBSCRIBE packet.
abbrev pub in_subscribe : State → Bool
in_subscribe subscribe = true
in_subscribe subscribe_topic_name = true
in_subscribe _ = false

abbrev pub in_header : State → Bool
in_header variable_header = true
in_header _ = false

-- What every next state has, from state `s` with a packet of kind `kind`.
pub record Follows (kind : ℕ) (s : State) (c : Cursor) : Type 0 where
  pub same_kind : c.message.kind ≡ kind
  pub lower : rank c.state < rank s
  pub no_header : in_header c.state ≡ false
  pub outside : in_subscribe s ≡ false → kind ≢ Kind.subscribe → in_subscribe c.state ≡ false

ahead :
    {kind : ℕ} {s : State} {c : Cursor}
    → c.message.kind ≡ kind
    → rank c.state < rank s
    → in_header c.state ≡ false
    → in_subscribe c.state ≡ false
    → Follows kind s c
ahead e l n o = record { same_kind = e; lower = l; no_header = n; outside = λ _ _. o }

module _ (input : Bytes) (len : ℕ) (kind : ℕ) (s : State) where
  abbrev pub Goes : Step → Type 0
  Goes (go c) = Follows kind s c
  Goes (ret rc c) = Unit
  Goes fault = Unit

  with_byte-Goes : (o : Option ℕ) (k : ℕ → Step) → ((b : ℕ) → Goes (k b)) → Goes (with_byte o k)
  with_byte-Goes none k f = tt
  with_byte-Goes (some b) k f = f b

  needs-Goes : (n : ℕ) (c : Cursor) (rest : Step) → Goes rest → Goes (needs input len n c rest)
  needs-Goes n c rest f = elim (Bool-cases (ltb (sub64 len c.nread) n)) [
    | inl e ↦ rw e tt
    | inr e ↦ rw e f
  ]

  read_string-Goes :
      (c : Cursor) (k : Buffer → ℕ → Step)
      → ((b : Buffer) (n : ℕ) → Goes (k b n))
      → Goes (read_string input len c k)
  unfolding read_string
  read_string-Goes c k f = needs-Goes 2 c _ (
      with_byte-Goes (get_elem? input c.nread) _
        λ hi. with_byte-Goes (get_elem? input (c.nread + 1)) _ λ lo. body (hi * 256 + lo))
    where
      body : (L : ℕ) → Goes (read_body input len c L k)
      body L = elim (Bool-cases (ltb (sub64 (sub64 len c.nread) 2) L)) [
        | inl e ↦ rw e tt
        | inr e ↦ rw e (f _ _)
      ]

  read_message-Goes :
      (c : Cursor) (L : ℕ) (k : Buffer → ℕ → Step)
      → ((b : Buffer) (n : ℕ) → Goes (k b n))
      → Goes (read_message input len c L k)
  unfolding read_message
  read_message-Goes c L k f = elim (Bool-cases (ltb (sub64 len c.nread) L)) [
    | inl e ↦ rw e tt
    | inr e ↦ rw e (f _ _)
  ]

  byte-Goes :
      (c : Cursor) (i : ℕ) (k : ℕ → Step)
      → ((b : ℕ) → Goes (k b))
      → Goes (needs input len 1 c (with_byte (get_elem? input i) k))
  byte-Goes c i k f = needs-Goes 1 c _ (with_byte-Goes (get_elem? input i) k f)

  two-Goes :
      (c : Cursor) (i j : ℕ) (k : ℕ → ℕ → Step)
      → ((x y : ℕ) → Goes (k x y))
      → Goes (
          needs input len 2 c
            (with_byte (get_elem? input i) λ x. with_byte (get_elem? input j) (k x)))
  two-Goes c i j k f =
      needs-Goes 2 c _
        (with_byte-Goes (get_elem? input i) _ λ x. with_byte-Goes (get_elem? input j) (k x) (f x))

pub rank_pos : (s : State) → ¬ (rank s ≤ 0)
rank_pos initial = λ h. omega arith
rank_pos _ = λ h. omega arith

abbrev pub Next : Bytes → ℕ → State → Cursor → Type 0
Next input len s c = Goes input len c.message.kind s (step_in input len s c)

initial-Goes :
    (input : Bytes) (len : ℕ) (c : Cursor) → Goes input len c.message.kind initial (case_initial c)
unfolding case_initial
initial-Goes input len c = grind arith

publish_message_id-Goes :
    (input : Bytes) (len : ℕ) (c : Cursor)
    → Goes input len c.message.kind publish_message_id (case_publish_message_id input len c)
unfolding case_publish_message_id
publish_message_id-Goes input len c = elim (Bool-cases (has_message_id c)) [
  | inl e ↦ rw e (
      two-Goes input len c.message.kind publish_message_id c _ _ _
        λ x y. ahead refl (omega arith) refl refl)
  | inr e ↦ rw e (
      needs-Goes input len c.message.kind publish_message_id 2 c _
        (ahead refl (omega arith) refl refl))
]

optional-Goes :
    (input : Bytes) (len : ℕ) (s : State) (b : Bool) (c : Cursor) (skip : Step)
    (k : Buffer → ℕ → Step)
    → Goes input len c.message.kind s skip
    → ((x : Buffer) (n : ℕ) → Goes input len c.message.kind s (k x n))
    → Goes input len c.message.kind s (if b then skip else read_string input len c k)
optional-Goes input len s true c skip k h f = h
optional-Goes input len s false c skip k h f = read_string-Goes input len c.message.kind s c k f

pub step_in-Goes :
    (input : Bytes) (len : ℕ) (s : State) (c : Cursor) → in_header s ≡ false → Next input len s c
unfolding step_in
step_in-Goes input len initial c h = initial-Goes input len c
step_in-Goes input len variable_header c h = cc
step_in-Goes input len connect_protocol_name c h =
    read_string-Goes input len _ _ c _ λ b n. ahead refl (omega arith) refl refl
step_in-Goes input len connect_protocol_version c h =
    byte-Goes input len _ _ c _ _ λ b. ahead refl (omega arith) refl refl
step_in-Goes input len connect_flags c h =
    byte-Goes input len _ _ c _ _ λ b. ahead refl (omega arith) refl refl
step_in-Goes input len connect_keep_alive c h =
    two-Goes input len _ _ c _ _ _ λ x y. ahead refl (omega arith) refl refl
step_in-Goes input len connect_client_identifier c h =
    read_string-Goes input len _ _ c _ λ b n. ahead refl (omega arith) refl refl
step_in-Goes input len connect c h = ahead refl (omega arith) refl refl
step_in-Goes input len publish c h = ahead refl (omega arith) refl refl
step_in-Goes input len publish_topic_name c h =
    read_string-Goes input len _ _ c _ λ b n. ahead refl (omega arith) refl refl
step_in-Goes input len publish_message_id c h = publish_message_id-Goes input len c
step_in-Goes input len publish_message c h =
    read_message-Goes input len c.message.kind publish_message c _ _ λ b n. tt
step_in-Goes input len subscribe c h =
    two-Goes input len c.message.kind subscribe c _ _ _
      λ x y. record { same_kind = refl; lower = omega arith; no_header = refl; outside = λ a b. cc }
step_in-Goes input len subscribe_topic_name c h =
    read_string-Goes input len c.message.kind subscribe_topic_name _ _ λ b n.
      with_byte-Goes input len c.message.kind subscribe_topic_name (get_elem? input n) _ λ q. tt
step_in-Goes input len connack c h = two-Goes input len c.message.kind connack c _ _ _ λ x y. tt
step_in-Goes input len connect_will_topic c h =
    optional-Goes input len connect_will_topic (c.message.connect.flags.will == 0) c
      (to connect_will_message c)
      (λ b n.
        to connect_will_message (set_connect c (record c.message.connect { will_topic = b }) n))
      (ahead refl (omega arith) refl refl) (λ b n. ahead refl (omega arith) refl refl)
step_in-Goes input len connect_will_message c h =
    optional-Goes input len connect_will_message (c.message.connect.flags.will == 0) c
      (to connect_username c)
      (λ b n. to connect_username (set_connect c (record c.message.connect { will_message = b }) n))
      (ahead refl (omega arith) refl refl) (λ b n. ahead refl (omega arith) refl refl)
step_in-Goes input len connect_username c h =
    optional-Goes input len connect_username (c.message.connect.flags.username_follows == 0) c
      (to connect_password c)
      (λ b n. to connect_password (set_connect c (record c.message.connect { username = b }) n))
      (ahead refl (omega arith) refl refl) (λ b n. ahead refl (omega arith) refl refl)
step_in-Goes input len connect_password c h =
    optional-Goes input len connect_password (c.message.connect.flags.password_follows == 0) c
      (finish c) (λ b n. finish (set_connect c (record c.message.connect { password = b }) n)) tt
      (λ b n. tt)
step_in-Goes input len _ c h = tt
