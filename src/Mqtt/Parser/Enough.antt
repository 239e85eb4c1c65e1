-- ===== src/Mqtt/Parser/Enough.antt =====
-- READ_STRING and READ_MESSAGE of broker/mqtt.c, 112-144, where there are bytes enough.
use mumq.Base.{
  ℕ, ◌+◌, ◌*◌, ◌^◌, ◌≤◌, ◌<◌, ◌≡◌, ap, ◌∙◌, false, if_false, ltb, some, get_elem?, drop, arith,
}
use mumq.Base.Words.{Bytes, sub64}
use mumq.Mqtt.Message.{Buffer}
use mumq.Mqtt.Parser.{Cursor, Step, with_byte, byte_at, needs, read_string, read_message}

ltb-false : (a b : ℕ) → b ≤ a → ltb a b ≡ false
ltb-false a b h = ground arith

module _ (input : Bytes) (len : ℕ) (small : len < 2 ^ 64) where
  pub needs-enough :
      (n : ℕ) (c : Cursor) (rest : Step) → c.nread + n ≤ len → needs input len n c rest ≡ rest
  needs-enough n c rest h = if_false _ _ (ltb-false (sub64 len c.nread) n (omega arith))

  pub byte_at-enough :
      (i b : ℕ) (k : ℕ → Step) → get_elem? input i ≡ some b → byte_at input len i k ≡ k b
  byte_at-enough i b k e = ap (λ o. with_byte o k) e

  pub read_string-enough :
      (c : Cursor) (k : Buffer → ℕ → Step) (hi lo n : ℕ)
      → get_elem? input c.nread ≡ some hi
      → get_elem? input (c.nread + 1) ≡ some lo
      → hi * 256 + lo ≡ n
      → c.nread + 2 + n ≤ len
      → read_string input len c k
        ≡ k (record { length = n; bytes = some (drop (c.nread + 2) input) }) (c.nread + (2 + n))
  unfolding read_string
  read_string-enough c k hi lo n e f g h =
      needs-enough 2 c _ (omega arith)
      ∙ rw (e, f, g)
          (if_false _ _ (ltb-false (sub64 (sub64 len c.nread) 2) n (omega arith))
            ∙ ap (k _) (omega arith))

  pub read_message-enough :
      (c : Cursor) (n : ℕ) (k : Buffer → ℕ → Step)
      → c.nread + n ≤ len
      → read_message input len c n k
        ≡ k (record { length = n; bytes = some (drop c.nread input) }) (c.nread + n)
  unfolding read_message
  read_message-enough c n k h =
      if_false _ _ (ltb-false (sub64 len c.nread) n (omega arith)) ∙ ap (k _) (omega arith)
