-- ===== src/EventIo/Framing.antt =====
-- What `loop_read` of broker/event_io.c keeps of a packet between two calls, and what its parts may end with.
use mumq.Base.{ℕ, zero, suc, ◌+◌, ◌*◌, ◌≤◌, ◌<◌, ◌≡◌, ◌⊎◌, some, length, arith}
use mumq.Base.Words.{Bytes}
use mumq.EventIo.{
  Received, bytes, closed, would_block, reset, failed, minus_1, minus_2, minus_3, nought, positive,
  Count, below, above, Reading, Stage, go_on, returns, crashes, out_of_fuel, packet_of, then_stage,
  on_bytes,
}

-- `128 ^ k`
abbrev pub span : ℕ → ℕ
span zero = 1
span (suc k) = 128 * span k

abbrev pub size : Reading → ℕ
size r = (packet_of r.in_packet).length

-- While the length is read, it is below 128 to the number of its bytes. After it the bytes of the
-- payload that came and those to come are as many as it says, and the block has that size.
abbrev pub Counted : Count → Reading → Type 0
Counted (below k) r =
    (k ≤ 4)
    × (r.remaining_mult ≤ span k)
    × (size r < span k)
    × (length r.payload ≡ 0)
    × (r.in_to_process ≡ 0)
Counted (above k) r =
    (size r ≤ 268435455)
    × (length r.payload + r.in_to_process ≡ size r)
    × ((size r ≡ 0) ⊎ (r.block ≡ some (size r)))

abbrev pub IsFramed : Reading → Type 0
IsFramed r = Counted r.remaining_count r

-- Before the first byte of a packet, with `remaining_mult` as the last packet left it.
abbrev pub IsFresh : Reading → Type 0
IsFresh r =
    ((packet_of r.in_packet).kind ≡ 0)
    × (size r ≡ 0)
    × (length r.payload ≡ 0)
    × (r.in_to_process ≡ 0)
    × (r.remaining_count ≡ below 0)

-- What holds between two calls.
abbrev pub IsResumed : Reading → Type 0
IsResumed r = IsFresh r ⊎ IsFramed r

-- `recv` for `n` bytes answers at most `n`, each below 256.
abbrev pub IsAnswer : ℕ → Received → Type 0
IsAnswer n (bytes b bs) = (b < 256) × (length bs < n)
IsAnswer n _ = Unit

-- A part goes on with `P`, or returns to wait with the invariant, or the connection is closed. It does
-- not stop for lack of fuel.
abbrev pub Reads {ℓ} : {S : Type ℓ} → (Reading → Type 0) → Stage S → Type 0
Reads P (go_on r s) = P r
Reads P (returns positive r s) = IsResumed r
Reads P (returns nought r s) = Unit
Reads P (returns minus_1 r s) = Unit
Reads P (returns minus_2 r s) = Unit
Reads P (returns minus_3 r s) = Unit
Reads P crashes = ⊥
Reads P out_of_fuel = ⊥

-- The whole payload is there, and the next packet starts with an invariant that holds.
abbrev pub IsWhole : Reading → Type 0
IsWhole r =
    (length r.payload ≡ size r)
    × (size r ≤ 268435455)
    × ((size r ≡ 0) ⊎ (r.block ≡ some (size r)))
    × (r.in_to_process ≡ 0)
    × (r.remaining_count ≡ below 0)

-- The length was read, and the payload not begun.
abbrev pub IsSized : Reading → Type 0
IsSized r =
    (k : ℕ) × (r.remaining_count ≡ above k)
    × (size r ≤ 268435455)
    × (length r.payload ≡ 0)
    × (r.in_to_process ≡ 0)

-- The payload is being read.
abbrev pub IsFilling : Reading → Type 0
IsFilling r = (k : ℕ) × (r.remaining_count ≡ above k) × Counted (above k) r

pub IsFilling-IsFramed : (r : Reading) → IsFilling r → IsFramed r
IsFilling-IsFramed r (k, e, h) = rw e h

pub span_bound : (k : ℕ) → k ≤ 4 → span k ≤ 268435456
span_bound zero h = omega arith
span_bound (suc zero) h = omega arith
span_bound (suc (suc zero)) h = omega arith
span_bound (suc (suc (suc zero))) h = omega arith
span_bound (suc (suc (suc (suc zero)))) h = omega arith
span_bound (suc (suc (suc (suc (suc k))))) h = absurd (omega arith)

module _ {ℓ} {S : Type ℓ} where
  pub then_stage-Reads :
      (P Q : Reading → Type 0) (x : Stage S) (k : Reading → S → Stage S)
      → Reads P x
      → ((r : Reading) (s : S) → P r → Reads Q (k r s))
      → Reads Q (then_stage x k)
  then_stage-Reads P Q (go_on r s) k h f = f r s h
  then_stage-Reads P Q (returns positive r s) k h f = h
  then_stage-Reads P Q (returns nought r s) k h f = h
  then_stage-Reads P Q (returns minus_1 r s) k h f = h
  then_stage-Reads P Q (returns minus_2 r s) k h f = h
  then_stage-Reads P Q (returns minus_3 r s) k h f = h
  then_stage-Reads P Q crashes k h f = h
  then_stage-Reads P Q out_of_fuel k h f = h

  pub on_bytes-Reads :
      (P : Reading → Type 0) (n : ℕ) (r : Reading) (a : Received × S) (k : ℕ → Bytes → S → Stage S)
      → IsResumed r
      → IsAnswer n a.0
      → ((b : ℕ) (bs : Bytes) (s : S) → b < 256 → length bs < n → Reads P (k b bs s))
      → Reads P (on_bytes r a k)
  on_bytes-Reads P n r (bytes b bs, s) k h c f = f b bs s c.0 c.1
  on_bytes-Reads P n r (closed, s) k h c f = tt
  on_bytes-Reads P n r (would_block, s) k h c f = h
  on_bytes-Reads P n r (reset, s) k h c f = tt
  on_bytes-Reads P n r (failed, s) k h c f = tt
