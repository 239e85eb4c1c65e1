-- ===== src/Base/Bits.antt =====
-- Masks on one byte, or on a word of two, as arithmetic, each checked at every value.
use Prim.Native.Nat.{ℕ, zero, suc, ◌+◌, ◌*◌, ◌/◌, ◌%◌, ◌<◌, bit_and, bit_or}
use mathlib.Core.Path.{◌≡◌, refl, ap, ◌∙◌}
use mathlib.Core.Bool.{Bool, true, ◌&&◌}
use native.Mathlib.Omega.{arith}
use mumq.Base.Tests.{◌==◌, ==_iff}

holds_below : ℕ → (ℕ → Bool) → Bool
holds_below zero p = true
holds_below (suc n) p = p n && holds_below n p

holds_below_at : (n : ℕ) (p : ℕ → Bool) → holds_below n p ≡ true → (x : ℕ) → x < n → p x ≡ true
unfolding holds_below
holds_below_at zero p h x lt = absurd (omega arith)
holds_below_at (suc n) p h x lt = ground (arith, holds_below_at n p (ground arith) x)

same_below :
    (n : ℕ) (f g : ℕ → ℕ) → holds_below n (λ x. f x == g x) ≡ true → (x : ℕ) → x < n → f x ≡ g x
same_below n f g h x lt = (==_iff (f x) (g x)).0 (holds_below_at n (λ x. f x == g x) h x lt)

pub bit_and-1 : (b : ℕ) → b < 256 → bit_and b 1 ≡ b % 2
unfolding holds_below
bit_and-1 = same_below 256 (λ b. bit_and b 1) (λ b. b % 2) refl

pub bit_and-2 : (b : ℕ) → b < 256 → bit_and b 2 ≡ b / 2 % 2 * 2
unfolding holds_below
bit_and-2 = same_below 256 (λ b. bit_and b 2) (λ b. b / 2 % 2 * 2) refl

pub bit_and-3 : (b : ℕ) → b < 256 → bit_and b 3 ≡ b % 4
unfolding holds_below
bit_and-3 = same_below 256 (λ b. bit_and b 3) (λ b. b % 4) refl

pub bit_and-15 : (b : ℕ) → b < 256 → bit_and b 15 ≡ b % 16
unfolding holds_below
bit_and-15 = same_below 256 (λ b. bit_and b 15) (λ b. b % 16) refl

pub bit_and-127 : (b : ℕ) → b < 256 → bit_and b 127 ≡ b % 128
unfolding holds_below
bit_and-127 = same_below 256 (λ b. bit_and b 127) (λ b. b % 128) refl

pub bit_and-128 : (b : ℕ) → b < 256 → bit_and b 128 ≡ b / 128 * 128
unfolding holds_below
bit_and-128 = same_below 256 (λ b. bit_and b 128) (λ b. b / 128 * 128) refl

pub bit_or-128 : (b : ℕ) → b < 128 → bit_or b 128 ≡ b + 128
unfolding holds_below
bit_or-128 = same_below 128 (λ b. bit_or b 128) (λ b. b + 128) refl

pub bit_and-255 : (b : ℕ) → b < 256 → bit_and b 255 ≡ b
unfolding holds_below
bit_and-255 = same_below 256 (λ b. bit_and b 255) (λ b. b) refl

bytes_mask : Bool
bytes_mask = holds_below 256 (λ h. holds_below 256 (λ l. bit_and (h * 256 + l) 255 == l))

bytes_mask-true : bytes_mask ≡ true
unfolding bytes_mask holds_below
bytes_mask-true = refl

-- The low byte of a word of two bytes.
pub bit_and-low : (n : ℕ) → n < 65536 → bit_and n 255 ≡ n % 256
unfolding bytes_mask
bit_and-low n h =
    let row =
      holds_below_at 256 (λ h. holds_below 256 (λ l. bit_and (h * 256 + l) 255 == l))
        bytes_mask-true (n / 256) (omega arith) in
    let e = (==_iff (bit_and (n / 256 * 256 + n % 256) 255) (n % 256)).0 (
      holds_below_at 256 (λ l. bit_and (n / 256 * 256 + l) 255 == l) row (n % 256) (omega arith)) in
    let split : n ≡ n / 256 * 256 + n % 256 = omega arith in ap (λ m. bit_and m 255) split ∙ e
