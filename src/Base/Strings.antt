-- ===== src/Base/Strings.antt =====
-- C strings: the bytes before the NUL. `strcmp` of the C library is used only as a test for equality.
use Prim.Native.Nat.{ℕ, zero, suc, ◌+◌, ◌-◌}
use mathlib.Core.Path.{◌≡◌, refl}
use mathlib.Core.Logic.{◌≢◌, ◌↔◌}
use mathlib.Core.Bool.{Bool, true, false, ◌&&◌}
use mathlib.Core.List.{List, [], ◌∷◌, ◌++◌}
use native.Mathlib.Omega.{arith}
use mumq.Base.Tests.{◌==◌, if◌then◌else◌}
use mumq.Base.Lists.{length, take, drop, All, take-append_length, drop-append_length}

abbrev pub Str : Type 0
Str = List ℕ

-- No byte of the text is NUL.
abbrev pub IsStr : Str → Type 0
IsStr = All (λ c. c ≢ 0)

-- `s[i]`, at most at the terminating NUL.
abbrev pub char_at : Str → ℕ → ℕ
char_at [] i = 0
char_at (c ∷ s) zero = c
char_at (c ∷ s) (suc i) = char_at s i

-- `strcmp(a, b) == 0`
abbrev pub same_str : Str → Str → Bool
same_str [] [] = true
same_str [] (y ∷ b) = false
same_str (x ∷ a) [] = false
same_str (x ∷ a) (y ∷ b) = x == y && same_str a b

pub same_str_iff : (a b : Str) → (same_str a b ≡ true) ↔ (a ≡ b)
same_str_iff [] [] = ground arith
same_str_iff [] (y ∷ b) = ground arith
same_str_iff (x ∷ a) [] = ground arith
same_str_iff (x ∷ a) (y ∷ b) = ground (arith, same_str_iff a b)

pub same_str_refl : (a : Str) → same_str a a ≡ true
same_str_refl a = (same_str_iff a a).1 refl

-- The bytes of `s` from `start` up to `stop`, as `memcpy` takes them.
abbrev pub slice : Str → ℕ → ℕ → Str
slice s start stop = take (stop - start) (drop start s)

pub char_at-append : (p s : Str) → char_at (p ++ s) (length p) ≡ char_at s 0
char_at-append [] s = refl
char_at-append (c ∷ p) s = char_at-append p s

pub slice-append :
    (p c s : Str) (stop : ℕ)
    → stop ≡ length p + length c
    → slice (p ++ (c ++ s)) (length p) stop ≡ c
slice-append p c s stop e =
    let k : stop - length p ≡ length c = omega arith in
    rw (k, drop-append_length p (c ++ s)) (take-append_length c s)

-- The C string in a block of bytes that a NUL ends.
abbrev pub until_nul : List ℕ → Str
until_nul [] = []
until_nul (c ∷ s) = let rest = until_nul s in if c == 0 then [] else c ∷ rest

pub until_nul-IsStr : (s : List ℕ) → IsStr (until_nul s)
until_nul-IsStr [] = tt
until_nul-IsStr (c ∷ s) = ground (arith, until_nul-IsStr s)
