-- ===== src/Base/Int.antt =====
-- Signed integers over the native numbers, and the `int` of 16 bits.
use Prim.Native.Nat.{ℕ, ◌+◌, ◌-◌, ◌*◌, ◌/◌, ◌%◌, ◌^◌, ◌<◌}
use mathlib.Core.Path.{◌≡◌}
use mathlib.Core.Bool.{Bool}
use native.Mathlib.Omega.{arith}
use vanilla_utilities.Base.Tests.{if◌then◌else◌, ltb, leb}

-- `negsuc n` is -(n + 1).
pub data ℤ : Type 0 where
  pos : ℕ → ℤ
  negsuc : ℕ → ℤ

-- What is above 0, and what is below.
abbrev pub above : ℤ → ℕ
above (pos n) = n
above (negsuc n) = 0

abbrev pub below : ℤ → ℕ
below (pos n) = 0
below (negsuc n) = n + 1

-- `a - b` of two numbers.
abbrev pub difference : ℕ → ℕ → ℤ
difference a b = if leb b a then pos (a - b) else negsuc (b - a - 1)

-- Bounded to 16 bits, as an `int` or `int16_t` of the program.
unfoldable pub int16 : ℤ → ℤ
int16 (pos n) = let m = n % 2 ^ 16 in if ltb m (2 ^ 15) then pos m else negsuc (2 ^ 16 - 1 - m)
int16 (negsuc n) = let m = n % 2 ^ 16 in if ltb m (2 ^ 15) then negsuc m else pos (2 ^ 16 - 1 - m)

infixl 65 ◌+ℤ◌ ◌-ℤ◌
infixl 70 ◌*ℤ◌ ◌/ℤ◌
unfoldable pub ◌+ℤ◌ : ℤ → ℤ → ℤ
a +ℤ b = difference (above a + above b) (below a + below b)

unfoldable pub ◌-ℤ◌ : ℤ → ℤ → ℤ
a -ℤ b = difference (above a + below b) (below a + above b)

unfoldable pub ◌*ℤ◌ : ℤ → ℤ → ℤ
a *ℤ b = difference (above a * above b + below a * below b) (above a * below b + below a * above b)

-- The division of C rounds towards 0. That by 0 is not defined there; here it gives 0.
unfoldable pub ◌/ℤ◌ : ℤ → ℤ → ℤ
a /ℤ b = difference (above a / above b + below a / below b) (above a / below b + below a / above b)

abbrev pub ltb_ℤ : ℤ → ℤ → Bool
ltb_ℤ a b = ltb (above a + below b) (above b + below a)

abbrev pub abs : ℤ → ℕ
abs a = above a + below a

pub int16-pos : (n : ℕ) → n < 2 ^ 15 → int16 (pos n) ≡ pos n
unfolding int16
int16-pos n h = ground arith

pub int16_small : (z : ℤ) → abs z < 2 ^ 15 → int16 z ≡ z
unfolding int16
int16_small (pos n) h = ground arith
int16_small (negsuc n) h = ground arith
