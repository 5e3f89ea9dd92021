-- ===== src/Base/Bitset.antt =====
-- Numbers as sets of bits.
use Prim.Native.Nat.{
  ℕ, zero, suc, ◌+◌, ◌*◌, ◌/◌, ◌%◌, ◌^◌, ◌≤◌, ◌<◌, max, digits, bit_or, bit_or-bitwise,
}
use mathlib.Core.Path.{◌≡◌, refl, sym, ap, subst, ◌∙◌}
use native.Mathlib.Omega.{arith}

-- Digit `i`, the lowest being digit 0.
unfoldable pub bit : ℕ → ℕ → ℕ
bit zero x = x % 2
bit (suc i) x = bit i (x / 2)

pub bit_le : (i x : ℕ) → bit i x ≤ 1
unfolding bit
bit_le zero x = omega arith
bit_le (suc i) x = bit_le i (x / 2)

bit_zero : (i : ℕ) → bit i 0 ≡ 0
unfolding bit
bit_zero zero = refl
bit_zero (suc i) = bit_zero i

halves : (d m : ℕ) → m < 2 → ((d * 2 + m) / 2 ≡ d) × ((d * 2 + m) % 2 ≡ m)
halves d m h = (omega arith, omega arith)

low_max : (a b : ℕ) → max (a % 2) (b % 2) < 2
low_max a b = omega arith

max_zero : (a : ℕ) → max 0 a ≡ a
max_zero a = omega arith

bit-digits :
    (i n a b : ℕ) → a ≤ n → bit i (digits (λ (y : ℕ). y) max n a b) ≡ max (bit i a) (bit i b)
unfolding bit
bit-digits i zero zero b h = rw (bit_zero i, max_zero (bit i b)) refl
bit-digits i zero (suc a) b h = absurd (omega arith)
bit-digits i (suc n) zero b h = rw (bit_zero i, max_zero (bit i b)) refl
bit-digits zero (suc n) (suc a) b h =
    let (q, r) =
      halves (digits (λ (y : ℕ). y) max n (suc a / 2) (b / 2)) (max (suc a % 2) (b % 2))
        (low_max (suc a) b) in
    r
bit-digits (suc i) (suc n) (suc a) b h =
    let (q, r) =
      halves (digits (λ (y : ℕ). y) max n (suc a / 2) (b / 2)) (max (suc a % 2) (b % 2))
        (low_max (suc a) b) in
    ap (bit i) q ∙ bit-digits i n (suc a / 2) (b / 2) (omega arith)

by_digits : (a b : ℕ) → bit_or a b ≡ digits (λ (y : ℕ). y) max a a b
by_digits a b = λ i. bit_or-bitwise a b i

pub bit-bit_or : (i a b : ℕ) → bit i (bit_or a b) ≡ max (bit i a) (bit i b)
bit-bit_or i a b = ap (bit i) (by_digits a b) ∙ bit-digits i a a b (omega arith)

digits_below :
    (k n a b : ℕ) → a ≤ n → a < 2 ^ k → b < 2 ^ k → digits (λ (y : ℕ). y) max n a b < 2 ^ k
digits_below k zero zero b h p q = q
digits_below k zero (suc a) b h p q = absurd (omega arith)
digits_below k (suc n) zero b h p q = q
digits_below zero (suc n) (suc a) b h p q = absurd (omega arith)
digits_below (suc k) (suc n) (suc a) b h p q =
    let low = low_max (suc a) b in
    let rest = digits_below k n (suc a / 2) (b / 2) (omega arith) (omega arith) (omega arith) in
    omega arith

pub bit_or_below : (k a b : ℕ) → a < 2 ^ k → b < 2 ^ k → bit_or a b < 2 ^ k
bit_or_below k a b p q =
    subst (λ (n : ℕ). n < 2 ^ k) (sym (by_digits a b)) (digits_below k a a b (omega arith) p q)

-- Numbers of `k` bits that agree on each of them are the same.
pub bits-eq : (k a b : ℕ) → a < 2 ^ k → b < 2 ^ k → ((i : ℕ) → i < k → bit i a ≡ bit i b) → a ≡ b
unfolding bit
bits-eq zero a b p q h = omega arith
bits-eq (suc k) a b p q h =
    let first = h 0 (omega arith) in
    let rest =
      bits-eq k (a / 2) (b / 2) (omega arith) (omega arith) (λ i l. h (suc i) (omega arith)) in
    omega arith
