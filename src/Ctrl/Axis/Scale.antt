-- ===== src/Ctrl/Axis/Scale.antt =====
-- A part of a speed, in the arithmetic of ctrl/analogjs.c.
use native.Mathlib.Nat.{div-le_of_le-mul, mul-div_cancel, mul-le-mul_left}
use vanilla_utilities.Base.{ℕ, zero, suc, ◌+◌, ◌-◌, ◌*◌, ◌/◌, ◌^◌, ◌<◌, ◌≤◌, ◌≡◌, ap, ◌∙◌, arith}
use vanilla_utilities.Base.Int.{
  ℤ, pos, negsuc, int16, ◌-ℤ◌, ◌*ℤ◌, ◌/ℤ◌, abs, difference, int16_small,
}
use vanilla_utilities.Ctrl.Axis.{scale}

pub sub_pos : (a b : ℕ) → b ≤ a → pos a -ℤ pos b ≡ pos (a - b)
unfolding ◌-ℤ◌
sub_pos a b h = ground arith

pub mul_pos : (a b : ℕ) → pos a *ℤ pos b ≡ pos (a * b)
unfolding ◌*ℤ◌
mul_pos a b = ground arith

mul_negsuc : (a b : ℕ) → negsuc a *ℤ pos b ≡ difference 0 ((a + 1) * b)
unfolding ◌*ℤ◌
mul_negsuc a b = ground arith

pub div_pos : (a b : ℕ) → pos a /ℤ pos b ≡ pos (a / b)
unfolding ◌/ℤ◌
div_pos a b = ground arith

pub int16_count : (n : ℕ) → n < 2 ^ 15 → int16 (pos n) ≡ pos n
int16_count n h = int16_small (pos n) (omega arith)

-- A part `n / m` of a speed is not above it, and the whole of it is the speed.
part_le : (s n m : ℕ) → n ≤ m → s * n / m ≤ s
part_le s n m h =
    let grow = mul-le-mul_left s h in
    let turned : s * m ≡ m * s = omega arith in div-le_of_le-mul m (omega arith)

minus : ℕ → ℤ
minus n = difference 0 n

minus-abs : (n : ℕ) → abs (minus n) ≡ n
unfolding minus
minus-abs n = ground arith

div_minus : (a b : ℕ) → 0 < b → difference 0 a /ℤ pos b ≡ minus (a / b)
unfolding ◌/ℤ◌ minus
div_minus zero b h = ground arith
div_minus (suc a) b h = ground arith

-- The value of a quotient of `scale`.
scale_pos : (s n m : ℕ) → s < 2 ^ 15 → n ≤ m → scale (pos s) (pos n) (pos m) ≡ pos (s * n / m)
unfolding scale
scale_pos s n m h k =
    let most = part_le s n m k in
    rw (mul_pos s n, div_pos (s * n) m) (int16_count (s * n / m) (omega arith))

scale_negsuc :
    (s n m : ℕ)
    → s + 1 < 2 ^ 15
    → n ≤ m
    → 0 < m
    → scale (negsuc s) (pos n) (pos m) ≡ minus ((s + 1) * n / m)
unfolding scale
scale_negsuc s n m h k l =
    let most = part_le (s + 1) n m k in
    let size = minus-abs ((s + 1) * n / m) in
    rw (mul_negsuc s n, div_minus ((s + 1) * n) m l)
      (int16_small (minus ((s + 1) * n / m)) (omega arith))

pub scale_le :
    (speed : ℤ) (n m : ℕ)
    → abs speed < 2 ^ 15
    → n ≤ m
    → 0 < m
    → abs (scale speed (pos n) (pos m)) ≤ abs speed
scale_le (pos s) n m h k l =
    rw (scale_pos s n m (omega arith) k) (let p = part_le s n m k in omega arith)
scale_le (negsuc s) n m h k l =
    rw (scale_negsuc s n m (omega arith) k l)
      (let p = part_le (s + 1) n m k in let e = minus-abs ((s + 1) * n / m) in omega arith)

pub scale_whole :
    (speed : ℤ) (m : ℕ) → abs speed < 2 ^ 15 → 0 < m → scale speed (pos m) (pos m) ≡ speed
unfolding minus
scale_whole (pos s) m h l =
    scale_pos s m m (omega arith) (omega arith) ∙ ap pos (mul-div_cancel s l)
scale_whole (negsuc s) m h l =
    scale_negsuc s m m (omega arith) (omega arith) l
    ∙ ap minus (mul-div_cancel (s + 1) l)
    ∙ ground arith

-- At the center itself there is no speed.
pub scale_none :
    (speed : ℤ) (m : ℕ) → abs speed < 2 ^ 15 → 0 < m → scale speed (pos 0) (pos m) ≡ pos 0
unfolding minus
scale_none (pos s) m h l = scale_pos s 0 m (omega arith) (omega arith) ∙ ap pos (ground arith)
scale_none (negsuc s) m h l = scale_negsuc s 0 m (omega arith) (omega arith) l ∙ ground arith
