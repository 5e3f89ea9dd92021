-- ===== src/Base/Bits.antt =====
-- A test on a byte's values, run at each of them.
use Prim.Native.Nat.{ℕ, zero, suc, ◌<◌}
use mathlib.Core.Path.{◌≡◌}
use mathlib.Core.Bool.{Bool, true, ◌&&◌}
use native.Mathlib.Omega.{arith}

unfoldable pub passes : (ℕ → Bool) → ℕ → Bool
passes test zero = true
passes test (suc k) = passes test k && test k

pub passes-at : (test : ℕ → Bool) (i k : ℕ) → i < k → passes test k ≡ true → test i ≡ true
unfolding passes
passes-at test i zero below every = absurd (omega arith)
passes-at test i (suc k) below every = ground (arith, passes-at test i k)
