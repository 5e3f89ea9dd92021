-- ===== src/Serarb/Order.antt =====
-- The comparison of the two IDs.
use vanilla_utilities.Base.{ℕ, ◌≡◌, refl, false, List, Bool-cases, inl, inr, ◌+◌}
use vanilla_utilities.Base.Words.{memcmp_above, same_bytes, memcmp_above-not}
use vanilla_utilities.Serarb.{player_of}

-- Two IDs that differ give the two players' numbers.
pub player_of-differ :
    (xs ys : List ℕ) → same_bytes xs ys ≡ false → player_of xs ys + player_of ys xs ≡ 1
unfolding player_of
player_of-differ xs ys h = elim (Bool-cases (memcmp_above xs ys)) [
  | inl above ↦ rw (memcmp_above-not xs ys h, above) refl
  | inr below ↦ rw (memcmp_above-not xs ys h, below) refl
]
