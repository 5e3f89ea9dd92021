-- ===== src/Flag/Response/Limit.antt =====
-- How long a squashed command line is, and how large ReadResponseFile's buffer.
use vanilla_utilities.Base.{
  ℕ, zero, suc, ◌+◌, ◌*◌, ◌%◌, ◌≡◌, ◌≤◌, ◌<◌, ◌↔◌, refl, arith, ltb, Bool-cases, inl, inr,
}
use vanilla_utilities.Flag.Response.{grow, buffer_loop}

buffer_loop-lem :
    (k i m : ℕ)
    → i ≤ 64 * m
    → 64 * m < i + 64
    → (m' : ℕ) × (buffer_loop k i (64 * m) ≡ 64 * m') × (i + k ≤ 64 * m') × (64 * m' < i + k + 64)
unfolding buffer_loop grow
buffer_loop-lem zero i m h l = (m, refl, omega arith, omega arith)
buffer_loop-lem (suc k) i m h l = elim (Bool-cases (ltb (64 * m) (i + 1))) [
  | inl full ↦
      let next : 64 * m + 64 ≡ 64 * (m + 1) = omega arith in
      let (m', e, a, b) = buffer_loop-lem k (i + 1) (m + 1) (ground arith) (ground arith) in
      rw (full, next) (m', e, omega arith, omega arith)
  | inr room ↦
      let (m', e, a, b) = buffer_loop-lem k (i + 1) m (ground arith) (ground arith) in
      rw room (m', e, omega arith, omega arith)
]

-- The bug: when ReadResponseFile has read a first argument of `n` characters, `n` not zero, the
-- buffer has no room left for the NUL behind it just if `n` is a multiple of 64.
buffer_loop-full_iff : (n : ℕ) → 0 < n → (buffer_loop n 0 0 ≤ n) ↔ (n % 64 ≡ 0)
buffer_loop-full_iff n h =
    let (m, e, a, b) = buffer_loop-lem n 0 0 (omega arith) (omega arith) in
    (λ (l : buffer_loop n 0 0 ≤ n). omega arith, λ (z : n % 64 ≡ 0). omega arith)
