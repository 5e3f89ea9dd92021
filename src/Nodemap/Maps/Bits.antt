-- ===== src/Nodemap/Maps/Bits.antt =====
-- The bits of `1 << node` and `(1 << numnodes) - 1`.
use vanilla_utilities.Base.{
  ℕ, ◌+◌, ◌-◌, ◌*◌, ◌/◌, ◌%◌, ◌^◌, ◌<◌, ◌≤◌, ◌≡◌, ◌==◌, refl, arith, ltb, if◌then◌else◌, Bool, true,
  false,
}
use vanilla_utilities.Base.Bits.{passes, passes-at}
use vanilla_utilities.Base.Bitset.{bit}
use vanilla_utilities.Nodemap.{node_bit, all_nodes, widen}

-- A test of two numbers, the second below 16, at each pair with the first below `k`.
abbrev at_pairs : (ℕ → ℕ → Bool) → ℕ → Bool
at_pairs test = λ i. test (i / 16) (i % 16)

pairs-at :
    (test : ℕ → ℕ → Bool) (n m k : ℕ)
    → n < k
    → m < 16
    → passes (at_pairs test) (k * 16) ≡ true
    → test n m ≡ true
pairs-at test n m k h l all =
    let x = passes-at (at_pairs test) (n * 16 + m) (k * 16) (omega arith) all in
    let e1 : (n * 16 + m) / 16 ≡ n = omega arith in
    let e2 : (n * 16 + m) % 16 ≡ m = omega arith in rw (e1, e2) at x

bit_test : ℕ → ℕ → Bool
bit_test n m =
    bit n (node_bit m) == (if n == m then 1 else if ltb n 16 then 0 else bit 15 (node_bit m))

bit_test-all : passes (at_pairs bit_test) 512 ≡ true
unfolding bit_test passes bit node_bit widen
bit_test-all = refl

all_test : ℕ → ℕ → Bool
all_test n m =
    bit n (all_nodes (m + 1))
    == (if ltb n 16 then if ltb n (m + 1) then 1 else 0 else bit 15 (all_nodes (m + 1)))

all_test-all : passes (at_pairs all_test) 512 ≡ true
unfolding all_test passes bit all_nodes widen
all_test-all = refl

bit_value :
    (n m : ℕ)
    → n < 32
    → m < 16
    → bit n (node_bit m) ≡ (if n == m then 1 else if ltb n 16 then 0 else bit 15 (node_bit m))
unfolding bit_test
bit_value n m h l = let t = pairs-at bit_test n m 32 h l bit_test-all in ground arith

all_value :
    (n num : ℕ)
    → n < 32
    → 1 ≤ num
    → num ≤ 16
    → bit n (all_nodes num)
      ≡ (if ltb n 16 then if ltb n num then 1 else 0 else bit 15 (all_nodes num))
unfolding all_test
all_value n num h one few =
    let e : num - 1 + 1 ≡ num = omega arith in
    let t = rw e at (pairs-at all_test n (num - 1) 32 h (omega arith) all_test-all) in ground arith

pub bit_self : (n : ℕ) → n < 16 → bit n (node_bit n) ≡ 1
bit_self n h = let v = bit_value n n (omega arith) h in ground arith

pub bit_other : (n m : ℕ) → n < 16 → m < 16 → (n == m) ≡ false → bit n (node_bit m) ≡ 0
bit_other n m h l d = let v = bit_value n m (omega arith) l in ground arith

pub bit_above : (n m : ℕ) → 16 ≤ n → n < 32 → m < 16 → bit n (node_bit m) ≡ bit 15 (node_bit m)
bit_above n m h k l = let v = bit_value n m k l in ground arith

pub all_inside : (n num : ℕ) → n < num → num ≤ 16 → bit n (all_nodes num) ≡ 1
all_inside n num h few = let v = all_value n num (omega arith) (omega arith) few in ground arith

pub all_outside : (n num : ℕ) → 1 ≤ num → num ≤ n → n < 16 → bit n (all_nodes num) ≡ 0
all_outside n num one h few =
    let v = all_value n num (omega arith) one (omega arith) in ground arith

pub all_above :
    (n num : ℕ)
    → 1 ≤ num
    → num ≤ 16
    → 16 ≤ n
    → n < 32
    → bit n (all_nodes num) ≡ bit 15 (all_nodes num)
all_above n num one few h k = let v = all_value n num k one few in ground arith

widen_below : (x : ℕ) → x < 2 ^ 16 → widen x < 2 ^ 32
unfolding widen
widen_below x h = ground arith

pub node_bit_below : (n : ℕ) → node_bit n < 2 ^ 32
unfolding node_bit
node_bit_below n = widen_below (2 ^ n % 2 ^ 16) (omega arith)

pub all_nodes_below : (n : ℕ) → all_nodes n < 2 ^ 32
unfolding all_nodes
all_nodes_below n = widen_below ((2 ^ n + (2 ^ 16 - 1)) % 2 ^ 16) (omega arith)
