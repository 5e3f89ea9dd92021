-- ===== src/Nodemap/Counted.antt =====
-- The bits of `got_nodes` in DiscoverPlayers of adapters/nodemap.c.
use Prim.Native.Nat.{max}
use vanilla_utilities.Base.{
  ℕ, ◌-◌, ◌^◌, ◌<◌, ◌≤◌, ◌≡◌, ◌==◌, refl, sym, ap₂, ◌∙◌, arith, ltb, true, false, Bool-cases, inl,
  inr, List, Option, none, some, ◌+◌, ◌%◌,
}
use vanilla_utilities.Base.Bitset.{bit, bit-bit_or, bit_or_below, bits-eq}
use vanilla_utilities.Nodemap.{
  Discovery, node_bit, all_nodes, is_discover, take_packet, send_if_due, is_complete,
}
use vanilla_utilities.Nodemap.Maps.{IsHonest}
use vanilla_utilities.Nodemap.Maps.Bits.{
  bit_self, bit_other, bit_above, all_inside, all_outside, all_above, node_bit_below,
  all_nodes_below,
}

-- No bits are set but those of nodes, and a sign's.
pub record IsCounted (num : ℕ) (d : Discovery) : Type 0 where
  pub small : d.got_nodes < 2 ^ 32
  pub outside : (n : ℕ) → num ≤ n → n < 16 → bit n d.got_nodes ≡ 0
  pub above : (n : ℕ) → 16 ≤ n → n < 32 → bit n d.got_nodes ≡ bit 15 d.got_nodes

pub send_if_due-IsCounted :
    (num clocks_per_sec now : ℕ) (d : Discovery)
    → IsCounted num d
    → IsCounted num (send_if_due clocks_per_sec now d)
unfolding send_if_due
send_if_due-IsCounted num clocks_per_sec now d v =
    elim (Bool-cases (ltb clocks_per_sec ((now + 2 ^ 32 - d.last_send) % 2 ^ 32))) [
      | inl due ↦ rw due (record { small = v.small; outside = v.outside; above = v.above })
      | inr early ↦ rw early v
    ]

pub send_if_due-got :
    (clocks_per_sec now : ℕ) (d : Discovery)
    → (send_if_due clocks_per_sec now d).got_nodes ≡ d.got_nodes
unfolding send_if_due
send_if_due-got clocks_per_sec now d =
    elim (Bool-cases (ltb clocks_per_sec ((now + 2 ^ 32 - d.last_send) % 2 ^ 32))) [
      | inl due ↦ rw due refl
      | inr early ↦ rw early refl
    ]

pub take_packet-IsCounted :
    (f : ℕ → ℕ) (num : ℕ) (arrival : Option (ℕ × List ℕ)) (d : Discovery)
    → num ≤ 16
    → IsHonest f num arrival
    → IsCounted num d
    → IsCounted num (take_packet arrival d)
unfolding take_packet IsHonest
take_packet-IsCounted f num none d few h v = v
take_packet-IsCounted f num (some (node, bytes)) d few h v = elim (Bool-cases (is_discover bytes)) [
  | inr other ↦ rw other (record { small = v.small; outside = v.outside; above = v.above })
  | inl heard ↦
      let (inside, e) = h heard in
      rw heard (record {
        small = bit_or_below 32 d.got_nodes (node_bit node) v.small (node_bit_below node);
        outside = λ n over below.
            let joined = bit-bit_or n d.got_nodes (node_bit node) in
            let apart : (n == node) ≡ false = ground arith in
            let off = bit_other n node below (omega arith) apart in
            let old = v.outside n over below in omega arith;
        above = λ n over below.
            bit-bit_or n d.got_nodes (node_bit node)
            ∙ ap₂ max (v.above n over below) (bit_above n node over below (omega arith))
            ∙ sym (bit-bit_or 15 d.got_nodes (node_bit node));
      })
]

-- What was heard stays heard.
pub take_packet-kept :
    (f : ℕ → ℕ) (num n : ℕ) (arrival : Option (ℕ × List ℕ)) (d : Discovery)
    → bit n d.got_nodes ≡ 1
    → n < 16
    → num ≤ 16
    → IsHonest f num arrival
    → bit n (take_packet arrival d).got_nodes ≡ 1
unfolding take_packet IsHonest
take_packet-kept f num n none d b l few h = b
take_packet-kept f num n (some (node, bytes)) d b l few h = elim (Bool-cases (is_discover bytes)) [
  | inr other ↦ rw other b
  | inl heard ↦
      let joined = bit-bit_or n d.got_nodes (node_bit node) in
      let (inside, e) = h heard in
      elim (Bool-cases (n == node)) [
        | inl same ↦
            let q : n ≡ node = ground arith in
            let on : bit n (node_bit node) ≡ 1 = rw (← q) (bit_self n l) in rw heard (omega arith)
        | inr differ ↦ let off = bit_other n node l (omega arith) differ in rw heard (omega arith)
      ]
]

the_low :
    (num : ℕ) (d : Discovery)
    → 1 ≤ num
    → num ≤ 16
    → IsCounted num d
    → ((n : ℕ) → n < num → bit n d.got_nodes ≡ 1)
    → (n : ℕ) → n < 16
    → bit n d.got_nodes ≡ bit n (all_nodes num)
the_low num d one few c every n l = elim (Bool-cases (ltb n num)) [
  | inl first ↦ every n (ground arith) ∙ sym (all_inside n num (ground arith) few)
  | inr second ↦
      let over : num ≤ n = ground arith in c.outside n over l ∙ sym (all_outside n num one over l)
]

-- All bits that `all_nodes` has are there.
pub complete :
    (num : ℕ) (d : Discovery)
    → 1 ≤ num
    → num ≤ 16
    → d.doomcom.numnodes ≡ num
    → IsCounted num d
    → ((n : ℕ) → n < num → bit n d.got_nodes ≡ 1)
    → is_complete d ≡ true
unfolding is_complete
complete num d one few count c every =
    let low = λ (n : ℕ) (l : n < 16). the_low num d one few c every n l in
    let same : d.got_nodes ≡ all_nodes num =
      bits-eq 32 d.got_nodes (all_nodes num) c.small (all_nodes_below num) (λ n l.
        elim (Bool-cases (ltb n 16)) [
          | inl first ↦ low n (ground arith)
          | inr second ↦
              let over : 16 ≤ n = ground arith in
              c.above n over l ∙ low 15 (omega arith) ∙ sym (all_above n num one few over l)
        ]) in
    rw (count, same) (ground arith)
