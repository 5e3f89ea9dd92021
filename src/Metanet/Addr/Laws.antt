-- ===== src/Metanet/Addr/Laws.antt =====
-- Laws of hop addresses and routing paths.
use vanilla_utilities.Base.{
  ℕ, ◌+◌, ◌*◌, ◌<◌, ◌==◌, ==_iff, ◌≡◌, ◌↔◌, refl, true, arith, bit_or, some,
}
use vanilla_utilities.Base.Bits.{passes, passes-at}
use vanilla_utilities.Metanet.Addr.{
  Addr, addr_driver, addr_node, make_address, same_addr, prepend_previous_hop, drop_hop,
}

address_table : passes (λ d. passes (λ n. bit_or (d * 32) n == d * 32 + n) 32) 8 ≡ true
unfolding passes
address_table = refl

pub make_address_lem : (d n : ℕ) → d < 8 → n < 32 → make_address d n ≡ d * 32 + n
unfolding make_address
make_address_lem d n hd hn =
    let row = passes-at _ d 8 hd address_table in
    let e = (==_iff _ _).0 (passes-at _ n 32 hn row) in omega arith

-- For a driver below 8 and a node below 32, ADDR_DRIVER and ADDR_NODE read back what MAKE_ADDRESS
-- put into a byte.
pub address-make_address :
    (d n : ℕ)
    → d < 8
    → n < 32
    → (addr_driver (make_address d n) ≡ d) × (addr_node (make_address d n) ≡ n)
unfolding addr_driver addr_node
address-make_address d n hd hn = rw (make_address_lem d n hd hn) (omega arith, omega arith)

-- It is zero, which ends a routing path, only for node 0 of driver 0.
pub make_address-pos : (d n : ℕ) → d < 8 → n < 32 → 0 < n → 0 < make_address d n
make_address-pos d n hd hn h = omega (arith, make_address_lem d n hd hn)

pub same_addr_iff : (a b : Addr) → (same_addr a b ≡ true) ↔ (a ≡ b)
unfolding same_addr
same_addr_iff a b = ground arith

-- A forwarder undoes on the way back what it did on the way there.
pub drop_hop-prepend :
    (hop : ℕ) (a b : Addr) → prepend_previous_hop hop a ≡ some b → (drop_hop b ≡ a) × (b.hop0 ≡ hop)
unfolding drop_hop prepend_previous_hop
drop_hop-prepend hop a b h = ground arith
