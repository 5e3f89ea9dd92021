-- ===== src/Metanet/Addr.antt =====
-- net/metanet.c: hop addresses (the macros ADDR_DRIVER, ADDR_NODE and MAKE_ADDRESS) and routing
-- paths (node_addr_t), with PrependPreviousHop and AppendNextHop.
pub mod Laws
use vanilla_utilities.Base.{
  ℕ, zero, suc, ◌+◌, ◌*◌, ◌/◌, ◌%◌, ◌==◌, bit_or, if◌then◌else◌, Bool, true, ◌&&◌, Option, none,
  some,
}

-- `((x) >> 5) & 0x07` and `(x) & 0x1f`.
unfoldable pub addr_driver : ℕ → ℕ
addr_driver x = x / 32 % 8

unfoldable pub addr_node : ℕ → ℕ
addr_node x = x % 32

-- `((driver) << 5) | node`, as it is stored: in a byte.
unfoldable pub make_address : ℕ → ℕ → ℕ
make_address driver node = bit_or (driver * 32) node % 256

-- `node_addr_t`, four bytes.
pub record Addr : Type 0 where
  pub hop0 : ℕ
  pub hop1 : ℕ
  pub hop2 : ℕ
  pub hop3 : ℕ

abbrev pub zero_addr : Addr
zero_addr = record { hop0 = 0; hop1 = 0; hop2 = 0; hop3 = 0 }

abbrev pub broadcast : Addr
broadcast = record { hop0 = 255; hop1 = 255; hop2 = 255; hop3 = 255 }

-- `addr[i]`, and `addr[i] = x`, for i below 4.
abbrev pub hop_at : Addr → ℕ → ℕ
hop_at a zero = a.hop0
hop_at a (suc zero) = a.hop1
hop_at a (suc (suc zero)) = a.hop2
hop_at a (suc (suc (suc i))) = a.hop3

abbrev pub set_hop : Addr → ℕ → ℕ → Addr
set_hop a zero x = record a { hop0 = x }
set_hop a (suc zero) x = record a { hop1 = x }
set_hop a (suc (suc zero)) x = record a { hop2 = x }
set_hop a (suc (suc (suc i))) x = record a { hop3 = x }

-- `memcmp(a, b, sizeof(node_addr_t)) == 0`.
unfoldable pub same_addr : Addr → Addr → Bool
same_addr a b = a.hop0 == b.hop0 && a.hop1 == b.hop1 && a.hop2 == b.hop2 && a.hop3 == b.hop3

-- PrependPreviousHop; `none` is its failure, where the caller counts `too_many_hops`.
unfoldable pub prepend_previous_hop : ℕ → Addr → Option Addr
prepend_previous_hop prev old =
    if old.hop3 == 0
    then some (record { hop0 = prev; hop1 = old.hop0; hop2 = old.hop1; hop3 = old.hop2 })
    else none

-- The loop of AppendNextHop: `k` rounds left, from index `i`.
unfoldable pub append_loop : ℕ → ℕ → Addr → ℕ → Option Addr
append_loop zero i a hop = none
append_loop (suc k) i a hop =
    let rest = append_loop k (i + 1) a hop in
    if hop_at a i == 0 then some (set_hop a i hop) else rest

-- AppendNextHop; `none` where all four hops are in use.
unfoldable pub append_next_hop : Addr → ℕ → Option Addr
unfolding append_loop
append_next_hop a hop = append_loop 4 0 a hop

-- The forwarder's move of the destination to its next hop (in ForwardPacket).
unfoldable pub drop_hop : Addr → Addr
drop_hop a = record { hop0 = a.hop1; hop1 = a.hop2; hop2 = a.hop3; hop3 = 0 }

-- The loop that finds the length of a path: `k` rounds left, from index `i`.
unfoldable pub prefix_loop : ℕ → ℕ → Addr → ℕ
prefix_loop zero i a = i
prefix_loop (suc k) i a = let rest = prefix_loop k (i + 1) a in if hop_at a i == 0 then i else rest

unfoldable pub path_length : Addr → ℕ
unfolding prefix_loop
path_length a = prefix_loop 4 0 a

-- `memcmp(a, b, k) == 0`, from index `i`.
unfoldable pub same_prefix : ℕ → ℕ → Addr → Addr → Bool
same_prefix zero i a b = true
same_prefix (suc k) i a b = hop_at a i == hop_at b i && same_prefix k (i + 1) a b
