-- ===== src/Dbserver/Unicast.antt =====
-- What net/dbserver.c passes on to a single client.
use vanilla_utilities.Base.{
  ℕ, ◌≡◌, refl, length, take, drop, take-append, Bool, true, false, List, [], ◌∷◌, ◌++◌,
}
use vanilla_utilities.Base.Words.{same_bytes}
use vanilla_utilities.Dbserver.{
  Server, Datagram, in_list, in_clients_list, is_registration_packet, dest_of, null_addr,
  broadcast_addr, sockaddr_to_ipx, ipx_to_sockaddr, sendto_or_log, forward_packet, receive,
}

-- The address that IPX packets give is the client's again.
ipx_to_sockaddr-sockaddr_to_ipx :
    (p q a b c e : ℕ) (rest uninit : List ℕ)
    → let addr : List ℕ = 2 ∷ 0 ∷ p ∷ q ∷ a ∷ b ∷ c ∷ e ∷ rest in
      ipx_to_sockaddr (sockaddr_to_ipx addr) uninit ≡ take 8 addr ++ drop 8 uninit
unfolding ipx_to_sockaddr sockaddr_to_ipx
ipx_to_sockaddr-sockaddr_to_ipx p q a b c e rest uninit = refl

-- A packet whose IPX destination is that of the client at `addr`.
pub record IsFor (addr : List ℕ) (d : Datagram) (s : Server) : Type 0 where
  pub target : dest_of (d.bytes ++ drop (length d.bytes) s.packet) ≡ sockaddr_to_ipx addr
  pub no_null : same_bytes (sockaddr_to_ipx addr) null_addr ≡ false
  pub no_broadcast : same_bytes (sockaddr_to_ipx addr) broadcast_addr ≡ false
  pub from_client : in_list d.from s.client_addrs ≡ true

pub receive-unicast :
    (server_fails : ℕ → Bool) (uninit : List ℕ) (p q a b c e : ℕ) (rest : List ℕ) (d : Datagram)
    (s : Server)
    → let addr : List ℕ = 2 ∷ 0 ∷ p ∷ q ∷ a ∷ b ∷ c ∷ e ∷ rest in
      IsFor addr d s
      → (receive server_fails uninit d s).sent
        ≡ s.sent ++ record { msg = d.bytes; target = take 8 addr ++ drop 8 uninit } ∷ []
unfolding receive in_clients_list is_registration_packet forward_packet sendto_or_log
receive-unicast server_fails uninit p q a b c e rest d s v =
    let whole = take-append (length d.bytes) d.bytes (drop (length d.bytes) s.packet) refl in
    rw
      (
        v.target,
        v.no_null,
        v.from_client,
        v.no_broadcast,
        whole,
        ipx_to_sockaddr-sockaddr_to_ipx p q a b c e rest uninit,
      )
      refl
