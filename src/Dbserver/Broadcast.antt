-- ===== src/Dbserver/Broadcast.antt =====
-- Whom net/dbserver.c passes a broadcast on to.
use vanilla_utilities.Base.{
  ℕ, ◌≡◌, refl, sym, ap, ◌∙◌, arith, length, take, drop, count_if, append-nil, take-append,
  append_assoc, if◌then◌else◌, Bool, true, false, not, ◌&&◌, Bool-cases, inl, inr, List, [], ◌∷◌,
  ◌++◌,
}
use vanilla_utilities.Base.Words.{same_bytes, same_bytes-eq}
use vanilla_utilities.Dbserver.{
  Server, Datagram, Sendto, in_list, in_clients_list, is_registration_packet, dest_of,
  broadcast_addr, sendto_or_log, forward_loop, forward_packet, receive, srv_rx_packets,
}
use vanilla_utilities.Dbserver.Clients.{IsClients, present, absent}

-- A packet to all is no registration.
pub broadcast_not :
    (packet : List ℕ) → dest_of packet ≡ broadcast_addr → is_registration_packet packet ≡ false
unfolding is_registration_packet same_bytes
broadcast_not packet h = rw h refl

-- The sends to the clients other than the source.
abbrev pub sends_to : List (List ℕ) → List ℕ → List ℕ → List Sendto
sends_to [] src msg = []
sends_to (c ∷ clients) src msg =
    if same_bytes c src
    then sends_to clients src msg
    else record { msg = msg; target = c } ∷ sends_to clients src msg

abbrev pub is_to : List ℕ → Sendto → Bool
is_to addr e = same_bytes addr e.target

sends_to-count :
    (clients : List (List ℕ)) (src msg addr : List ℕ)
    → count_if (is_to addr) (sends_to clients src msg)
      ≡ (if same_bytes addr src then 0 else count_if (same_bytes addr) clients)
sends_to-count [] src msg addr = ground arith
sends_to-count (c ∷ clients) src msg addr =
    let rest = sends_to-count clients src msg addr in
    elim (Bool-cases (same_bytes addr c)) [
      | inl here ↦
          let e = same_bytes-eq addr c here in
          let same : same_bytes c src ≡ same_bytes addr src =
            ap (λ (a : List ℕ). same_bytes a src) (sym e) in
          ground arith
      | inr elsewhere ↦ ground arith
    ]

abbrev pub Carry : List ℕ → List Sendto → Type 0
Carry msg [] = Unit {0}
Carry msg (e ∷ sends) = (e.msg ≡ msg) × Carry msg sends

sends_to-Carry : (clients : List (List ℕ)) (src msg : List ℕ) → Carry msg (sends_to clients src msg)
sends_to-Carry [] src msg = tt
sends_to-Carry (c ∷ clients) src msg = elim (Bool-cases (same_bytes c src)) [
  | inl own ↦ rw own (sends_to-Carry clients src msg)
  | inr other ↦ rw other (refl, sends_to-Carry clients src msg)
]

once :
    (clients : List (List ℕ)) (addr : List ℕ) (own : Bool)
    → IsClients clients
    → (if own then 0 else count_if (same_bytes addr) clients)
      ≡ (if in_list addr clients && not own then 1 else 0)
once clients addr own c = elim (Bool-cases (in_list addr clients)) [
  | inl there ↦ ground (arith, present addr clients there, c.distinct addr)
  | inr missing ↦ ground (arith, absent addr clients missing)
]

module _ (sendto_fails : ℕ → Bool) (uninit : List ℕ) where
  forward_loop-sent :
      (clients : List (List ℕ)) (src msg : List ℕ) (s : Server)
      → (forward_loop sendto_fails uninit clients src msg s).sent
        ≡ s.sent ++ sends_to clients src msg
  unfolding forward_loop sendto_or_log
  forward_loop-sent [] src msg s = sym (append-nil s.sent)
  forward_loop-sent (c ∷ clients) src msg s = elim (Bool-cases (same_bytes c src)) [
    | inl own ↦ rw (forward_loop, own) (forward_loop-sent clients src msg s)
    | inr other ↦
        rw (forward_loop, other)
          (forward_loop-sent clients src msg _
            ∙ append_assoc s.sent (record { msg = msg; target = c } ∷ [])
                (sends_to clients src msg))
  ]

  -- A client's broadcast of `d.bytes`.
  pub record IsBroadcast (d : Datagram) (s : Server) : Type 0 where
    pub to_all :
        same_bytes (dest_of (d.bytes ++ drop (length d.bytes) s.packet)) broadcast_addr ≡ true
    pub no_registration : is_registration_packet (d.bytes ++ drop (length d.bytes) s.packet) ≡ false
    pub from_client : in_list d.from s.client_addrs ≡ true

  forward_packet-sent :
      (src : List ℕ) (bytes rest : List ℕ) (s : Server)
      → s.packet ≡ bytes ++ rest
      → same_bytes (dest_of s.packet) broadcast_addr ≡ true
      → (forward_packet sendto_fails uninit src (length bytes) s).sent
        ≡ s.sent ++ sends_to s.client_addrs src bytes
  unfolding forward_packet
  forward_packet-sent src bytes rest s h all =
      let whole : take (length bytes) s.packet ≡ bytes =
        ap (take (length bytes)) h ∙ take-append (length bytes) bytes rest refl in
      rw (all, whole) (forward_loop-sent s.client_addrs src bytes s)

  -- A client of the server, on a list of clients without repeats, sends a datagram to all that is
  -- no registration: RunServer's round sends its bytes, once each, to just those clients whose
  -- address is another one than the sender's.
  pub receive-broadcast :
      (d : Datagram) (s : Server)
      → IsClients s.client_addrs
      → IsBroadcast d s
      → (sends : List Sendto) × ((receive sendto_fails uninit d s).sent ≡ s.sent ++ sends)
        × Carry d.bytes sends
        × ((addr : List ℕ)
            → count_if (is_to addr) sends
              ≡ (if in_list addr s.client_addrs && not (same_bytes addr d.from) then 1 else 0))
  unfolding receive in_clients_list
  receive-broadcast d s c v =
      let t : Server = record s {
        packet = d.bytes ++ drop (length d.bytes) s.packet;
        counts = s.counts ++ srv_rx_packets ∷ [];
      } in
      (
        sends_to s.client_addrs d.from d.bytes,
        rw (v.no_registration, v.from_client)
            (forward_packet-sent d.from d.bytes (drop (length d.bytes) s.packet) t refl v.to_all),
        sends_to-Carry s.client_addrs d.from d.bytes,
        λ addr.
            sends_to-count s.client_addrs d.from d.bytes addr
            ∙ once s.client_addrs addr (same_bytes addr d.from) c,
      )
