-- ===== src/Dbserver/Clients.antt =====
-- The list of clients that net/dbserver.c keeps.
use vanilla_utilities.Base.{
  ℕ, ◌+◌, ◌≤◌, ◌≡◌, refl, sym, ap, ◌∙◌, append-nil, append_assoc, arith, leb, length, length-append,
  count_if, count_if-append, if◌then◌else◌, Bool, true, false, not, Bool-cases, inl, inr, List, [],
  ◌∷◌, ◌++◌, take, drop,
}
use vanilla_utilities.Base.Words.{same_bytes, same_bytes-eq, same_bytes-sym}
use vanilla_utilities.Dbserver.{
  Server, Datagram, in_list, in_clients_list, is_registration_packet, sendto_or_log, forward_loop,
  forward_packet, reply_to, new_client, receive, receive_all, run_server, end_loop, max_net_nodes,
  dest_of, broadcast_addr, srv_rx_packets,
}

-- No address is in the list twice, and it has 16 places.
pub record IsClients (clients : List (List ℕ)) : Type 0 where
  pub distinct : (addr : List ℕ) → count_if (same_bytes addr) clients ≤ 1
  pub few : length clients ≤ max_net_nodes

-- An address that the list lacks.
pub absent :
    (addr : List ℕ) (clients : List (List ℕ))
    → in_list addr clients ≡ false
    → count_if (same_bytes addr) clients ≡ 0
unfolding in_list
absent addr [] h = refl
absent addr (c ∷ clients) h = ground (arith, same_bytes-sym addr c, absent addr clients)

pub present :
    (addr : List ℕ) (clients : List (List ℕ))
    → in_list addr clients ≡ true
    → 1 ≤ count_if (same_bytes addr) clients
unfolding in_list
present addr [] h = absurd (ground arith)
present addr (c ∷ clients) h = ground (arith, same_bytes-sym addr c, present addr clients)

IsClients-append :
    (addr : List ℕ) (clients : List (List ℕ))
    → IsClients clients
    → in_list addr clients ≡ false
    → leb max_net_nodes (length clients) ≡ false
    → IsClients (clients ++ addr ∷ [])
IsClients-append addr clients v h room = record {
  distinct = once;
  few = ground (arith, length-append clients (addr ∷ []));
}
  where
    once : (other : List ℕ) → count_if (same_bytes other) (clients ++ addr ∷ []) ≤ 1
    once other = elim (Bool-cases (same_bytes other addr)) [
      | inl same ↦
          let e = same_bytes-eq other addr same in
          let none_there : count_if (same_bytes other) clients ≡ 0 = rw e (absent addr clients h) in
          omega (
            arith,
            count_if-append (same_bytes other) clients (addr ∷ []),
            ap (λ (b : Bool). (if b then 1 else 0) + 0) same,
          )
      | inr differs ↦ omega (
        arith,
        v.distinct other,
        count_if-append (same_bytes other) clients (addr ∷ []),
        ap (λ (b : Bool). (if b then 1 else 0) + 0) differs,
      )
    ]

-- What a round makes of the list: it stays one, and new clients come behind the others.
pub record Grown (s t : Server) : Type 0 where
  pub clients : IsClients t.client_addrs
  pub more : List (List ℕ)
  pub behind : t.client_addrs ≡ s.client_addrs ++ more

Grown-same : (s t : Server) → IsClients s.client_addrs → t.client_addrs ≡ s.client_addrs → Grown s t
Grown-same s t v e = record {
  clients = rw e v;
  more = [];
  behind = e ∙ sym (append-nil s.client_addrs);
}

Grown-trans : (s t u : Server) → Grown s t → Grown t u → Grown s u
Grown-trans s t u v w = record {
  clients = w.clients;
  more = v.more ++ w.more;
  behind =
      w.behind
      ∙ ap (λ (l : List (List ℕ)). l ++ w.more) v.behind
      ∙ append_assoc s.client_addrs v.more w.more;
}

module _ (sendto_fails : ℕ → Bool) (uninit : List ℕ) where
  forward_loop-clients :
      (clients : List (List ℕ)) (src msg : List ℕ) (s : Server)
      → (forward_loop sendto_fails uninit clients src msg s).client_addrs ≡ s.client_addrs
  unfolding forward_loop sendto_or_log
  forward_loop-clients [] src msg s = refl
  forward_loop-clients (c ∷ clients) src msg s = elim (Bool-cases (same_bytes c src)) [
    | inl own ↦ rw (forward_loop, own) (forward_loop-clients clients src msg s)
    | inr other ↦ rw (forward_loop, other) (forward_loop-clients clients src msg _)
  ]

  forward_packet-clients :
      (src : List ℕ) (len : ℕ) (s : Server)
      → (forward_packet sendto_fails uninit src len s).client_addrs ≡ s.client_addrs
  unfolding forward_packet sendto_or_log
  forward_packet-clients src len s =
      elim (Bool-cases (same_bytes (dest_of s.packet) broadcast_addr)) [
        | inl all ↦ rw all (forward_loop-clients s.client_addrs src (take len s.packet) s)
        | inr one ↦ rw one refl
      ]

  new_client-Grown :
      (addr : List ℕ) (s : Server)
      → IsClients s.client_addrs
      → Grown s (new_client sendto_fails uninit addr s)
  unfolding new_client in_clients_list reply_to sendto_or_log
  new_client-Grown addr s v = elim (Bool-cases (in_list addr s.client_addrs)) [
    | inl known ↦ rw known (Grown-same s _ v refl)
    | inr fresh ↦ elim (Bool-cases (leb max_net_nodes (length s.client_addrs))) [
      | inl full ↦ rw (fresh, full) (Grown-same s _ v refl)
      | inr room ↦
          rw (fresh, room)
            (record {
              clients = IsClients-append addr s.client_addrs v fresh room;
              more = addr ∷ [];
              behind = refl;
            })
    ]
  ]

  receive-Grown :
      (d : Datagram) (s : Server)
      → IsClients s.client_addrs
      → Grown s (receive sendto_fails uninit d s)
  unfolding receive
  receive-Grown d s v =
      let t : Server = record s {
        packet = d.bytes ++ drop (length d.bytes) s.packet;
        counts = s.counts ++ srv_rx_packets ∷ [];
      } in
      let same = Grown-same s t v refl in
      elim (Bool-cases (is_registration_packet t.packet)) [
        | inl new ↦ rw new (Grown-trans s t _ same (new_client-Grown d.from t v))
        | inr other ↦ elim (Bool-cases (in_clients_list d.from t)) [
          | inl known ↦
              rw (other, known)
                (Grown-same s _ v (forward_packet-clients d.from (length d.bytes) t))
          | inr stranger ↦ rw (other, stranger) same
        ]
      ]

  receive_all-Grown :
      (datagrams : List Datagram) (s : Server)
      → IsClients s.client_addrs
      → Grown s (receive_all sendto_fails uninit datagrams s)
  unfolding receive_all
  receive_all-Grown [] s v = Grown-same s s v refl
  receive_all-Grown (d ∷ datagrams) s v =
      let g = receive-Grown d s v in Grown-trans s _ _ g (receive_all-Grown datagrams _ g.clients)

  -- RunServer, on any datagrams, keeps the list of clients at 16 at most without repeats, and
  -- every client in it at its place.
  pub run_server-Grown :
      (datagrams : List Datagram) (would_block : Bool) (s : Server)
      → IsClients s.client_addrs
      → Grown s (run_server sendto_fails uninit datagrams would_block s)
  unfolding run_server end_loop
  run_server-Grown datagrams would_block s v =
      let g = receive_all-Grown datagrams s v in
      elim (s.is_open)
        as (λ b. Grown s (
          if not b
          then s
          else end_loop would_block (receive_all sendto_fails uninit datagrams s))) [
            | false ↦ Grown-same s s v refl
            | true ↦
                elim would_block
                  as (λ b. Grown s (end_loop b (receive_all sendto_fails uninit datagrams s))) [
                    | true ↦ g
                    | false ↦ record { clients = g.clients; more = g.more; behind = g.behind }
                  ]
          ]
