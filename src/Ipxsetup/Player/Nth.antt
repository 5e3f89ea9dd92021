-- ===== src/Ipxsetup/Player/Nth.antt =====
-- The loop of DetermineConsolePlayer finds the number behind `cnt` numbers that nobody claims.
use vanilla_utilities.Base.{
  ℕ, zero, suc, ◌+◌, ◌-◌, ◌<◌, ◌≤◌, ◌≡◌, ◌==◌, refl, arith, ltb, length, get_or, count_if,
  if◌then◌else◌, Bool, true, false, ◌&&◌, Bool-cases, inl, inr, List, [], ◌∷◌, some,
}
use vanilla_utilities.Base.Words.{memcmp_above_irrefl}
use vanilla_utilities.Ipxsetup.{Peer, minus_one, no_peer}
use vanilla_utilities.Ipxsetup.Player.{
  is_auto_below, claims, is_claimed, skip_loop, determine_console_player,
}

-- A node that claims the number `result` or one above it.
abbrev claims_from : ℕ → Peer → Bool
claims_from result n = ltb n.setup.plnumwanted 0x8000 && ltb result n.setup.plnumwanted

-- The numbers from `result` on that nobody claims, of the next `k`.
abbrev pub free_count : List Peer → ℕ → ℕ → ℕ
free_count nodes result zero = 0
free_count nodes result (suc k) =
    (if is_claimed result nodes then 0 else 1) + free_count nodes (result + 1) k

claims_from-step :
    (nodes : List Peer) (result : ℕ)
    → count_if (claims_from (result + 1)) nodes + (if is_claimed result nodes then 1 else 0)
      ≤ count_if (claims_from result) nodes
unfolding is_claimed claims
claims_from-step [] result = omega arith
claims_from-step (n ∷ nodes) result = ground (arith, claims_from-step nodes result)

-- What the loop finds from `result` on.
pub record NthFree (nodes : List Peer) (result cnt player : ℕ) : Type 0 where
  pub steps : ℕ
  pub place : player ≡ result + steps
  pub free : is_claimed player nodes ≡ false
  pub behind : free_count nodes result steps ≡ cnt

NthFree-claimed :
    (nodes : List Peer) (result cnt player : ℕ)
    → is_claimed result nodes ≡ true
    → NthFree nodes (result + 1) cnt player
    → NthFree nodes result cnt player
NthFree-claimed nodes result cnt player h v = record {
  steps = suc v.steps;
  place = omega (arith, v.place);
  free = v.free;
  behind = rw h (omega (arith, v.behind));
}

NthFree-unclaimed :
    (nodes : List Peer) (result cnt player : ℕ)
    → is_claimed result nodes ≡ false
    → 0 < cnt
    → NthFree nodes (result + 1) (cnt - 1) player
    → NthFree nodes result cnt player
NthFree-unclaimed nodes result cnt player h some_left v = record {
  steps = suc v.steps;
  place = omega (arith, v.place);
  free = v.free;
  behind = rw h (omega (arith, v.behind));
}

NthFree-here :
    (nodes : List Peer) (result : ℕ)
    → is_claimed result nodes ≡ false
    → NthFree nodes result 0 result
NthFree-here nodes result h = record { steps = 0; place = omega arith; free = h; behind = refl }

skip_loop-NthFree :
    (fuel : ℕ) (nodes : List Peer) (cnt result : ℕ)
    → cnt + count_if (claims_from result) nodes < fuel
    → (player : ℕ) × (skip_loop fuel nodes cnt result ≡ some player)
      × (player ≤ result + cnt + count_if (claims_from result) nodes)
      × NthFree nodes result cnt player
unfolding skip_loop
skip_loop-NthFree zero nodes cnt result h = absurd (omega arith)
skip_loop-NthFree (suc fuel) nodes cnt result h =
    let fewer = claims_from-step nodes result in
    elim (Bool-cases (is_claimed result nodes)) [
      | inl claimed ↦
          let fewer' = rw claimed at fewer in
          let (p, e, b, v) = skip_loop-NthFree fuel nodes cnt (result + 1) (omega arith) in
          rw claimed (p, e, omega arith, NthFree-claimed nodes result cnt p claimed v)
      | inr unclaimed ↦
          let fewer' = rw unclaimed at fewer in
          elim (Bool-cases (cnt == 0)) [
            | inl last ↦
                let zero_left : cnt ≡ 0 = ground arith in
                rw (unclaimed, last, zero_left)
                  (result, refl, omega arith, NthFree-here nodes result unclaimed)
            | inr more ↦
                let some_left : 0 < cnt = ground arith in
                let (p, e, b, v) =
                  skip_loop-NthFree fuel nodes (cnt - 1) (result + 1) (omega arith) in
                rw (unclaimed, more)
                  (p, e, omega arith, NthFree-unclaimed nodes result cnt p unclaimed some_left v)
          ]
    ]

few_claims :
    (own : List ℕ) (nodes : List Peer)
    → count_if (is_auto_below own) nodes + count_if (claims_from 0) nodes ≤ length nodes
unfolding is_auto_below
few_claims own [] = omega arith
few_claims own (n ∷ nodes) = ground (arith, few_claims own nodes)

own_is_none :
    (own : Peer) (nodes : List Peer)
    → own.setup.plnumwanted ≡ minus_one
    → count_if (is_auto_below own.addr) (own ∷ nodes) + count_if (claims_from 0) (own ∷ nodes)
      ≤ length nodes
unfolding is_auto_below
own_is_none own nodes h = ground (arith, memcmp_above_irrefl own.addr, few_claims own.addr nodes)

-- DetermineConsolePlayer of a machine that takes its number ends, given a round for each node. The
-- number is below the number of nodes, nobody claims it by -player, and as many unclaimed numbers
-- come before it as there are other players that take theirs and have a lower address.
pub determine_console_player-NthFree :
    (fuel : ℕ) (own : Peer) (nodes : List Peer)
    → own.setup.plnumwanted ≡ minus_one
    → length nodes < fuel
    → (player : ℕ) × (determine_console_player fuel minus_one (own ∷ nodes) ≡ some player)
      × (player < length (own ∷ nodes))
      × NthFree (own ∷ nodes) 0 (count_if (is_auto_below own.addr) (own ∷ nodes)) player
unfolding determine_console_player
determine_console_player-NthFree fuel own nodes h k =
    let few = own_is_none own nodes h in
    let (p, e, b, v) =
      skip_loop-NthFree fuel (own ∷ nodes) (count_if (is_auto_below own.addr) (own ∷ nodes)) 0
        (omega arith) in
    (p, e, omega arith, v)

-- The same without a condition on our own entry, for the nodes of a table in any state: the loop ends
-- within a round for each node and one more.
pub determine_console_player-ends :
    (fuel : ℕ) (nodes : List Peer)
    → length nodes < fuel
    → let cnt = count_if (is_auto_below (get_or nodes 0 no_peer).addr) nodes in
      (player : ℕ) × (determine_console_player fuel minus_one nodes ≡ some player)
      × NthFree nodes 0 cnt player
unfolding determine_console_player
determine_console_player-ends fuel nodes k =
    let own : List ℕ = (get_or nodes 0 no_peer).addr in
    let few = few_claims own nodes in
    let (p, e, b, v) =
      skip_loop-NthFree fuel nodes (count_if (is_auto_below own) nodes) 0 (omega arith) in
    (p, e, v)
