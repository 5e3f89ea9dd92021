-- ===== src/Ipxsetup/Player/Differ.antt =====
-- No two machines of a game take the same player number in DetermineConsolePlayer.
use vanilla_utilities.Base.{
  ℕ, zero, suc, ◌+◌, ◌-◌, ◌<◌, ◌≤◌, ◌≡◌, ◌≢◌, ◌==◌, refl, sym, ap, subst, ◌∙◌, arith, ltb, length,
  count_if, Bool, true, false, Bool-cases, inl, inr, List, [], ◌∷◌, some,
}
use vanilla_utilities.Base.Words.{
  memcmp_above, memcmp_above_trans, memcmp_above_irrefl, memcmp_above-not, same_bytes,
}
use vanilla_utilities.Ipxsetup.{Peer, minus_one}
use vanilla_utilities.Ipxsetup.Player.{is_auto_below, claims, is_claimed, determine_console_player}
use vanilla_utilities.Ipxsetup.Player.Nth.{NthFree, free_count, determine_console_player-NthFree}

-- Two tables with the same nodes, in any order.
abbrev pub SameNodes : List Peer → List Peer → Type 0
SameNodes xs ys = (test : Peer → Bool) → count_if test xs ≡ count_if test ys

is_claimed-count :
    (result : ℕ) (nodes : List Peer)
    → is_claimed result nodes ≡ ltb 0 (count_if (claims result) nodes)
unfolding is_claimed
is_claimed-count result [] = refl
is_claimed-count result (n ∷ nodes) = ground (arith, is_claimed-count result nodes)

is_claimed-same :
    (result : ℕ) (xs ys : List Peer) → SameNodes xs ys → is_claimed result xs ≡ is_claimed result ys
is_claimed-same result xs ys s =
    is_claimed-count result xs ∙ ap (ltb 0) (s (claims result)) ∙ sym (is_claimed-count result ys)

free_count-same :
    (k result : ℕ) (xs ys : List Peer)
    → SameNodes xs ys
    → free_count xs result k ≡ free_count ys result k
free_count-same zero result xs ys s = refl
free_count-same (suc k) result xs ys s =
    rw (is_claimed-same result xs ys s, free_count-same k (result + 1) xs ys s) refl

-- The player number determines how many free numbers are below.
NthFree-unique :
    (xs ys : List Peer) (c d player : ℕ)
    → SameNodes xs ys
    → NthFree xs 0 c player
    → NthFree ys 0 d player
    → c ≡ d
NthFree-unique xs ys c d player s v w =
    let steps : v.steps ≡ w.steps = omega (arith, v.place, w.place) in
    sym v.behind ∙ free_count-same v.steps 0 xs ys s ∙ ap (free_count ys 0) steps ∙ w.behind

below-le :
    (own other : List ℕ) (nodes : List Peer)
    → memcmp_above other own ≡ true
    → count_if (is_auto_below own) nodes ≤ count_if (is_auto_below other) nodes
unfolding is_auto_below
below-le own other [] h = omega arith
below-le own other (n ∷ nodes) h =
    ground (arith, memcmp_above_trans other own n.addr h, below-le own other nodes h)

below-lt :
    (own : Peer) (other : List ℕ) (nodes : List Peer)
    → own.setup.drone ≡ 0
    → own.setup.plnumwanted ≡ minus_one
    → memcmp_above other own.addr ≡ true
    → count_if (is_auto_below own.addr) (own ∷ nodes) < count_if (is_auto_below other) (own ∷ nodes)
unfolding is_auto_below
below-lt own other nodes d w h =
    ground (arith, memcmp_above_irrefl own.addr, below-le own.addr other nodes h)

-- A player that takes its number, and one that is forced to it by `-player`.
pub data Chooses (n : Peer) : Type 0 where
  auto : n.setup.drone ≡ 0 → n.setup.plnumwanted ≡ minus_one → Chooses n
  forced : 0 < n.setup.plnumwanted → n.setup.plnumwanted < 0x8000 → Chooses n

auto-NthFree :
    (fuel : ℕ) (own : Peer) (nodes : List Peer) (player : ℕ)
    → own.setup.plnumwanted ≡ minus_one
    → length nodes < fuel
    → determine_console_player fuel own.setup.plnumwanted (own ∷ nodes) ≡ some player
    → NthFree (own ∷ nodes) 0 (count_if (is_auto_below own.addr) (own ∷ nodes)) player
auto-NthFree fuel own nodes player w f h =
    let (p, e, b, v) = determine_console_player-NthFree fuel own nodes w f in
    let h' : determine_console_player fuel minus_one (own ∷ nodes) ≡ some player =
      ap (λ (x : ℕ). determine_console_player fuel x (own ∷ nodes)) (sym w) ∙ h in
    let same : p ≡ player = cc in
    subst (NthFree (own ∷ nodes) 0 (count_if (is_auto_below own.addr) (own ∷ nodes))) same v

forced-player :
    (fuel : ℕ) (own : Peer) (nodes : List Peer) (player : ℕ)
    → 0 < own.setup.plnumwanted
    → own.setup.plnumwanted < 0x8000
    → determine_console_player fuel own.setup.plnumwanted (own ∷ nodes) ≡ some player
    → own.setup.plnumwanted ≡ player + 1
unfolding determine_console_player
forced-player fuel own nodes player l u h =
    let choice : (own.setup.plnumwanted == minus_one) ≡ false = ground arith in
    let h' : some (own.setup.plnumwanted - 1) ≡ some player = rw choice at h in
    let same : own.setup.plnumwanted - 1 ≡ player = cc in omega arith

-- Two that take their numbers: the one with the lower address has the smaller count.
auto-differ :
    (a b : Peer) (xs ys : List Peer) (player : ℕ)
    → SameNodes (a ∷ xs) (b ∷ ys)
    → a.setup.drone ≡ 0
    → a.setup.plnumwanted ≡ minus_one
    → memcmp_above b.addr a.addr ≡ true
    → NthFree (a ∷ xs) 0 (count_if (is_auto_below a.addr) (a ∷ xs)) player
    → ¬ NthFree (b ∷ ys) 0 (count_if (is_auto_below b.addr) (b ∷ ys)) player
auto-differ a b xs ys player s d w above v u = absurd (
    omega (
      arith,
      NthFree-unique (a ∷ xs) (b ∷ ys) _ _ player s v u,
      below-lt a b.addr xs d w above,
      s (is_auto_below b.addr),
    ))

-- A forced number is claimed, so that nobody takes it.
forced-differ :
    (a b : Peer) (xs ys : List Peer) (player cnt : ℕ)
    → SameNodes (a ∷ xs) (b ∷ ys)
    → a.setup.plnumwanted < 0x8000
    → a.setup.plnumwanted ≡ player + 1
    → ¬ NthFree (b ∷ ys) 0 cnt player
unfolding is_claimed claims
forced-differ a b xs ys player cnt s u e v =
    let same = is_claimed-same player (a ∷ xs) (b ∷ ys) s in
    let free = v.free in absurd (ground arith)

-- Two machines with different addresses hold tables of the same nodes, each its own entry first.
-- Each is no drone and takes its number, or has one by -player, and not both the same one. Then
-- DetermineConsolePlayer, with a round for each node, does not give both the same number.
pub determine_console_player-differ :
    (fuel : ℕ) (a b : Peer) (xs ys : List Peer) (player : ℕ)
    → SameNodes (a ∷ xs) (b ∷ ys)
    → length xs < fuel
    → length ys < fuel
    → same_bytes a.addr b.addr ≡ false
    → Chooses a
    → Chooses b
    → (a.setup.plnumwanted ≡ b.setup.plnumwanted → a.setup.plnumwanted ≡ minus_one)
    → determine_console_player fuel a.setup.plnumwanted (a ∷ xs) ≡ some player
    → determine_console_player fuel b.setup.plnumwanted (b ∷ ys) ≢ some player
determine_console_player-differ fuel a b xs ys player s fa fb ne (auto da wa) (auto db wb) free ea
      eb =
    let v = auto-NthFree fuel a xs player wa fa ea in
    let u = auto-NthFree fuel b ys player wb fb eb in
    let flip = memcmp_above-not a.addr b.addr ne in
    elim (Bool-cases (memcmp_above b.addr a.addr)) [
      | inl above ↦ auto-differ a b xs ys player s da wa above v u
      | inr below ↦ auto-differ b a ys xs player (λ f. sym (s f)) db wb (ground arith) u v
    ]
determine_console_player-differ fuel a b xs ys player s fa fb ne (auto da wa) (forced l r) free ea
      eb =
    forced-differ b a ys xs player _ (λ f. sym (s f)) r (forced-player fuel b ys player l r eb)
      (auto-NthFree fuel a xs player wa fa ea)
determine_console_player-differ fuel a b xs ys player s fa fb ne (forced l r) (auto db wb) free ea
      eb =
    forced-differ a b xs ys player _ s r (forced-player fuel a xs player l r ea)
      (auto-NthFree fuel b ys player wb fb eb)
determine_console_player-differ fuel a b xs ys player s fa fb ne (forced l r) (forced l' r') free ea
      eb =
    let x = forced-player fuel a xs player l r ea in
    let y = forced-player fuel b ys player l' r' eb in
    let z = free (x ∙ sym y) in absurd (omega arith)
