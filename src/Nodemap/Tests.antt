-- ===== src/Nodemap/Tests.antt =====
-- Two machines: node 1 is player 0, and this one player 1.
use vanilla_utilities.Base.{
  ℕ, zero, suc, ◌-◌, ◌<◌, ◌≤◌, ◌≡◌, refl, arith, length-replicate, get_or, replicate, true, List,
  [], ◌∷◌, ◌++◌, map, none, some,
}
use vanilla_utilities.Base.Words.{same_bytes}
use vanilla_utilities.Fragment.{
  Fragment, no_buffer, find_or_allocate_buffer, first_buffer, or_allocate, or_clear,
}
use vanilla_utilities.Fragment.Assemble.{arrivals_of, IsFree}
use vanilla_utilities.Nodemap.{
  Doomcom, Round, Discovery, has_magic_string, is_discover, discover_players, check_late_discover,
}
use vanilla_utilities.Nodemap.Maps.{ArePlayers, IsHonest, AreHonest}
use vanilla_utilities.Nodemap.Ends.{Hears, here, there, discover_players-maps}
use vanilla_utilities.Nodemap.Launch.{Adapter, commit_execute_command, rott_execute_command}
use vanilla_utilities.Nodemap.Launch.Deliver.{IsSending, IsGetting, with_arrivals, get-send}

abbrev player : ℕ → ℕ
player n = 1 - n

player-ArePlayers : ArePlayers player 2
player-ArePlayers = record {
  few = omega arith;
  below = λ n h. omega arith;
  distinct = λ n m h k e. omega arith;
}

abbrev own : Doomcom
own = record { consoleplayer = 1; numnodes = 2; remotenode = 0; bytes = []; sent = [] }

abbrev announced : List ℕ
announced = b'V' ∷ b'~' ∷ b'U' ∷ b'T' ∷ b'i' ∷ b'L' ∷ b'S' ∷ b'!' ∷ 0 ∷ 0 ∷ []

abbrev rounds : List Round
rounds = record { now = 5; arrival = none } ∷ record { now = 9; arrival = some (1, announced) } ∷ []

rounds-AreHonest : AreHonest player 2 rounds
unfolding AreHonest IsHonest
rounds-AreHonest = (tt, (λ h. (omega arith, refl), tt))

announced_is : is_discover announced ≡ true
unfolding is_discover has_magic_string same_bytes
announced_is = refl

first_heard : Hears 1 rounds
first_heard = there (record { now = 5; arrival = none }) (here 9 announced announced_is)

rounds_heard : (n : ℕ) → 1 ≤ n → n < 2 → Hears n rounds
rounds_heard zero h k = absurd (omega arith)
rounds_heard (suc zero) h k = first_heard
rounds_heard (suc (suc n)) h k = absurd (omega arith)

discover_players-maps_example :
    (e : Discovery) × (discover_players 4 rounds own (replicate 16 0) (replicate 16 0) ≡ some e)
    × ((n : ℕ)
        → n < 2
        → (get_or e.nodetoplayer n 0 ≡ player n) × (get_or e.playertonode (player n) 0 ≡ n))
discover_players-maps_example =
    discover_players-maps player 4 rounds own (replicate 16 0) (replicate 16 0) player-ArePlayers
      (omega arith) refl refl refl rounds-AreHonest rounds_heard

-- A late packet is answered.
answered : (check_late_discover (record own { remotenode = 1; bytes = announced })).0 ≡ true
unfolding check_late_discover has_magic_string same_bytes
answered = refl

-- The game of player 0 sends to player 1, which is game player 2.
abbrev sender : Adapter
sender = record {
  game = record { command = 1; remotenode = 2; bytes = replicate 700 5 };
  numnodes = 2;
  nodetoplayer = 0 ∷ 1 ∷ [];
  playertonode = 0 ∷ 1 ∷ [];
  send_seq = 1;
  buffers = [];
  arrivals = [];
  sent = [];
}

abbrev getter : Adapter
getter = record {
  game = record { command = 2; remotenode = 0; bytes = [] };
  numnodes = 2;
  nodetoplayer = 1 ∷ 0 ∷ [];
  playertonode = 1 ∷ 0 ∷ [];
  send_seq = 0;
  buffers = record no_buffer { bytes = replicate 2048 0 } ∷ [];
  arrivals = [];
  sent = [];
}

sender-IsSending : IsSending 1 1 sender
sender-IsSending = record {
  command = refl;
  addressee = refl;
  node = refl;
  some_bytes = rw (length-replicate {A = ℕ} 700 5) (omega arith);
  few_bytes = rw (length-replicate {A = ℕ} 700 5) (omega arith);
}

getter-IsFree : IsFree 1 1 0 getter.buffers
unfolding find_or_allocate_buffer first_buffer or_allocate or_clear
getter-IsFree = record {
  index = omega arith;
  found = refl;
  received = refl;
  room = length-replicate {A = ℕ} 2048 0;
}

getter-IsGetting : IsGetting 1 0 1 0 getter
getter-IsGetting = record { command = refl; player = refl; free = getter-IsFree }

get-send_example :
    (fragments : List Fragment) × ((commit_execute_command sender).sent
      ≡ [] ++ map (λ (f : Fragment). (1, f)) fragments)
    × (rott_execute_command sender ≡ commit_execute_command sender)
    × (let u = commit_execute_command (with_arrivals (arrivals_of 1 fragments) getter) in
        (u.game.remotenode ≡ 1) × (u.game.bytes ≡ sender.game.bytes))
    × (rott_execute_command (with_arrivals (arrivals_of 1 fragments) getter)
        ≡ commit_execute_command (with_arrivals (arrivals_of 1 fragments) getter))
get-send_example = get-send 1 1 0 1 0 sender getter sender-IsSending getter-IsGetting
