-- ===== src/Nodemap/Launch.antt =====
-- adapters/vcommit.c and adapters/vrottcom.c: the calls of a game that names its players from 1 on.
-- The game's `remotenode` is a word, with -1 as 65535.
pub mod Deliver
use vanilla_utilities.Base.{
  ℕ, zero, suc, ◌+◌, ◌-◌, ◌==◌, get_or, take, if◌then◌else◌, Bool, true, false, List, [], ◌∷◌, ◌++◌,
  map, Option, none, some,
}
use vanilla_utilities.Fragment.{
  Fragment, Buffer, no_buffer, Arrival, fragment_get_packet, fragment_send_packet,
}

-- `gamecom_t` or `rottcom_t`, with the bytes of `data` that `datalength` covers.
pub record Game : Type 0 where
  pub command : ℕ
  pub remotenode : ℕ
  pub bytes : List ℕ

-- The static variables of the program, nodemap.c and fragment.c, and what the driver below has and
-- was given to send.
pub record Adapter : Type 0 where
  pub game : Game
  pub numnodes : ℕ
  pub nodetoplayer : List ℕ
  pub playertonode : List ℕ
  pub send_seq : ℕ
  pub buffers : List Buffer
  pub arrivals : List Arrival
  pub sent : List (ℕ × Fragment)

abbrev pub minus_one : ℕ
minus_one = 65535

-- FragmentSendPacket of the game's data.
pub send_to : ℕ → Adapter → Adapter
send_to node s =
    let (fragments, seq) = fragment_send_packet s.game.bytes s.send_seq in
    record s { send_seq = seq; sent = s.sent ++ map (λ (f : Fragment). (node, f)) fragments }

-- The loops of COMMIT_CMD_SENDTOALL and COMMIT_CMD_SENDTOALLOTHERS: `k` rounds from node `i`.
pub send_loop : ℕ → ℕ → Adapter → Adapter
send_loop zero i s = s
send_loop (suc k) i s = send_loop k (i + 1) (send_to i s)

pub send : Adapter → Adapter
send s = send_to (get_or s.playertonode (s.game.remotenode - 1) 0) s

-- What CMD_GET makes of FragmentGetPacket's result.
pub give : Option ℕ → Adapter → Adapter
give none s = record s { game = record (s.game) { remotenode = minus_one } }
give (some i) s =
    let pkt = get_or s.buffers i no_buffer in
    record s {
      game = record (s.game) {
        remotenode = get_or s.nodetoplayer pkt.remotenode 0 + 1;
        bytes = take pkt.datalength pkt.bytes;
      };
    }

pub get : Adapter → Adapter
get s =
    let (result, arrivals, buffers) = fragment_get_packet s.arrivals s.buffers in
    give result (record s { arrivals = arrivals; buffers = buffers })

-- ExecuteCommand of vcommit.c.
pub commit_execute_command : Adapter → Adapter
commit_execute_command s =
    if s.game.command == 1
    then send s
    else if s.game.command == 2
    then get s
    else if s.game.command == 3
    then send_loop s.numnodes 0 s
    else if s.game.command == 4
    then send_loop (s.numnodes - 1) 1 s
    else s

-- ExecuteCommand of vrottcom.c.
pub rott_execute_command : Adapter → Adapter
rott_execute_command s =
    if s.game.command == 1 then send s else if s.game.command == 2 then get s else s
