-- ===== src/Ctrl/Replay.antt =====
-- ctrl/replay.c: the tics of a demo file are played back.
pub mod Order
use vanilla_utilities.Base.{
  ℕ, zero, suc, ◌*◌, ◌^◌, ◌==◌, ltb, length, get_or, take, drop, if◌then◌else◌, Bool, true, false,
  ◌||◌, List, [], ◌∷◌,
}
use vanilla_utilities.Base.Int.{pos, int16}
use vanilla_utilities.Ctrl.Axis.{Ticcmd, int8}

abbrev pub ticbuf_size : Bool → ℕ
ticbuf_size is_strife = if is_strife then 6 else 4

abbrev pub header_size : Bool → ℕ
header_size is_strife = if is_strife then 16 else 13

-- What stands in `demo_stream` behind OpenDemo.
pub open_demo : Bool → List ℕ → List ℕ
open_demo is_strife file = drop (header_size is_strife) file

-- `ticbuf` in the tic.
pub set_tic : Bool → List ℕ → Ticcmd → Ticcmd
set_tic is_strife ticbuf t =
    let u : Ticcmd = record t {
      forwardmove = int8 (pos (get_or ticbuf 0 0));
      sidemove = int8 (pos (get_or ticbuf 1 0));
      angleturn = int16 (pos (get_or ticbuf 2 0 * 2 ^ 8));
      buttons = get_or ticbuf 3 0;
    } in
    if is_strife
    then record u { buttons2 = get_or ticbuf 4 0; inventoryitem = get_or ticbuf 5 0 }
    else u

-- ReplayCallback: the tic, and what is left in the stream.
pub replay_callback : Bool → List ℕ → Ticcmd → Ticcmd × List ℕ
replay_callback is_strife stream t =
    let ticbuf = take (ticbuf_size is_strife) stream in
    let rest = drop (ticbuf_size is_strife) stream in
    if ltb (length ticbuf) (ticbuf_size is_strife) || get_or ticbuf 0 0 == 0x80
    then (t, rest)
    else (set_tic is_strife ticbuf t, rest)

-- The callback on the tics of a game, one behind the other.
pub replay_all : Bool → List ℕ → List Ticcmd → List Ticcmd
replay_all is_strife stream [] = []
replay_all is_strife stream (t ∷ tics) =
    let (u, rest) = replay_callback is_strife stream t in u ∷ replay_all is_strife rest tics
