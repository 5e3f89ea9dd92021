-- ===== src/Nodemap/Launch/Deliver.antt =====
-- A packet from one machine's game to another's, through adapters/fragment.c.
use vanilla_utilities.Base.{
  ℕ, ◌+◌, ◌-◌, ◌<◌, ◌≤◌, ◌≡◌, refl, sym, ap, ◌∙◌, arith, length, get_or, List, ◌++◌, map, Option,
}
use vanilla_utilities.Fragment.{
  Fragment, Buffer, Arrival, fragment_get_packet, fragment_send_packet,
}
use vanilla_utilities.Fragment.Assemble.{
  IsFree, Assembled, arrivals_of, fragment_get_packet-Assembled,
}
use vanilla_utilities.Nodemap.Launch.{
  Adapter, send_to, send, give, get, commit_execute_command, rott_execute_command,
}

-- Players count from 1: player `b` of machine `s` is node `to`, where the game sends the packet.
pub record IsSending (to b : ℕ) (s : Adapter) : Type 0 where
  pub command : s.game.command ≡ 1
  pub addressee : s.game.remotenode ≡ b + 1
  pub node : get_or s.playertonode b 0 ≡ to
  pub some_bytes : 0 < length s.game.bytes
  pub few_bytes : length s.game.bytes ≤ 2000

-- Node `from` of machine `t` is player `a`, and a packet of it finds a free buffer.
pub record IsGetting (from a seq i : ℕ) (t : Adapter) : Type 0 where
  pub command : t.game.command ≡ 2
  pub player : get_or t.nodetoplayer from 0 ≡ a
  pub free : IsFree from seq i t.buffers

-- What the driver has behind: the fragments, as they come from a node.
abbrev pub with_arrivals : List Arrival → Adapter → Adapter
with_arrivals arrivals t = record t { arrivals = arrivals }

give-Assembled :
    (node i a : ℕ) (packet : List ℕ) (t : Adapter) (r : Option ℕ × List Arrival × List Buffer)
    → Assembled node i packet r
    → get_or t.nodetoplayer node 0 ≡ a
    → let u : Adapter = give r.0 (record t { arrivals = r.1; buffers = r.2 }) in
      (u.game.remotenode ≡ a + 1) × (u.game.bytes ≡ packet)
unfolding give
give-Assembled node i a packet t r v h =
    rw v.result
      (ap (λ (n : ℕ). get_or t.nodetoplayer n 0 + 1) v.sender ∙ ap (λ (n : ℕ). n + 1) h, v.content)

command_get :
    (u : Adapter)
    → u.game.command ≡ 2
    → (commit_execute_command u ≡ get u) × (rott_execute_command u ≡ get u)
unfolding commit_execute_command rott_execute_command
command_get u h = (rw h refl, rw h refl)

get-give :
    (t : Adapter) (arrivals : List Arrival)
    → get (with_arrivals arrivals t) ≡ (
        let r = fragment_get_packet arrivals t.buffers in
        give r.0 (record t { arrivals = r.1; buffers = r.2 }))
unfolding get
get-give t arrivals = refl

-- A game sends 1 to 2000 bytes to player `b`, whose node is `to`. COMMIT_CMD_SEND, which is
-- CMD_SEND of the ROTT driver, gives the driver fragments for node `to`. Where these come to
-- another machine as the next from node `from`, player `a`, and find a free buffer, its
-- COMMIT_CMD_GET, which is CMD_GET, returns the bytes as coming from the game's player `a + 1`.
pub get-send :
    (to from a b i : ℕ) (s t : Adapter)
    → IsSending to b s
    → IsGetting from a s.send_seq i t
    → (fragments : List Fragment) × ((commit_execute_command s).sent
        ≡ s.sent ++ map (λ (f : Fragment). (to, f)) fragments)
      × (rott_execute_command s ≡ commit_execute_command s)
      × (let u = commit_execute_command (with_arrivals (arrivals_of from fragments) t) in
          (u.game.remotenode ≡ a + 1) × (u.game.bytes ≡ s.game.bytes))
      × (rott_execute_command (with_arrivals (arrivals_of from fragments) t)
          ≡ commit_execute_command (with_arrivals (arrivals_of from fragments) t))
unfolding commit_execute_command rott_execute_command send send_to
get-send to from a b i s t v w =
    let fragments = (fragment_send_packet s.game.bytes s.send_seq).0 in
    let back : b + 1 - 1 ≡ b = omega arith in
    let (c, c') = command_get (with_arrivals (arrivals_of from fragments) t) w.command in
    let done =
      fragment_get_packet-Assembled from s.send_seq i s.game.bytes t.buffers v.some_bytes
        v.few_bytes w.free in
    (
      fragments,
      rw (v.command, v.addressee, back, v.node) refl,
      rw v.command refl,
      rw (c, get-give t (arrivals_of from fragments))
          (give-Assembled from i a s.game.bytes t _ done w.player),
      c' ∙ sym c,
    )
