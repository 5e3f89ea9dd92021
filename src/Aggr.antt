-- ===== src/Aggr.antt =====
-- net/pktaggr.c, the packet aggregator that metanet and sirsetup put under Doom's sends: a run of
-- identical packets to nodes 1, 2, …, numnodes - 1 goes out as one broadcast.
-- The callback `aggr_sendpkt` is the section's parameter `send`, over the caller's state `S`.
pub mod Log
pub mod Store
pub mod Deliver
mod Tests
use vanilla_utilities.Base.{
  ℕ, zero, suc, ◌+◌, ◌-◌, ◌==◌, ltb, length, if◌then◌else◌, Bool, true, false, not, ◌&&◌, ◌||◌,
  List, [], ◌∷◌,
}
use vanilla_utilities.Base.Words.{same_bytes}

abbrev pub max_net_nodes : ℕ
max_net_nodes = 16

abbrev pub pending_buffer_max : ℕ
pending_buffer_max = 512

-- The static variables. `pending` is the first `pending_buffer_len` bytes of `pending_buffer`.
pub record Aggr : Type 0 where
  pub numnodes : ℕ
  pub pending : List ℕ
  pub pending_count : ℕ

pub init_aggregation : Aggr → ℕ → Aggr
init_aggregation a numnodes = record a { numnodes = numnodes }

module _ {S : Type 0} (send : ℕ → List ℕ → S → S) where
  -- The loop of FlushPendingPackets: `k` rounds left, from round `i`.
  flush_loop : ℕ → ℕ → List ℕ → S → S
  flush_loop zero i buf s = s
  flush_loop (suc k) i buf s = flush_loop k (i + 1) buf (send (i + 1) buf s)

  pub flush_pending_packets : Aggr → S → Aggr × S
  flush_pending_packets a s =
      (record a { pending_count = 0 }, flush_loop a.pending_count 0 a.pending s)

  -- The end of TryBroadcastStore: one more packet of the sequence has come.
  count_stored : Aggr → S → Bool × Aggr × S
  count_stored a s =
      if a.pending_count + 1 == a.numnodes - 1
      then (true, record a { pending_count = 0 }, send max_net_nodes a.pending s)
      else (true, record a { pending_count = a.pending_count + 1 }, s)

  pub try_broadcast_store : ℕ → List ℕ → Aggr → S → Bool × Aggr × S
  try_broadcast_store node packet a s =
      let (b, t) = flush_pending_packets a s in
      if node == 1
      then (if ltb pending_buffer_max (length packet)
          then (false, b, t)
          else count_stored (record b { pending = packet; pending_count = 0 }) t)
      else if not (node == a.pending_count + 1) || not (same_bytes a.pending packet)
      then (false, b, t)
      else count_stored a s

  pub aggregated_send_packet : ℕ → List ℕ → Aggr → S → Aggr × S
  aggregated_send_packet node packet a s =
      if ltb 0 node && ltb node a.numnodes
      then (let (stored, b, t) = try_broadcast_store node packet a s in
          if stored then (b, t) else (b, send node packet t))
      else (a, send node packet s)
