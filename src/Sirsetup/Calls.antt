-- ===== src/Sirsetup/Calls.antt =====
-- net/sirsetup.c: the calls from Doom (NetCallback). What Doom left in the shared buffer, the node and
-- the bytes to send, are arguments.
use vanilla_utilities.Base.{ℕ, List}
use vanilla_utilities.Serport.{Port}
use vanilla_utilities.Aggr.{Aggr, flush_pending_packets, aggregated_send_packet}
use vanilla_utilities.Sirsetup.{Sir, send_packet, get_packet, check_timeout}

pub data Call : Type 0 where
  call_send : ℕ → List ℕ → Call
  call_get : Call

-- SendPacket, as pktaggr.c calls it.
abbrev send_now : ℕ → List ℕ → Port × Sir → Port × Sir
send_now node bytes (p, s) = send_packet node bytes p s

-- GetPacket behind FlushPendingPackets.
pub get_after_flush : ℕ → Aggr × (Port × Sir) → Aggr × (Port × Sir)
get_after_flush now (a, (p, s)) = (a, get_packet now p s)

pub net_callback : ℕ → ℕ → Call → Aggr → Port → Sir → Aggr × (Port × Sir)
net_callback expiry now (call_send node bytes) a p s =
    aggregated_send_packet send_now node bytes a (check_timeout expiry now p s)
net_callback expiry now call_get a p s =
    get_after_flush now (flush_pending_packets send_now a (p, s))
