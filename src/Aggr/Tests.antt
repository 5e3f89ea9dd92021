-- ===== src/Aggr/Tests.antt =====
-- Runs of the aggregator at concrete inputs.
use vanilla_utilities.Base.{List, [], ◌∷◌, ◌≡◌, refl, inl, arith}
use vanilla_utilities.Aggr.{
  Aggr, flush_loop, flush_pending_packets, count_stored, try_broadcast_store,
  aggregated_send_packet,
}
use vanilla_utilities.Base.Words.{same_bytes}
use vanilla_utilities.Aggr.Log.{Send, log_send, delivered}
use vanilla_utilities.Aggr.Store.{IsValid}
use vanilla_utilities.Aggr.Deliver.{send_all, send_all-flush}

abbrev start : Aggr
start = record { numnodes = 3; pending = []; pending_count = 0 }

start-IsValid : IsValid start
start-IsValid = record { few = omega arith; partial = inl refl }

-- Two equal packets make a broadcast; a third, different one waits.
abbrev history : List Send
history = (1, 7 ∷ []) ∷ (2, 7 ∷ []) ∷ (1, 8 ∷ []) ∷ []

history_log : (send_all history start []).1 ≡ (16, 7 ∷ []) ∷ []
unfolding send_all aggregated_send_packet try_broadcast_store flush_pending_packets flush_loop
    count_stored same_bytes
history_log = refl

send_all-flush_example :
    let (b, log) = send_all history start [] in
    delivered 1 (flush_pending_packets log_send b log).1 ≡ (7 ∷ []) ∷ (8 ∷ []) ∷ []
send_all-flush_example =
    send_all-flush 1 history start start-IsValid refl (omega arith) (omega arith) (omega arith)
