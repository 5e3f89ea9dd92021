-- ===== src/Aggr/Deliver.antt =====
-- What the aggregator brings to each node: nothing is lost, doubled or put out of order.
use vanilla_utilities.Base.{
  ℕ, ◌<◌, ◌==◌, ltb, if◌then◌else◌, Bool, true, false, ◌&&◌, List, [], ◌∷◌, ◌++◌, append-nil,
  append_assoc, ◌≡◌, refl, arith, ap, inl, inr, Bool-cases, ◌≢◌, ◌⊎◌, ◌∙◌,
}
use vanilla_utilities.Aggr.{Aggr, flush_pending_packets, aggregated_send_packet}
use vanilla_utilities.Aggr.Log.{Send, log_send, one_if, delivered, delivered-log_send}
use vanilla_utilities.Aggr.Store.{
  IsValid, waits, due, Stored, flush-due, try_broadcast_store-Stored,
}

-- A direct send keeps its place behind what is due, if nothing waits or it is for another node.
direct-due :
    (k node : ℕ) (packet : List ℕ) (a : Aggr) (log : List Send)
    → node < 16
    → (a.pending_count ≡ 0) ⊎ (k ≢ node)
    → 0 < k
    → due k a (log_send node packet log) ≡ due k a log ++ one_if (k == node) packet
direct-due k node packet a log hn (inl e) lk = ground (
  arith,
  delivered-log_send k node packet log,
  append-nil (delivered k log),
  append-nil (delivered k log ++ packet ∷ []),
)
direct-due k node packet a log hn (inr ne) lk = ground (
  arith,
  delivered-log_send k node packet log,
  append-nil (delivered k log),
  append-nil (delivered k log ++ one_if (waits k a) a.pending),
)

-- What a whole send does for node `k`.
abbrev Sent : ℕ → ℕ → List ℕ → Aggr → List Send → Aggr × List Send → Type 0
Sent k node packet a log (b, log') =
    IsValid b
    × (b.numnodes ≡ a.numnodes)
    × (due k b log' ≡ due k a log ++ one_if (k == node) packet)

Stored-Sent :
    (k node : ℕ) (packet : List ℕ) (a : Aggr) (log : List Send) (r : Bool × Aggr × List Send)
    → node < 16
    → 0 < k
    → Stored k node packet a log r
    → Sent k node packet a log (if r.0 then (r.1, r.2) else (r.1, log_send node packet r.2))
Stored-Sent k node packet a log (true, b, t) hn lk h = h
Stored-Sent k node packet a log (false, b, t) hn lk h = (
  h.0,
  h.1,
  direct-due k node packet b t hn (inl h.3) lk
      ∙ ap (λ (l : List (List ℕ)). l ++ one_if (k == node) packet) h.2,
)

-- One send: node `k` is due what it was due before, and the packet if it is for `k`.
send-due :
    (k node : ℕ) (packet : List ℕ) (a : Aggr) (log : List Send)
    → IsValid a
    → node < 16
    → 0 < k
    → k < a.numnodes
    → Sent k node packet a log (aggregated_send_packet log_send node packet a log)
unfolding aggregated_send_packet
send-due k node packet a log v hn lk hk = elim (Bool-cases (ltb 0 node && ltb node a.numnodes)) [
  | inl other ↦ rw other (
      Stored-Sent k node packet a log _ hn lk
        (try_broadcast_store-Stored k node packet a log v (ground arith) (ground arith) lk hk))
  | inr outside ↦ rw outside (v, refl, direct-due k node packet a log hn (inr (ground arith)) lk)
]

-- A history of sends, and the packets that it addresses to node `k`.
unfoldable pub send_all : List Send → Aggr → List Send → Aggr × List Send
send_all [] a log = (a, log)
send_all ((node, packet) ∷ ops) a log =
    let (b, log') = aggregated_send_packet log_send node packet a log in send_all ops b log'

abbrev pub addressed : ℕ → List Send → List (List ℕ)
addressed k [] = []
addressed k ((node, packet) ∷ ops) = one_if (k == node) packet ++ addressed k ops

abbrev pub ToNodes : List Send → Type 0
ToNodes [] = Unit {0}
ToNodes ((node, packet) ∷ ops) = (node < 16) × ToNodes ops

send_all-due :
    (k : ℕ) (ops : List Send) (a : Aggr) (log : List Send)
    → IsValid a
    → ToNodes ops
    → 0 < k
    → k < a.numnodes
    → let (b, log') = send_all ops a log in
      IsValid b × (due k b log' ≡ due k a log ++ addressed k ops)
unfolding send_all
send_all-due k [] a log v n lk hk = (v, rw append-nil)
send_all-due k ((node, packet) ∷ ops) a log v n lk hk =
    let (v', e, d) = send-due k node packet a log v n.0 lk hk in
    let (w, d') = send_all-due k ops _ _ v' n.1 lk (rw e hk) in
    (w, d' ∙ ap (λ (l : List (List ℕ)). l ++ addressed k ops) d ∙ append_assoc (due k a log) _ _)

-- From a valid state with nothing pending, send any packets to any nodes below 16, and flush: each
-- node `k` that broadcasts go to gets just the packets addressed to it, each once and in the order
-- of the sends.
pub send_all-flush :
    (k : ℕ) (ops : List Send) (a : Aggr)
    → IsValid a
    → a.pending_count ≡ 0
    → ToNodes ops
    → 0 < k
    → k < a.numnodes
    → let (b, log) = send_all ops a [] in
      delivered k (flush_pending_packets log_send b log).1 ≡ addressed k ops
send_all-flush k ops a v none_pending n lk hk =
    let (w, d) = send_all-due k ops a [] v n lk hk in flush-due k _ _ w ∙ d ∙ ground arith
