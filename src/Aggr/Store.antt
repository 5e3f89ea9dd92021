-- ===== src/Aggr/Store.antt =====
-- The buffering half of a send (TryBroadcastStore): what becomes due to each node.
use vanilla_utilities.Base.{
  ℕ, zero, suc, ◌+◌, ◌≤◌, ◌<◌, ◌==◌, ltb, leb, length, Bool, true, false, not, ◌&&◌, ◌||◌, List, [],
  ◌∷◌, ◌++◌, append-nil, append_assoc, ◌≡◌, refl, arith, ap, inl, inr, Bool-cases, ◌⊎◌, ◌∙◌,
}
use vanilla_utilities.Aggr.{
  Aggr, flush_loop, flush_pending_packets, count_stored, try_broadcast_store,
}
use vanilla_utilities.Base.Words.{same_bytes, same_bytes-eq}
use vanilla_utilities.Aggr.Log.{Send, log_send, reaches, one_if, delivered, delivered-log_send}

-- Node `k` is one of the nodes that a packet waits for.
abbrev pub waits : ℕ → Aggr → Bool
waits k a = ltb 0 k && leb k a.pending_count

-- The packets that node `k` has got, or will get when the pending packet is flushed.
abbrev pub due : ℕ → Aggr → List Send → List (List ℕ)
due k a log = delivered k log ++ one_if (waits k a) a.pending

-- At most 16 nodes, and a pending packet never waits for all the other nodes.
pub record IsValid (a : Aggr) : Type 0 where
  pub few : a.numnodes ≤ 16
  pub partial : (a.pending_count ≡ 0) ⊎ (a.pending_count + 1 < a.numnodes)

-- Round `i` of the flush reaches node `i + 1`, the rounds after it the nodes above.
one_if-round :
    (k n i : ℕ) (buf : List ℕ)
    → i < 15
    → one_if (reaches k (i + 1)) buf ++ one_if (ltb (i + 1) k && leb k (n + (i + 1))) buf
      ≡ one_if (ltb i k && leb k (suc n + i)) buf
one_if-round k n i buf h = ground arith

flush_loop-delivered :
    (k n i : ℕ) (buf : List ℕ) (log : List Send)
    → n + i < 16
    → delivered k (flush_loop log_send n i buf log)
      ≡ delivered k log ++ one_if (ltb i k && leb k (n + i)) buf
unfolding flush_loop
flush_loop-delivered k zero i buf log h = ground (arith, append-nil (delivered k log))
flush_loop-delivered k (suc n) i buf log h =
    flush_loop-delivered k n (i + 1) buf (log_send (i + 1) buf log) (omega arith)
    ∙ rw (delivered-log_send k (i + 1) buf log, append_assoc (delivered k log))
        (ap (◌++◌ (delivered k log)) (one_if-round k n i buf (omega arith)))

-- A flush brings every node what is due to it.
pub flush-due :
    (k : ℕ) (a : Aggr) (log : List Send)
    → IsValid a
    → delivered k (flush_pending_packets log_send a log).1 ≡ due k a log
unfolding flush_pending_packets
flush-due k a log v =
    flush_loop-delivered k a.pending_count 0 a.pending log (ground arith) ∙ ground arith

-- Counting a packet that is stored already makes it due to the next node.
count_stored-due :
    (k : ℕ) (a : Aggr) (log : List Send)
    → a.pending_count + 1 < a.numnodes
    → a.numnodes ≤ 16
    → 0 < k
    → k < a.numnodes
    → let (stored, b, log') = count_stored log_send a log in
      (stored ≡ true)
      × IsValid b
      × (b.numnodes ≡ a.numnodes)
      × (due k b log' ≡ due k a log ++ one_if (k == a.pending_count + 1) a.pending)
unfolding count_stored
count_stored-due k a log h few lo hi = ground (
  arith,
  delivered-log_send k 16 a.pending log,
  append-nil (delivered k log),
  append-nil (delivered k log ++ a.pending ∷ []),
)

-- The buffered half of a send: either the packet is due to its node when it returns, or it has
-- flushed, so that a direct send stays in order.
abbrev pub Stored : ℕ → ℕ → List ℕ → Aggr → List Send → Bool × Aggr × List Send → Type 0
Stored k node packet a log (true, b, log') =
    IsValid b
    × (b.numnodes ≡ a.numnodes)
    × (due k b log' ≡ due k a log ++ one_if (k == node) packet)
Stored k node packet a log (false, b, log') =
    IsValid b × (b.numnodes ≡ a.numnodes) × (due k b log' ≡ due k a log) × (b.pending_count ≡ 0)

-- A flush alone, and a flush before a new sequence is started.
flush-Stored :
    (k node : ℕ) (packet : List ℕ) (a : Aggr) (log : List Send)
    → IsValid a
    → 0 < k
    → let (b, log') = flush_pending_packets log_send a log in
      Stored k node packet a log (false, b, log')
unfolding flush_pending_packets
flush-Stored k node packet a log v lk = (
  record { few = v.few; partial = inl refl },
  refl,
  ground (
    arith,
    flush-due k a log v,
    append-nil (delivered k (flush_pending_packets log_send a log).1),
  ),
  refl,
)

start_sequence-due :
    (k : ℕ) (packet : List ℕ) (a : Aggr) (log : List Send)
    → IsValid a
    → 0 < k
    → let (b, log') = flush_pending_packets log_send a log in
      (b.numnodes ≡ a.numnodes)
      × (due k (record b { pending = packet; pending_count = 0 }) log' ≡ due k a log)
unfolding flush_pending_packets
start_sequence-due k packet a log v lk = (
  refl,
  ground (
    arith,
    flush-due k a log v,
    append-nil (delivered k (flush_pending_packets log_send a log).1),
  ),
)

count_stored-Stored :
    (k node : ℕ) (packet : List ℕ) (a0 a : Aggr) (log0 log : List Send)
    → node ≡ a.pending_count + 1
    → packet ≡ a.pending
    → a.numnodes ≡ a0.numnodes
    → due k a log ≡ due k a0 log0
    → node < a0.numnodes
    → a0.numnodes ≤ 16
    → 0 < k
    → k < a0.numnodes
    → Stored k node packet a0 log0 (count_stored log_send a log)
count_stored-Stored k node packet a0 a log0 log en ep em ed h few lk hk =
    ground (arith, count_stored-due k a log (omega arith) (omega arith) lk (omega arith))

pub try_broadcast_store-Stored :
    (k node : ℕ) (packet : List ℕ) (a : Aggr) (log : List Send)
    → IsValid a
    → 0 < node
    → node < a.numnodes
    → 0 < k
    → k < a.numnodes
    → Stored k node packet a log (try_broadcast_store log_send node packet a log)
unfolding try_broadcast_store
try_broadcast_store-Stored k node packet a log v ln hn lk hk = elim (Bool-cases (node == 1)) [
  | inl first ↦ elim (Bool-cases (ltb 512 (length packet))) [
    | inl long ↦ rw (first, long) (flush-Stored k node packet a log v lk)
    | inr fits ↦
        rw (first, fits)
          (let (same, e) = start_sequence-due k packet a log v lk in
            count_stored-Stored k node packet a _ log _ (ground arith) refl same e hn v.few lk hk)
  ]
  | inr later ↦
      elim (Bool-cases (not (node == a.pending_count + 1) || not (same_bytes a.pending packet))) [
        | inl breaks ↦ rw (later, breaks) (flush-Stored k node packet a log v lk)
        | inr goes_on ↦
            rw (later, goes_on)
              (count_stored-Stored k node packet a a log log (ground arith)
                (ground (arith, same_bytes-eq a.pending packet)) refl refl hn v.few lk hk)
      ]
]
