-- ===== src/Aggr/Log.antt =====
-- The aggregator over a log of what it hands to its callback, and what the log brings to a node.
use vanilla_utilities.Base.{
  ℕ, ◌==◌, if◌then◌else◌, Bool, ◌||◌, List, [], ◌∷◌, ◌++◌, append-nil, append_assoc, ◌≡◌, refl,
}

abbrev pub Send : Type 0
Send = ℕ × List ℕ

abbrev pub log_send : ℕ → List ℕ → List Send → List Send
log_send node packet log = log ++ (node, packet) ∷ []

-- Does a send to `dest` reach node `k`? Destination 16 is the broadcast.
abbrev pub reaches : ℕ → ℕ → Bool
reaches k dest = dest == k || dest == 16

abbrev pub one_if : Bool → List ℕ → List (List ℕ)
one_if b packet = if b then packet ∷ [] else []

-- The packets that the sends of a log bring to node `k`, in order.
abbrev pub delivered : ℕ → List Send → List (List ℕ)
delivered k [] = []
delivered k ((dest, packet) ∷ log) = one_if (reaches k dest) packet ++ delivered k log

pub delivered-append :
    (k : ℕ) (xs ys : List Send) → delivered k (xs ++ ys) ≡ delivered k xs ++ delivered k ys
delivered-append k [] ys = refl
delivered-append k ((dest, packet) ∷ xs) ys =
    rw (delivered-append k xs ys, append_assoc (one_if (reaches k dest) packet)) refl

pub delivered-log_send :
    (k node : ℕ) (packet : List ℕ) (log : List Send)
    → delivered k (log_send node packet log) ≡ delivered k log ++ one_if (reaches k node) packet
delivered-log_send k node packet log =
    rw (delivered-append k log ((node, packet) ∷ []), append-nil) refl
