-- ===== src/Metanet/State/Laws.antt =====
-- What a send through a driver appends to the log.
use vanilla_utilities.Base.{
  ℕ, zero, suc, ◌<◌, ◌≡◌, refl, ap, length, get_or, set, List, [], ◌∷◌, ◌++◌, map, ◌∙◌, length-set,
  get_or-set_self,
}
use vanilla_utilities.Metanet.State.{
  Meta, Driver, Counter, Arrival, increment, no_driver, driver_at, put_driver, net_send_packet,
}

pub net_send_packet-put_driver :
    (i : ℕ) (d : Driver) (s : Meta)
    → i < length s.drivers
    → (net_send_packet i (put_driver s i d)).sent
      ≡ s.sent
        ++ record { driver = i; node = d.remotenode; size = d.datalength; frame = d.frame } ∷ []
unfolding net_send_packet
net_send_packet-put_driver i d s h = rw (get_or-set_self s.drivers i d no_driver h)

numnodes-set :
    (ds : List Driver) (i k : ℕ) (d : Driver)
    → d.numnodes ≡ (get_or ds i no_driver).numnodes
    → (get_or (set ds i d) k no_driver).numnodes ≡ (get_or ds k no_driver).numnodes
numnodes-set [] i k d e = refl
numnodes-set (x ∷ ds) zero zero d e = e
numnodes-set (x ∷ ds) zero (suc k) d e = refl
numnodes-set (x ∷ ds) (suc i) zero d e = refl
numnodes-set (x ∷ ds) (suc i) (suc k) d e = numnodes-set ds i k d e

-- A driver that is written back with the same number of nodes leaves all these numbers.
pub numnodes-put_driver :
    (s : Meta) (i k : ℕ) (d : Driver)
    → d.numnodes ≡ (driver_at s i).numnodes
    → (driver_at (put_driver s i d) k).numnodes ≡ (driver_at s k).numnodes
numnodes-put_driver s i k d e = numnodes-set s.drivers i k d e

abbrev pub inboxes : Meta → List (List Arrival)
inboxes s = map (λ (d : Driver). d.inbox) s.drivers

-- What sending leaves alone: the table, our own doomcom and the packets that wait.
pub record Quiet (s t : Meta) : Type 0 where
  pub nodes : t.nodes ≡ s.nodes
  pub doomcom : t.doomcom ≡ s.doomcom
  pub forwarder : t.forwarder ≡ s.forwarder
  pub count : length t.drivers ≡ length s.drivers
  pub inbox : inboxes t ≡ inboxes s

pub Quiet-refl : (s : Meta) → Quiet s s
Quiet-refl s = record { nodes = refl; doomcom = refl; forwarder = refl; count = refl; inbox = refl }

pub Quiet-trans : {s t u : Meta} → Quiet s t → Quiet t u → Quiet s u
Quiet-trans p q = record {
  nodes = q.nodes ∙ p.nodes;
  doomcom = q.doomcom ∙ p.doomcom;
  forwarder = q.forwarder ∙ p.forwarder;
  count = q.count ∙ p.count;
  inbox = q.inbox ∙ p.inbox;
}

pub Quiet-increment : (c : Counter) (s : Meta) → Quiet s (increment c s)
Quiet-increment c s = record {
  nodes = refl;
  doomcom = refl;
  forwarder = refl;
  count = refl;
  inbox = refl;
}

pub Quiet-net_send_packet : (i : ℕ) (s : Meta) → Quiet s (net_send_packet i s)
unfolding net_send_packet
Quiet-net_send_packet i s = record {
  nodes = refl;
  doomcom = refl;
  forwarder = refl;
  count = refl;
  inbox = refl;
}

inboxes-set :
    (ds : List Driver) (i : ℕ) (d : Driver)
    → d.inbox ≡ (get_or ds i no_driver).inbox
    → map (λ (d : Driver). d.inbox) (set ds i d) ≡ map (λ (d : Driver). d.inbox) ds
inboxes-set [] i d e = refl
inboxes-set (x ∷ ds) zero d e = ap (λ (l : List Arrival). l ∷ map (λ (d : Driver). d.inbox) ds) e
inboxes-set (x ∷ ds) (suc i) d e = ap (◌∷◌ x.inbox) (inboxes-set ds i d e)

-- A driver's buffer is written.
pub Quiet-put_driver :
    (i : ℕ) (d : Driver) (s : Meta) → d.inbox ≡ (driver_at s i).inbox → Quiet s (put_driver s i d)
Quiet-put_driver i d s e = record {
  nodes = refl;
  doomcom = refl;
  forwarder = refl;
  count = length-set s.drivers i d;
  inbox = inboxes-set s.drivers i d e;
}
