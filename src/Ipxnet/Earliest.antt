-- ===== src/Ipxnet/Earliest.antt =====
-- IPXGetPacket returns the waiting packet with the least time.
use vanilla_utilities.Base.{
  ℕ, zero, suc, ◌+◌, ◌<◌, ◌≡◌, ◌≢◌, refl, arith, get_or, true, false, ◌==◌, Bool-cases, inl, inr,
  List, [], ◌∷◌, Option, none, some,
}
use vanilla_utilities.Base.Words.{lt32}
use vanilla_utilities.Ipxnet.{
  Slot, Got, no_packet, outside, bad_completion, got, get_slot, no_slot, long_max, is_better,
  best_loop, take_slot, ipx_get_packet,
}

-- The slot at `i` holds a packet.
abbrev pub IsReady : List Slot → ℕ → Type 0
IsReady slots i = (get_or slots i no_slot).in_use_flag ≡ false

abbrev pub time_at : List Slot → ℕ → ℕ
time_at slots i = (get_or slots i no_slot).packet.time

-- No packet has an earlier time than `t`.
abbrev pub NoneBefore : List Slot → ℕ → Type 0
NoneBefore slots t = (i : ℕ) → IsReady slots i → lt32 (time_at slots i) t ≡ false

-- `j` is the first of the slots with a packet of the least time.
pub record IsFirst (slots : List Slot) (j : ℕ) : Type 0 where
  pub ready : IsReady slots j
  pub least : NoneBefore slots (time_at slots j)
  pub later : (i : ℕ) → i < j → IsReady slots i → lt32 (time_at slots j) (time_at slots i) ≡ true

-- What the loop finds among the slots: nothing better than `best`, or the first of the best.
data Scan (slots : List Slot) (i best : ℕ) (num : Option ℕ) : ℕ × Option ℕ → Type 0 where
  kept : (r : ℕ × Option ℕ) → r ≡ (best, num) → NoneBefore slots best → Scan slots i best num r
  found :
      (r : ℕ × Option ℕ) (j : ℕ)
      → r ≡ (time_at slots j, some (i + j))
      → lt32 (time_at slots j) best ≡ true
      → IsFirst slots j
      → Scan slots i best num r

NoneBefore-cons :
    (s : Slot) (slots : List Slot) (t : ℕ)
    → (s.in_use_flag ≡ false → lt32 s.packet.time t ≡ false)
    → NoneBefore slots t
    → NoneBefore (s ∷ slots) t
NoneBefore-cons s slots t h k zero r = h r
NoneBefore-cons s slots t h k (suc i) r = k i r

IsFirst-cons :
    (s : Slot) (slots : List Slot) (j : ℕ)
    → (s.in_use_flag ≡ false → lt32 (time_at slots j) s.packet.time ≡ true)
    → IsFirst slots j
    → IsFirst (s ∷ slots) (suc j)
IsFirst-cons s slots j h v = record {
  ready = v.ready;
  least = NoneBefore-cons s slots (time_at slots j) (λ r. let e = h r in ground (arith, e)) v.least;
  later = first_later;
}
  where
    first_later :
        (i : ℕ)
        → i < suc j
        → IsReady (s ∷ slots) i
        → lt32 (time_at slots j) (time_at (s ∷ slots) i) ≡ true
    first_later zero l r = h r
    first_later (suc i) l r = v.later i (omega arith) r

IsFirst-head :
    (s : Slot) (slots : List Slot)
    → s.in_use_flag ≡ false
    → NoneBefore slots s.packet.time
    → IsFirst (s ∷ slots) 0
IsFirst-head s slots r h = record {
  ready = r;
  least = NoneBefore-cons s slots s.packet.time (λ e. ground arith) h;
  later = λ i l. absurd (omega arith);
}

Scan-better :
    (s : Slot) (slots : List Slot) (i best : ℕ) (num : Option ℕ) (r : ℕ × Option ℕ)
    → s.in_use_flag ≡ false
    → lt32 s.packet.time best ≡ true
    → Scan slots (i + 1) s.packet.time (some i) r
    → Scan (s ∷ slots) i best num r
Scan-better s slots i best num r ready less (kept _ e h) =
    let here : i + 0 ≡ i = omega arith in found r 0 (rw here e) less (IsFirst-head s slots ready h)
Scan-better s slots i best num r ready less (found _ j e below v) =
    let there : i + suc j ≡ (i + 1) + j = omega arith in
    found r (suc j) (rw there e) (ground arith) (IsFirst-cons s slots j (λ q. below) v)

Scan-worse :
    (s : Slot) (slots : List Slot) (i best : ℕ) (num : Option ℕ) (r : ℕ × Option ℕ)
    → (s.in_use_flag ≡ false → lt32 s.packet.time best ≡ false)
    → Scan slots (i + 1) best num r
    → Scan (s ∷ slots) i best num r
Scan-worse s slots i best num r worse (kept _ e h) = kept r e (NoneBefore-cons s slots best worse h)
Scan-worse s slots i best num r worse (found _ j e below v) =
    let there : i + suc j ≡ (i + 1) + j = omega arith in
    found r (suc j) (rw there e) below
      (IsFirst-cons s slots j (λ q. let w = worse q in ground (arith, w)) v)

best_loop-Scan :
    (slots : List Slot) (i best : ℕ) (num : Option ℕ)
    → Scan slots i best num (best_loop slots i best num)
unfolding best_loop
best_loop-Scan [] i best num = kept _ refl (λ j r. absurd (cc))
best_loop-Scan (s ∷ slots) i best num = elim (Bool-cases (is_better s best)) [
  | inl yes_better ↦ rw yes_better (
      Scan-better s slots i best num _ (unfold is_better in ground arith)
        (unfold is_better in ground arith) (best_loop-Scan slots (i + 1) s.packet.time (some i)))
  | inr no_better ↦ rw no_better (
      Scan-worse s slots i best num _ (λ r. unfold is_better in ground arith)
        (best_loop-Scan slots (i + 1) best num))
]

-- A packet behind the sending slot, with a time below LONG_MAX; never `ecbs[-1]`.
abbrev pub Earliest : List Slot → Got → Type 0
Earliest slots no_packet = NoneBefore slots long_max
Earliest slots outside = false ≡ true
Earliest slots (got n) =
    (j : ℕ) × (n ≡ suc j)
    × (lt32 (time_at slots j) long_max ≡ true)
    × IsFirst slots j
    × ((get_or slots j no_slot).completion_code ≡ 0)
Earliest slots (bad_completion n) =
    (j : ℕ) × (n ≡ suc j)
    × (lt32 (time_at slots j) long_max ≡ true)
    × IsFirst slots j
    × ((get_or slots j no_slot).completion_code ≢ 0)

take_slot-Earliest :
    (first : Slot) (slots : List Slot) (r : ℕ × Option ℕ)
    → Scan slots 1 long_max none r
    → Earliest slots (take_slot (first ∷ slots) r)
unfolding take_slot get_slot
take_slot-Earliest first slots r (kept _ e h) = rw e h
take_slot-Earliest first slots r (found _ j e below v) =
    let behind : 1 + j ≡ suc j = omega arith in
    let some_time : (time_at slots j == long_max) ≡ false = ground arith in
    elim (Bool-cases ((get_or slots j no_slot).completion_code == 0)) [
      | inl good ↦ rw (e, behind, some_time, good) (j, refl, below, v, ground arith)
      | inr bad ↦ rw (e, behind, some_time, bad) (j, refl, below, v, λ z. ground arith)
    ]

-- IPXGetPacket gives the first of the waiting packets with the least time, which is below
-- LONG_MAX, or an Error just if its completion code is not zero. It gives none just if no packet
-- waits with a time below LONG_MAX, and it never reads `ecbs[-1]`.
pub ipx_get_packet-Earliest :
    (sending : Slot) (slots : List Slot) → Earliest slots (ipx_get_packet (sending ∷ slots))
unfolding ipx_get_packet
ipx_get_packet-Earliest sending slots =
    take_slot-Earliest sending slots _ (best_loop-Scan slots 1 long_max none)
