-- ===== src/Fragment/Assemble.antt =====
-- FragmentGetPacket puts the fragments of a packet together.
use vanilla_utilities.Base.{
  ℕ, zero, suc, ◌+◌, ◌-◌, ◌*◌, ◌/◌, ◌^◌, ◌<◌, ◌≤◌, ◌≡◌, ◌==◌, ◌⊎◌, inl, inr, refl, ap, subst, ◌∙◌,
  arith, length, take, drop, get_or, set, length-take, length-drop, take-append-drop, take-all,
  get_or-set_self, true, false, Option-cases, if◌then◌else◌, List, [], ◌∷◌, ◌++◌, append_assoc, map,
  Option, none, some, bit_and,
}
use vanilla_utilities.Fragment.{
  Fragment, Buffer, no_buffer, Arrival, fragment_from, first_buffer, or_allocate,
  find_or_allocate_buffer, add_fragment, fragment_get_packet, send_loop, fragment_send_packet,
}
use vanilla_utilities.Fragment.Gather.{
  code_lem, is_of, Gathers, Added, part, Gathers-Added, Gathers-next,
}

-- The packet of `node` is in buffer `i`, which is free again, and nothing is left.
pub record Assembled (node i : ℕ) (packet : List ℕ) (r : Option ℕ × List Arrival × List Buffer)
    : Type 0 where
  pub buffers : List Buffer
  pub result : r ≡ (some i, [], buffers)
  pub content :
      take (get_or buffers i no_buffer).datalength (get_or buffers i no_buffer).bytes ≡ packet
  pub free : (get_or buffers i no_buffer).received ≡ 0
  pub sender : (get_or buffers i no_buffer).remotenode ≡ node

power_lem : (j n : ℕ) → j + 1 < n → n ≤ 4 → (2 ^ (j + 1) == 2 ^ n) ≡ false
power_lem zero (suc (suc zero)) h k = refl
power_lem zero (suc (suc (suc zero))) h k = refl
power_lem zero (suc (suc (suc (suc zero)))) h k = refl
power_lem (suc zero) (suc (suc (suc zero))) h k = refl
power_lem (suc zero) (suc (suc (suc (suc zero)))) h k = refl
power_lem (suc (suc zero)) (suc (suc (suc (suc zero)))) h k = refl
power_lem j n h k = absurd (omega arith)

same_power : (a : ℕ) → (a == a) ≡ true
same_power a = ground arith

-- A round of the loop with the buffer that it finds.
round :
    ℕ → Fragment → ℕ → Buffer → List Arrival → List Buffer → Option ℕ × List Arrival × List Buffer
round node f i b arrivals buffers =
    if b.received + 1 == 2 ^ bit_and (f.fragment / 16) 0x0f
    then (some i, arrivals, set buffers i (record b { received = 0 }))
    else fragment_get_packet arrivals (set buffers i b)

fragment_get_packet-round :
    (node i : ℕ) (f : Fragment) (arrivals : List Arrival) (buffers : List Buffer)
    → find_or_allocate_buffer node f.seq buffers ≡ (i, buffers)
    → fragment_get_packet (fragment_from node f ∷ arrivals) buffers
      ≡ round node f i (add_fragment node f (get_or buffers i no_buffer)) arrivals buffers
unfolding fragment_get_packet round
fragment_get_packet-round node i f arrivals buffers h = rw h refl

round-last :
    (node seq i j : ℕ) (done payload : List ℕ) (buffers : List Buffer) (b : Buffer)
    → Gathers node seq i j done buffers
    → Added node seq i j (j + 1) done payload buffers b
    → j + 1 ≤ 4
    → Assembled node i (done ++ payload) (round node (part j (j + 1) seq payload) i b [] buffers)
unfolding round
round-last node seq i j done payload buffers b g a h =
    let (num, all) = code_lem j (j + 1) (omega arith) h in
    let here = get_or-set_self buffers i (record b { received = 0 }) no_buffer g.index in
    rw (all, a.received, same_power (2 ^ (j + 1)))
      (record {
        buffers = set buffers i (record b { received = 0 });
        result = refl;
        content = rw (here, a.size refl) (a.front);
        free = ap (λ (c : Buffer). c.received) here;
        sender = ap (λ (c : Buffer). c.remotenode) here ∙ a.is_node;
      })

round-more :
    (node seq i j n : ℕ) (done payload : List ℕ) (arrivals : List Arrival) (buffers : List Buffer)
    (b : Buffer)
    → Added node seq i j n done payload buffers b
    → j + 1 < n
    → n ≤ 4
    → round node (part j n seq payload) i b arrivals buffers
      ≡ fragment_get_packet arrivals (set buffers i b)
unfolding round
round-more node seq i j n done payload arrivals buffers b a h k =
    let (num, all) = code_lem j n (omega arith) k in rw (all, a.received, power_lem j n h k) refl

abbrev pub arrivals_of : ℕ → List Fragment → List Arrival
arrivals_of node = map (fragment_from node)

assemble :
    (k j n node seq i : ℕ) (rest done : List ℕ) (buffers : List Buffer)
    → n ≡ j + suc k
    → n ≤ 4
    → length rest ≤ suc k * 500
    → k * 500 < length rest
    → Gathers node seq i j done buffers
    → Assembled node i
        (done ++ rest)
        (fragment_get_packet (arrivals_of node (send_loop (suc k) j n seq rest)) buffers)
unfolding send_loop
assemble zero j n node seq i rest done buffers e h l m g =
    let last : n ≡ j + 1 = omega arith in
    let whole = take-all 500 rest (omega arith) in
    let a =
      Gathers-Added node seq i j (j + 1) done rest buffers g (omega arith) (omega arith)
        (omega arith) in
    rw (last, whole)
      (rw (fragment_get_packet-round node i (part j (j + 1) seq rest) [] buffers g.found)
        (round-last node seq i j done rest buffers _ g a (omega arith)))
assemble (suc k) j n node seq i rest done buffers e h l m g =
    let front = take 500 rest in
    let size : length front ≡ 500 = length-take 500 rest ∙ omega arith in
    let behind = length-drop 500 rest in
    let a = Gathers-Added node seq i j n done front buffers g (omega arith) h (omega arith) in
    let b = add_fragment node (part j n seq front) (get_or buffers i no_buffer) in
    let r =
      assemble k (j + 1) n node seq i (drop 500 rest) (done ++ front) (set buffers i b)
        (omega arith) h (omega arith) (omega arith)
        (Gathers-next node seq i j n done front buffers b g a size) in
    let later = arrivals_of node (send_loop (suc k) (j + 1) n seq (drop 500 rest)) in
    let together : (done ++ front) ++ drop 500 rest ≡ done ++ rest =
      append_assoc done front (drop 500 rest)
      ∙ ap (λ (x : List ℕ). done ++ x) (take-append-drop 500 rest) in
    rw
      (
        fragment_get_packet-round node i (part j n seq front) later buffers g.found,
        round-more node seq i j n done front later buffers b a (omega arith) h,
      )
      (subst (λ (p : List ℕ). Assembled node i p (fragment_get_packet later (set buffers i b)))
        together r)

-- A fragment of the packet finds buffer `i`, which is free.
pub record IsFree (node seq i : ℕ) (buffers : List Buffer) : Type 0 where
  pub index : i < length buffers
  pub found : find_or_allocate_buffer node seq buffers ≡ (i, buffers)
  pub received : (get_or buffers i no_buffer).received ≡ 0
  pub room : length (get_or buffers i no_buffer).bytes ≡ 2048

first-found :
    (node seq i : ℕ) (buffers : List Buffer)
    → find_or_allocate_buffer node seq buffers ≡ (i, buffers)
    → (first_buffer (is_of node seq) 0 buffers ≡ some i)
      ⊎ (first_buffer (is_of node seq) 0 buffers ≡ none)
unfolding find_or_allocate_buffer or_allocate
first-found node seq i buffers h = elim (Option-cases (first_buffer (is_of node seq) 0 buffers)) [
  | inl e ↦ inr e
  | inr (k, e) ↦
      let h' : (k, buffers) ≡ (i, buffers) = rw e at h in
      inl (e ∙ ap some (ap (λ (p : ℕ × List Buffer). p.0) h'))
]

-- The fragments that FragmentSendPacket sends of a packet of 1 to 2000 bytes come in one after the
-- other, and find a buffer of 2048 bytes that is free: FragmentGetPacket returns that buffer,
-- which holds just the packet in its first `datalength` bytes and is free again, and has taken all
-- the fragments.
pub fragment_get_packet-Assembled :
    (node send_seq i : ℕ) (packet : List ℕ) (buffers : List Buffer)
    → 0 < length packet
    → length packet ≤ 2000
    → IsFree node send_seq i buffers
    → Assembled node i packet
        (fragment_get_packet (arrivals_of node (fragment_send_packet packet send_seq).0) buffers)
unfolding fragment_send_packet
fragment_get_packet-Assembled node send_seq i packet buffers h l v =
    let k = (length packet - 1) / 500 in
    let rounds : (length packet + 500 - 1) / 500 ≡ suc k = omega arith in
    rw rounds (
      assemble k 0 (suc k) node send_seq i packet [] buffers (omega arith) (omega arith)
        (omega arith) (omega arith)
        (record {
          index = v.index;
          first = first-found node send_seq i buffers v.found;
          found = v.found;
          received = v.received;
          room = v.room;
          front = refl;
        }))
