-- ===== src/Sersetup/Read.antt =====
-- ReadPacket on the input queue: it finds the packet that WritePacket framed.
use vanilla_utilities.Base.{
  ℕ, zero, suc, ◌+◌, ◌-◌, ◌%◌, ◌<◌, ◌≤◌, ◌≡◌, refl, ap, subst, ◌∙◌, Bool, true, false, arith,
  length, leb, ltb, get_or, List, [], ◌∷◌, ◌++◌, Option, none, some, Bool-cases, inl, inr,
}
use vanilla_utilities.Serport.{Port, resume_receive}
use vanilla_utilities.Sersetup.{
  Que, Reader, que_size, encode, read_step, read_byte, after_read, read_loop, read_packet,
}
use vanilla_utilities.Sersetup.Queue.{
  window, contents, length-window, IsQue, contents-pop, pop-IsQue,
}
use vanilla_utilities.Sersetup.Frame.{feed, reading, feed-encode}

abbrev completed : Option (List ℕ) → Bool
completed none = false
completed (some rest) = true

abbrev left_of : Option (List ℕ) → List ℕ
left_of none = []
left_of (some rest) = rest

-- The loop has read the stream `l` as `feed` does, and left what `feed` leaves.
abbrev Reads : Port → Option (List ℕ) × Reader → Option (Bool × Port × Que × Reader) → Type 0
Reads p (o, r') res =
    (q' : Que) × IsQue q' × (res ≡ some (completed o, p, q', r')) × (contents q' ≡ left_of o)

read_byte-empty : (p : Port) (q : Que) → q.head ≤ q.tail → read_byte p q ≡ (none, p, q)
unfolding read_byte
read_byte-empty p q h = let empty : leb q.head q.tail ≡ true = ground arith in rw empty

-- While the port receives, there is nothing for it to take up again.
read_byte-next :
    (p : Port) (q : Que)
    → p.receiving ≡ true
    → q.tail < q.head
    → read_byte p q
      ≡ (some (get_or q.bytes (q.tail % que_size) 0), p, record q { tail = q.tail + 1 })
unfolding read_byte resume_receive
read_byte-next p q on h = let more : leb q.head q.tail ≡ false = ground arith in rw (more, on)

after_read-Reads :
    (next : Port → Que → Reader → Option (Bool × Port × Que × Reader)) (p : Port) (q : Que)
    (r : Reader) (c : ℕ)
    → IsQue q
    → ((r' : Reader) → Reads p (feed (contents q) r') (next p q r'))
    → Reads p (feed (c ∷ contents q) r) (after_read next r (some c, p, q))
unfolding after_read feed
after_read-Reads next p q r c v more = elim (Bool-cases (read_step c r).0) [
  | inl done ↦ rw done (q, v, refl, refl)
  | inr open_packet ↦ rw open_packet (more (read_step c r).1)
]

read_loop-Reads :
    (fuel : ℕ) (p : Port) (q : Que) (r : Reader)
    → IsQue q
    → p.receiving ≡ true
    → q.head - q.tail < fuel
    → Reads p (feed (contents q) r) (read_loop fuel p q r)
unfolding read_loop
read_loop-Reads zero p q r v on h = absurd (omega arith)
read_loop-Reads (suc fuel) p q r v on h = elim (Bool-cases (ltb q.tail q.head)) [
  | inl more ↦
      let lt : q.tail < q.head = ground arith in
      rw (read_byte-next p q on lt, contents-pop q lt)
        (after_read-Reads (read_loop fuel) p (record q { tail = q.tail + 1 }) r _ (pop-IsQue q v lt)
          (λ r'.
            read_loop-Reads fuel p (record q { tail = q.tail + 1 }) r' (pop-IsQue q v lt) on
              (omega arith)))
  | inr empty ↦
      let le : q.head ≤ q.tail = ground arith in
      let none_left : q.head - q.tail ≡ 0 = omega arith in
      rw (read_byte-empty p q le, none_left)
        (unfold after_read feed in (q, v, refl, ap (window q.bytes q.tail) none_left))
]

-- A packet of at most 512 bytes that WritePacket framed is in front of a valid queue of at most
-- 2044 bytes, the port receives, and ReadPacket is at the start of a packet. Then ReadPacket, with
-- more rounds of fuel than bytes wait, returns that packet, takes just its bytes off the queue,
-- and is again at the start of a packet.
pub read_packet-encode :
    (fuel : ℕ) (packet rest : List ℕ) (p : Port) (q : Que) (r : Reader)
    → IsQue q
    → p.receiving ≡ true
    → r.inescape ≡ false
    → r.newpacket ≡ true
    → length packet ≤ 512
    → contents q ≡ encode packet ++ rest
    → length (contents q) ≤ 2044
    → length (contents q) < fuel
    → (q' : Que) × IsQue q'
      × (read_packet fuel p q r ≡ some (true, p, q', reading packet true))
      × (contents q' ≡ rest)
unfolding read_packet
read_packet-encode fuel packet rest p q r v on plain new fits e small h =
    let size = length-window q.bytes q.tail (q.head - q.tail) in
    let calm : ltb (que_size - 4) (q.head - q.tail) ≡ false = ground arith in
    let start : Reader = record { packet = []; inescape = r.inescape; newpacket = false } in
    let fresh : start ≡ reading [] false =
      ap (λ (b : Bool). record { packet = []; inescape = b; newpacket = false }) plain in
    let stream =
      ap (λ (l : List ℕ). feed l start) e
      ∙ ap (feed (encode packet ++ rest)) fresh
      ∙ feed-encode packet [] rest false (omega arith) in
    let (q', v', done, left) =
      subst (λ (o : Option (List ℕ) × Reader). Reads p o (read_loop fuel p q start)) stream
        (read_loop-Reads fuel p q start v on (omega arith)) in
    (q', v', rw (calm, new) done, left)
