-- ===== src/Sirsetup/Receive.antt =====
-- SerialByteReceived on a packet as it comes in from the line, byte by byte.
use vanilla_utilities.Base.{
  ℕ, ◌+◌, ◌≡◌, ◌≢◌, ◌<◌, ◌≤◌, refl, ap, sym, ◌∙◌, arith, ltb, ◌==◌, ==_iff, length, set,
  if◌then◌else◌, Bool, true, false, Bool-cases, inl, inr, List, [], ◌∷◌, ◌++◌, append-nil,
  append_assoc, length-append, length-set, get_or-set_self, get_or-set_ne, set-set, set-get_or,
}
use vanilla_utilities.Serport.{Port}
use vanilla_utilities.Sirsetup.{
  Sir, Packet, no_packet, packet_at, put_packet, next, frame_char, handoff_base, for_us, clear_head,
  packet_received, add_in_byte, after_escape, ends_packet, serial_byte_received,
}

-- The bytes of a packet with each frame character doubled, and the mark of a packet's end.
unfoldable pub framed : List ℕ → List ℕ
framed [] = frame_char ∷ 0 ∷ []
framed (c ∷ bytes) =
    let rest = framed bytes in if c == frame_char then frame_char ∷ frame_char ∷ rest else c ∷ rest

-- SerialByteReceived on one byte of the line after the other.
unfoldable pub receive_all : ℕ → List ℕ → Port → Sir → Port × Sir
receive_all now [] p s = (p, s)
receive_all now (c ∷ bytes) p s =
    let (stored, q, t) = serial_byte_received now c p s in receive_all now bytes q t

abbrev head_packet : Sir → Packet
head_packet s = packet_at s.inque s.inque.head

-- The state in which the packet at the head has the bytes `acc`, outside an escape.
abbrev holding : List ℕ → Sir → Sir
holding acc s = record s {
  inque = put_packet s.inque s.inque.head (record (head_packet s) { bytes = acc });
  in_escape = false;
}

holding_get :
    (acc : List ℕ) (s : Sir)
    → s.inque.head < length s.inque.packets
    → packet_at (holding acc s).inque s.inque.head ≡ record (head_packet s) { bytes = acc }
holding_get acc s h = get_or-set_self s.inque.packets s.inque.head _ no_packet h

add_in_byte-holding :
    (c : ℕ) (acc : List ℕ) (s : Sir)
    → s.inque.head < length s.inque.packets
    → length acc < 512
    → add_in_byte c (holding acc s) ≡ holding (acc ++ c ∷ []) s
unfolding add_in_byte
add_in_byte-holding c acc s h room =
    let fits : ltb (length acc) 512 ≡ true = ground arith in
    rw (holding_get acc s h, fits)
      (rw
        (set-set s.inque.packets s.inque.head (record (head_packet s) { bytes = acc })
          (record (head_packet s) { bytes = acc ++ c ∷ [] }))
        refl)

receive-plain :
    (now c : ℕ) (acc rest : List ℕ) (p : Port) (s : Sir)
    → s.inque.head < length s.inque.packets
    → length acc < 512
    → (c == frame_char) ≡ false
    → receive_all now (c ∷ rest) p (holding acc s)
      ≡ receive_all now rest p (holding (acc ++ c ∷ []) s)
unfolding receive_all serial_byte_received
receive-plain now c acc rest p s h room e = rw (e, add_in_byte-holding c acc s h room) refl

receive-doubled :
    (now : ℕ) (acc rest : List ℕ) (p : Port) (s : Sir)
    → s.inque.head < length s.inque.packets
    → s.doomcom.consoleplayer < 16
    → length acc < 512
    → receive_all now (frame_char ∷ frame_char ∷ rest) p (holding acc s)
      ≡ receive_all now rest p (holding (acc ++ frame_char ∷ []) s)
unfolding receive_all serial_byte_received after_escape
receive-doubled now acc rest p s h few room =
    let other : (frame_char == handoff_base + s.doomcom.consoleplayer) ≡ false = ground arith in
    rw (add_in_byte-holding frame_char acc s h room, other) refl

-- The end mark hands the packet on.
receive-end :
    (now : ℕ) (acc : List ℕ) (p : Port) (s : Sir)
    → receive_all now (frame_char ∷ 0 ∷ []) p (holding acc s)
      ≡ (p, (packet_received (holding acc s)).1)
unfolding receive_all serial_byte_received after_escape ends_packet
receive-end now acc p s =
    let t = (packet_received (holding acc s)).1 in
    let other : (0 == handoff_base + t.doomcom.consoleplayer) ≡ false = ground arith in
    rw other refl

receive_all-framed :
    (now : ℕ) (bytes acc : List ℕ) (p : Port) (s : Sir)
    → s.inque.head < length s.inque.packets
    → s.doomcom.consoleplayer < 16
    → length acc + length bytes ≤ 512
    → receive_all now (framed bytes) p (holding acc s)
      ≡ (p, (packet_received (holding (acc ++ bytes) s)).1)
unfolding framed
receive_all-framed now [] acc p s h few room = rw append-nil (receive-end now acc p s)
receive_all-framed now (c ∷ bytes) acc p s h few room =
    let size = length-append acc (c ∷ []) in
    let later =
      receive_all-framed now bytes (acc ++ c ∷ []) p s h few (omega arith)
      ∙ ap (λ (l : List ℕ). (p, (packet_received (holding l s)).1))
          (append_assoc acc (c ∷ []) bytes) in
    elim (Bool-cases (c == frame_char)) [
      | inl special ↦
          let e : c ≡ frame_char = (==_iff c frame_char).0 special in
          rw (special, e)
            (receive-doubled now acc (framed bytes) p s h few (omega arith) ∙ (rw e at later))
      | inr plain ↦
          rw plain (receive-plain now c acc (framed bytes) p s h (omega arith) plain ∙ later)
    ]

holding-start : (s : Sir) → s.in_escape ≡ false → (head_packet s).bytes ≡ [] → holding [] s ≡ s
holding-start s plain empty =
    let head : Packet = head_packet s in
    let same : record head { bytes = [] } ≡ head =
      ap (λ (l : List ℕ). record head { bytes = l }) (sym empty) in
    ap (λ (b : Bool). record (holding [] s) { in_escape = b }) (sym plain)
    ∙ ap (λ (k : Packet). record s { inque = put_packet s.inque s.inque.head k }) same
    ∙ ap (λ (l : List Packet). record s { inque = record (s.inque) { packets = l } })
        (set-get_or s.inque.packets s.inque.head no_packet)

-- PacketReceived on a good packet, with room behind it.
packet_received-stored :
    (j : ℕ) (bytes : List ℕ) (s : Sir)
    → s.inque.head < length s.inque.packets
    → for_us s.doomcom.consoleplayer bytes ≡ true
    → (next s.inque.head == s.inque.tail) ≡ false
    → j ≢ s.inque.head
    → j ≢ next s.inque.head
    → let t = (packet_received (holding bytes s)).1 in
      (packet_at t.inque s.inque.head ≡ record { bytes = bytes; valid = true })
      × (packet_at t.inque j ≡ packet_at s.inque j)
      × (t.inque.head ≡ next s.inque.head)
      × (t.inque.tail ≡ s.inque.tail)
unfolding packet_received clear_head
packet_received-stored j bytes s h good room ne ne' =
    let q = s.inque in
    let held : Packet = record (head_packet s) { bytes = bytes } in
    let moved : next q.head ≢ q.head = λ e. omega arith in
    let first = set q.packets q.head held in
    let second = set first q.head (record held { valid = true }) in
    rw (holding_get bytes s h, good, room)
      (
        get_or-set_ne second (next q.head) q.head no_packet no_packet moved
            ∙ get_or-set_self first q.head (record held { valid = true }) no_packet
                (rw (length-set q.packets q.head held) h),
        get_or-set_ne second (next q.head) j no_packet no_packet (λ e. ne' (sym e))
            ∙ get_or-set_ne first q.head j (record held { valid = true }) no_packet
                (λ e. ne (sym e))
            ∙ get_or-set_ne q.packets q.head j held no_packet (λ e. ne (sym e)),
        refl,
        refl,
      )

-- A packet for us, whose player number is below 16, of at most 512 bytes comes in with its frame
-- characters doubled and the end mark behind it, while the place at the head is empty, the queue
-- is not full and no escape is open. Then it is valid at that place, the head is one further, and
-- every place but these two is as before, as are the tail and the port.
pub receive_all-stored :
    (now j : ℕ) (bytes : List ℕ) (p : Port) (s : Sir)
    → s.inque.head < length s.inque.packets
    → s.doomcom.consoleplayer < 16
    → s.in_escape ≡ false
    → (packet_at s.inque s.inque.head).bytes ≡ []
    → length bytes ≤ 512
    → for_us s.doomcom.consoleplayer bytes ≡ true
    → (next s.inque.head == s.inque.tail) ≡ false
    → j ≢ s.inque.head
    → j ≢ next s.inque.head
    → let (q, t) = receive_all now (framed bytes) p s in
      (q ≡ p)
      × (packet_at t.inque s.inque.head ≡ record { bytes = bytes; valid = true })
      × (packet_at t.inque j ≡ packet_at s.inque j)
      × (t.inque.head ≡ next s.inque.head)
      × (t.inque.tail ≡ s.inque.tail)
receive_all-stored now j bytes p s h few plain empty fits good room ne ne' =
    let run =
      ap (receive_all now (framed bytes) p) (sym (holding-start s plain empty))
      ∙ receive_all-framed now bytes [] p s h few (omega arith) in
    let (stored, others, moved, kept) = packet_received-stored j bytes s h good room ne ne' in
    rw run (refl, stored, others, moved, kept)
