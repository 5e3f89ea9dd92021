-- ===== src/Sersetup/Frame.antt =====
-- The framing of packets: what WritePacket puts on the line, ReadPacket's rounds read back.
use vanilla_utilities.Base.{
  ℕ, ◌+◌, ◌*◌, ◌<◌, ◌≤◌, ◌≡◌, refl, ap, ◌∙◌, Bool, true, false, ◌==◌, ==_iff, arith, length, leb,
  List, [], ◌∷◌, ◌++◌, Option, none, some, if◌then◌else◌, Bool-cases, inl, inr, append_assoc,
  append-nil, length-append,
}
use vanilla_utilities.Sersetup.{Reader, encode, read_step, add_byte, frame_char}

-- The rounds of ReadPacket's loop on a stream of bytes: what follows a complete packet.
unfoldable pub feed : List ℕ → Reader → Option (List ℕ) × Reader
feed [] r = (none, r)
feed (c ∷ bytes) r =
    let (done, r') = read_step c r in
    let more = feed bytes r' in if done then (some bytes, r') else more

abbrev pub reading : List ℕ → Bool → Reader
reading packet newpacket = record { packet = packet; inescape = false; newpacket = newpacket }

-- A byte below the packet limit is added, whether it was escaped or not.
feed-plain :
    (c : ℕ) (bytes acc : List ℕ) (new : Bool)
    → (c == frame_char) ≡ false
    → length acc < 512
    → feed (c ∷ bytes) (reading acc new) ≡ feed bytes (reading (acc ++ c ∷ []) new)
unfolding feed read_step add_byte
feed-plain c bytes acc new e h =
    let fits : leb 512 (length acc) ≡ false = ground arith in rw (e, fits)

feed-escaped :
    (bytes acc : List ℕ) (new : Bool)
    → length acc < 512
    → feed (frame_char ∷ frame_char ∷ bytes) (reading acc new)
      ≡ feed bytes (reading (acc ++ frame_char ∷ []) new)
unfolding feed read_step add_byte
feed-escaped bytes acc new h = let fits : leb 512 (length acc) ≡ false = ground arith in rw fits

-- A packet framed by WritePacket's loop, with any bytes behind it, goes through the rounds of
-- ReadPacket's loop that has read `acc` so far, both together at most 512 bytes: the packet read
-- is complete, it is `acc` and the packet, and the bytes behind it are left.
pub feed-encode :
    (packet acc rest : List ℕ) (new : Bool)
    → length acc + length packet ≤ 512
    → feed (encode packet ++ rest) (reading acc new) ≡ (some rest, reading (acc ++ packet) true)
unfolding encode
feed-encode [] acc rest new h = rw append-nil (unfold feed read_step in refl)
feed-encode (c ∷ packet) acc rest new h =
    let room : length (acc ++ c ∷ []) + length packet ≤ 512 =
      omega (arith, length-append acc (c ∷ [])) in
    let later =
      feed-encode packet (acc ++ c ∷ []) rest new room
      ∙ ap (λ (l : List ℕ). (some rest, reading l true)) (append_assoc acc (c ∷ []) packet) in
    elim (Bool-cases (c == frame_char)) [
      | inl special ↦
          let e : c ≡ frame_char = (==_iff c frame_char).0 special in
          rw (special, e)
            (feed-escaped (encode packet ++ rest) acc new (omega arith) ∙ (rw e at later))
      | inr plain ↦
          rw plain (feed-plain c (encode packet ++ rest) acc new plain (omega arith) ∙ later)
    ]

-- A framed packet is at most twice as long as the packet and two bytes, the size of WritePacket's
-- buffer.
length-encode : (packet : List ℕ) → length (encode packet) ≤ 2 * length packet + 2
unfolding encode
length-encode [] = omega arith
length-encode (c ∷ packet) = ground (arith, length-encode packet)
