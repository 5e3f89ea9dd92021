-- ===== src/Sersetup.antt =====
-- net/sersetup.c: the byte queues, the framing of packets on the serial line, and the calls from Doom.
-- The byte counters `head` and `tail` do not wrap here: a `long` lasts for 2^31 bytes.
-- The counters of net/pktstats.h are left out.
pub mod Queue
pub mod Frame
pub mod Read
pub mod Stream
pub mod Modem
mod Tests
use vanilla_utilities.Base.{
  ℕ, zero, suc, ◌+◌, ◌-◌, ◌*◌, ◌%◌, ltb, leb, ◌==◌, length, get_or, set, if◌then◌else◌, Bool, true,
  false, not, ◌&&◌, ◌||◌, List, [], ◌∷◌, ◌++◌, Option, none, some,
}
use vanilla_utilities.Serport.{Port, resume_receive, jump_start}

abbrev pub que_size : ℕ
que_size = 2048

abbrev pub tx_buffer_len : ℕ
tx_buffer_len = 16

abbrev pub max_packet : ℕ
max_packet = 512

abbrev pub frame_char : ℕ
frame_char = 0x70

-- `que_t`: bytes are put on at `head` and taken from `tail`.
pub record Que : Type 0 where
  pub head : ℕ
  pub tail : ℕ
  pub bytes : List ℕ

-- `q.data[q.head & (QUESIZE - 1)] = c; q.head++;`
pub put_byte : ℕ → Que → Que
put_byte c q = record q { bytes = set q.bytes (q.head % que_size) c; head = q.head + 1 }

pub serial_byte_received : ℕ → Que → Bool × Que
serial_byte_received c q =
    if (q.head + 1) % que_size == q.tail % que_size then (false, q) else (true, put_byte c q)

-- As the port calls it: it does not touch the port.
pub byte_received : ℕ → Port → Que → Bool × Port × Que
byte_received c p q = let (stored, r) = serial_byte_received c q in (stored, p, r)

-- SerialMoreTXData: `k` rounds left of 16.
pub more_loop : ℕ → Que → List ℕ × Que
more_loop zero q = ([], q)
more_loop (suc k) q =
    let (bytes, r) = more_loop k (record q { tail = q.tail + 1 }) in
    if ltb q.tail q.head then (get_or q.bytes (q.tail % que_size) 0 ∷ bytes, r) else ([], q)

pub serial_more_tx_data : Que → List ℕ × Que
serial_more_tx_data q = more_loop tx_buffer_len q

-- ReadByte; `none` is -1. The port may take up what it held back.
pub read_byte : Port → Que → Option ℕ × Port × Que
read_byte p q =
    if leb q.head q.tail
    then (none, p, q)
    else (let (p', q') = resume_receive byte_received p (record q { tail = q.tail + 1 }) in
        (some (get_or q.bytes (q.tail % que_size) 0), p', q'))

-- WriteBuffer's loop.
pub put_bytes : List ℕ → Que → Que
put_bytes [] q = q
put_bytes (c ∷ bytes) q = put_bytes bytes (put_byte c q)

-- If the bytes would overrun the buffer, all others are thrown out.
pub make_room : ℕ → Que → Que
make_room count q = if ltb que_size (q.head - q.tail + count) then record q { tail = q.head } else q

pub write_buffer : List ℕ → Port → Que → Port × Que
write_buffer bytes p q =
    jump_start serial_more_tx_data p (put_bytes bytes (make_room (length bytes) q))

-- WritePacket's loop and the end of the packet.
pub encode : List ℕ → List ℕ
encode [] = frame_char ∷ 0 ∷ []
encode (c ∷ bytes) =
    let rest = encode bytes in if c == frame_char then frame_char ∷ c ∷ rest else c ∷ rest

pub write_packet : List ℕ → Port → Que → Port × Que
write_packet bytes p q =
    if ltb max_packet (length bytes) then (p, q) else write_buffer (encode bytes) p q

-- The variables of ReadPacket: `packet` is the first `packetlen` bytes of the buffer.
pub record Reader : Type 0 where
  pub packet : List ℕ
  pub inescape : Bool
  pub newpacket : Bool

-- The end of the loop's body: one more byte of the packet, if it fits.
pub add_byte : ℕ → Reader → Reader
add_byte c r =
    if leb max_packet (length r.packet) then r else record r { packet = r.packet ++ c ∷ [] }

-- One round of ReadPacket's loop: is the packet complete?
pub read_step : ℕ → Reader → Bool × Reader
read_step c r =
    if r.inescape
    then (if c == frame_char
        then (false, add_byte c (record r { inescape = false }))
        else (true, record r { inescape = false; newpacket = true }))
    else if c == frame_char
    then (false, record r { inescape = true })
    else (false, add_byte c r)

-- A round of ReadPacket's loop behind ReadByte; `next` is what follows it.
pub after_read :
    (Port → Que → Reader → Option (Bool × Port × Que × Reader))
    → Reader
    → Option ℕ × Port × Que
    → Option (Bool × Port × Que × Reader)
after_read next r (none, p, q) = some (false, p, q, r)
after_read next r (some c, p, q) =
    let (done, r') = read_step c r in
    let more = next p q r' in if done then some (true, p, q, r') else more

-- ReadPacket's loop on fuel; `none` means that the fuel ran out.
pub read_loop : ℕ → Port → Que → Reader → Option (Bool × Port × Que × Reader)
read_loop zero p q r = none
read_loop (suc fuel) p q r = after_read (read_loop fuel) r (read_byte p q)

-- ReadPacket: if the buffer has overflowed, everything is thrown out.
pub read_packet : ℕ → Port → Que → Reader → Option (Bool × Port × Que × Reader)
read_packet fuel p q r =
    if ltb (que_size - 4) (q.head - q.tail)
    then some (false, p, record q { tail = q.head }, record r { newpacket = true })
    else read_loop fuel p q (if r.newpacket then record r { packet = []; newpacket = false } else r)

-- Our `doomcom_t`; `remotenode` is `none` for -1.
pub record Doomcom : Type 0 where
  pub remotenode : Option ℕ
  pub datalength : ℕ
  pub bytes : List ℕ

-- NetCallback on CMD_GET, with what ReadPacket returned.
pub get_packet : Bool → Reader → Doomcom → Doomcom
get_packet got r dc =
    if got && leb (length r.packet) 512
    then record { remotenode = some 1; datalength = length r.packet; bytes = r.packet }
    else record dc { remotenode = none }
