-- ===== src/Fragment.antt =====
-- adapters/fragment.c: packets too long for the driver below are sent in fragments, and put together
-- again. The driver's packets are lists; one that CheckLateDiscover takes is an arrival of its own.
pub mod Split
pub mod Gather
pub mod Assemble
mod Tests
use vanilla_utilities.Base.{
  ℕ, zero, suc, ◌+◌, ◌-◌, ◌*◌, ◌/◌, ◌%◌, ◌^◌, ltb, ◌==◌, length, get_or, set, take, drop,
  if◌then◌else◌, Bool, ◌&&◌, List, [], ◌∷◌, Option, none, some, bit_and, bit_or,
}

abbrev pub fragment_size : ℕ
fragment_size = 500

abbrev pub reassembly_buffers : ℕ
reassembly_buffers = 8

-- `struct fragment`, with the bytes of the payload that `datalength` covers.
pub record Fragment : Type 0 where
  pub seq : ℕ
  pub fragment : ℕ
  pub payload : List ℕ

-- `struct reassembled_packet`. A write behind the 2048 bytes of `bytes` is dropped here; the program
-- has no test for it.
pub record Buffer : Type 0 where
  pub remotenode : ℕ
  pub seq : ℕ
  pub received : ℕ
  pub datalength : ℕ
  pub bytes : List ℕ

abbrev pub no_buffer : Buffer
no_buffer = record { remotenode = 0; seq = 0; received = 0; datalength = 0; bytes = [] }

pub data Arrival : Type 0 where
  late_discover : Arrival
  fragment_from : ℕ → Fragment → Arrival

-- The first buffer, from index `i`, that passes a test.
unfoldable pub first_buffer : (Buffer → Bool) → ℕ → List Buffer → Option ℕ
first_buffer test i [] = none
first_buffer test i (b ∷ buffers) =
    let rest = first_buffer test (i + 1) buffers in if test b then some i else rest

-- What is left of FindOrAllocateBuffer where the search before it found none or one.
pub clear_buffer : Option ℕ → List Buffer → ℕ × List Buffer
clear_buffer none buffers =
    (0, set buffers 0 (record (get_or buffers 0 no_buffer) { received = 0 }))
clear_buffer (some i) buffers =
    (i, set buffers i (record (get_or buffers i no_buffer) { received = 0 }))

unfoldable pub or_clear : ℕ → Option ℕ → List Buffer → ℕ × List Buffer
or_clear node (some i) buffers = (i, buffers)
or_clear node none buffers =
    clear_buffer (first_buffer (λ b. b.remotenode == node) 0 buffers) buffers

unfoldable pub or_allocate : ℕ → Option ℕ → List Buffer → ℕ × List Buffer
or_allocate node (some i) buffers = (i, buffers)
or_allocate node none buffers =
    or_clear node (first_buffer (λ b. b.received == 0) 0 buffers) buffers

unfoldable pub find_or_allocate_buffer : ℕ → ℕ → List Buffer → ℕ × List Buffer
find_or_allocate_buffer node seq buffers =
    or_allocate node (first_buffer (λ b. b.remotenode == node && b.seq == seq) 0 buffers) buffers

-- `far_memcpy` to the place `at` of a buffer.
pub write_at : ℕ → List ℕ → List ℕ → List ℕ
write_at at [] bytes = bytes
write_at at (c ∷ payload) bytes = write_at (at + 1) payload (set bytes at c)

-- What a fragment does to the buffer that was found for it. `received` has 16 bits.
pub add_fragment : ℕ → Fragment → Buffer → Buffer
add_fragment node f b =
    let fnum = bit_and f.fragment 0x0f in
    let num_fragments = bit_and (f.fragment / 16) 0x0f in
    record {
      remotenode = node;
      seq = f.seq;
      received = bit_or b.received (2 ^ fnum) % 2 ^ 16;
      datalength =
          if fnum + 1 == num_fragments
          then (num_fragments - 1) * fragment_size + length f.payload
          else b.datalength;
      bytes = write_at (fnum * fragment_size) f.payload b.bytes;
    }

-- FragmentGetPacket's loop over what the driver has: the index of a complete packet.
pub fragment_get_packet : List Arrival → List Buffer → Option ℕ × List Arrival × List Buffer
fragment_get_packet [] buffers = (none, [], buffers)
fragment_get_packet (late_discover ∷ arrivals) buffers = fragment_get_packet arrivals buffers
fragment_get_packet (fragment_from node f ∷ arrivals) buffers =
    let (i, cleared) = find_or_allocate_buffer node f.seq buffers in
    let b = add_fragment node f (get_or cleared i no_buffer) in
    let rest = fragment_get_packet arrivals (set cleared i b) in
    if b.received + 1 == 2 ^ bit_and (f.fragment / 16) 0x0f
    then (some i, arrivals, set cleared i (record b { received = 0 }))
    else rest

-- FragmentSendPacket's loop: `k` rounds left, from fragment `i` of `num_fragments`.
pub send_loop : ℕ → ℕ → ℕ → ℕ → List ℕ → List Fragment
send_loop zero i num_fragments seq bytes = []
send_loop (suc k) i num_fragments seq bytes =
    record {
      seq = seq;
      fragment = bit_or (bit_and i 0xf) (num_fragments * 16) % 2 ^ 8;
      payload = take fragment_size bytes;
    }
    ∷ send_loop k (i + 1) num_fragments seq (drop fragment_size bytes)

-- FragmentSendPacket: what the driver is given to send, and the next `send_seq`, a byte.
pub fragment_send_packet : List ℕ → ℕ → List Fragment × ℕ
fragment_send_packet bytes send_seq =
    let num_fragments = (length bytes + fragment_size - 1) / fragment_size in
    (send_loop num_fragments 0 num_fragments send_seq bytes, (send_seq + 1) % 2 ^ 8)
