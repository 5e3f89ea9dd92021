-- ===== src/Fragment/Tests.antt =====
-- Packets sent in fragments, and put together again.
use vanilla_utilities.Base.{ℕ, ◌≡◌, refl, arith, length-replicate, List, [], ◌∷◌, replicate, some}
use vanilla_utilities.Fragment.{
  Buffer, no_buffer, fragment_from, first_buffer, clear_buffer, or_clear, or_allocate,
  find_or_allocate_buffer, write_at, add_fragment, fragment_get_packet, fragment_send_packet,
}
use vanilla_utilities.Fragment.Assemble.{
  IsFree, Assembled, arrivals_of, fragment_get_packet-Assembled,
}

-- One fragment completes a short packet.
received_short :
    (fragment_get_packet
      (fragment_from 1 (record { seq = 4; fragment = 16; payload = 7 ∷ 8 ∷ [] }) ∷ [])
      (record no_buffer { bytes = replicate 3 0 } ∷ [])).0
    ≡ some 0
unfolding fragment_get_packet first_buffer clear_buffer or_clear or_allocate find_or_allocate_buffer
    write_at add_fragment
received_short = refl

abbrev buffers : List Buffer
buffers = record no_buffer { bytes = replicate 2048 0 } ∷ []

-- The second packet from machine 1.
buffers-IsFree : IsFree 1 1 0 buffers
unfolding find_or_allocate_buffer first_buffer or_allocate or_clear
buffers-IsFree = record {
  index = omega arith;
  found = refl;
  received = refl;
  room = length-replicate {A = ℕ} 2048 0;
}

fragment_get_packet-Assembled_example :
    Assembled 1 0
      (replicate 700 5)
      (fragment_get_packet (arrivals_of 1 (fragment_send_packet (replicate 700 5) 1).0) buffers)
fragment_get_packet-Assembled_example =
    fragment_get_packet-Assembled 1 1 0 (replicate 700 5) buffers
      (rw (length-replicate {A = ℕ} 700 5) (omega arith))
      (rw (length-replicate {A = ℕ} 700 5) (omega arith)) buffers-IsFree
