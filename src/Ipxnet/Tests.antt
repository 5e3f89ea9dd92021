-- ===== src/Ipxnet/Tests.antt =====
-- Packets that wait.
use vanilla_utilities.Base.{ℕ, ◌≡◌, ◌∷◌, refl, List, [], false}
use vanilla_utilities.Ipxnet.{
  Slot, got, no_slot, is_better, best_loop, take_slot, get_slot, ipx_get_packet, short_swap,
}
use vanilla_utilities.Ipxnet.Earliest.{Earliest, ipx_get_packet-Earliest}

abbrev waiting : ℕ → Slot
waiting time = record no_slot {
  in_use_flag = false;
  packet = record { packet_length = 0; src = []; time = time; payload = [] };
}

abbrev slots : List Slot
slots = waiting 7 ∷ no_slot ∷ waiting 5 ∷ waiting 0xffffffff ∷ waiting 0xffffffff ∷ []

-- A setup packet, of time -1, comes before the others, the first one first.
slots_earliest : ipx_get_packet (no_slot ∷ slots) ≡ got 4
unfolding ipx_get_packet best_loop is_better take_slot get_slot
slots_earliest = refl

swapped : short_swap 0x1234 ≡ 0x3412
unfolding short_swap
swapped = refl

ipx_get_packet-Earliest_example : Earliest slots (ipx_get_packet (no_slot ∷ slots))
ipx_get_packet-Earliest_example = ipx_get_packet-Earliest no_slot slots
