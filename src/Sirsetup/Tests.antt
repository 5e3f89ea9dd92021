-- ===== src/Sirsetup/Tests.antt =====
-- Runs of the infrared driver at concrete inputs.
use vanilla_utilities.Base.{ℕ, ◌≡◌, ◌++◌, refl, true, false, List, [], ◌∷◌, replicate, arith}
use vanilla_utilities.Serport.{Port}
use vanilla_utilities.Sirsetup.{
  Sir, SetupData, Queue, no_packet, no_setup, packet_at, block_loop, for_us, hash_data, hash_loop,
  transmit,
}
use vanilla_utilities.Sirsetup.Receive.{framed, receive_all, receive_all-stored}
use vanilla_utilities.Sirsetup.Loss.{block_loop-lost}

abbrev fifteen : List ℕ
fifteen = replicate 15 1

block_loop-lost_example : block_loop (fifteen ++ 0x70 ∷ 2 ∷ []) 0 ≡ (fifteen, 2 ∷ [])
block_loop-lost_example =
    block_loop-lost fifteen (2 ∷ []) 0
      (
        refl,
        (
          refl,
          (
            refl,
            (
              refl,
              (
                refl,
                (refl, (refl, (refl, (refl, (refl, (refl, (refl, (refl, (refl, (refl, tt)))))))))),
              ),
            ),
          ),
        ),
      )
      (omega arith)

-- A signature of which only the first byte is right.
abbrev stranger : SetupData
stranger = record no_setup { signature = 0xb2 ∷ replicate 15 0 }

abbrev empty_queue : Queue
empty_queue = record { packets = replicate 8 no_packet; head = 0; tail = 0 }

abbrev idle : Sir
idle = record {
  inque = empty_queue;
  outque = empty_queue;
  tx_offset = 0;
  doomcom = record { remotenode = 0; bytes = []; numnodes = 2; numplayers = 2; consoleplayer = 0 };
  node_data = [];
  player_to_node = [];
  handoff_partner = 1;
  state = transmit;
  last_handoff_time = 0;
  in_escape = false;
  counts = [];
}

abbrev port : Port
port = record {
  receiving = true;
  transmitting = false;
  tx_buffer = [];
  tx_index = 0;
  tx_bytes = 0;
  line = [];
  output = [];
}

-- A packet from player 1 to us, with its checksum.
abbrev greeting : List ℕ
greeting = hash_data (0 ∷ 1 ∷ 0x70 ∷ []) ∷ 0 ∷ 1 ∷ 0x70 ∷ []

receive_all-stored_example :
    let (q, t) = receive_all 5 (framed greeting) port idle in
    (q ≡ port)
    × (packet_at t.inque 0 ≡ record { bytes = greeting; valid = true })
    × (packet_at t.inque 3 ≡ no_packet)
    × (t.inque.head ≡ 1)
    × (t.inque.tail ≡ 0)
unfolding for_us hash_data hash_loop
receive_all-stored_example =
    receive_all-stored 5 3 greeting port idle (omega arith) (omega arith) refl refl (omega arith)
      refl refl (λ e. omega arith) (λ e. omega arith)
