-- ===== src/Sersetup/Tests.antt =====
-- Runs of the serial driver at concrete inputs.
use vanilla_utilities.Base.{◌≡◌, ◌++◌, refl, true, false, [], ◌∷◌, some, replicate, arith}
use vanilla_utilities.Serport.{Port, transmit_loop}
use vanilla_utilities.Sersetup.{Que, encode, serial_more_tx_data, write_buffer, read_packet}
use vanilla_utilities.Sersetup.Queue.{IsQue, contents}
use vanilla_utilities.Sersetup.Frame.{reading}
use vanilla_utilities.Sersetup.Stream.{
  stream, Steady, Sends, transmit_loop-Sends, write_buffer-stream,
}
use vanilla_utilities.Sersetup.Read.{read_packet-encode}

-- A ring with the framed packet 5, 0x70 at its start, and one byte of the next packet.
abbrev ring : Que
ring = record { head = 6; tail = 0; bytes = 5 ∷ 0x70 ∷ 0x70 ∷ 0x70 ∷ 0 ∷ 9 ∷ replicate 2042 0 }

abbrev port : Port
port = record {
  receiving = true;
  transmitting = false;
  tx_buffer = [];
  tx_index = 0;
  tx_bytes = 0;
  line = [];
  output = [];
}

ring-IsQue : IsQue ring
ring-IsQue = record { storage = refl; order = omega arith; bound = omega arith }

read_packet-encode_example :
    (q : Que) × IsQue q
    × (read_packet 7 port ring (reading [] true)
        ≡ some (true, port, q, reading (5 ∷ 0x70 ∷ []) true))
    × (contents q ≡ 9 ∷ [])
unfolding encode
read_packet-encode_example =
    read_packet-encode 7 (5 ∷ 0x70 ∷ []) (9 ∷ []) port ring (reading [] true) ring-IsQue refl refl
      refl (omega arith) refl (omega arith) (omega arith)

ring-Steady : Steady port ring
ring-Steady = record { queue = ring-IsQue; loaded = refl }

transmit_loop-Sends_example :
    let (p, q) = transmit_loop serial_more_tx_data 16 port ring in Sends port ring p q
transmit_loop-Sends_example = transmit_loop-Sends 16 port ring ring-Steady

write_buffer-stream_example :
    let (p, q) = write_buffer (1 ∷ 2 ∷ []) port ring in
    Steady p q × (stream p q ≡ stream port ring ++ 1 ∷ 2 ∷ [])
write_buffer-stream_example = write_buffer-stream (1 ∷ 2 ∷ []) port ring ring-Steady (omega arith)
