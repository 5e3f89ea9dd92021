-- ===== src/Ipxsetup/Search/Told.antt =====
-- What a machine broadcasts in LookForNodes is what another one reads in ProcessSetupPacket.
use vanilla_utilities.Base.{ℕ, ◌+◌, ◌<◌, ◌^◌, ◌≡◌, ◌++◌, arith, List}
use vanilla_utilities.Ipxnet.{Packet, short_swap}
use vanilla_utilities.Ipxsetup.{
  SetupData, payload_size, old_protocol, read_setup, sizeof_setupdata, header_length,
}
use vanilla_utilities.Ipxsetup.Search.{setup_bytes}

-- A field of the packet's structure.
pub record IsSetup (d : SetupData) : Type 0 where
  pub gameid_fits : d.gameid < 2 ^ 16
  pub drone_fits : d.drone < 2 ^ 16
  pub found_fits : d.nodesfound < 2 ^ 16
  pub wanted_fits : d.nodeswanted < 2 ^ 16
  pub dup_fits : d.dupwanted < 2 ^ 16
  pub player_fits : d.plnumwanted < 2 ^ 16

-- ProcessSetupPacket reads from a packet, as long as LookForNodes makes it and with the bytes of a
-- setup structure in front, just that structure, if its fields have 16 bits.
read_setup-setup_bytes :
    (d : SetupData) (p : Packet) (rest : List ℕ)
    → IsSetup d
    → p.packet_length ≡ short_swap (sizeof_setupdata + header_length)
    → p.payload ≡ setup_bytes d ++ rest
    → read_setup p ≡ d
unfolding read_setup setup_bytes old_protocol payload_size short_swap
read_setup-setup_bytes d p rest f size text = rw (text, size) (ground arith)
