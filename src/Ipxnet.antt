-- ===== src/Ipxnet.antt =====
-- net/ipxnet.c, the packets that the IPX driver receives and sends.
-- The IPX driver is a parameter: `listen` is what its call 4 makes of an ECB and its packet, with the
-- register `al`. Its call 3 takes what is sent, which is a result here.
pub mod Earliest
mod Tests
use vanilla_utilities.Base.{
  ℕ, ◌+◌, ◌-◌, ◌*◌, ◌/◌, ◌%◌, ◌^◌, ◌==◌, get_or, set, drop, if◌then◌else◌, Bool, true, false, not,
  ◌&&◌, List, [], ◌∷◌, Option, none, some,
}
use vanilla_utilities.Base.Words.{lt32}

-- The fields of a `packet_t` that are read: `ipx.PacketLength` as it stands in the packet, the ten
-- bytes of `ipx.Src`, the word `time` and the payload.
pub record Packet : Type 0 where
  pub packet_length : ℕ
  pub src : List ℕ
  pub time : ℕ
  pub payload : List ℕ

-- `ecbs[i]` and `packets[i]`. The first slot is the one that sends.
pub record Slot : Type 0 where
  pub in_use_flag : Bool
  pub completion_code : ℕ
  pub packet : Packet

abbrev pub no_slot : Slot
no_slot = record {
  in_use_flag = true;
  completion_code = 0;
  packet = record { packet_length = 0; src = []; time = 0; payload = [] };
}

unfoldable pub short_swap : ℕ → ℕ
short_swap i = i % 256 * 2 ^ 8 % 2 ^ 16 + i / 2 ^ 8 % 256

abbrev pub long_max : ℕ
long_max = 0x7fffffff

pub is_better : Slot → ℕ → Bool
is_better s besttic = not s.in_use_flag && lt32 s.packet.time besttic

-- IPXGetPacket's loop over the slots from `i` on: `besttic` and `packetnum`.
pub best_loop : List Slot → ℕ → ℕ → Option ℕ → ℕ × Option ℕ
best_loop [] i besttic packetnum = (besttic, packetnum)
best_loop (s ∷ slots) i besttic packetnum =
    best_loop slots (i + 1) (if is_better s besttic then s.packet.time else besttic)
      (if is_better s besttic then some i else packetnum)

-- What IPXGetPacket gives: NULL, an Error, or the packet of a slot; or it reads `ecbs[-1]`.
pub data Got : Type 0 where
  no_packet outside : Got
  bad_completion : ℕ → Got
  got : ℕ → Got

-- `ecbs[packetnum]`, with its completion code.
pub get_slot : List Slot → Option ℕ → Got
get_slot slots none = outside
get_slot slots (some n) =
    if (get_or slots n no_slot).completion_code == 0 then got n else bad_completion n

pub take_slot : List Slot → ℕ × Option ℕ → Got
take_slot slots (besttic, packetnum) =
    if besttic == long_max then no_packet else get_slot slots packetnum

pub ipx_get_packet : List Slot → Got
ipx_get_packet slots = take_slot slots (best_loop (drop 1 slots) 1 long_max none)

-- IPXReleasePacket and ListenForPacket; `none` is the Error.
module _ (listen : Slot → ℕ × Slot) where
  pub ipx_release_packet : ℕ → List Slot → Option (List Slot)
  ipx_release_packet n slots =
      let (al, s) = listen (get_or slots n no_slot) in
      if al == 0 then some (set slots n s) else none

-- What IPXSendPacket hands to the driver: the address, the time and the data, and the length that the
-- second fragment is given.
pub record Sent : Type 0 where
  pub dest : List ℕ
  pub sent_time : ℕ
  pub content : List ℕ
  pub f2_size : ℕ

pub ipx_send_packet : ℕ → List ℕ → List ℕ → ℕ → Sent
ipx_send_packet ipx_localtime addr content data_len = record {
  dest = addr;
  sent_time = ipx_localtime;
  content = content;
  f2_size = data_len + 4;
}
