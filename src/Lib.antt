-- ===== src/Lib.antt =====
-- The drivers and tools of vanilla-utilities. Doom calls a network driver by an interrupt, with a
-- shared record `doomcom_t`: CMD_SEND sends `data` to node `remotenode`, CMD_GET asks for a packet.
--
-- Parts and files:
--   Aggr       net/pktaggr.c: equal packets to all nodes in turn are sent as one broadcast. The
--              function that sends is a parameter, as `aggr_sendpkt` is. Metanet and Sirsetup use it.
--   Metanet    net/metanet.c: a network of forwarders above other drivers. Metanet/Addr has hop bytes
--              and paths, Metanet/State the static variables, Metanet/Forward the forwarding,
--              Metanet/Table the node table, Metanet/Discover the discovery and quit packets,
--              Metanet/Receive GetPacket, Metanet/Launch the rest, from SendFromBuffer to SendQuit.
--   Serport    net/serport.c: the bytes that the serial port takes and gives. SerialByteReceived and
--              SerialMoreTXData of the program above are parameters.
--   Sersetup   net/sersetup.c: byte queues and framed packets on a serial line; Sersetup/Modem has the
--              answers of the modem, the event loop and the background mode.
--   Sirsetup   net/sirsetup.c: packet queues, checksum and token on an infrared line; Sirsetup/Setup
--              has the setup packets and player numbers, Sirsetup/Calls the calls from Doom.
--   Serarb     net/serarb.c: two machines settle which is player 0; Serarb/Link joins two of them by a
--              link that may lose, repeat and reorder packets or make them unreadable, but not change
--              one into another.
--   Ipxnet     net/ipxnet.c: the packets that wait, in the order of their times. The IPX driver's call
--              that listens is a parameter.
--   Ipxsetup   net/ipxsetup.c: the nodes of a game over IPX or UDP, and the calls from Doom.
--              Ipxsetup/Search has LookForNodes, Ipxsetup/Player DetermineConsolePlayer.
--   Dbserver   net/dbserver.c: the server that passes packets on between clients. Whether a call of
--              sendto fails is a parameter.
--   Udpipx     net/udpipx.c: IPX packets through that server, in place of net/ipxnet.c; Udpipx/Host has
--              the functions that run the server as well.
--   Flag       lib/flag.c: the command line. Flag/Response has the response files, in both directions,
--              Flag/Reorder the arguments that are baked in, Flag/Number the numbers, Flag/Parse the
--              flags and ParseCommandLine.
--   Vsetargs   lib/vsetargs.c: the search for the configuration in an executable, and the arguments that
--              are stored there.
--   Fragment   adapters/fragment.c: packets in fragments, and the buffers that put them together.
--   Nodemap    adapters/nodemap.c: the players of the nodes. Nodemap/Launch has the calls of the games in
--              adapters/vcommit.c and adapters/vrottcom.c, which use Fragment.
--   Ctrl       ctrl/: programs that move the player. Ctrl/Axis has the joystick of analogjs.c, Ctrl/Replay
--              the demos of replay.c, each on the tics that control.c gives them.
--   Stat       stat/statdump.c and stat/statprnt.c: the captured levels, and the game they are from.
--   Base       notation, Boolean tests and list lemmas.
--
-- Conventions. A function keeps its name in lower case: NodeForAddr is `node_for_addr`, GetAndForward
-- `get_and_forward`. The static variables are a record that a function takes and returns; a loop is a
-- function of its own with the rounds left as its first argument. NULL and -1 are `none`, an Error or
-- a failed assert is `none` in the result. A counter's increment is appended to a list;
-- Sersetup and Serport leave their counters out. A driver below Metanet, and a socket, is a list of
-- arrivals and a log of what it was given to send. Time, random numbers and what arrives meanwhile are
-- arguments.
--
-- Bounds. Bytes and words keep their remainders where the program's results pass through them; the
-- `long` positions of the byte queues do not wrap. GetPacket's loop and ReadPacket's loop run on fuel;
-- one round more than there are packets, or bytes, waiting is enough. The loop of RearrangeNodes has
-- the number of nodes as its rounds, which it never uses up; DetermineConsolePlayer's loop needs one
-- round more than there are nodes, FindConfigPosition's one more than there are bytes in the file, and
-- the reader of the stored arguments no more than their 1024 bytes. DiscoverPlayers' loop runs
-- on a list of what its rounds find.
--
-- Not modelled: hardware access (UART, IPX, parallel port, LEDs), interrupt vectors, screen output and
-- the printing of statistics, the socket drivers, the registration of flags and the usage text, and the
-- configuration of the joystick. `qsort` is not read: AssignPlayerNumbers of Metanet takes the order as
-- an argument.
pub mod Base
pub mod Aggr
pub mod Metanet
pub mod Serport
pub mod Sersetup
pub mod Sirsetup
pub mod Serarb
pub mod Ipxnet
pub mod Ipxsetup
pub mod Fragment
pub mod Flag
pub mod Dbserver
pub mod Udpipx
pub mod Nodemap
pub mod Vsetargs
pub mod Ctrl
pub mod Stat
