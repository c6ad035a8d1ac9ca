-- ===== src/Lib.antt =====
-- WireGuard for NuttX: a model of the network interface wg0 and of the protocol core under it.
--
-- The program is the directory nuttx_port/apps/netutils/wireguard. nuttx-wireguardif.c is a network
-- driver: a task receives the datagrams of a UDP socket and runs the timers, the transmit path
-- encrypts the packets that the stack sends through wg0, and a set of functions stages the
-- configuration and brings wg0 up and down. wireguard.c is the protocol core, a copy of
-- wireguard-lwip with the two changes of PATCHES.md; the driver reads and writes its peers and
-- keypairs directly. nuttx-platform.c gives it clocks and random bytes. wg_main.c is the command of
-- the shell. Beside it stands demo/stackchan, a robot that serves as a demonstration.
--
-- The files and the code:
--   Base      numbers of C as remainders, byte strings, lists; Base/Bits on the bits of a word
--   Device    the structs of wireguard.h and `struct wg_netdev_s`; what is sent and what is given to
--             the stack is logged in it
--   Crypto    the primitives of crypto/ and the hashes over them, as a record of functions; Kdf those
--             hashes over BLAKE2s, which fill the record
--   Replay    wireguard_check_replay; Replay/Check against the list of the packets seen
--   Session   keypairs and lookups of wireguard.c
--   Message   message types and fields, Cookie the MACs and cookies, Handshake the two messages;
--             Handshake/Crossed follows one handshake through two devices
--   Base64    wireguard_base64_decode and wireguard_base64_encode
--   Route     wg_peer_for_dest; Transport the senders; Receive the receiver; Timers wg_run_timers
--   Task      wg_rx_task, which empties the socket and runs the timers until it is asked to stop
--   Interface wg_ifup and wg_ifdown
--   Config    Kconfig values, error numbers and the functions of the C library, as parameters
--   Staged    wg_set_private_key, wg_set_peer, wg_remove_peer
--   Conf      the prefix lengths and the trimming of lines of the configuration file; Writeconf
--             wg_writeconf, wg_showconf and wg_saveconf; Setconf wg_setconf. Below Setconf, Printable
--             says which peers the file can hold, Staging and Kept that wg_set_peer stages such ones,
--             Setting to Written follow the lines through both functions, RoundTrip and Stable put
--             them together
--   Show      wg_show; Command wg_main.c, on the staged configuration, wg0 and the files
--   Enroll    wg_add_peer and wg_configure_peer; Lifecycle wg_initialize, wg_down and the key commands
--   Platform  nuttx-platform.c
--   Stackchan demo/stackchan/stackchan_main.c: Servo the servo packets, Display and Screen the
--             faces, on the signed coordinates of Int, Bus the expander with the servo power and
--             the LEDs, Speaker the amplifier and the player, Task the task that moves face and
--             head, Command the command
--   Tests     concrete inputs and the witnesses
--
-- A handler takes the state and returns it. A pointer to a peer is its index in `peers`, a pointer
-- to a keypair is one of three slots; where the code writes through a pointer, the entry is set. The
-- clock and the random source may answer differently each time they are asked in one call: the
-- `Readings` of a call give an answer for each place that asks. Arithmetic of the fixed widths is
-- written as a remainder. Loops are recursion on the list or on the count that they run over, so most
-- need no fuel: 32 rounds for a netmask and 160 looks at the flag of wg_down are the bounds of the
-- source. The loop of wg_setconf has the length of the file as fuel, since each call of fgets
-- takes at least one byte; fgets itself, like strlcpy, is written out as the C library documents
-- it. The loop that draws an index runs over the random bytes that it is given.
--
-- Outside the model: the primitives of crypto/, the socket, the buffers, the work queue and the
-- device registration of NuttX, and the functions of the C library on addresses and numbers, which
-- are parameters by what they answer, and so is what of a saved text reaches its file; locking,
-- since the code runs each handler under the network lock; what the command prints to stderr; of
-- the demonstration the opening and closing of the devices; and the programs under docker and
-- scripts.
pub mod Base
pub mod Device
pub mod Replay
pub mod Crypto
pub mod Kdf
pub mod Session
pub mod Show
pub mod Command
pub mod Route
pub mod Message
pub mod Cookie
pub mod Handshake
pub mod Transport
pub mod Receive
pub mod Timers
pub mod Task
pub mod Interface
pub mod Config
pub mod Base64
pub mod Staged
pub mod Platform
pub mod Enroll
pub mod Lifecycle
pub mod Conf
pub mod Writeconf
pub mod Setconf
pub mod Stackchan
pub mod Tests
