-- ===== src/Tests.antt =====
-- Concrete inputs for the theorems: a keypair and a peer in a session, a device, an interface, toy
-- primitives, and library functions on small texts. The witnesses stand in the children.
pub mod Protocol
pub mod Glue
pub mod Setup
pub mod Commands
pub mod Agreement
pub mod Demo
pub mod Decimal
pub mod Saving
use gsoc2026_nuttx_wireguard.Base.{
  ℕ, ◌+◌, Bool, true, false, List, [], ◌∷◌, ◌++◌, Option, none, some, length, take, replicate,
  Bytes, codes,
}
use gsoc2026_nuttx_wireguard.Device.{
  Keypair, Handshake, AllowedIp, Peer, Device, Netdev, Readings, zero_keypair, zero_key, zero_peer,
  zero_device,
}
use gsoc2026_nuttx_wireguard.Crypto.{Crypto}
use gsoc2026_nuttx_wireguard.Transport.{Os}
use gsoc2026_nuttx_wireguard.Config.{Kconfig, Libc, pos}
use gsoc2026_nuttx_wireguard.Staged.{StagedPeer, Staged}
use gsoc2026_nuttx_wireguard.Enroll.{Labels, wire_labels}

-- Primitives that do nothing but keep the lengths of what the code uses.
abbrev pub toy_crypto : Crypto
toy_crypto = record {
  aead_encrypt = λ key nonce ad text. text ++ replicate 16 0;
  aead_decrypt = λ key nonce ad text. some text;
  xaead_encrypt = λ key nonce ad text. text ++ replicate 16 0;
  xaead_decrypt = λ key nonce ad text. some text;
  mac = λ key message. replicate 16 7;
  mac_key = λ key label. key;
  mix_hash = λ hash message. hash;
  kdf1 = λ key input. key;
  kdf2 = λ key input. (key, key);
  kdf3 = λ key input. (key, key, key);
  x25519 = λ priv point. replicate 32 1;
  x25519_fails = λ priv point. false;
  construction_hash = replicate 32 2;
  identifier_hash = replicate 32 3;
}

abbrev pub toy_os : Os
toy_os = record {
  crypto = toy_crypto;
  sendto_ok = λ datagram. true;
  iob_ok = λ packet. true;
  ipv4_reply = λ packet. [];
}

abbrev pub readings : Readings
readings = record {
  now = λ place. 2000;
  random = λ place. replicate 32 5;
  tai64n = replicate 12 1;
  unique_index = 3;
}

abbrev pub live_keypair : Keypair
live_keypair = record (zero_keypair 1) {
  valid = true;
  initiator = true;
  keypair_millis = 1000;
  sending_valid = true;
  receiving_valid = true;
  local_index = 7;
  remote_index = 9;
}

abbrev pub everything : AllowedIp
everything = record { valid = true; ip = 0; mask = 0 }

abbrev pub live_peer : Peer
live_peer = record (zero_peer 1 1) {
  valid = true;
  active = true;
  connect_ip = 16777343;
  connect_port = 51820;
  ip = 16777343;
  port = 51820;
  public_key = replicate 32 4;
  allowed_source_ips = everything ∷ [];
  curr_keypair = live_keypair;
}

abbrev pub device : Device
device = record (zero_device 0 1 1) { peers = live_peer ∷ []; valid = true }

abbrev pub netdev : Netdev
netdev = record {
  wg = device;
  carrier = true;
  d_ipaddr = 0;
  d_netmask = 0;
  netdev_known = true;
  bifup = true;
  running = true;
  registered = true;
  psock_open = true;
  rxtask_done = false;
  peer_rx_bytes = 0 ∷ [];
  peer_tx_bytes = 0 ∷ [];
  init_window_start = 1;
  init_count = 0;
  sent = [];
  injected = [];
}

-- One address, and one number.
abbrev pub libc : Libc
libc = record {
  inet_pton = λ text. some 65535;
  inet_ntop = λ addr size. some (codes "255.255.0.0");
  atoi = λ text. pos 16;
  print_int = λ n. [];
}

-- Keys of 32 bytes in base64.
abbrev pub private_text : Bytes
private_text = codes "AQEBAQEBAQEBAQEBAQEBAQEBAQEBAQEBAQEBAQEBAQE="

abbrev pub peer_text : Bytes
peer_text = codes "AgICAgICAgICAgICAgICAgICAgICAgICAgICAgICAgI="

abbrev pub other_text : Bytes
other_text = codes "AwMDAwMDAwMDAwMDAwMDAwMDAwMDAwMDAwMDAwMDAwM="

abbrev pub kconfig : Kconfig
kconfig = record {
  max_peers = 2;
  max_src_ips = 1;
  replay_words = 1;
  listen_port = 51820;
  load_threshold = 2;
  config_path = codes "/data/wg0.conf";
  private_key = private_text;
  local_ipaddr = codes "10.0.0.2";
  local_netmask = codes "255.255.255.0";
  peer_public_key = [];
  peer_endpoint_ip = [];
  peer_endpoint_port = 51820;
  peer_allowed_ip = codes "0.0.0.0";
  peer_allowed_mask = codes "0.0.0.0";
  peer_keepalive = 25;
}

abbrev pub staged_peer : StagedPeer
staged_peer = record {
  public_key = peer_text;
  endpoint_ip = codes "192.0.2.1";
  allowed_ip = codes "10.0.0.0";
  allowed_mask = codes "255.255.0.0";
  endpoint_port = 51820;
  keepalive = pos 25;
}

abbrev pub staged : Staged
staged = record { private_key = private_text; peers = staged_peer ∷ [] }

abbrev pub labels : Labels
labels = wire_labels
