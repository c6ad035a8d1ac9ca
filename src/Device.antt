-- ===== src/Device.antt =====
-- The state of the protocol core, from netutils/wireguard/wireguard.h, and of the wg0 interface,
-- from the top of netutils/wireguard/nuttx-wireguardif.c. A C array is a list, of the length that
-- Kconfig gives it; an address is the `uint32_t` of `in_addr_t`, in network byte order.
use gsoc2026_nuttx_wireguard.Base.{ℕ, ◌+◌, ◌-◌, ◌^◌, Bool, false, List, replicate, Bytes}

abbrev pub rekey_after_messages : ℕ
rekey_after_messages = 2 ^ 60

abbrev pub reject_after_messages : ℕ
reject_after_messages = 2 ^ 64 - 1 - 2 ^ 13

-- seconds
abbrev pub rekey_after_time : ℕ
rekey_after_time = 120

abbrev pub reject_after_time : ℕ
reject_after_time = 180

abbrev pub rekey_timeout : ℕ
rekey_timeout = 5

abbrev pub cookie_secret_max_age : ℕ
cookie_secret_max_age = 120

-- lengths in bytes
abbrev pub authtag_len : ℕ
authtag_len = 16

abbrev pub cookie_len : ℕ
cookie_len = 16

abbrev pub key_len : ℕ
key_len = 32

abbrev pub max_packet : ℕ
max_packet = 1500

-- 16 + WG_MAX_PACKET + WIREGUARD_AUTHTAG_LEN
abbrev pub crypt_bufsize : ℕ
crypt_bufsize = 1532

abbrev pub zero_key : Bytes
zero_key = replicate key_len 0

-- `struct wireguard_keypair`
pub record Keypair : Type 0 where
  pub valid : Bool
  pub initiator : Bool
  pub keypair_millis : ℕ
  pub sending_key : Bytes
  pub sending_valid : Bool
  pub sending_counter : ℕ
  pub receiving_key : Bytes
  pub receiving_valid : Bool
  pub last_tx : ℕ
  pub last_rx : ℕ
  pub replay_bitmap : List ℕ
  pub replay_counter : ℕ
  pub local_index : ℕ
  pub remote_index : ℕ

-- `struct wireguard_handshake`
pub record Handshake : Type 0 where
  pub valid : Bool
  pub initiator : Bool
  pub local_index : ℕ
  pub remote_index : ℕ
  pub ephemeral_private : Bytes
  pub remote_ephemeral : Bytes
  pub hash : Bytes
  pub chaining_key : Bytes

-- `struct wireguard_allowed_ip`
pub record AllowedIp : Type 0 where
  pub valid : Bool
  pub ip : ℕ
  pub mask : ℕ

-- `struct wireguard_peer`
pub record Peer : Type 0 where
  pub valid : Bool
  pub active : Bool
  pub connect_ip : ℕ
  pub connect_port : ℕ
  pub ip : ℕ
  pub port : ℕ
  pub keepalive_interval : ℕ
  pub allowed_source_ips : List AllowedIp
  pub public_key : Bytes
  pub preshared_key : Bytes
  pub public_key_dh : Bytes
  pub curr_keypair : Keypair
  pub prev_keypair : Keypair
  pub next_keypair : Keypair
  pub greatest_timestamp : Bytes
  pub handshake : Handshake
  pub cookie_millis : ℕ
  pub cookie : Bytes
  pub handshake_mac1_valid : Bool
  pub handshake_mac1 : Bytes
  pub label_cookie_key : Bytes
  pub label_mac1_key : Bytes
  pub last_initiation_rx : ℕ
  pub last_initiation_tx : ℕ
  pub last_tx : ℕ
  pub last_rx : ℕ
  pub send_handshake : Bool

-- `struct wireguard_device`, less its two unused lwIP pointers
pub record Device : Type 0 where
  pub public_key : Bytes
  pub private_key : Bytes
  pub cookie_secret : Bytes
  pub cookie_secret_millis : ℕ
  pub label_cookie_key : Bytes
  pub label_mac1_key : Bytes
  pub peers : List Peer
  pub valid : Bool

-- A datagram given to `psock_sendto`, with its destination.
pub record Datagram : Type 0 where
  pub to_ip : ℕ
  pub to_port : ℕ
  pub payload : Bytes

-- `struct wg_netdev_s`: of `dev` the carrier flag, the address and the netmask, and whether it is
-- registered with the network; of `psock` whether it is open. The scratch buffers hold nothing
-- from one call to the next. `sent` and `injected` record, newest first, the datagrams given to
-- the socket and the packets given to `ipv4_input`.
pub record Netdev : Type 0 where
  pub wg : Device
  pub carrier : Bool
  pub d_ipaddr : ℕ
  pub d_netmask : ℕ
  pub netdev_known : Bool
  pub bifup : Bool
  pub running : Bool
  pub registered : Bool
  pub psock_open : Bool
  pub rxtask_done : Bool
  pub peer_rx_bytes : List ℕ
  pub peer_tx_bytes : List ℕ
  pub init_window_start : ℕ
  pub init_count : ℕ
  pub sent : List Datagram
  pub injected : List Bytes

-- What the platform hands to one call, each by the place in the call that asks for it:
-- `wireguard_sys_now`, `wireguard_random_bytes`, `wireguard_tai64n_now`, and the result of
-- `wireguard_generate_unique_index`.
pub record Readings : Type 0 where
  pub now : ℕ → ℕ
  pub random : ℕ → Bytes
  pub tai64n : Bytes
  pub unique_index : ℕ

-- The readings of a later part of a call, whose first place is place `k` of the whole.
abbrev pub later : ℕ → Readings → Readings
later k r = record r { now = λ i. r.now (k + i); random = λ i. r.random (k + i) }

-- `crypto_zero` over a handshake
abbrev pub zero_handshake : Handshake
zero_handshake = record {
  valid = false;
  initiator = false;
  local_index = 0;
  remote_index = 0;
  ephemeral_private = zero_key;
  remote_ephemeral = zero_key;
  hash = zero_key;
  chaining_key = zero_key;
}

-- A zeroed keypair, with `words` words of replay window.
abbrev pub zero_keypair : ℕ → Keypair
zero_keypair words = record {
  valid = false;
  initiator = false;
  keypair_millis = 0;
  sending_key = zero_key;
  sending_valid = false;
  sending_counter = 0;
  receiving_key = zero_key;
  receiving_valid = false;
  last_tx = 0;
  last_rx = 0;
  replay_bitmap = replicate words 0;
  replay_counter = 0;
  local_index = 0;
  remote_index = 0;
}

abbrev pub zero_allowed_ip : AllowedIp
zero_allowed_ip = record { valid = false; ip = 0; mask = 0 }

-- A zeroed peer, with `words` words of replay window and `ips` allowed-ips entries.
abbrev pub zero_peer : ℕ → ℕ → Peer
zero_peer words ips = record {
  valid = false;
  active = false;
  connect_ip = 0;
  connect_port = 0;
  ip = 0;
  port = 0;
  keepalive_interval = 0;
  allowed_source_ips = replicate ips zero_allowed_ip;
  public_key = zero_key;
  preshared_key = zero_key;
  public_key_dh = zero_key;
  curr_keypair = zero_keypair words;
  prev_keypair = zero_keypair words;
  next_keypair = zero_keypair words;
  greatest_timestamp = replicate 12 0;
  handshake = zero_handshake;
  cookie_millis = 0;
  cookie = replicate cookie_len 0;
  handshake_mac1_valid = false;
  handshake_mac1 = replicate cookie_len 0;
  label_cookie_key = zero_key;
  label_mac1_key = zero_key;
  last_initiation_rx = 0;
  last_initiation_tx = 0;
  last_tx = 0;
  last_rx = 0;
  send_handshake = false;
}

-- A zeroed device with `n` peers.
abbrev pub zero_device : ℕ → ℕ → ℕ → Device
zero_device n words ips = record {
  public_key = zero_key;
  private_key = zero_key;
  cookie_secret = zero_key;
  cookie_secret_millis = 0;
  label_cookie_key = zero_key;
  label_mac1_key = zero_key;
  peers = replicate n (zero_peer words ips);
  valid = false;
}
