-- ===== src/Config.antt =====
-- The Kconfig values of netutils/wireguard/Kconfig that the code reads, the error numbers, the
-- signed `int` arguments, and the library functions that the configuration code calls.
use gsoc2026_nuttx_wireguard.Base.{ℕ, Bool, true, false, Option, Bytes}

pub record Kconfig : Type 0 where
  pub max_peers : ℕ
  pub max_src_ips : ℕ
  pub replay_words : ℕ
  pub listen_port : ℕ
  pub load_threshold : ℕ
  pub config_path : Bytes
  pub private_key : Bytes
  pub local_ipaddr : Bytes
  pub local_netmask : Bytes
  pub peer_public_key : Bytes
  pub peer_endpoint_ip : Bytes
  pub peer_endpoint_port : ℕ
  pub peer_allowed_ip : Bytes
  pub peer_allowed_mask : Bytes
  pub peer_keepalive : ℕ

-- A C `int`: `negsuc n` is -(n + 1).
pub data ℤ : Type 0 where
  pos : ℕ → ℤ
  negsuc : ℕ → ℤ

pub data Errno : Type 0 where
  einval ebusy enospc enoent enodata enodev eio etimedout eproto enomem : Errno
  os_errno : ℕ → Errno

-- The result of a function that returns OK or a negated error number.
pub data Ret : Type 0 where
  ok : Ret
  err : Errno → Ret

abbrev pub is_ok : Ret → Bool
is_ok ok = true
is_ok (err e) = false

abbrev pub negative : ℤ → Bool
negative (pos n) = false
negative (negsuc n) = true

-- `inet_pton` to an address in network order, `inet_ntop` into a buffer of the given size, `atoi`,
-- and `%d` of printf.
pub record Libc : Type 0 where
  pub inet_pton : Bytes → Option ℕ
  pub inet_ntop : ℕ → ℕ → Option Bytes
  pub atoi : Bytes → ℤ
  pub print_int : ℤ → Bytes

-- WG_KEY_STRLEN
abbrev pub key_strlen : ℕ
key_strlen = 48

-- INET_ADDRSTRLEN
abbrev pub inet_addrstrlen : ℕ
inet_addrstrlen = 16
