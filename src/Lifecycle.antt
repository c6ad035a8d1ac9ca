-- ===== src/Lifecycle.antt =====
-- How wg0 comes up and goes down: `wg_configure_address`, `wg_initialize`, `wg_down`, `wg_genkey`
-- and `wg_pubkey` of netutils/wireguard/nuttx-wireguardif.c.
pub mod Bringup
pub mod Keys
use gsoc2026_nuttx_wireguard.Base.{
  ℕ, zero, suc, ◌+◌, ◌-◌, Bool, true, false, not, ◌&&◌, ◌||◌, List, [], ◌∷◌, Option, none, some,
  length, get_or, set, ltb, ◌==◌, if◌then◌else◌, Bytes, strlcpy, replicate, u16, str_eq,
}
use gsoc2026_nuttx_wireguard.Device.{
  AllowedIp, Peer, Device, Netdev, Readings, key_len, zero_key, zero_device, zero_peer,
  zero_allowed_ip,
}
use gsoc2026_nuttx_wireguard.Crypto.{Crypto}
use gsoc2026_nuttx_wireguard.Session.{peer_alloc, put_peer}
use gsoc2026_nuttx_wireguard.Handshake.{clamp_private_key, generate_public_key, basepoint}
use gsoc2026_nuttx_wireguard.Interface.{ifup, ifdown}
use gsoc2026_nuttx_wireguard.Base64.{base64_encode}
use gsoc2026_nuttx_wireguard.Config.{
  Kconfig, Libc, ℤ, pos, negsuc, Errno, Ret, ok, err, einval, eio, enodev, etimedout, key_strlen,
  inet_addrstrlen,
}
use gsoc2026_nuttx_wireguard.Enroll.{Labels, device_init, configure_peer}
use gsoc2026_nuttx_wireguard.Staged.{StagedPeer, Staged, decode_key}

-- What the operating system answers to the calls of `wg_initialize`: the error of each, if it
-- fails; and whether `netdev_ifup` and `netdev_ifdown` call back.
pub record Answers : Type 0 where
  pub socket : Option Errno
  pub bind : Option Errno
  pub register : Option Errno
  pub task : Option Errno
  pub ifup_runs : Bool
  pub ifdown_runs : Bool

-- `wg_cfg_str`
abbrev pub cfg_str : Bytes → Bytes → Bytes
cfg_str [] kconfig_value = kconfig_value
cfg_str (c ∷ cs) kconfig_value = c ∷ cs

-- The `|=` over the probe is 0.
abbrev pub all_zero : Bytes → Bool
all_zero [] = true
all_zero (b ∷ bs) = b == 0 && all_zero bs

-- The state after `memset(priv, 0, sizeof(*priv))`; the logs are not part of it.
unfoldable pub zero_netdev : Kconfig → Netdev → Netdev
zero_netdev kconfig priv = record {
  wg = zero_device kconfig.max_peers kconfig.replay_words kconfig.max_src_ips;
  carrier = false;
  d_ipaddr = 0;
  d_netmask = 0;
  netdev_known = false;
  bifup = false;
  running = false;
  registered = false;
  psock_open = false;
  rxtask_done = false;
  peer_rx_bytes = replicate kconfig.max_peers 0;
  peer_tx_bytes = replicate kconfig.max_peers 0;
  init_window_start = 0;
  init_count = 0;
  sent = priv.sent;
  injected = priv.injected;
}

-- The index of the look at `rxtask_done`, from look `i` on and at most `left` more, that ended the
-- wait of `wg_down`; `seen i` is the flag at look `i`.
unfoldable pub wait_done : ℕ → (ℕ → Bool) → ℕ → ℕ
wait_done zero seen i = i
wait_done (suc left) seen i =
    let rest = wait_done left seen (i + 1) in if seen i then i + 1 else rest

-- WG_DOWN_WAIT_MSECS / 10
abbrev pub down_looks : ℕ
down_looks = 160

-- `wg_down`, with the state that it zeroes at the end.
unfoldable pub down : Kconfig → Bool → (ℕ → Bool) → Netdev → Netdev × Ret
down kconfig ifdown_runs seen priv =
    if not priv.registered
    then (priv, err enodev)
    else if not (seen (wait_done down_looks seen 0))
    then (record priv { running = true }, err etimedout)
    else (let priv1 : Netdev = record priv { running = false; rxtask_done = true } in
        let priv2 = if ifdown_runs then ifdown priv1 else priv1 in
        (
          record priv2 {
            netdev_known = false;
            psock_open = false;
            wg = zero_device kconfig.max_peers kconfig.replay_words kconfig.max_src_ips;
            registered = false;
          },
          ok,
        ))

module _ (crypto : Crypto) (labels : Labels) (libc : Libc) (kconfig : Kconfig) where
  open libc use {inet_pton}

  -- `wg_configure_address`
  unfoldable pub configure_address : Bool → Netdev → Netdev
  configure_address ifup_runs priv =
      let priv1 : Netdev = elim (inet_pton kconfig.local_ipaddr) [
        | none ↦ priv
        | some addr ↦ record priv { d_ipaddr = addr }
      ] in
      let priv2 : Netdev = elim (inet_pton kconfig.local_netmask) [
        | none ↦ priv1
        | some mask ↦ record priv1 { d_netmask = mask }
      ] in
      if ifup_runs then ifup priv2 else priv2

  -- `wg_initialize` from the opening of the socket on.
  unfoldable pub bring_up : Answers → Staged → Netdev → Netdev × Ret
  bring_up answers staged priv = elim answers.socket [
    | some e ↦ (priv, err e)
    | none ↦ elim answers.bind [
      | some e ↦ (priv, err e)
      | none ↦
          let priv1 : Netdev = record priv {
            wg = configure_peer crypto labels libc kconfig staged (priv.wg);
          } in
          elim answers.register [
            | some e ↦ (priv1, err e)
            | none ↦ elim answers.task [
              | some e ↦ (record priv1 { running = true }, err e)
              | none ↦
                  let priv2 : Netdev = record priv1 {
                    running = true;
                    netdev_known = true;
                    psock_open = true;
                  } in
                  (record (configure_address answers.ifup_runs priv2) { registered = true }, ok)
            ]
          ]
    ]
  ]

  -- `wg_initialize`. The probe of the entropy source is reading 0 of the random bytes.
  unfoldable pub initialize : Answers → Readings → Staged → Netdev → Netdev × Ret
  initialize answers r staged priv =
      let keystr = cfg_str staged.private_key kconfig.private_key in
      if priv.registered
      then (priv, ok)
      else if length keystr == 0
      then (priv, err einval)
      else elim (decode_key keystr) [
        | none ↦ (priv, err einval)
        | some private_key ↦
            if all_zero (r.random 0)
            then (priv, err eio)
            else (let zeroed = zero_netdev kconfig priv in
                let (device, made) = device_init crypto labels r (zeroed.wg) private_key in
                let priv1 : Netdev = record zeroed { wg = device } in
                if not made then (priv1, err einval) else bring_up answers staged priv1)
      ]

-- `wg_genkey`: the text, or -EINVAL, on the random bytes of reading 0.
unfoldable pub genkey : Readings → ℕ → Option Bytes
unfolding clamp_private_key
genkey r outlen =
    if ltb outlen key_strlen
    then none
    else base64_encode (clamp_private_key (r.random 0)) (outlen - 1)

module _ (crypto : Crypto) where
  -- `wg_derive_public_key`
  unfoldable pub derive_public_key : Bytes → Option Bytes
  derive_public_key private_key =
      if crypto.x25519_fails private_key basepoint
      then none
      else some (crypto.x25519 private_key basepoint)

  -- `wg_pubkey`
  unfoldable pub pubkey : Bytes → ℕ → Option Bytes
  pubkey priv_b64 outlen = if ltb outlen key_strlen then none else elim (decode_key priv_b64) [
    | none ↦ none
    | some key ↦ elim (derive_public_key key) [
      | none ↦ none
      | some pub_key ↦ base64_encode pub_key (outlen - 1)
    ]
  ]
