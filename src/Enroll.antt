-- ===== src/Enroll.antt =====
-- The peers of a device that comes up: `wg_add_peer` and `wg_configure_peer` of
-- netutils/wireguard/nuttx-wireguardif.c, with `wireguard_peer_init` and `wireguard_device_init`
-- of wireguard.c.
use gsoc2026_nuttx_wireguard.Base.{
  ℕ, Bool, true, false, not, List, [], ◌∷◌, Option, none, some, length, set, ltb, ◌==◌,
  if◌then◌else◌, Bytes, codes, u16,
}
use gsoc2026_nuttx_wireguard.Device.{
  AllowedIp, Peer, Device, Readings, zero_key, zero_peer, zero_allowed_ip,
}
use gsoc2026_nuttx_wireguard.Crypto.{Crypto}
use gsoc2026_nuttx_wireguard.Session.{peer_alloc, put_peer}
use gsoc2026_nuttx_wireguard.Handshake.{clamp_private_key, generate_public_key}
use gsoc2026_nuttx_wireguard.Config.{Kconfig, Libc, pos, negsuc}
use gsoc2026_nuttx_wireguard.Staged.{StagedPeer, Staged, decode_key, kconfig_peer}

-- LABEL_MAC1 and LABEL_COOKIE, as arguments of `wireguard_mac_key`
pub record Labels : Type 0 where
  pub mac1 : Bytes
  pub cookie : Bytes

abbrev pub wire_labels : Labels
wire_labels = record { mac1 = codes "mac1----"; cookie = codes "cookie--" }

module _ (crypto : Crypto) (labels : Labels) where
  -- `wireguard_peer_init` without a preshared key, into the zeroed peer.
  unfoldable pub peer_init : Device → Peer → Bytes → Peer
  peer_init device zeroed public_key =
      if not device.valid
      then zeroed
      else (let keyed : Peer = record zeroed {
        public_key = public_key;
        preshared_key = zero_key;
      } in
          if crypto.x25519_fails device.private_key public_key then keyed else record keyed {
            public_key_dh = crypto.x25519 device.private_key public_key;
            label_mac1_key = crypto.mac_key public_key labels.mac1;
            label_cookie_key = crypto.mac_key public_key labels.cookie;
            valid = true;
          })

  -- `wireguard_device_init` on a zeroed device. The public key is computed from the key as it was
  -- given, before clamping.
  unfoldable pub device_init : Readings → Device → Bytes → Device × Bool
  unfolding clamp_private_key
  device_init r device private_key = elim (generate_public_key crypto private_key) [
    | none ↦ (record device { private_key = zero_key; valid = false }, false)
    | some public_key ↦ (
      record device {
        private_key = clamp_private_key private_key;
        public_key = public_key;
        valid = true;
        cookie_secret = r.random 1;
        cookie_secret_millis = r.now 0;
        label_mac1_key = crypto.mac_key public_key labels.mac1;
        label_cookie_key = crypto.mac_key public_key labels.cookie;
      },
      true,
    )
  ]

  module _ (libc : Libc) (kconfig : Kconfig) where
    open libc use {inet_pton}

    -- Entry 0 of the allowed-ips, usable only if both texts parse.
    unfoldable pub allowed_entry : StagedPeer → AllowedIp
    allowed_entry cfg = elim (inet_pton cfg.allowed_ip) [
      | none ↦ zero_allowed_ip
      | some ip ↦ elim (inet_pton cfg.allowed_mask) [
        | none ↦ record { valid = false; ip = ip; mask = 0 }
        | some mask ↦ record { valid = true; ip = ip; mask = mask }
      ]
    ]

    -- The settings of a peer whose initialisation succeeded.
    unfoldable pub configure : StagedPeer → Peer → Peer
    configure cfg peer =
        let interval : ℕ = elim cfg.keepalive [
          | pos n ↦ u16 n
          | negsuc n ↦ kconfig.peer_keepalive
        ] in
        let peer1 : Peer = record peer {
          keepalive_interval = interval;
          allowed_source_ips = set peer.allowed_source_ips 0 (allowed_entry cfg);
        } in
        let endpoint : Option ℕ =
          if 0 == length cfg.endpoint_ip then none else inet_pton cfg.endpoint_ip in
        elim endpoint [
          | none ↦ peer1
          | some addr ↦
              let port =
                if cfg.endpoint_port == 0 then kconfig.peer_endpoint_port else cfg.endpoint_port in
              record peer1 { connect_ip = addr; connect_port = port; ip = addr; port = port }
        ]

    -- `wg_add_peer`
    unfoldable pub add_peer : Device → StagedPeer → Device
    add_peer device cfg = elim (decode_key cfg.public_key) [
      | none ↦ device
      | some public_key ↦ elim (peer_alloc device) [
        | none ↦ device
        | some x ↦
            let peer =
              peer_init device (zero_peer kconfig.replay_words kconfig.max_src_ips) public_key in
            if peer.valid then put_peer device x (configure cfg peer) else put_peer device x peer
      ]
    ]

    unfoldable pub add_peers : Device → List StagedPeer → Device
    add_peers device [] = device
    add_peers device (cfg ∷ cfgs) = add_peers (add_peer device cfg) cfgs

    -- `wg_configure_peer`
    unfoldable pub configure_peer : Staged → Device → Device
    configure_peer staged device =
        if ltb 0 (length staged.peers)
        then add_peers device staged.peers
        else if length kconfig.peer_public_key == 0
        then device
        else add_peer device (kconfig_peer kconfig)
