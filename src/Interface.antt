-- ===== src/Interface.antt =====
-- `wg_ifup` and `wg_ifdown` of netutils/wireguard/nuttx-wireguardif.c, which start and end the
-- peers of wg0.
pub mod Down
use gsoc2026_nuttx_wireguard.Base.{
  ℕ, ◌+◌, Bool, true, false, not, ◌&&◌, List, [], ◌∷◌, Option, none, some, length, ltb, ◌==◌, map,
  if◌then◌else◌,
}
use gsoc2026_nuttx_wireguard.Device.{Peer, Device, Netdev, zero_handshake}
use gsoc2026_nuttx_wireguard.Session.{keypair_destroy}

-- A peer with a configured endpoint is to be called.
unfoldable pub activate : Peer → Peer
activate peer =
    if peer.valid && (not (peer.connect_ip == 0) && ltb 0 peer.connect_port)
    then record peer {
      active = true;
      ip = peer.connect_ip;
      port = peer.connect_port;
      send_handshake = true;
    }
    else peer

unfoldable pub ifup : Netdev → Netdev
ifup priv = record priv {
  bifup = true;
  carrier = true;
  wg = record (priv.wg) { peers = map activate priv.wg.peers };
}

-- What `wg_ifdown` does to one peer: all its sessions and its handshake end.
unfoldable pub deactivate : Peer → Peer
deactivate peer = if not peer.valid then peer else record peer {
  curr_keypair = keypair_destroy peer.curr_keypair;
  prev_keypair = keypair_destroy peer.prev_keypair;
  next_keypair = keypair_destroy peer.next_keypair;
  handshake = zero_handshake;
  handshake_mac1_valid = false;
  active = false;
  send_handshake = false;
  ip = peer.connect_ip;
  port = peer.connect_port;
}

unfoldable pub ifdown : Netdev → Netdev
ifdown priv = record priv {
  carrier = false;
  bifup = false;
  wg = record (priv.wg) { peers = map deactivate priv.wg.peers };
}
