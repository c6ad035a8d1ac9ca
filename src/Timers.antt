-- ===== src/Timers.antt =====
-- `wg_run_timers` of netutils/wireguard/nuttx-wireguardif.c: keep-alives, new handshakes and the
-- expiry of sessions, once on each wakeup of the receiving task.
pub mod Expiry
use gsoc2026_nuttx_wireguard.Base.{
  ℕ, suc, zero, ◌+◌, ◌*◌, Bool, true, false, not, ◌&&◌, ◌||◌, List, [], ◌∷◌, Option, none, some,
  length, get_elem?, ltb, leb, ◌==◌, if◌then◌else◌, sub32,
}
use gsoc2026_nuttx_wireguard.Device.{
  Keypair, Peer, Device, Netdev, Readings, later, reject_after_time, reject_after_messages,
  rekey_timeout,
}
use gsoc2026_nuttx_wireguard.Session.{expired, keypair_destroy}
use gsoc2026_nuttx_wireguard.Transport.{Os, put_netdev_peer, send_keepalive, start_handshake}

-- The first two tests: after three times the limit everything is dropped and the endpoint falls
-- back to the configured one, after the limit the current keypair is dropped.
unfoldable pub expire_keypairs : Readings → Peer → Peer
expire_keypairs r peer =
    let curr = peer.curr_keypair in
    let peer1 : Peer =
      if curr.valid && expired (r.now 0) curr.keypair_millis (reject_after_time * 3)
      then record peer {
        next_keypair = keypair_destroy peer.next_keypair;
        curr_keypair = keypair_destroy curr;
        prev_keypair = keypair_destroy peer.prev_keypair;
        ip = peer.connect_ip;
        port = peer.connect_port;
      }
      else peer in
    let curr1 = peer1.curr_keypair in
    if curr1.valid
      && (expired (r.now 1) curr1.keypair_millis reject_after_time
          || leb reject_after_messages curr1.sending_counter)
    then record peer1 { curr_keypair = keypair_destroy curr1 }
    else peer1

abbrev pub has_session : Peer → Bool
has_session peer = peer.curr_keypair.valid || peer.prev_keypair.valid

unfoldable pub keepalive_due : Readings → Peer → Bool
keepalive_due r peer =
    ltb 0 peer.keepalive_interval
    && (has_session peer && expired (r.now 2) peer.last_tx peer.keepalive_interval)

-- The clock has been read by the keep-alive in between, places 3 to 5.
unfoldable pub should_initiate : Readings → Peer → Bool
should_initiate r peer =
    let can_send_initiation =
      peer.last_initiation_tx == 0 || expired (r.now 6) peer.last_initiation_tx rekey_timeout in
    let rekey_at = sub32 reject_after_time peer.keepalive_interval in
    let curr = peer.curr_keypair in
    can_send_initiation
    && (peer.send_handshake
        || ((curr.valid && (not curr.initiator && expired (r.now 7) curr.keypair_millis rekey_at))
            || (not curr.valid && peer.active)))

module _ (os : Os) where
  unfoldable pub run_keepalive : Readings → Netdev → ℕ → Netdev
  run_keepalive r priv x = elim (get_elem? priv.wg.peers x) [
    | none ↦ priv
    | some peer ↦ if keepalive_due r peer then send_keepalive os (later 3 r) priv x else priv
  ]

  unfoldable pub run_handshake : Readings → Netdev → ℕ → Netdev
  run_handshake r priv x = elim (get_elem? priv.wg.peers x) [
    | none ↦ priv
    | some peer ↦ if should_initiate r peer then start_handshake os (later 8 r) priv x else priv
  ]

  -- One round of the loop, with `link_up` after it.
  unfoldable pub run_peer : Readings → Netdev → ℕ → Bool → Netdev × Bool
  run_peer r priv x link_up = elim (get_elem? priv.wg.peers x) [
    | none ↦ (priv, link_up)
    | some peer ↦
        if not peer.valid
        then (priv, link_up)
        else (let priv1 = put_netdev_peer priv x (expire_keypairs r peer) in
            let priv2 = run_handshake r (run_keepalive r priv1 x) x in
            let up : Bool = elim (get_elem? priv2.wg.peers x) [
              | none ↦ false
              | some p ↦ has_session p
            ] in
            (priv2, link_up || up))
  ]

  -- The loop from peer `x` on, with `left` peers left; each peer has its own readings.
  unfoldable pub run_peers : ℕ → (ℕ → Readings) → Netdev → ℕ → Bool → Netdev × Bool
  run_peers zero rs priv x link_up = (priv, link_up)
  run_peers (suc left) rs priv x link_up =
      let (priv1, link_up1) = run_peer (rs x) priv x link_up in
      run_peers left rs priv1 (x + 1) link_up1

  unfoldable pub run_timers : (ℕ → Readings) → Netdev → Netdev
  run_timers rs priv =
      let (priv1, link_up) = run_peers (length priv.wg.peers) rs priv 0 false in
      if not link_up then record priv1 { carrier = false } else priv1
