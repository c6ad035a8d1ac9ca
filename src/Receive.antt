-- ===== src/Receive.antt =====
-- The receiving half of netutils/wireguard/nuttx-wireguardif.c: `wg_source_addr_port`,
-- `wg_under_load`, `wg_send_cookie_reply`, `wg_inject_plaintext`, `wg_process_data_message`,
-- `wg_process_udp_packet`.
pub mod Load
pub mod Delivery
pub mod Fresh
pub mod Confirm
pub mod Tunnel
use gsoc2026_nuttx_wireguard.Base.{
  ℕ, ◌+◌, ◌-◌, ◌*◌, ◌/◌, ◌%◌, Bool, true, false, not, ◌&&◌, ◌||◌, List, [], ◌∷◌, ◌++◌, Option, none,
  some, length, get_elem?, get_or, set, take, drop, ltb, leb, ◌==◌, if◌then◌else◌, u16, u32, sub32,
  Bytes,
}
use gsoc2026_nuttx_wireguard.Device.{
  Keypair, Handshake, AllowedIp, Peer, Device, Datagram, Netdev, Readings, later, reject_after_time,
  reject_after_messages, rekey_timeout, authtag_len, max_packet, cookie_len,
}
use gsoc2026_nuttx_wireguard.Replay.{check_replay}
use gsoc2026_nuttx_wireguard.Session.{
  Slot, get_slot, put_slot, expired, keypair_destroy, keypair_update, start_session,
  keypair_for_idx, peer_lookup_by_receiver, peer_lookup_by_handshake, put_peer,
}
use gsoc2026_nuttx_wireguard.Route.{covers, peer_for_dest}
use gsoc2026_nuttx_wireguard.Message.{
  to_little, slice, u32_at, u64_at, get_message_type, transport_header_len, initiation_len,
  response_len, cookie_reply_len, message_handshake_initiation, message_handshake_response,
  message_cookie_reply, message_transport_data,
}
use gsoc2026_nuttx_wireguard.Cookie.{check_mac1, check_mac2, create_cookie_reply, process_cookie}
use gsoc2026_nuttx_wireguard.Handshake.{process_initiation, process_response}
use gsoc2026_nuttx_wireguard.Transport.{
  Os, put_netdev_peer, add_at, encrypt_and_send, send_keepalive, start_handshake,
  send_handshake_response,
}

-- `wg_source_addr_port`: the address as it stands in memory, and the port in network order.
unfoldable pub source_addr_port : ℕ → ℕ → Bytes
source_addr_port addr port = to_little 4 addr ++ (port / 256 % 256 ∷ port % 256 ∷ [])

-- `wg_under_load`, which counts the initiation.
unfoldable pub under_load : ℕ → ℕ → Netdev → Netdev × Bool
under_load threshold now priv =
    let priv' : Netdev =
      if leb 1000 (sub32 now priv.init_window_start)
      then record priv { init_window_start = now; init_count = 0 }
      else priv in
    let count = u32 (priv'.init_count + 1) in
    (record priv' { init_count = count }, ltb threshold count)

-- Whether some allowed-ips entry covers the address: the loop that stops at the first.
unfoldable pub source_allowed : List AllowedIp → ℕ → Bool
source_allowed [] addr = false
source_allowed (allowed ∷ entries) addr = covers allowed addr || source_allowed entries addr

module _ (os : Os) where
  open os use {crypto, sendto_ok, iob_ok, ipv4_reply}

  unfoldable pub send_cookie_reply : Readings → Netdev → Bytes → ℕ → ℕ → ℕ → Netdev
  send_cookie_reply r priv mac1 sender_index addr port =
      let (device, reply) =
        create_cookie_reply crypto r (priv.wg) mac1 sender_index (source_addr_port addr port) in
      record priv {
        wg = device;
        sent = (record { to_ip = addr; to_port = port; payload = reply }) ∷ priv.sent;
      }

  -- `wg_inject_plaintext`. The reply of the stack goes to the peer that its destination names.
  unfoldable pub inject_plaintext : Readings → Netdev → Bytes → Netdev
  inject_plaintext r priv plaintext =
      let len = length plaintext in
      if len == 0 || (ltb max_packet len || not priv.bifup)
      then priv
      else if not (iob_ok plaintext)
      then priv
      else (let priv1 : Netdev = record priv { injected = plaintext ∷ priv.injected } in
          let reply = ipv4_reply plaintext in
          if ltb 0 (length reply) && leb (length reply) max_packet
          then elim (peer_for_dest (priv1.wg) (u32_at reply 16)) [
            | none ↦ priv1
            | some x ↦ (encrypt_and_send os r priv1 x reply).0
          ]
          else priv1)

  -- The decrypted packet goes to the stack if it is IPv4, its source address is allowed for the
  -- peer, and its own length fits what was decrypted; the rest of the length is padding.
  unfoldable pub deliver : Readings → Netdev → Peer → Bytes → ℕ → Netdev
  deliver r priv peer plain pktlen =
      let totlen = get_or plain 2 0 * 256 + get_or plain 3 0 in
      if get_or plain 0 0 / 16 % 16 == 4
      then (if source_allowed peer.allowed_source_ips (u32_at plain 12) && leb totlen pktlen
          then inject_plaintext r priv (take totlen plain)
          else priv)
      else priv

  -- The peer once a packet is authentic and fresh: the endpoint is where the packet came from,
  -- the receive times are set, a next keypair becomes current, and an old one asks for a new
  -- handshake. The keypair is read again through its pointer after `keypair_update`.
  unfoldable pub after_receive : Readings → Peer → Slot → Keypair → ℕ → ℕ → Peer
  after_receive r peer slot keypair addr port =
      let now = r.now 1 in
      let peer1 : Peer = record (put_slot peer slot (record keypair { last_rx = now })) {
        ip = addr;
        port = port;
        last_rx = now;
      } in
      let peer2 = keypair_update peer1 slot in
      let keypair2 = get_slot peer2 slot in
      let margin = sub32 reject_after_time (peer2.keepalive_interval + rekey_timeout) in
      if keypair2.initiator && expired (r.now 2) keypair2.keypair_millis margin
      then record peer2 { send_handshake = true }
      else peer2

  -- The packet of `wg_process_data_message` once its keypair is known to be usable.
  unfoldable pub open_data : Readings → Netdev → ℕ → Peer → Slot → Bytes → ℕ → ℕ → Netdev
  open_data r priv x peer slot msg addr port =
      let keypair = get_slot peer slot in
      let data_len = length msg - transport_header_len in
      let nonce = u64_at msg 8 in
      if ltb data_len authtag_len || ltb max_packet (data_len - authtag_len)
      then priv
      else elim (crypto.aead_decrypt keypair.receiving_key nonce [] (drop 16 msg)) [
        | none ↦ priv
        | some plain ↦
            let (keypair', fresh) = check_replay keypair nonce in
            if not fresh
            then put_netdev_peer priv x (put_slot peer slot keypair')
            else (let peer' = after_receive r peer slot keypair' addr port in
                let priv' : Netdev = record priv {
                  wg = put_peer (priv.wg) x peer';
                  peer_rx_bytes = add_at priv.peer_rx_bytes x data_len;
                  carrier = true;
                } in
                if ltb authtag_len data_len
                then deliver (later 3 r) priv' peer' plain (u16 (data_len - authtag_len))
                else priv')
      ]

  -- `wg_process_data_message` for peer `x`, which is `peer`, on the whole datagram.
  unfoldable pub process_data_message : Readings → Netdev → ℕ → Peer → Bytes → ℕ → ℕ → Netdev
  process_data_message r priv x peer msg addr port = elim (keypair_for_idx peer (u32_at msg 4)) [
    | none ↦ priv
    | some slot ↦
        let keypair = get_slot peer slot in
        if not keypair.receiving_valid
          || (expired (r.now 0) keypair.keypair_millis reject_after_time
              || leb reject_after_messages keypair.replay_counter)
        then put_netdev_peer priv x (put_slot peer slot (keypair_destroy keypair))
        else open_data r priv x peer slot msg addr port
  ]

  -- The initiation once mac1 is right and the load allows it.
  unfoldable pub accept_initiation : Readings → Netdev → Bytes → ℕ → ℕ → Netdev
  accept_initiation r priv msg addr port = elim (process_initiation crypto r (priv.wg) msg) [
    | none ↦ priv
    | some (x, peer) ↦
        send_handshake_response os (later 1 r)
          (put_netdev_peer priv x (record peer { ip = addr; port = port })) x
  ]

  unfoldable pub process_initiation_packet : ℕ → Readings → Netdev → Bytes → ℕ → ℕ → Netdev
  process_initiation_packet threshold r priv msg addr port =
      if not (length msg == initiation_len) || not (check_mac1 crypto (priv.wg) msg)
      then priv
      else (let (priv1, loaded) = under_load threshold (r.now 0) priv in
          if not loaded
          then accept_initiation (later 1 r) priv1 msg addr port
          else (let (device, cookie_ok) =
                check_mac2 crypto (later 1 r) (priv1.wg) msg (source_addr_port addr port) in
              let priv2 : Netdev = record priv1 { wg = device } in
              if not cookie_ok
              then send_cookie_reply (later 3 r) priv2 (slice msg 116 cookie_len) (u32_at msg 4)
                  addr port
              else accept_initiation (later 3 r) priv2 msg addr port))

  unfoldable pub process_response_packet : Readings → Netdev → Bytes → ℕ → ℕ → Netdev
  process_response_packet r priv msg addr port =
      if not (length msg == response_len) || not (check_mac1 crypto (priv.wg) msg)
      then priv
      else elim (peer_lookup_by_handshake (priv.wg) (u32_at msg 8)) [
        | none ↦ priv
        | some x ↦ elim (get_elem? priv.wg.peers x) [
          | none ↦ priv
          | some peer ↦ elim (process_response crypto (priv.wg) peer msg) [
            | none ↦ priv
            | some handshake ↦
                let peer1 : Peer = record peer { handshake = handshake; ip = addr; port = port } in
                let priv1 = put_netdev_peer priv x (start_session crypto (r.now 0) peer1 true) in
                record (send_keepalive os (later 1 r) priv1 x) { carrier = true }
          ]
        ]
      ]

  unfoldable pub process_cookie_packet : Readings → Netdev → Bytes → Netdev
  process_cookie_packet r priv msg =
      if not (length msg == cookie_reply_len)
      then priv
      else elim (peer_lookup_by_handshake (priv.wg) (u32_at msg 4)) [
        | none ↦ priv
        | some x ↦ elim (get_elem? priv.wg.peers x) [
          | none ↦ priv
          | some peer ↦ elim (process_cookie crypto r peer msg) [
            | none ↦ priv
            | some peer1 ↦ start_handshake os (later 1 r) (put_netdev_peer priv x peer1) x
          ]
        ]
      ]

  unfoldable pub process_transport_packet : Readings → Netdev → Bytes → ℕ → ℕ → Netdev
  process_transport_packet r priv msg addr port =
      if not (ltb 16 (length msg))
      then priv
      else elim (peer_lookup_by_receiver (priv.wg) (u32_at msg 4)) [
        | none ↦ priv
        | some x ↦ elim (get_elem? priv.wg.peers x) [
          | none ↦ priv
          | some peer ↦ process_data_message r priv x peer msg addr port
        ]
      ]

  -- `wg_process_udp_packet`, with CONFIG_NET_WIREGUARD_LOAD_THRESHOLD first.
  unfoldable pub process_udp_packet : ℕ → Readings → Netdev → Bytes → ℕ → ℕ → Netdev
  process_udp_packet threshold r priv msg addr port =
      let type = get_message_type msg in
      if type == message_handshake_initiation
      then process_initiation_packet threshold r priv msg addr port
      else if type == message_handshake_response
      then process_response_packet r priv msg addr port
      else if type == message_cookie_reply
      then process_cookie_packet r priv msg
      else if type == message_transport_data
      then process_transport_packet r priv msg addr port
      else priv
