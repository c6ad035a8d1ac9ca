-- ===== src/Transport.antt =====
-- The sending half of netutils/wireguard/nuttx-wireguardif.c: `wg_encrypt_and_send`,
-- `wg_send_keepalive`, the two handshake senders and `wg_txpoll`. The buffer in which a message is
-- built is the byte string that is sent.
pub mod Nonce
use gsoc2026_nuttx_wireguard.Base.{
  ℕ, ◌+◌, ◌-◌, ◌*◌, ◌/◌, Bool, true, false, not, ◌&&◌, ◌||◌, List, [], ◌∷◌, ◌++◌, Option, none,
  some, length, get_elem?, get_or, set, replicate, ltb, leb, ◌==◌, if◌then◌else◌, u64, Bytes, ntohl,
}
use gsoc2026_nuttx_wireguard.Device.{
  Keypair, Peer, Device, Datagram, Netdev, Readings, later, reject_after_time,
  reject_after_messages, rekey_after_time, rekey_after_messages, authtag_len, crypt_bufsize,
  max_packet, cookie_len,
}
use gsoc2026_nuttx_wireguard.Crypto.{Crypto}
use gsoc2026_nuttx_wireguard.Session.{
  Slot, curr, prev, get_slot, put_slot, expired, keypair_destroy, put_peer, start_session,
}
use gsoc2026_nuttx_wireguard.Route.{peer_for_dest}
use gsoc2026_nuttx_wireguard.Message.{transport_header, slice, u32_at}
use gsoc2026_nuttx_wireguard.Handshake.{create_initiation, create_response}

-- What the glue calls outside the repository: the primitives; whether `psock_sendto` takes a
-- datagram; whether an iob can be had for a packet and filled; and the packet that `ipv4_input`
-- leaves for an immediate reply, empty if there is none.
pub record Os : Type 0 where
  pub crypto : Crypto
  pub sendto_ok : Datagram → Bool
  pub iob_ok : Bytes → Bool
  pub ipv4_reply : Bytes → Bytes

abbrev pub put_netdev_peer : Netdev → ℕ → Peer → Netdev
put_netdev_peer priv x peer = record priv { wg = put_peer (priv.wg) x peer }

-- `array[x] += n` on an array of `uint64_t`.
abbrev pub add_at : List ℕ → ℕ → ℕ → List ℕ
add_at counts x n = set counts x (u64 (get_or counts x 0 + n))

-- `(n + 15) & ~15`
abbrev pub padded_len : ℕ → ℕ
padded_len n = (n + 15) / 16 * 16

-- A responder that has not yet received on its current keypair uses the previous one.
unfoldable pub sending_slot : Peer → Slot
sending_slot peer =
    let keypair = peer.curr_keypair in
    if keypair.valid && (not keypair.initiator && keypair.last_rx == 0) then prev else curr

-- `send_handshake` is asked for when the keypair gets old.
abbrev needs_rekey : ℕ → Keypair → Bool
needs_rekey now keypair =
    leb rekey_after_messages keypair.sending_counter
    || (keypair.initiator && expired now keypair.keypair_millis rekey_after_time)

-- The peer after `psock_sendto`: the counter has moved on, the transmit times are set if the
-- datagram was taken, and a new handshake is asked for if the keypair is getting old.
unfoldable pub after_send : Readings → Bool → Peer → Slot → Peer
after_send r ok peer slot =
    let keypair = get_slot peer slot in
    let keypair' : Keypair = record keypair {
      sending_counter = u64 (keypair.sending_counter + 1);
      last_tx = if ok then r.now 1 else keypair.last_tx;
    } in
    record (put_slot peer slot keypair') {
      last_tx = if ok then r.now 1 else peer.last_tx;
      send_handshake = needs_rekey (r.now 2) keypair' || peer.send_handshake;
    }

module _ (os : Os) where
  open os use {crypto, sendto_ok}

  -- The transport message for a plaintext, padded with zeros, with the keypair's next counter.
  unfoldable pub transport_message : Keypair → Bytes → Bytes
  transport_message keypair plaintext =
      let padding = replicate (padded_len (length plaintext) - length plaintext) 0 in
      transport_header keypair.remote_index keypair.sending_counter
      ++ crypto.aead_encrypt keypair.sending_key keypair.sending_counter [] (plaintext ++ padding)

  -- The part after the checks, on a keypair that may be used: encrypt, send, count.
  unfoldable pub send_sealed : Readings → Netdev → ℕ → Peer → Slot → Bytes → Netdev × Bool
  send_sealed r priv x peer slot plaintext =
      let keypair = get_slot peer slot in
      let datagram : Datagram = record {
        to_ip = peer.ip;
        to_port = peer.port;
        payload = transport_message keypair plaintext;
      } in
      let ok = sendto_ok datagram in
      let total_len = 16 + padded_len (length plaintext) + authtag_len in
      (
        record priv {
          wg = put_peer (priv.wg) x (after_send r ok peer slot);
          sent = datagram ∷ priv.sent;
          peer_tx_bytes =
              if ok then add_at priv.peer_tx_bytes x (total_len - 16) else priv.peer_tx_bytes;
        },
        ok,
      )

  -- `wg_encrypt_and_send` to peer `x`, which is `peer`.
  unfoldable pub send_to_peer : Readings → Netdev → ℕ → Peer → Bytes → Netdev × Bool
  send_to_peer r priv x peer plaintext =
      let slot = sending_slot peer in
      let keypair = get_slot peer slot in
      if not keypair.valid || (not keypair.initiator && keypair.last_rx == 0)
      then (priv, false)
      else if expired (r.now 0) keypair.keypair_millis reject_after_time
          || leb reject_after_messages keypair.sending_counter
      then (put_netdev_peer priv x (put_slot peer slot (keypair_destroy keypair)), false)
      else if ltb crypt_bufsize (16 + padded_len (length plaintext) + authtag_len)
      then (priv, false)
      else send_sealed r priv x peer slot plaintext

  unfoldable pub encrypt_and_send : Readings → Netdev → ℕ → Bytes → Netdev × Bool
  encrypt_and_send r priv x plaintext = elim (get_elem? priv.wg.peers x) [
    | none ↦ (priv, false)
    | some peer ↦ send_to_peer r priv x peer plaintext
  ]

  unfoldable pub send_keepalive : Readings → Netdev → ℕ → Netdev
  send_keepalive r priv x = (encrypt_and_send r priv x []).0

  -- `wg_start_handshake`; the clock is read again for `last_initiation_tx`. mac1 stands before
  -- mac2 at the end of the message.
  unfoldable pub start_handshake : Readings → Netdev → ℕ → Netdev
  start_handshake r priv x = elim (get_elem? priv.wg.peers x) [
    | none ↦ priv
    | some peer ↦
        let (handshake, made) = create_initiation crypto r (priv.wg) peer in
        let peer1 : Peer = record peer { handshake = handshake } in
        elim made [
          | none ↦ put_netdev_peer priv x peer1
          | some msg ↦
              let datagram : Datagram = record {
                to_ip = peer.ip;
                to_port = peer.port;
                payload = msg;
              } in
              record priv {
                wg = put_peer (priv.wg) x (record peer1 {
                  send_handshake = false;
                  last_initiation_tx = r.now 3;
                  handshake_mac1 = slice msg (length msg - 2 * cookie_len) cookie_len;
                  handshake_mac1_valid = true;
                });
                sent = datagram ∷ priv.sent;
              }
        ]
  ]

  unfoldable pub send_handshake_response : Readings → Netdev → ℕ → Netdev
  send_handshake_response r priv x = elim (get_elem? priv.wg.peers x) [
    | none ↦ priv
    | some peer ↦
        let (handshake, made) = create_response crypto r (priv.wg) peer in
        let peer1 : Peer = record peer { handshake = handshake } in
        elim made [
          | none ↦ put_netdev_peer priv x peer1
          | some msg ↦
              let datagram : Datagram = record {
                to_ip = peer.ip;
                to_port = peer.port;
                payload = msg;
              } in
              record priv {
                wg = put_peer (priv.wg) x (start_session crypto (r.now 3) peer1 false);
                sent = datagram ∷ priv.sent;
              }
        ]
  ]

  -- `wg_txpoll`, for the packet in `dev->d_iob`, `none` where the pointer is NULL. The destination
  -- address is at byte 16 of the header; a byte past the packet is read from the scratch buffer,
  -- here as zero.
  unfoldable pub txpoll : Readings → Netdev → Option Bytes → Netdev
  txpoll r priv none = priv
  txpoll r priv (some packet) =
      if ltb 0 (length packet) && leb (length packet) max_packet
      then elim (peer_for_dest (priv.wg) (u32_at packet 16)) [
        | none ↦ priv
        | some x ↦ (encrypt_and_send r priv x packet).0
      ]
      else priv

  -- `devif_poll` hands over the packets of the stack in turn.
  unfoldable pub poll_all : Netdev → List (Readings × Option Bytes) → Netdev
  poll_all priv [] = priv
  poll_all priv ((r, packet) ∷ packets) = poll_all (txpoll r priv packet) packets

  -- `wg_txavail_work`
  unfoldable pub txavail_work : Netdev → List (Readings × Option Bytes) → Netdev
  txavail_work priv packets = let rest = poll_all priv packets in if priv.bifup then rest else priv
