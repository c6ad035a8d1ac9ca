-- ===== src/Receive/Confirm.antt =====
-- The first packet on a session that waits to be confirmed.
use gsoc2026_nuttx_wireguard.Base.{
  ℕ, ◌+◌, ◌-◌, ◌≤◌, ◌<◌, true, false, not, ◌||◌, [], length, get_elem?, get_elem?-set_self,
  index-lt, get_or, take, ◌*◌, ◌==◌, some, ltb, leb, ◌≡◌, refl, ap, ◌∙◌, arith, Bytes, Bool-cases,
  inl, inr, u16,
}
use gsoc2026_nuttx_wireguard.Device.{
  Keypair, Peer, Netdev, Readings, later, reject_after_messages, authtag_len, max_packet,
}
use gsoc2026_nuttx_wireguard.Replay.{check_replay}
use gsoc2026_nuttx_wireguard.Session.{next, keypair_destroy, keypair_update, put_peer}
use gsoc2026_nuttx_wireguard.Message.{u64_at, transport_header_len}
use gsoc2026_nuttx_wireguard.Transport.{Os, add_at}
use gsoc2026_nuttx_wireguard.Receive.{
  deliver, inject_plaintext, after_receive, open_data, process_data_message,
}
use gsoc2026_nuttx_wireguard.Receive.Fresh.{Accepted}

-- The keypair `used` is the current one, the old current one the previous one, the next one is
-- empty, and the endpoint is the given one.
pub record Rotated (before : Peer) (used : Keypair) (addr port : ℕ) (after : Peer) : Type 0 where
  pub now_current : after.curr_keypair ≡ used
  pub now_previous : after.prev_keypair ≡ before.curr_keypair
  pub none_next : after.next_keypair.valid ≡ false
  pub from_ip : after.ip ≡ addr
  pub from_port : after.port ≡ port

module _ (os : Os) (silent : (packet : Bytes) → os.ipv4_reply packet ≡ []) where
  inject_plaintext-wg :
      (r : Readings) (priv : Netdev) (plaintext : Bytes)
      → (inject_plaintext os r priv plaintext).wg ≡ priv.wg
  unfolding inject_plaintext
  inject_plaintext-wg r priv plaintext =
      let no_reply = silent plaintext in
      let bad = length plaintext == 0 || (ltb max_packet (length plaintext) || not priv.bifup) in
      elim (Bool-cases bad) [
        | inl dropped ↦ rw dropped refl
        | inr taken ↦ elim (Bool-cases (os.iob_ok plaintext)) [
          | inr full ↦ rw (taken, full) refl
          | inl fits ↦ rw (taken, fits, no_reply) refl
        ]
      ]

  deliver-wg :
      (r : Readings) (priv : Netdev) (peer : Peer) (plain : Bytes) (pktlen : ℕ)
      → (deliver os r priv peer plain pktlen).wg ≡ priv.wg
  unfolding deliver
  deliver-wg r priv peer plain pktlen =
      let totlen = get_or plain 2 0 * 256 + get_or plain 3 0 in
      let same = inject_plaintext-wg r priv (take totlen plain) in ground arith

  module _ (r : Readings) (priv : Netdev) (x : ℕ) (peer : Peer) (msg : Bytes) (addr port : ℕ) where
    abbrev waiting : Keypair
    waiting = peer.next_keypair

    -- What the first packet leaves of the waiting keypair.
    abbrev pub used_keypair : Keypair
    used_keypair = record (check_replay waiting (u64_at msg 8)).0 { last_rx = r.now 1 }

    after_receive-Rotated :
        let keypair = (check_replay waiting (u64_at msg 8)).0 in
        Rotated peer used_keypair addr port (after_receive os r peer next keypair addr port)
    unfolding after_receive keypair_update keypair_destroy
    after_receive-Rotated = record {
      now_current = ground arith;
      now_previous = ground arith;
      none_next = ground arith;
      from_ip = ground arith;
      from_port = ground arith;
    }

    -- Where the network stack does not answer a packet at once: a transport message that is under the
    -- next keypair of a peer, which is still usable, that fits the buffer, is authentic and fresh,
    -- confirms that session. The next keypair, with its window after this message, is the current one
    -- then, the old current one is the previous one, no next one is left, and the endpoint of the peer
    -- is where the message came from.
    pub process_data_message-Rotated :
        (plain : Bytes)
        → get_elem? priv.wg.peers x ≡ some peer
        → Accepted os r priv x peer msg addr port next plain
        → peer.next_keypair.receiving_valid ≡ true
        → peer.next_keypair.replay_counter < reject_after_messages
        → authtag_len ≤ length msg - transport_header_len
        → length msg - transport_header_len ≤ max_packet + authtag_len
        → (after : Peer) × (get_elem?
              (process_data_message os r priv x peer msg addr port).wg.peers
              x
            ≡ some after)
          × Rotated peer used_keypair addr port after
    process_data_message-Rotated plain at accepted usable few long short =
        let data_len = length msg - transport_header_len in
        let keypair' = (check_replay waiting (u64_at msg 8)).0 in
        let after = after_receive os r peer next keypair' addr port in
        let priv' : Netdev = record priv {
          wg = put_peer (priv.wg) x after;
          peer_rx_bytes = add_at priv.peer_rx_bytes x data_len;
          carrier = true;
        } in
        let run = process_data_message os r priv x peer msg addr port in
        let found = accepted.found in
        let young = accepted.young in
        let authentic = accepted.authentic in
        let fresh = accepted.fresh in
        let fits : ltb data_len authtag_len || ltb max_packet (data_len - authtag_len) ≡ false =
          ground arith in
        let counted : leb reject_after_messages waiting.replay_counter ≡ false = ground arith in
        let opens : run ≡ open_data os r priv x peer next msg addr port =
          unfold process_data_message in
          rw (found, process_data_message, usable, young, counted) refl in
        let kept : run.wg ≡ priv'.wg =
          ap (λ (p : Netdev). p.wg) opens ∙ elim (Bool-cases (ltb authtag_len data_len)) [
            | inr empty ↦ unfold open_data in rw (fits, authentic, open_data, fresh, empty) refl
            | inl full ↦
                unfold open_data in
                rw (fits, authentic, open_data, fresh, full)
                  (deliver-wg (later 3 r) priv' after plain (u16 (data_len - authtag_len)))
          ] in
        let stored : get_elem? priv'.wg.peers x ≡ some after =
          unfold put_peer in
          get_elem?-set_self priv.wg.peers x after (index-lt priv.wg.peers x at) in
        (after, rw kept stored, after_receive-Rotated)
