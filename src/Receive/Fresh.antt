-- ===== src/Receive/Fresh.antt =====
-- What a transport packet can change, and what it must be for that.
use gsoc2026_nuttx_wireguard.Base.{
  ℕ, ◌-◌, true, false, not, ◌||◌, [], some, length, get_elem?, drop, get_elem?-set_self, index-lt,
  ltb, leb, ◌≡◌, ◌⊎◌, inl, inr, refl, sym, subst, arith, Bytes, Bool-cases, Option-cases, u16,
}
use gsoc2026_nuttx_wireguard.Device.{
  Keypair, Peer, Netdev, Readings, later, reject_after_time, reject_after_messages, authtag_len,
  max_packet,
}
use gsoc2026_nuttx_wireguard.Replay.{check_replay}
use gsoc2026_nuttx_wireguard.Session.{
  Slot, curr, prev, next, get_slot, put_slot, expired, keypair_destroy, keypair_for_idx, put_peer,
}
use gsoc2026_nuttx_wireguard.Message.{u32_at, u64_at, transport_header_len}
use gsoc2026_nuttx_wireguard.Transport.{Os, put_netdev_peer, add_at}
use gsoc2026_nuttx_wireguard.Receive.{deliver, after_receive, open_data, process_data_message}
use gsoc2026_nuttx_wireguard.Receive.Delivery.{Delivered, deliver-Delivered, after_receive-allowed}

put_slot-endpoint :
    (peer : Peer) (slot : Slot) (keypair : Keypair)
    → ((put_slot peer slot keypair).ip ≡ peer.ip)
      × ((put_slot peer slot keypair).port ≡ peer.port)
      × ((put_slot peer slot keypair).last_rx ≡ peer.last_rx)
put_slot-endpoint peer curr keypair = (refl, refl, refl)
put_slot-endpoint peer prev keypair = (refl, refl, refl)
put_slot-endpoint peer next keypair = (refl, refl, refl)

module _ (os : Os) (r : Readings) (priv : Netdev) (x : ℕ) (peer : Peer) (msg : Bytes)
    (addr port : ℕ) where
  -- The packet is under a session that may still be used, it is authentic, and its counter has not
  -- been seen.
  pub record Accepted (slot : Slot) (plain : Bytes) : Type 0 where
    pub found : keypair_for_idx peer (u32_at msg 4) ≡ some slot
    pub young : expired (r.now 0) (get_slot peer slot).keypair_millis reject_after_time ≡ false
    pub authentic :
        os.crypto.aead_decrypt (get_slot peer slot).receiving_key (u64_at msg 8) [] (drop 16 msg)
        ≡ some plain
    pub fresh : (check_replay (get_slot peer slot) (u64_at msg 8)).1 ≡ true

  -- Nothing is sent or delivered, and the peer keeps its endpoint and its receive time.
  pub record Dropped (after : Netdev) : Type 0 where
    pub silent : after.sent ≡ priv.sent
    pub undelivered : after.injected ≡ priv.injected
    pub kept : Peer
    pub stored : get_elem? after.wg.peers x ≡ some kept
    pub same_ip : kept.ip ≡ peer.ip
    pub same_port : kept.port ≡ peer.port
    pub same_last_rx : kept.last_rx ≡ peer.last_rx

  abbrev pub DataOutcome : Netdev → Type 0
  DataOutcome after =
      Dropped after
      ⊎ ((slot : Slot) × (plain : Bytes) × Accepted slot plain × Delivered os priv peer plain after)

  ends_as : (call after : Netdev) → call ≡ after → DataOutcome after → DataOutcome call
  ends_as call after e = subst DataOutcome (sym e)

  dropped_as_is : get_elem? priv.wg.peers x ≡ some peer → DataOutcome priv
  dropped_as_is at = inl (record {
    silent = refl;
    undelivered = refl;
    kept = peer;
    stored = at;
    same_ip = refl;
    same_port = refl;
    same_last_rx = refl;
  })

  dropped_with :
      (slot : Slot) (keypair : Keypair)
      → get_elem? priv.wg.peers x ≡ some peer
      → DataOutcome (put_netdev_peer priv x (put_slot peer slot keypair))
  unfolding put_peer
  dropped_with slot keypair at =
      let (ip, prt, rx) = put_slot-endpoint peer slot keypair in
      inl (record {
        silent = refl;
        undelivered = refl;
        kept = put_slot peer slot keypair;
        stored = get_elem?-set_self priv.wg.peers x _ (index-lt priv.wg.peers x at);
        same_ip = ip;
        same_port = prt;
        same_last_rx = rx;
      })

  -- The packet once it is known to be accepted.
  fresh-Outcome :
      (slot : Slot) (plain : Bytes)
      → Accepted slot plain
      → ltb (length msg - transport_header_len) authtag_len
          || ltb max_packet (length msg - transport_header_len - authtag_len)
        ≡ false
      → DataOutcome (open_data os r priv x peer slot msg addr port)
  unfolding after_receive
  fresh-Outcome slot plain accepted fits =
      let data_len = length msg - transport_header_len in
      let keypair' = (check_replay (get_slot peer slot) (u64_at msg 8)).0 in
      let run = open_data os r priv x peer slot msg addr port in
      let authentic = accepted.authentic in
      let fresh = accepted.fresh in
      let peer' = after_receive os r peer slot keypair' addr port in
      let allowed = after_receive-allowed os r peer slot keypair' addr port in
      let priv' : Netdev = record priv {
        wg = put_peer (priv.wg) x peer';
        peer_rx_bytes = add_at priv.peer_rx_bytes x data_len;
        carrier = true;
      } in
      let pktlen = u16 (data_len - authtag_len) in
      elim (Bool-cases (ltb authtag_len data_len)) [
        | inr empty ↦
            ends_as run priv'
              (unfold open_data in rw (fits, authentic, open_data, fresh, empty) refl)
              (inr (slot, plain, accepted, inl refl))
        | inl full ↦
            let delivered = deliver-Delivered os (later 3 r) priv' peer' plain pktlen in
            ends_as run (deliver os (later 3 r) priv' peer' plain pktlen)
              (unfold open_data in rw (fits, authentic, open_data, fresh, full) refl)
              (inr (slot, plain, accepted, rw allowed at delivered))
      ]

  open_data-Outcome :
      (slot : Slot)
      → get_elem? priv.wg.peers x ≡ some peer
      → keypair_for_idx peer (u32_at msg 4) ≡ some slot
      → expired (r.now 0) (get_slot peer slot).keypair_millis reject_after_time ≡ false
      → DataOutcome (open_data os r priv x peer slot msg addr port)
  open_data-Outcome slot at found young =
      let keypair = get_slot peer slot in
      let data_len = length msg - transport_header_len in
      let nonce = u64_at msg 8 in
      let opened = os.crypto.aead_decrypt keypair.receiving_key nonce [] (drop 16 msg) in
      let bad_len = ltb data_len authtag_len || ltb max_packet (data_len - authtag_len) in
      let checked = check_replay keypair nonce in
      let run = open_data os r priv x peer slot msg addr port in
      elim (Bool-cases bad_len) [
        | inl long ↦ ends_as run priv (unfold open_data in rw long refl) (dropped_as_is at)
        | inr fits ↦ elim (Option-cases opened) [
          | inl forged ↦
              ends_as run priv (unfold open_data in rw (fits, forged, open_data) refl)
                (dropped_as_is at)
          | inr (plain, authentic) ↦ elim (Bool-cases (checked.1)) [
            | inr seen ↦
                ends_as run (put_netdev_peer priv x (put_slot peer slot (checked.0)))
                  (unfold open_data in rw (fits, authentic, open_data, seen) refl)
                  (dropped_with slot (checked.0) at)
            | inl fresh ↦
                fresh-Outcome slot plain
                  (record { found = found; young = young; authentic = authentic; fresh = fresh })
                  fits
          ]
        ]
      ]

  -- A transport packet for a peer either leaves its endpoint and receive time alone, with nothing
  -- sent or delivered; or it is authentic under a session that is young enough and fresh to its
  -- window, and then at most one packet goes to the stack: the decrypted one, cut to its own
  -- length, and only from a source that the peer's allowed-ips cover.
  pub process_data_message-Outcome :
      get_elem? priv.wg.peers x ≡ some peer
      → DataOutcome (process_data_message os r priv x peer msg addr port)
  process_data_message-Outcome at =
      let run = process_data_message os r priv x peer msg addr port in
      elim (Option-cases (keypair_for_idx peer (u32_at msg 4))) [
        | inl unknown ↦
            ends_as run priv
              (unfold process_data_message in rw (unknown, process_data_message) refl)
              (dropped_as_is at)
        | inr (slot, found) ↦
            let keypair = get_slot peer slot in
            let spent =
              not keypair.receiving_valid
              || (expired (r.now 0) keypair.keypair_millis reject_after_time
                  || leb reject_after_messages keypair.replay_counter) in
            elim (Bool-cases spent) [
              | inl over ↦
                  ends_as run
                    (put_netdev_peer priv x (put_slot peer slot (keypair_destroy keypair)))
                    (unfold process_data_message in rw (found, process_data_message, over) refl)
                    (dropped_with slot (keypair_destroy keypair) at)
              | inr usable ↦
                  ends_as run (open_data os r priv x peer slot msg addr port)
                    (unfold process_data_message in rw (found, process_data_message, usable) refl)
                    (open_data-Outcome slot at found (ground arith))
            ]
      ]
