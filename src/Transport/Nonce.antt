-- ===== src/Transport/Nonce.antt =====
-- When a packet goes out, and with which counter.
use gsoc2026_nuttx_wireguard.Base.{
  ℕ, ◌+◌, ◌≤◌, ◌<◌, Bool, true, false, not, ◌&&◌, ◌||◌, ◌∷◌, some, length, get_elem?,
  get_elem?-set_self, index-lt, ltb, leb, ◌==◌, ◌≡◌, ◌≢◌, ◌⊎◌, inl, inr, refl, sym, subst, arith,
  Bytes, Bool-cases,
}
use gsoc2026_nuttx_wireguard.Device.{
  Keypair, Peer, Netdev, Readings, reject_after_time, reject_after_messages, crypt_bufsize,
  authtag_len,
}
use gsoc2026_nuttx_wireguard.Session.{
  Slot, curr, prev, next, get_slot, put_slot, expired, keypair_destroy, put_peer,
}
use gsoc2026_nuttx_wireguard.Transport.{
  Os, padded_len, sending_slot, transport_message, after_send, send_sealed, send_to_peer,
  encrypt_and_send, put_netdev_peer,
}

-- The counter moves on by one below the limit, in the slot that is used and in no other.
after_send_lem :
    (r : Readings) (ok : Bool) (peer : Peer) (slot : Slot)
    → (get_slot peer slot).sending_counter < reject_after_messages
    → ((get_slot (after_send r ok peer slot) slot).sending_counter
        ≡ (get_slot peer slot).sending_counter + 1)
      × ((get_slot (after_send r ok peer slot) slot).sending_key ≡ (get_slot peer slot).sending_key)
unfolding after_send
after_send_lem r ok peer curr h = (omega arith, refl)
after_send_lem r ok peer prev h = (omega arith, refl)
after_send_lem r ok peer next h = (omega arith, refl)

after_send_others :
    (r : Readings) (ok : Bool) (peer : Peer) (slot s : Slot)
    → s ≢ slot
    → get_slot (after_send r ok peer slot) s ≡ get_slot peer s
unfolding after_send
after_send_others r ok peer curr curr h = absurd (h refl)
after_send_others r ok peer curr prev h = refl
after_send_others r ok peer curr next h = refl
after_send_others r ok peer prev curr h = refl
after_send_others r ok peer prev prev h = absurd (h refl)
after_send_others r ok peer prev next h = refl
after_send_others r ok peer next curr h = refl
after_send_others r ok peer next prev h = refl
after_send_others r ok peer next next h = absurd (h refl)

module _ (os : Os) (r : Readings) (priv : Netdev) (x : ℕ) (peer : Peer) (plaintext : Bytes) where
  -- The keypair may carry one more packet at this time.
  pub record MaySend (keypair : Keypair) : Type 0 where
    pub live : keypair.valid ≡ true
    pub confirmed : (keypair.initiator ≡ true) ⊎ (keypair.last_rx ≢ 0)
    pub young : expired (r.now 0) keypair.keypair_millis reject_after_time ≡ false
    pub counter_left : keypair.sending_counter < reject_after_messages
    pub fits : 16 + padded_len (length plaintext) + authtag_len ≤ crypt_bufsize

  -- One datagram went to the peer's endpoint under the keypair's counter, which moved on by one;
  -- the keypair keeps its key, and the other keypairs are as they were.
  pub record Sent (slot : Slot) (result : Netdev) : Type 0 where
    pub keypair_ok : MaySend (get_slot peer slot)
    pub log :
        result.sent
        ≡ (record {
          to_ip = peer.ip;
          to_port = peer.port;
          payload = transport_message os (get_slot peer slot) plaintext;
        })
          ∷ priv.sent
    pub after : Peer
    pub stored : get_elem? result.wg.peers x ≡ some after
    pub counted : (get_slot after slot).sending_counter ≡ (get_slot peer slot).sending_counter + 1
    pub same_key : (get_slot after slot).sending_key ≡ (get_slot peer slot).sending_key
    pub others : (s : Slot) → s ≢ slot → get_slot after s ≡ get_slot peer s

  sealed-Sent :
      (slot : Slot)
      → get_elem? priv.wg.peers x ≡ some peer
      → MaySend (get_slot peer slot)
      → Sent slot (send_sealed os r priv x peer slot plaintext).0
  unfolding send_sealed put_peer
  sealed-Sent slot at ok =
      let (counted, same_key) = after_send_lem r _ peer slot ok.counter_left in
      record {
        keypair_ok = ok;
        log = refl;
        after = _;
        stored = get_elem?-set_self priv.wg.peers x _ (index-lt priv.wg.peers x at);
        counted = counted;
        same_key = same_key;
        others = after_send_others r _ peer slot;
      }

  abbrev pub Outcome : Netdev × Bool → Type 0
  Outcome (result, returned) =
      ((result.sent ≡ priv.sent) × (returned ≡ false)) ⊎ ((slot : Slot) × Sent slot result)

  ends_with :
      (p : Netdev × Bool)
      → send_to_peer os r priv x peer plaintext ≡ p
      → Outcome p
      → Outcome (send_to_peer os r priv x peer plaintext)
  ends_with p e o = subst Outcome (sym e) o

  send_to_peer-Outcome :
      get_elem? priv.wg.peers x ≡ some peer → Outcome (send_to_peer os r priv x peer plaintext)
  send_to_peer-Outcome at =
      let slot = sending_slot peer in
      let keypair = get_slot peer slot in
      let unready = not keypair.initiator && keypair.last_rx == 0 in
      let late = expired (r.now 0) keypair.keypair_millis reject_after_time in
      let spent = leb reject_after_messages keypair.sending_counter in
      let long = ltb crypt_bufsize (16 + padded_len (length plaintext) + authtag_len) in
      elim (Bool-cases (not keypair.valid || unready)) [
        | inl e ↦ ends_with (priv, false) (unfold send_to_peer in rw e) (inl (refl, refl))
        | inr live ↦ elim (Bool-cases (late || spent)) [
          | inl e ↦
              ends_with
                (put_netdev_peer priv x (put_slot peer slot (keypair_destroy keypair)), false)
                (unfold send_to_peer in rw (live, e)) (inl (refl, refl))
          | inr young ↦ elim (Bool-cases long) [
            | inl e ↦
                ends_with (priv, false) (unfold send_to_peer in rw (live, young, e))
                  (inl (refl, refl))
            | inr fits ↦
                ends_with (send_sealed os r priv x peer slot plaintext)
                  (unfold send_to_peer in rw (live, young, fits))
                  (inr (
                    slot,
                    sealed-Sent slot at (record {
                      live = ground arith;
                      confirmed = ground arith;
                      young = ground arith;
                      counter_left = ground arith;
                      fits = ground arith;
                    }),
                  ))
          ]
        ]
      ]

  -- A call of `encrypt_and_send` to a peer either sends nothing and returns false, or it sends one
  -- transport message, under a valid, confirmed keypair that is younger than the limit, with a
  -- counter below the limit that it then raises by one.
  pub encrypt_and_send-Outcome :
      get_elem? priv.wg.peers x ≡ some peer → Outcome (encrypt_and_send os r priv x plaintext)
  encrypt_and_send-Outcome at =
      let e : encrypt_and_send os r priv x plaintext ≡ send_to_peer os r priv x peer plaintext =
        unfold encrypt_and_send in rw (at, encrypt_and_send) in
      subst Outcome (sym e) (send_to_peer-Outcome at)
