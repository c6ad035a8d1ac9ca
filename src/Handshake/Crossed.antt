-- ===== src/Handshake/Crossed.antt =====
-- A whole handshake between two devices: the sessions fit together.
use gsoc2026_nuttx_wireguard.Base.{
  ℕ, ◌^◌, ◌<◌, true, false, not, [], ◌&&◌, some, length, ltb, ◌==◌, sub32, ◌≡◌, refl, ap, Bytes,
  str_eq, if_lem,
}
use gsoc2026_nuttx_wireguard.Device.{Keypair, Handshake, Peer, Device, Readings, zero_key}
use gsoc2026_nuttx_wireguard.Crypto.{Crypto}
use gsoc2026_nuttx_wireguard.Session.{start_session, add_new_keypair}
use gsoc2026_nuttx_wireguard.Handshake.{
  basepoint, bytes_lt, create_initiation, create_response, process_initiation, process_response,
}
use gsoc2026_nuttx_wireguard.Handshake.Agree.{
  Lawful, Ephemeral, Acquainted, ephemeral_key, initiation-Halfway,
}
use gsoc2026_nuttx_wireguard.Handshake.Answer.{Finished, response-Finished}

-- What one side sends, the other can receive.
pub record Crossed (ours theirs : Keypair) : Type 0 where
  pub sending : ours.sending_key ≡ theirs.receiving_key
  pub receiving : ours.receiving_key ≡ theirs.sending_key
  pub their_index : ours.remote_index ≡ theirs.local_index
  pub our_index : theirs.remote_index ≡ ours.local_index
  pub usable : (ours.valid ≡ true) × (theirs.valid ≡ true)

module _ (crypto : Crypto) where
  -- The session of an initiator becomes the current one, that of a responder the next one.
  sessions-Crossed :
      (to from : Peer) (h h' theirs : Handshake) (now now' : ℕ)
      → Finished h h' theirs
      → Crossed
          (start_session crypto now (record to { handshake = h' }) true).curr_keypair
          (start_session crypto now' (record from { handshake = theirs }) false).next_keypair
  unfolding start_session add_new_keypair
  sessions-Crossed to from h h' theirs now now' done =
      let keys = λ (ck : Bytes). crypto.kdf2 ck [] in
      let ours : Crossed _ _ = record {
        sending = ap (λ (ck : Bytes). (keys ck).0) done.chaining_key;
        receiving = ap (λ (ck : Bytes). (keys ck).1) done.chaining_key;
        their_index = done.their_index;
        our_index = done.our_index;
        usable = (refl, refl);
      } in
      if_lem
        (λ (peer : Peer).
          Crossed peer.curr_keypair
            (start_session crypto now' (record from { handshake = theirs }) false).next_keypair)
        (to.next_keypair.valid) ours ours

module _ (crypto : Crypto) (laws : Lawful crypto) (initiator responder : Device) (to from : Peer)
    (x : ℕ) (r r1 r2 : Readings) (now now' : ℕ) where
  open crypto use {x25519}

  -- Two devices that know each other, with ephemeral keys that are not refused and give no zero
  -- secret, and a timestamp that the responder accepts, complete a handshake: each message is made
  -- and processed, and the sessions cross, the sending key and index of each side being the receiving
  -- ones of the other.
  pub handshake-Crossed :
      Acquainted crypto initiator to responder x from
      → Ephemeral crypto (ephemeral_key r)
      → str_eq (x25519 (ephemeral_key r) responder.public_key) zero_key ≡ false
      → r.unique_index < 2 ^ 32
      → length r.tai64n ≡ 12
      → bytes_lt from.greatest_timestamp r.tai64n ≡ true
      → (not (from.last_initiation_rx == 0) && ltb (sub32 (r1.now 0) from.last_initiation_rx) 500)
        ≡ false
      → Ephemeral crypto (ephemeral_key r2)
      → str_eq (x25519 (ephemeral_key r2) (x25519 (ephemeral_key r) basepoint)) zero_key ≡ false
      → str_eq (x25519 (ephemeral_key r2) initiator.public_key) zero_key ≡ false
      → r2.unique_index < 2 ^ 32
      → (msg1 : Bytes) × (after : Peer) × (msg2 : Bytes) × (h' : Handshake) × ((create_initiation
            crypto r initiator to).1
          ≡ some msg1)
        × (process_initiation crypto r1 responder msg1 ≡ some (x, after))
        × ((create_response crypto r2 responder after).1 ≡ some msg2)
        × (process_response crypto initiator
              (record to { handshake = (create_initiation crypto r initiator to).0 })
              msg2
            ≡ some h')
        × Crossed
            (start_session crypto now (record to { handshake = h' }) true).curr_keypair
            (start_session crypto now'
              (record after { handshake = (create_response crypto r2 responder after).0 })
              false).next_keypair
  handshake-Crossed known made1 safe1 small1 long newer paced made2 safe2 safe3 small2 =
      let (msg1, after, sent1, taken1, half, epub) =
        initiation-Halfway crypto laws initiator responder to from x known r r1 made1 safe1 small1
          long newer paced in
      let (msg2, h', sent2, taken2, done) =
        response-Finished crypto laws initiator responder to from x known
          (create_initiation crypto r initiator to).0 after half r2 made2 (rw epub safe2) safe3
          small2 in
      (
        msg1,
        after,
        msg2,
        h',
        sent1,
        taken1,
        sent2,
        taken2,
        sessions-Crossed crypto to after _ h' _ now now' done,
      )
