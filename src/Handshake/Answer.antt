-- ===== src/Handshake/Answer.antt =====
-- The response to an initiation, and how the initiator takes it.
use gsoc2026_nuttx_wireguard.Base.{
  ℕ, ◌^◌, ◌<◌, true, false, not, ◌&&◌, [], ◌++◌, Option, some, ◌≡◌, refl, sym, ap, ◌∙◌, Bytes,
  str_eq,
}
use gsoc2026_nuttx_wireguard.Device.{Handshake, Peer, Device, Readings, zero_key}
use gsoc2026_nuttx_wireguard.Crypto.{Crypto}
use gsoc2026_nuttx_wireguard.Cookie.{with_macs}
use gsoc2026_nuttx_wireguard.Message.{slice, u32_at, to_little, type_word}
use gsoc2026_nuttx_wireguard.Handshake.{
  basepoint, clamp_private_key, create_response, process_response,
}
use gsoc2026_nuttx_wireguard.Handshake.Parts.{response_parts}
use gsoc2026_nuttx_wireguard.Handshake.Agree.{Lawful, Ephemeral, ephemeral_key, Acquainted, Halfway}

-- The two handshakes at the end: the initiator's before and after, and the responder's.
pub record Finished (h h' theirs : Handshake) : Type 0 where
  pub chaining_key : h'.chaining_key ≡ theirs.chaining_key
  pub their_index : h'.remote_index ≡ theirs.local_index
  pub our_index : theirs.remote_index ≡ h'.local_index

module _ (crypto : Crypto) where
  open crypto use {aead_encrypt, aead_decrypt, mix_hash, kdf1, kdf3, x25519}

  -- The chaining key and the hash before the preshared key is mixed in.
  abbrev mixed_key : Bytes → Bytes → Bytes → Bytes → Bytes
  mixed_key chaining_key e dh1 dh2 = kdf1 (kdf1 (kdf1 chaining_key e) dh1) dh2

  -- The tests of `process_response` on the fields of a message, in their order.
  record PassesResponse (device : Device) (peer : Peer) (e t : Bytes) (h' : Handshake) (index : ℕ)
      : Type 0 where
    waits : (peer.handshake.valid ≡ true) × (peer.handshake.initiator ≡ true)
    nonzero1 : str_eq (x25519 peer.handshake.ephemeral_private e) zero_key ≡ false
    nonzero2 : str_eq (x25519 device.private_key e) zero_key ≡ false
    empty : Bytes
    opened :
        aead_decrypt
          (kdf3
            (mixed_key peer.handshake.chaining_key e
              (x25519 peer.handshake.ephemeral_private e)
              (x25519 device.private_key e))
            peer.preshared_key).2
          0
          (mix_hash
            (mix_hash peer.handshake.hash e)
            (kdf3
              (mixed_key peer.handshake.chaining_key e
                (x25519 peer.handshake.ephemeral_private e)
                (x25519 device.private_key e))
              peer.preshared_key).1)
          t
        ≡ some empty
    result : h' ≡ record (peer.handshake) {
      remote_ephemeral = e;
      hash =
          mix_hash
            (mix_hash peer.handshake.hash e)
            (kdf3
              (mixed_key peer.handshake.chaining_key e
                (x25519 peer.handshake.ephemeral_private e)
                (x25519 device.private_key e))
              peer.preshared_key).1;
      chaining_key =
          (kdf3
            (mixed_key peer.handshake.chaining_key e
              (x25519 peer.handshake.ephemeral_private e)
              (x25519 device.private_key e))
            peer.preshared_key).0;
      remote_index = index;
    }

  PassesResponse_lem :
      (device : Device) (peer : Peer) (msg : Bytes) (h' : Handshake)
      → PassesResponse device peer (slice msg 12 32) (slice msg 44 16) h' (u32_at msg 4)
      → process_response crypto device peer msg ≡ some h'
  unfolding process_response
  PassesResponse_lem device peer msg h' p =
      rw (p.waits.0, p.waits.1, p.nonzero1, p.nonzero2, p.opened) (rw p.result refl)

  process_response_lem :
      (device : Device) (peer : Peer) (msg e t : Bytes) (h' : Handshake) (index : ℕ)
      → u32_at msg 4 ≡ index
      → slice msg 12 32 ≡ e
      → slice msg 44 16 ≡ t
      → PassesResponse device peer e t h' index
      → process_response crypto device peer msg ≡ some h'
  process_response_lem device peer msg e t h' index hi he ht p =
      PassesResponse_lem device peer msg h' (rw (hi, he, ht) p)

  module _ (laws : Lawful crypto) (initiator responder : Device) (to from : Peer) (x : ℕ)
      (known : Acquainted crypto initiator to responder x from) (h : Handshake) (after : Peer)
      (half : Halfway crypto h from after) (r : Readings) where
    pub response-Finished :
        Ephemeral crypto (ephemeral_key r)
        → str_eq (x25519 (ephemeral_key r) after.handshake.remote_ephemeral) zero_key ≡ false
        → str_eq (x25519 (ephemeral_key r) initiator.public_key) zero_key ≡ false
        → r.unique_index < 2 ^ 32
        → (msg : Bytes) × (h' : Handshake) × ((create_response crypto r responder after).1
            ≡ some msg)
          × (process_response crypto initiator (record to { handshake = h }) msg ≡ some h')
          × Finished h h' (create_response crypto r responder after).0
    unfolding clamp_private_key
    response-Finished made safe1 safe2 small =
        let key = ephemeral_key r in
        let theirs = after.handshake in
        let epub = x25519 key basepoint in
        let dh1 = x25519 key theirs.remote_ephemeral in
        let dh2 = x25519 key after.public_key in
        let (ck, tau, k) = kdf3 (mixed_key theirs.chaining_key epub dh1 dh2) after.preshared_key in
        let hash2 = mix_hash (mix_hash theirs.hash epub) tau in
        let enc_empty = aead_encrypt k 0 hash2 [] in
        let msg =
          type_word 2
          ++ (to_little 4 r.unique_index
              ++ (to_little 4 theirs.remote_index ++ (epub ++ enc_empty))) in
        let sent : Handshake = record theirs {
          ephemeral_private = key;
          chaining_key = ck;
          hash = mix_hash hash2 enc_empty;
          local_index = r.unique_index;
        } in
        let same_key : after.public_key ≡ initiator.public_key = half.same.0 ∙ known.from_key in
        let nonzero2 : str_eq dh2 zero_key ≡ false = rw same_key safe2 in
        let guard : not (theirs.valid && not theirs.initiator) ≡ false =
          rw (half.theirs.0, half.theirs.1) refl in
        let created : create_response crypto r responder after
            ≡ (sent, some (with_macs crypto r after msg)) =
          unfold create_response in rw (guard, made, create_response, safe1, nonzero2) refl in
        let (at_index, at_e, at_t) =
          response_parts r.unique_index theirs.remote_index epub enc_empty _ _ small
            (laws.point_length key basepoint) (laws.sealed k 0 hash2 []) in
        let same_dh1 : x25519 h.ephemeral_private epub ≡ dh1 =
          laws.commutes h.ephemeral_private key ∙ ap (x25519 key) (sym half.ephemeral) in
        let same_dh2 : x25519 initiator.private_key epub ≡ dh2 =
          laws.commutes initiator.private_key key
          ∙ ap (x25519 key) (sym (same_key ∙ known.initiator_key)) in
        let same_psk : to.preshared_key ≡ after.preshared_key = known.psk ∙ sym half.same.1 in
        let all_same : kdf3
              (mixed_key h.chaining_key epub (x25519 h.ephemeral_private epub)
                (x25519 initiator.private_key epub))
              to.preshared_key
            ≡ (ck, tau, k) =
          rw (same_dh1, same_dh2, same_psk, half.chaining_key) refl in
        let h' : Handshake = record h {
          remote_ephemeral = epub;
          hash = hash2;
          chaining_key = ck;
          remote_index = r.unique_index;
        } in
        (
          with_macs crypto r after msg,
          h',
          ap (λ (p : Handshake × Option Bytes). p.1) created,
          process_response_lem initiator (record to { handshake = h }) _ epub enc_empty h'
              r.unique_index at_index at_e at_t
              (record {
                waits = half.ours;
                nonzero1 = rw same_dh1 safe1;
                nonzero2 = rw same_dh2 nonzero2;
                empty = [];
                opened = rw (all_same, ← half.hash) (laws.opens k 0 hash2 []);
                result = rw (all_same, ← half.hash) refl;
              }),
          rw created (record { chaining_key = refl; their_index = refl; our_index = half.index }),
        )
