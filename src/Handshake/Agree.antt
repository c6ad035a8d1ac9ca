-- ===== src/Handshake/Agree.antt =====
-- Both sides of a handshake derive the same keys.
use gsoc2026_nuttx_wireguard.Base.{
  ℕ, ◌+◌, ◌^◌, ◌<◌, true, false, not, ◌&&◌, ◌++◌, Option, some, length, get_elem?, ltb, ◌==◌, sub32,
  ◌≡◌, refl, sym, ap, ◌∙◌, Bytes, str_eq,
}
use gsoc2026_nuttx_wireguard.Device.{Handshake, Peer, Device, Readings, zero_key}
use gsoc2026_nuttx_wireguard.Crypto.{Crypto}
use gsoc2026_nuttx_wireguard.Cookie.{with_macs}
use gsoc2026_nuttx_wireguard.Session.{peer_lookup_by_pubkey}
use gsoc2026_nuttx_wireguard.Message.{slice, u32_at, to_little, type_word}
use gsoc2026_nuttx_wireguard.Handshake.{
  basepoint, clamp_private_key, generate_public_key, bytes_lt, accept_timestamp, create_initiation,
  process_initiation,
}
use gsoc2026_nuttx_wireguard.Handshake.Parts.{initiation_parts}

-- What the primitives promise: decryption undoes encryption, a tag is 16 bytes, and a shared secret
-- is the same from both sides.
pub record Lawful (crypto : Crypto) : Type 0 where
  pub opens :
      (k : Bytes) (n : ℕ) (ad text : Bytes)
      → crypto.aead_decrypt k n ad (crypto.aead_encrypt k n ad text) ≡ some text
  pub sealed :
      (k : Bytes) (n : ℕ) (ad text : Bytes)
      → length (crypto.aead_encrypt k n ad text) ≡ length text + 16
  pub commutes :
      (a b : Bytes)
      → crypto.x25519 a (crypto.x25519 b basepoint) ≡ crypto.x25519 b (crypto.x25519 a basepoint)
  pub point_length : (a point : Bytes) → length (crypto.x25519 a point) ≡ 32

-- An ephemeral public key is that of the ephemeral private key, which is not refused.
abbrev pub Ephemeral : Crypto → Bytes → Type 0
Ephemeral crypto e = generate_public_key crypto e ≡ some (crypto.x25519 e basepoint)

-- The peer after an accepted initiation.
abbrev accepted_peer : Readings → Peer → Bytes → Bytes → Bytes → ℕ → Bytes → Peer
accepted_peer r peer e hash chaining_key index t = record peer {
  last_initiation_rx = r.now 0;
  greatest_timestamp = t;
  handshake = record (peer.handshake) {
    remote_ephemeral = e;
    hash = hash;
    chaining_key = chaining_key;
    remote_index = index;
    valid = true;
    initiator = false;
  };
}

accept_timestamp_lem :
    (r : Readings) (msg ck hash e t : Bytes) (index : ℕ) (peer : Peer)
    → slice msg 8 32 ≡ e
    → u32_at msg 4 ≡ index
    → bytes_lt peer.greatest_timestamp t ≡ true
    → (not (peer.last_initiation_rx == 0) && ltb (sub32 (r.now 0) peer.last_initiation_rx) 500)
      ≡ false
    → accept_timestamp r msg ck hash peer t ≡ some (accepted_peer r peer e hash ck index t)
unfolding accept_timestamp
accept_timestamp_lem r msg ck hash e t index peer he hi newer paced = rw (newer, paced, he, hi) refl

-- The ephemeral private key that a message is made with.
abbrev pub ephemeral_key : Readings → Bytes
ephemeral_key r = clamp_private_key (r.random 0)

module _ (crypto : Crypto) where
  open crypto use {
    aead_encrypt, aead_decrypt, mix_hash, kdf1, kdf2, kdf3, x25519, construction_hash,
    identifier_hash,
  }

  -- The tests of `process_initiation` on the fields of a message, in their order.
  record PassesInitiation (r : Readings) (device : Device) (msg e s t : Bytes) (x : ℕ)
      (peer after : Peer) : Type 0 where
    spub : Bytes
    ts : Bytes
    nonzero : str_eq (x25519 device.private_key e) zero_key ≡ false
    static :
        aead_decrypt
          (kdf2 (kdf1 construction_hash e) (x25519 device.private_key e)).1
          0
          (mix_hash (mix_hash identifier_hash device.public_key) e)
          s
        ≡ some spub
    known : peer_lookup_by_pubkey device spub ≡ some x
    there : get_elem? device.peers x ≡ some peer
    stamp :
        aead_decrypt
          (kdf2
            (kdf2 (kdf1 construction_hash e) (x25519 device.private_key e)).0
            peer.public_key_dh).1
          0
          (mix_hash (mix_hash (mix_hash identifier_hash device.public_key) e) s)
          t
        ≡ some ts
    accepted :
        accept_timestamp r msg
          (kdf2
            (kdf2 (kdf1 construction_hash e) (x25519 device.private_key e)).0
            peer.public_key_dh).0
          (mix_hash (mix_hash (mix_hash (mix_hash identifier_hash device.public_key) e) s) t)
          peer
          ts
        ≡ some after

  PassesInitiation_lem :
      (r : Readings) (device : Device) (msg : Bytes) (x : ℕ) (peer after : Peer)
      → PassesInitiation r device msg
          (slice msg 8 32)
          (slice msg 40 48)
          (slice msg 88 28)
          x
          peer
          after
      → process_initiation crypto r device msg ≡ some (x, after)
  unfolding process_initiation
  PassesInitiation_lem r device msg x peer after p =
      rw
        (
          p.nonzero, p.static, process_initiation, p.known, process_initiation, p.there,
          process_initiation, p.stamp, process_initiation, p.accepted,
        )
        refl

  process_initiation_lem :
      (r : Readings) (device : Device) (msg e s t : Bytes) (x : ℕ) (peer after : Peer)
      → slice msg 8 32 ≡ e
      → slice msg 40 48 ≡ s
      → slice msg 88 28 ≡ t
      → PassesInitiation r device msg e s t x peer after
      → process_initiation crypto r device msg ≡ some (x, after)
  process_initiation_lem r device msg e s t x peer after he hs ht p =
      PassesInitiation_lem r device msg x peer after (rw (he, hs, ht) p)

  -- Two devices that know each other: `to` is the initiator's entry of the responder, and entry `x`
  -- of the responder is `from`.
  pub record Acquainted (initiator : Device) (to : Peer) (responder : Device) (x : ℕ) (from : Peer)
      : Type 0 where
    pub initiator_key : initiator.public_key ≡ x25519 initiator.private_key basepoint
    pub responder_key : responder.public_key ≡ x25519 responder.private_key basepoint
    pub to_key : to.public_key ≡ responder.public_key
    pub from_key : from.public_key ≡ initiator.public_key
    pub to_dh : to.public_key_dh ≡ x25519 initiator.private_key responder.public_key
    pub from_dh : from.public_key_dh ≡ x25519 responder.private_key initiator.public_key
    pub psk : to.preshared_key ≡ from.preshared_key
    pub found : peer_lookup_by_pubkey responder initiator.public_key ≡ some x
    pub at : get_elem? responder.peers x ≡ some from

  -- The responder's handshake after the initiation.
  pub record Halfway (h : Handshake) (from after : Peer) : Type 0 where
    pub ours : (h.valid ≡ true) × (h.initiator ≡ true)
    pub theirs : (after.handshake.valid ≡ true) × (after.handshake.initiator ≡ false)
    pub chaining_key : after.handshake.chaining_key ≡ h.chaining_key
    pub hash : after.handshake.hash ≡ h.hash
    pub index : after.handshake.remote_index ≡ h.local_index
    pub ephemeral : after.handshake.remote_ephemeral ≡ x25519 h.ephemeral_private basepoint
    pub same : (after.public_key ≡ from.public_key) × (after.preshared_key ≡ from.preshared_key)

  module _ (laws : Lawful crypto) (initiator responder : Device) (to from : Peer) (x : ℕ)
      (known : Acquainted initiator to responder x from) (r r' : Readings) where
    pub initiation-Halfway :
        Ephemeral crypto (ephemeral_key r)
        → str_eq (x25519 (ephemeral_key r) responder.public_key) zero_key ≡ false
        → r.unique_index < 2 ^ 32
        → length r.tai64n ≡ 12
        → bytes_lt from.greatest_timestamp r.tai64n ≡ true
        → (not (from.last_initiation_rx == 0) && ltb (sub32 (r'.now 0) from.last_initiation_rx) 500)
          ≡ false
        → (msg : Bytes) × (after : Peer) × ((create_initiation crypto r initiator to).1 ≡ some msg)
          × (process_initiation crypto r' responder msg ≡ some (x, after))
          × Halfway (create_initiation crypto r initiator to).0 from after
          × (after.handshake.remote_ephemeral ≡ x25519 (ephemeral_key r) basepoint)
    unfolding clamp_private_key
    initiation-Halfway made safe small long newer paced =
        let key = ephemeral_key r in
        let epub = x25519 key basepoint in
        let hash1 = mix_hash (mix_hash identifier_hash to.public_key) epub in
        let ck1 = kdf1 construction_hash epub in
        let dh = x25519 key to.public_key in
        let (ck2, k1) = kdf2 ck1 dh in
        let enc_static = aead_encrypt k1 0 hash1 initiator.public_key in
        let hash2 = mix_hash hash1 enc_static in
        let (ck3, k2) = kdf2 ck2 to.public_key_dh in
        let enc_timestamp = aead_encrypt k2 0 hash2 r.tai64n in
        let msg =
          type_word 1 ++ (to_little 4 r.unique_index ++ (epub ++ (enc_static ++ enc_timestamp))) in
        let h0 = to.handshake in
        let h1 : Handshake = record h0 {
          chaining_key = ck3;
          hash = mix_hash hash2 enc_timestamp;
          ephemeral_private = key;
          valid = true;
          initiator = true;
          local_index = r.unique_index;
        } in
        let nonzero : str_eq dh zero_key ≡ false = rw known.to_key safe in
        let created : create_initiation crypto r initiator to
            ≡ (h1, some (with_macs crypto r to msg)) =
          unfold create_initiation in rw (made, create_initiation, nonzero) refl in
        let static_length : length initiator.public_key + 16 ≡ 48 =
          rw known.initiator_key
            (ap (λ (n : ℕ). n + 16) (laws.point_length initiator.private_key basepoint)) in
        let (at_index, at_e, at_s, at_t) =
          initiation_parts r.unique_index epub enc_static enc_timestamp _ _ small
            (laws.point_length key basepoint)
            (laws.sealed k1 0 hash1 initiator.public_key ∙ static_length)
            (laws.sealed k2 0 hash2 r.tai64n ∙ ap (λ (n : ℕ). n + 16) long) in
        let same_dh : x25519 responder.private_key epub ≡ dh =
          laws.commutes responder.private_key key
          ∙ ap (x25519 key) (sym (known.to_key ∙ known.responder_key)) in
        let same_static : from.public_key_dh ≡ to.public_key_dh =
          known.from_dh
          ∙ ap (x25519 responder.private_key) known.initiator_key
          ∙ laws.commutes responder.private_key initiator.private_key
          ∙ ap (x25519 initiator.private_key) (sym known.responder_key)
          ∙ sym known.to_dh in
        let same_ck3 : (kdf2
              (kdf2 (kdf1 construction_hash epub) (x25519 responder.private_key epub)).0
              from.public_key_dh).0
            ≡ ck3 =
          rw (same_dh, same_static) refl in
        let after =
          accepted_peer r' from epub (mix_hash hash2 enc_timestamp) ck3 r.unique_index r.tai64n in
        (
          with_macs crypto r to msg,
          after,
          ap (λ (p : Handshake × Option Bytes). p.1) created,
          process_initiation_lem r' responder _ epub enc_static enc_timestamp x from after at_e at_s
              at_t
              (record {
                spub = initiator.public_key;
                ts = r.tai64n;
                nonzero = rw same_dh nonzero;
                static = rw (same_dh, ← known.to_key) (laws.opens k1 0 hash1 initiator.public_key);
                known = known.found;
                there = known.at;
                stamp = rw (same_dh, same_static, ← known.to_key) (laws.opens k2 0 hash2 r.tai64n);
                accepted =
                    rw (same_ck3, ← known.to_key)
                      (accept_timestamp_lem r' _ ck3 (mix_hash hash2 enc_timestamp) epub r.tai64n
                        r.unique_index from at_e at_index newer paced);
              }),
          rw created (record {
            ours = (refl, refl);
            theirs = (refl, refl);
            chaining_key = refl;
            hash = refl;
            index = refl;
            ephemeral = refl;
            same = (refl, refl);
          }),
          refl,
        )
