-- ===== src/Handshake/Accept.antt =====
-- When a handshake initiation is accepted, and that it is so only once.
use gsoc2026_nuttx_wireguard.Base.{
  ℕ, true, false, Option, none, some, get_elem?, ◌≡◌, ◌⊎◌, ◌≤◌, inl, inr, subst, arith, sub32,
  Bytes, str_eq, Bool-cases, Option-cases,
}
use gsoc2026_nuttx_wireguard.Device.{Peer, Device, Readings, zero_key}
use gsoc2026_nuttx_wireguard.Crypto.{Crypto}
use gsoc2026_nuttx_wireguard.Session.{peer_lookup_by_pubkey}
use gsoc2026_nuttx_wireguard.Message.{slice}
use gsoc2026_nuttx_wireguard.Handshake.{bytes_lt, accept_timestamp, process_initiation}

module _ (crypto : Crypto) (r : Readings) (device : Device) (msg : Bytes) where
  -- What an accepted initiation shows about the peer that it is from.
  pub record FromPeer (x : ℕ) (after : Peer) : Type 0 where
    pub before : Peer
    pub at : get_elem? device.peers x ≡ some before
    pub newer : bytes_lt before.greatest_timestamp after.greatest_timestamp ≡ true
    pub paced : (before.last_initiation_rx ≡ 0) ⊎ (500 ≤ sub32 (r.now 0) before.last_initiation_rx)
    pub seen : after.last_initiation_rx ≡ r.now 0
    pub responder : (after.handshake.valid ≡ true) × (after.handshake.initiator ≡ false)
    pub same_key : after.public_key ≡ before.public_key
    pub same_valid : after.valid ≡ before.valid

  accept_timestamp-FromPeer :
      (x : ℕ) (before after : Peer) (ck hash t : Bytes)
      → get_elem? device.peers x ≡ some before
      → accept_timestamp r msg ck hash before t ≡ some after
      → FromPeer x after
  unfolding accept_timestamp
  accept_timestamp-FromPeer x before after ck hash t at h = record {
    before = before;
    at = at;
    newer = ground arith;
    paced = ground arith;
    seen = ground arith;
    responder = ground arith;
    same_key = ground arith;
    same_valid = ground arith;
  }

  -- The same through the two last steps, whatever the keys are.
  of_timestamp :
      (x : ℕ) (after : Peer) (y : ℕ) (before : Peer) (k ad text ck hash : Bytes)
      → get_elem? device.peers y ≡ some before
      → elim (crypto.aead_decrypt k 0 ad text) as (λ o. Option (ℕ × Peer)) [
        | none ↦ none
        | some t ↦ elim (accept_timestamp r msg ck hash before t) [
          | none ↦ none
          | some p ↦ some (y, p)
        ]
      ]
        ≡ some (x, after)
      → FromPeer x after
  of_timestamp x after y before k ad text ck hash at h =
      elim (Option-cases (crypto.aead_decrypt k 0 ad text)) [
        | inl f ↦ (let h1 = rw f at h in absurd (ground arith))
        | inr (t, g) ↦ elim (Option-cases (accept_timestamp r msg ck hash before t)) [
          | inl f ↦ (let h1 = rw (g, f) at h in absurd (ground arith))
          | inr (p, e) ↦
              let h1 = rw (g, e) at h in
              let same_x : y ≡ x = ground arith in
              let same_p : p ≡ after = cc in
              subst (λ i. FromPeer i after) same_x
                (subst (FromPeer y) same_p (accept_timestamp-FromPeer y before p ck hash t at e))
        ]
      ]

  -- An initiation is accepted only with a timestamp after the greatest seen from its peer, and at
  -- least half a second after the peer's last accepted one, if there was one.
  pub process_initiation-FromPeer :
      (x : ℕ) (after : Peer)
      → process_initiation crypto r device msg ≡ some (x, after)
      → FromPeer x after
  unfolding process_initiation
  process_initiation-FromPeer x after h =
      let e = slice msg 8 32 in
      let (ck2, k1) =
        crypto.kdf2 (crypto.kdf1 crypto.construction_hash e) (crypto.x25519 device.private_key e) in
      let hash1 = crypto.mix_hash (crypto.mix_hash crypto.identifier_hash device.public_key) e in
      elim (Bool-cases (str_eq (crypto.x25519 device.private_key e) zero_key)) [
        | inl z ↦ (let h1 = rw z at h in absurd (ground arith))
        | inr z ↦ elim (Option-cases (crypto.aead_decrypt k1 0 hash1 (slice msg 40 48))) [
          | inl f ↦ (let h1 = rw (z, f, process_initiation) at h in absurd (ground arith))
          | inr (s, g) ↦ elim (Option-cases (peer_lookup_by_pubkey device s)) [
            | inl f ↦ (let h1 = rw (z, g, process_initiation, f) at h in absurd (ground arith))
            | inr (y, found) ↦ elim (Option-cases (get_elem? device.peers y)) [
              | inl f ↦
                  (let h1 = rw (z, g, process_initiation, found, f) at h in absurd (ground arith))
              | inr (before, at) ↦
                  let h1 = rw (z, g, process_initiation, found, process_initiation, at) at h in
                  of_timestamp x after y before _ _ _ _ _ at h1
            ]
          ]
        ]
      ]
