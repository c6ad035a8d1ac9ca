-- ===== src/Handshake.antt =====
-- The handshake of netutils/wireguard/wireguard.c over abstract primitives: the messages as they
-- are made and processed. Local patch 1 of PATCHES.md, the rate limit on
-- initiations, is in `process_initiation`. Intermediate keys on the stack are wiped by the code,
-- and are simply dropped here.
pub mod Accept
pub mod Parts
pub mod Agree
pub mod Answer
pub mod Crossed
use gsoc2026_nuttx_wireguard.Base.{
  ℕ, ◌+◌, ◌-◌, ◌*◌, ◌/◌, Bool, true, false, not, ◌&&◌, ◌||◌, List, [], ◌∷◌, ◌++◌, Option, none,
  some, length, get_or, take, drop, replicate, get_elem?, bit_and, bit_or, ltb, ◌==◌, if◌then◌else◌,
  set, sub32, Bytes, str_eq,
}
use gsoc2026_nuttx_wireguard.Device.{
  Peer, Device, Handshake, Readings, cookie_secret_max_age, cookie_len, zero_key, zero_handshake,
}
use gsoc2026_nuttx_wireguard.Crypto.{Crypto}
use gsoc2026_nuttx_wireguard.Cookie.{with_macs}
use gsoc2026_nuttx_wireguard.Session.{peer_lookup_by_pubkey}
use gsoc2026_nuttx_wireguard.Message.{
  to_little, slice, u32_at, type_word, initiation_len, message_handshake_initiation,
  message_handshake_response, message_cookie_reply,
}

-- `memcmp(a, b, n) < 0` over equal lengths.
unfoldable pub bytes_lt : Bytes → Bytes → Bool
bytes_lt [] ys = false
bytes_lt (x ∷ xs) [] = false
bytes_lt (x ∷ xs) (y ∷ ys) = ltb x y || (x == y && bytes_lt xs ys)

abbrev max_initiations_per_second : ℕ
max_initiations_per_second = 2

unfoldable pub clamp_private_key : Bytes → Bytes
clamp_private_key key =
    let key' = set key 0 (bit_and (get_or key 0 0) 248) in
    set key' 31 (bit_or (bit_and (get_or key' 31 0) 127) 64)

-- The base point 9.
abbrev pub basepoint : Bytes
basepoint = 9 ∷ replicate 31 0

-- The end of `wireguard_process_initiation_message`, on the decrypted timestamp: the checks against
-- replay and flood, and the peer with its new handshake.
unfoldable pub accept_timestamp : Readings → Bytes → Bytes → Bytes → Peer → Bytes → Option Peer
accept_timestamp r msg chaining_key hash peer t =
    let now = r.now 0 in
    let replay = not (bytes_lt peer.greatest_timestamp t) in
    let rate_limit =
      not (peer.last_initiation_rx == 0)
      && ltb (sub32 now peer.last_initiation_rx) (1000 / max_initiations_per_second) in
    if not replay && not rate_limit
    then some (record peer {
      last_initiation_rx = now;
      greatest_timestamp = t;
      handshake = record (peer.handshake) {
        remote_ephemeral = slice msg 8 32;
        hash = hash;
        chaining_key = chaining_key;
        remote_index = u32_at msg 4;
        valid = true;
        initiator = false;
      };
    })
    else none

module _ (crypto : Crypto) where
  open crypto use {
    aead_encrypt, aead_decrypt, mix_hash, kdf1, kdf2, kdf3, x25519, x25519_fails, construction_hash,
    identifier_hash,
  }

  -- `wireguard_generate_public_key`, `none` for its failure.
  abbrev pub generate_public_key : Bytes → Option Bytes
  generate_public_key private_key =
      if str_eq private_key zero_key || x25519_fails private_key basepoint
      then none
      else some (x25519 private_key basepoint)

  -- `wireguard_create_handshake_initiation`: the handshake as it leaves it, and the message, if
  -- no Diffie-Hellman result is zero.
  unfoldable pub create_initiation : Readings → Device → Peer → Handshake × Option Bytes
  unfolding clamp_private_key
  create_initiation r device peer =
      let e = clamp_private_key (r.random 0) in
      let hash0 = mix_hash identifier_hash peer.public_key in
      let h0 : Handshake = record (peer.handshake) {
        chaining_key = construction_hash;
        hash = hash0;
        ephemeral_private = e;
      } in
      elim (generate_public_key e) [
        | none ↦ (h0, none)
        | some epub ↦
            let ck1 = kdf1 construction_hash epub in
            let hash1 = mix_hash hash0 epub in
            let dh = x25519 e peer.public_key in
            if str_eq dh zero_key
            then (record h0 { chaining_key = ck1; hash = hash1 }, none)
            else (let (ck2, k1) = kdf2 ck1 dh in
                let enc_static = aead_encrypt k1 0 hash1 device.public_key in
                let hash2 = mix_hash hash1 enc_static in
                let (ck3, k2) = kdf2 ck2 peer.public_key_dh in
                let enc_timestamp = aead_encrypt k2 0 hash2 r.tai64n in
                let msg =
                  type_word message_handshake_initiation
                  ++ (to_little 4 r.unique_index ++ (epub ++ (enc_static ++ enc_timestamp))) in
                let h1 : Handshake = record h0 {
                  chaining_key = ck3;
                  hash = mix_hash hash2 enc_timestamp;
                  valid = true;
                  initiator = true;
                  local_index = r.unique_index;
                } in
                (h1, some (with_macs crypto r peer msg)))
      ]

  -- `wireguard_create_handshake_response`: the peer's handshake as it leaves it, and the message.
  -- A failure leaves the chaining key and the hash as they were mixed so far.
  unfoldable pub create_response : Readings → Device → Peer → Handshake × Option Bytes
  unfolding clamp_private_key
  create_response r device peer =
      let h = peer.handshake in
      if not (h.valid && not h.initiator)
      then (h, none)
      else (let e = clamp_private_key (r.random 0) in
          let h0 : Handshake = record h { ephemeral_private = e } in
          elim (generate_public_key e) [
            | none ↦ (h0, none)
            | some epub ↦
                let ck1 = kdf1 h.chaining_key epub in
                let hash1 = mix_hash h.hash epub in
                let dh1 = x25519 e h.remote_ephemeral in
                let h1 : Handshake = record h0 { chaining_key = ck1; hash = hash1 } in
                if str_eq dh1 zero_key
                then (h1, none)
                else (let ck2 = kdf1 ck1 dh1 in
                    let dh2 = x25519 e peer.public_key in
                    if str_eq dh2 zero_key
                    then (record h1 { chaining_key = ck2 }, none)
                    else (let (ck3, tau, k) = kdf3 (kdf1 ck2 dh2) peer.preshared_key in
                        let hash2 = mix_hash hash1 tau in
                        let enc_empty = aead_encrypt k 0 hash2 [] in
                        let msg =
                          type_word message_handshake_response
                          ++ (to_little 4 r.unique_index
                              ++ (to_little 4 h.remote_index ++ (epub ++ enc_empty))) in
                        let h2 : Handshake = record h1 {
                          chaining_key = ck3;
                          hash = mix_hash hash2 enc_empty;
                          local_index = r.unique_index;
                        } in
                        (h2, some (with_macs crypto r peer msg))))
          ])

  -- `wireguard_process_initiation_message`: the peer that the message is from and its new state,
  -- or `none`, which changes nothing.
  unfoldable pub process_initiation : Readings → Device → Bytes → Option (ℕ × Peer)
  process_initiation r device msg =
      let e = slice msg 8 32 in
      let enc_static = slice msg 40 48 in
      let enc_timestamp = slice msg 88 28 in
      let hash0 = mix_hash identifier_hash device.public_key in
      let ck1 = kdf1 construction_hash e in
      let hash1 = mix_hash hash0 e in
      let dh = x25519 device.private_key e in
      if str_eq dh zero_key
      then none
      else (let (ck2, k1) = kdf2 ck1 dh in
          elim (aead_decrypt k1 0 hash1 enc_static) [
            | none ↦ none
            | some s ↦
                let hash2 = mix_hash hash1 enc_static in
                elim (peer_lookup_by_pubkey device s) [
                  | none ↦ none
                  | some x ↦ elim (get_elem? device.peers x) [
                    | none ↦ none
                    | some peer ↦
                        let (ck3, k2) = kdf2 ck2 peer.public_key_dh in
                        elim (aead_decrypt k2 0 hash2 enc_timestamp) [
                          | none ↦ none
                          | some t ↦
                              elim (accept_timestamp r msg ck3 (mix_hash hash2 enc_timestamp) peer
                                t) [ none ↦ none | some after ↦ some (x, after) ]
                        ]
                  ]
                ]
          ])

  -- `wireguard_process_handshake_response`: the peer's handshake if the message is authentic.
  unfoldable pub process_response : Device → Peer → Bytes → Option Handshake
  process_response device peer msg =
      let h = peer.handshake in
      if not (h.valid && h.initiator)
      then none
      else (let e = slice msg 12 32 in
          let ck1 = kdf1 h.chaining_key e in
          let hash1 = mix_hash h.hash e in
          let dh1 = x25519 h.ephemeral_private e in
          let dh2 = x25519 device.private_key e in
          if str_eq dh1 zero_key || str_eq dh2 zero_key
          then none
          else (let (ck2, tau, k) = kdf3 (kdf1 (kdf1 ck1 dh1) dh2) peer.preshared_key in
              let hash2 = mix_hash hash1 tau in
              elim (aead_decrypt k 0 hash2 (slice msg 44 16)) [
                | none ↦ none
                | some empty ↦ some (record h {
                  remote_ephemeral = e;
                  hash = hash2;
                  chaining_key = ck2;
                  remote_index = u32_at msg 4;
                })
              ]))
