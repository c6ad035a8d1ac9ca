-- ===== src/Tests/Agreement.antt =====
-- Witnesses for the agreement of two devices and for what it rests on.
use gsoc2026_nuttx_wireguard.Base.{
  ntohl, ℕ, ◌-◌, true, false, [], ◌∷◌, ◌++◌, some, length, take, take_front, length-append,
  length-replicate, replicate, ◌≡◌, ◌≢◌, ◌^◌, refl, ap, arith, Bytes, str_eq, inl, inr,
}
use gsoc2026_nuttx_wireguard.Device.{Keypair, Handshake, Peer, Device}
use gsoc2026_nuttx_wireguard.Crypto.{Crypto}
use gsoc2026_nuttx_wireguard.Replay.{check_replay}
use gsoc2026_nuttx_wireguard.Route.{covers}
use gsoc2026_nuttx_wireguard.Transport.{Os, transport_message}
use gsoc2026_nuttx_wireguard.Receive.{source_allowed, process_data_message}
use gsoc2026_nuttx_wireguard.Receive.Tunnel.{tunnel-delivers}
use gsoc2026_nuttx_wireguard.Kdf.{hmac, kdf1, kdf2, kdf3}
use gsoc2026_nuttx_wireguard.Kdf.Expand.{expand, kdf3-expand}
use gsoc2026_nuttx_wireguard.Message.{of_little, u32_at}
use gsoc2026_nuttx_wireguard.Session.{
  curr, keypair_for_idx, expired, start_session, peer_lookup_by_pubkey, first_peer,
}
use gsoc2026_nuttx_wireguard.Session.Index.{has_index, reserved, unique_index, unique_index-returns}
use gsoc2026_nuttx_wireguard.Handshake.{
  clamp_private_key, bytes_lt, create_initiation, create_response, process_initiation,
  process_response,
}
use gsoc2026_nuttx_wireguard.Handshake.Agree.{Lawful, Acquainted}
use gsoc2026_nuttx_wireguard.Handshake.Crossed.{Crossed, handshake-Crossed}
use gsoc2026_nuttx_wireguard.Tests.{
  toy_os, live_keypair, netdev, toy_crypto, readings, live_peer, device,
}

-- A digest of the right length.
abbrev toy_hash : ℕ → Bytes → Bytes → Bytes
toy_hash n key msg = replicate n 1

kdf3-expand_example :
    let block = expand toy_hash (hmac toy_hash (replicate 32 4) (5 ∷ [])) in
    (kdf1 toy_hash (replicate 33 9) (replicate 32 4) (5 ∷ []) ≡ block 1)
    × (kdf2 toy_hash (replicate 33 9) (replicate 32 4) (5 ∷ []) ≡ (block 1, block 2))
    × (kdf3 toy_hash (replicate 33 9) (replicate 32 4) (5 ∷ []) ≡ (block 1, block 2, block 3))
kdf3-expand_example =
    kdf3-expand toy_hash (replicate 33 9) (λ n key msg. length-replicate n 1) refl (replicate 32 4)
      (5 ∷ [])

unique_index-returns_example :
    (index : ℕ) × (unique_index device (replicate 4 0 ∷ (5 ∷ 1 ∷ 0 ∷ 0 ∷ []) ∷ []) ≡ some index)
    × (index ≢ 0)
    × (index ≢ 2 ^ 32 - 1)
    × ((peer : Peer) → device.peers ≡ peer ∷ [] → has_index index peer ≡ false)
unfolding of_little has_index reserved
unique_index-returns_example =
    unique_index-returns device (replicate 4 0 ∷ (5 ∷ 1 ∷ 0 ∷ 0 ∷ []) ∷ [])
      (inr (inl (refl, (refl, tt))))

-- The toy primitives with a decryption that takes the tag off.
abbrev lawful_crypto : Crypto
lawful_crypto = record toy_crypto {
  aead_decrypt = λ key nonce ad text. some (take (length text - 16) text);
}

lawful : Lawful lawful_crypto
lawful = record {
  opens = λ k n ad text.
      let long = length-append text (replicate 16 0) in
      let e : length (text ++ replicate 16 0) - 16 ≡ length text = omega arith in
      rw e (ap some (take_front (length text) text (replicate 16 0) refl));
  sealed = λ k n ad text. length-append text (replicate 16 0);
  commutes = λ a b. refl;
  point_length = λ a point. refl;
}

-- Every public key of the toy primitives is this one.
abbrev point : Bytes
point = replicate 32 1

abbrev known_peer : Peer
known_peer = record live_peer { public_key = point; public_key_dh = point }

abbrev known_device : Device
known_device = record device {
  public_key = point;
  private_key = replicate 32 5;
  peers = known_peer ∷ [];
}

acquainted : Acquainted lawful_crypto known_device known_peer known_device 0 known_peer
unfolding peer_lookup_by_pubkey first_peer str_eq
acquainted = record {
  initiator_key = refl;
  responder_key = refl;
  to_key = refl;
  from_key = refl;
  to_dh = refl;
  from_dh = refl;
  psk = refl;
  found = refl;
  at = refl;
}

handshake-Crossed_example :
    (msg1 : Bytes) × (after : Peer) × (msg2 : Bytes) × (h' : Handshake) × ((create_initiation
        lawful_crypto readings known_device known_peer).1
      ≡ some msg1)
    × (process_initiation lawful_crypto readings known_device msg1 ≡ some (0, after))
    × ((create_response lawful_crypto readings known_device after).1 ≡ some msg2)
    × (process_response lawful_crypto known_device
          (record known_peer {
            handshake = (create_initiation lawful_crypto readings known_device known_peer).0;
          })
          msg2
        ≡ some h')
    × Crossed
        (start_session lawful_crypto 7 (record known_peer { handshake = h' }) true).curr_keypair
        (start_session lawful_crypto 8
          (record after {
            handshake = (create_response lawful_crypto readings known_device after).0;
          })
          false).next_keypair
unfolding str_eq bytes_lt clamp_private_key
handshake-Crossed_example =
    handshake-Crossed lawful_crypto lawful known_device known_device known_peer known_peer 0
      readings readings readings 7 8 acquainted refl refl (omega arith) refl refl refl refl refl
      refl (omega arith)

-- The other side of the toy session, and a packet.
abbrev other_keypair : Keypair
other_keypair = record live_keypair { local_index = 9; remote_index = 7 }

abbrev lawful_os : Os
lawful_os = record toy_os { crypto = lawful_crypto }

abbrev packet : Bytes
packet = 69 ∷ 0 ∷ 0 ∷ 20 ∷ replicate 16 1

tunnel-delivers_example :
    (process_data_message lawful_os readings netdev 0 live_peer
      (transport_message lawful_os other_keypair packet)
      16777343
      51820).injected
    ≡ packet ∷ netdev.injected
unfolding keypair_for_idx expired check_replay source_allowed u32_at of_little ntohl covers
tunnel-delivers_example =
    tunnel-delivers lawful_os readings netdev 0 live_peer curr other_keypair packet 16777343 51820
      lawful
      (record {
        sending = refl;
        receiving = refl;
        their_index = refl;
        our_index = refl;
        usable = (refl, refl);
      })
      (omega arith) (omega arith) refl refl refl (omega arith) refl
      (record { long = omega arith; short = omega arith; version = refl; own_length = refl }) refl
      refl refl
