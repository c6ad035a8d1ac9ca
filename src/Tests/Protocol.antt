-- ===== src/Tests/Protocol.antt =====
-- Witnesses for the protocol core: the window, the sessions, the messages and the handshake.
use gsoc2026_nuttx_wireguard.Base.{
  ◌<◌, ◌++◌, true, false, [], ◌∷◌, replicate, if◌then◌else◌, u64, ◌≡◌, refl, arith, Bytes, str_eq,
}
use gsoc2026_nuttx_wireguard.Device.{Peer, zero_keypair, reject_after_time, reject_after_messages}
use gsoc2026_nuttx_wireguard.Replay.{check_replay}
use gsoc2026_nuttx_wireguard.Replay.Window.{is_fresh, IsWindow}
use gsoc2026_nuttx_wireguard.Replay.Check.{check_replay-IsWindow}
use gsoc2026_nuttx_wireguard.Replay.Stream.{
  accepted, Distinct, accepted-Distinct, zero_keypair-IsWindow,
}
use gsoc2026_nuttx_wireguard.Session.{expired, first_peer, peer_lookup_by_pubkey}
use gsoc2026_nuttx_wireguard.Message.{type_word, u32_at, of_little}
use gsoc2026_nuttx_wireguard.Handshake.{bytes_lt, accept_timestamp, process_initiation}
use gsoc2026_nuttx_wireguard.Handshake.Accept.{FromPeer, process_initiation-FromPeer}
use gsoc2026_nuttx_wireguard.Timers.{expire_keypairs}
use gsoc2026_nuttx_wireguard.Timers.Expiry.{expire_keypairs-young}
use gsoc2026_nuttx_wireguard.Tests.{toy_crypto, readings, live_peer, device}

check_replay-IsWindow_example :
    let r = check_replay (zero_keypair 2) 5 in
    (r.1 ≡ is_fresh 128 0 [] (u64 6)) × IsWindow r.0 (if r.1 then u64 6 ∷ [] else [])
check_replay-IsWindow_example =
    check_replay-IsWindow (zero_keypair 2) [] (zero_keypair-IsWindow 2 (omega arith)) 5

accepted-Distinct_example : Distinct (accepted (zero_keypair 1) (0 ∷ 3 ∷ 0 ∷ 2 ∷ 3 ∷ []))
accepted-Distinct_example = accepted-Distinct 1 (0 ∷ 3 ∷ 0 ∷ 2 ∷ 3 ∷ []) (omega arith)

-- An initiation whose decrypted static key is the peer's.
abbrev initiation : Bytes
initiation =
    type_word 1
    ++ (9 ∷ 0 ∷ 0 ∷ 0 ∷ [])
    ++ replicate 32 6
    ++ replicate 32 4
    ++ replicate 16 0
    ++ replicate 12 8
    ++ replicate 16 0
    ++ replicate 32 0

abbrev called_peer : Peer
called_peer = record live_peer { public_key = replicate 32 4 ++ replicate 16 0 }

abbrev answering_peer : Peer
answering_peer = record called_peer {
  last_initiation_rx = 2000;
  greatest_timestamp = replicate 12 8 ++ replicate 16 0;
  handshake = record (called_peer.handshake) {
    remote_ephemeral = replicate 32 6;
    hash = replicate 32 3;
    chaining_key = replicate 32 2;
    remote_index = 9;
    valid = true;
    initiator = false;
  };
}

process_initiation-FromPeer_example :
    FromPeer toy_crypto readings
      (record device { peers = called_peer ∷ [] })
      initiation
      0
      answering_peer
unfolding process_initiation accept_timestamp bytes_lt peer_lookup_by_pubkey first_peer u32_at
    of_little str_eq
process_initiation-FromPeer_example =
    process_initiation-FromPeer toy_crypto readings (record device { peers = called_peer ∷ [] })
      initiation 0 answering_peer refl

expire_keypairs-young_example :
    let after = expire_keypairs readings live_peer in
    (expired 2000 after.curr_keypair.keypair_millis reject_after_time ≡ false)
    × (after.curr_keypair.sending_counter < reject_after_messages)
unfolding expire_keypairs expired
expire_keypairs-young_example = expire_keypairs-young readings live_peer refl
