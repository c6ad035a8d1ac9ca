-- ===== src/Tests/Glue.antt =====
-- Witnesses for the sending and the receiving half of the interface.
use gsoc2026_nuttx_wireguard.Base.{
  List, true, false, some, ◌-◌, ap, take, take_front, length-append, get_elem?, ℕ, ◌+◌, [], ◌∷◌,
  ◌++◌, length, replicate, str_eq, ltb, ◌≡◌, refl, arith, Bytes,
}
use gsoc2026_nuttx_wireguard.Device.{Datagram, Peer, Netdev, Readings}
use gsoc2026_nuttx_wireguard.Route.{peer_for_dest}
use gsoc2026_nuttx_wireguard.Route.Longest.{IsLongest, peer_for_dest-IsLongest}
use gsoc2026_nuttx_wireguard.Message.{
  u32_at, u64_at, of_little, transport_header, type_word, get_message_type, to_little,
}
use gsoc2026_nuttx_wireguard.Session.{expired, keypair_for_idx}
use gsoc2026_nuttx_wireguard.Cookie.{check_mac1, check_mac2, generate_peer_cookie}
use gsoc2026_nuttx_wireguard.Transport.{Os, encrypt_and_send}
use gsoc2026_nuttx_wireguard.Transport.Nonce.{Outcome, encrypt_and_send-Outcome}
use gsoc2026_nuttx_wireguard.Replay.{check_replay}
use gsoc2026_nuttx_wireguard.Receive.{
  source_addr_port, process_data_message, process_initiation_packet, under_load,
}
use gsoc2026_nuttx_wireguard.Cookie.Opens.{SealsCookies, Gives}
use gsoc2026_nuttx_wireguard.Crypto.{Crypto}
use gsoc2026_nuttx_wireguard.Receive.Confirm.{Rotated, used_keypair, process_data_message-Rotated}
use gsoc2026_nuttx_wireguard.Receive.Fresh.{DataOutcome, process_data_message-Outcome}
use gsoc2026_nuttx_wireguard.Receive.Load.{run_load, under_load-threshold, loaded-cookie_reply}
use gsoc2026_nuttx_wireguard.Interface.{ifdown}
use gsoc2026_nuttx_wireguard.Task.{Wakeup, rx_task}
use gsoc2026_nuttx_wireguard.Task.Idle.{rx_task-ifdown}
use gsoc2026_nuttx_wireguard.Tests.{
  toy_crypto, toy_os, readings, live_keypair, live_peer, device, netdev,
}

-- An IPv4 packet of 20 bytes, and a transport message with it.
abbrev packet : Bytes
packet = 69 ∷ 0 ∷ 0 ∷ 20 ∷ replicate 16 1

abbrev transport : Bytes
transport = transport_header 7 0 ++ (packet ++ replicate 28 0)

-- An initiation with a right mac1 and no mac2.
abbrev initiation : Bytes
initiation = type_word 1 ++ replicate 112 9 ++ replicate 16 7 ++ replicate 16 0

encrypt_and_send-Outcome_example :
    Outcome toy_os readings netdev 0 live_peer packet
      (encrypt_and_send toy_os readings netdev 0 packet)
encrypt_and_send-Outcome_example =
    encrypt_and_send-Outcome toy_os readings netdev 0 live_peer packet refl

process_data_message-Outcome_example :
    DataOutcome toy_os readings netdev 0 live_peer transport 16777343 51820
      (process_data_message toy_os readings netdev 0 live_peer transport 16777343 51820)
process_data_message-Outcome_example =
    process_data_message-Outcome toy_os readings netdev 0 live_peer transport 16777343 51820 refl

peer_for_dest-IsLongest_example : IsLongest device.peers 16843018 (peer_for_dest device 16843018)
peer_for_dest-IsLongest_example = peer_for_dest-IsLongest device 16843018

under_load-threshold_example :
    (under_load 2 2900 (run_load 2 (under_load 2 2000 netdev).0 (2100 ∷ []))).1
    ≡ ltb 2 (length {A = ℕ} (2100 ∷ []) + 2)
under_load-threshold_example =
    under_load-threshold 2 2000 2900 (2100 ∷ []) netdev (omega arith) (omega arith, tt)
      (omega arith) (omega arith)

-- Sealing appends a tag of zeros, which opening cuts off.
abbrev sealing_crypto : Crypto
sealing_crypto = record toy_crypto {
  xaead_decrypt = λ key nonce ad text. some (take (length text - 16) text);
}

sealing_crypto-SealsCookies : SealsCookies sealing_crypto
sealing_crypto-SealsCookies = record {
  opens = λ key nonce ad text.
      let e : length (text ++ replicate 16 0) - 16 ≡ length text =
        omega (arith, length-append {0} text (replicate 16 0)) in
      rw e (ap (λ (t : Bytes). some t) (take_front (length text) text (replicate 16 0) refl));
  tagged = λ key nonce ad text. length-append {0} text (replicate 16 0);
  mac_len = λ key message. refl;
}

-- The sender of the initiation, which remembers its mac1.
abbrev asking_peer : Peer
asking_peer = record live_peer { handshake_mac1_valid = true; handshake_mac1 = replicate 16 7 }

abbrev sealing_os : Os
sealing_os = record toy_os { crypto = sealing_crypto }

abbrev nonces : Readings
nonces = record readings { random = λ place. replicate 24 5 }

loaded-cookie_reply_example :
    let after = process_initiation_packet sealing_os 0 nonces netdev initiation 16777343 51820 in
    (after.wg.peers ≡ netdev.wg.peers)
    × (after.injected ≡ netdev.injected)
    × ((reply : Datagram) × (after.sent ≡ reply ∷ netdev.sent)
        × (reply.to_ip ≡ 16777343)
        × (reply.to_port ≡ 51820)
        × Gives sealing_crypto asking_peer
            (u32_at initiation 4)
            (sealing_crypto.mac after.wg.cookie_secret (source_addr_port 16777343 51820))
            reply.payload)
unfolding check_mac1 check_mac2 under_load generate_peer_cookie expired str_eq u32_at of_little
loaded-cookie_reply_example =
    loaded-cookie_reply sealing_os 0 nonces netdev initiation 16777343 51820 asking_peer
      sealing_crypto-SealsCookies (record { knows = refl; waits = refl; same_mac1 = refl })
      (omega arith) refl refl refl refl refl

-- A peer with a session that waits for its first packet, and that packet.
abbrev waiting_peer : Peer
waiting_peer = record live_peer {
  next_keypair = record live_keypair { initiator = false; local_index = 11; remote_index = 12 };
}

abbrev waiting_netdev : Netdev
waiting_netdev = record netdev { wg = record device { peers = waiting_peer ∷ [] } }

abbrev confirming : Bytes
confirming = transport_header 11 0 ++ (packet ++ replicate 28 0)

process_data_message-Rotated_example :
    (after : Peer) × (get_elem?
        (process_data_message toy_os readings waiting_netdev 0 waiting_peer confirming 16777343
          51820).wg.peers
        0
      ≡ some after)
    × Rotated waiting_peer
        (used_keypair toy_os
          (λ packet. refl)
          readings
          waiting_netdev
          0
          waiting_peer
          confirming
          16777343
          51820)
        16777343
        51820
        after
unfolding keypair_for_idx expired check_replay u32_at u64_at of_little transport_header to_little
process_data_message-Rotated_example =
    process_data_message-Rotated toy_os (λ packet. refl) readings waiting_netdev 0 waiting_peer
      confirming 16777343 51820 (packet ++ replicate 28 0) refl
      (record { found = refl; young = refl; authentic = refl; fresh = refl }) refl (omega arith)
      (omega arith) (omega arith)

-- A transport message arrives, and at the second wakeup the task is asked to stop.
abbrev wakeups : List Wakeup
wakeups =
    (record {
      stopped = false;
      queue = (readings, record { to_ip = 16777343; to_port = 51820; payload = transport }) ∷ [];
      timers = λ x. readings;
    })
    ∷ (record { stopped = true; queue = []; timers = λ x. readings })
    ∷ []

rx_task-ifdown_example :
    let after = rx_task toy_os 2 (ifdown netdev) wakeups in
    (after.sent ≡ netdev.sent)
    × (after.injected ≡ netdev.injected)
    × (after.wg ≡ (ifdown netdev).wg)
unfolding get_message_type transport_header to_little
rx_task-ifdown_example = rx_task-ifdown toy_os 2 netdev wakeups ((refl, tt), (tt, tt))
