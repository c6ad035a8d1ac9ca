-- ===== src/Receive/Tunnel.antt =====
-- From one end of a session to the other: what `wg_encrypt_and_send` seals, the receiving side hands
-- to its stack.
use gsoc2026_nuttx_wireguard.Base.{
  ℕ, zero, suc, ◌+◌, ◌-◌, ◌*◌, ◌/◌, ◌%◌, ◌^◌, ◌≤◌, ◌<◌, Bool, true, false, not, ◌&&◌, ◌||◌, [], ◌∷◌,
  ◌++◌, List, some, length, get_or, take, drop, take_front, replicate, length-append,
  length-replicate, ltb, leb, ◌==◌, u16, ◌≡◌, refl, ap, ◌∙◌, arith, Bytes, Bool-cases, Option-cases,
  inl, inr,
}
use gsoc2026_nuttx_wireguard.Device.{
  later, AllowedIp, Keypair, Peer, Netdev, Readings, max_packet, reject_after_time,
  reject_after_messages,
}
use gsoc2026_nuttx_wireguard.Session.{Slot, get_slot, put_peer, keypair_for_idx, expired}
use gsoc2026_nuttx_wireguard.Replay.{check_replay}
use gsoc2026_nuttx_wireguard.Route.{peer_for_dest}
use gsoc2026_nuttx_wireguard.Message.{slice, u32_at, u64_at, to_little, transport_header}
use gsoc2026_nuttx_wireguard.Message.Fields.{transport_fields}
use gsoc2026_nuttx_wireguard.Transport.{Os, padded_len, add_at, transport_message}
use gsoc2026_nuttx_wireguard.Handshake.Agree.{Lawful}
use gsoc2026_nuttx_wireguard.Handshake.Crossed.{Crossed}
use gsoc2026_nuttx_wireguard.Receive.{
  source_allowed, inject_plaintext, deliver, after_receive, open_data, process_data_message,
}
use gsoc2026_nuttx_wireguard.Receive.Delivery.{encrypt_and_send-injected, after_receive-allowed}

get_or-append : (xs ys : Bytes) (i : ℕ) → i < length xs → get_or (xs ++ ys) i 0 ≡ get_or xs i 0
get_or-append [] ys i lt = absurd (omega arith)
get_or-append (x ∷ xs) ys zero lt = refl
get_or-append (x ∷ xs) ys (suc i) lt = get_or-append xs ys i (omega arith)

take-append : (n : ℕ) (xs ys : Bytes) → n ≤ length xs → take n (xs ++ ys) ≡ take n xs
take-append zero xs ys le = refl
take-append (suc n) [] ys le = absurd (omega arith)
take-append (suc n) (x ∷ xs) ys le = ap (λ (zs : Bytes). x ∷ zs) (take-append n xs ys (omega arith))

slice-append :
    (offset len : ℕ) (xs ys : Bytes)
    → offset + len ≤ length xs
    → slice (xs ++ ys) offset len ≡ slice xs offset len
slice-append zero len xs ys le = take-append len xs ys (omega arith)
slice-append (suc offset) len [] ys le = absurd (omega arith)
slice-append (suc offset) len (x ∷ xs) ys le = slice-append offset len xs ys (omega arith)

-- A complete IPv4 packet: its version, and its own length, which is that of the text.
pub record IsPacket (text : Bytes) : Type 0 where
  pub long : 20 ≤ length text
  pub short : padded_len (length text) ≤ max_packet
  pub version : get_or text 0 0 / 16 % 16 ≡ 4
  pub own_length : get_or text 2 0 * 256 + get_or text 3 0 ≡ length text

module _ (os : Os) where
  inject_plaintext_lem :
      (r : Readings) (priv : Netdev) (text : Bytes)
      → 0 < length text
      → length text ≤ max_packet
      → priv.bifup ≡ true
      → os.iob_ok text ≡ true
      → (inject_plaintext os r priv text).injected ≡ text ∷ priv.injected
  inject_plaintext_lem r priv text some_bytes short up got =
      let priv1 : Netdev = record priv { injected = text ∷ priv.injected } in
      let reply = os.ipv4_reply text in
      let fit : (length text == 0 || (ltb max_packet (length text) || not priv.bifup)) ≡ false =
        ground arith in
      elim (Bool-cases (ltb 0 (length reply) && leb (length reply) max_packet)) [
        | inr out ↦ unfold inject_plaintext in rw (fit, got, out) refl
        | inl answers ↦ elim (Option-cases (peer_for_dest (priv1.wg) (u32_at reply 16))) [
          | inl out ↦ unfold inject_plaintext in rw (fit, got, answers, out, inject_plaintext) refl
          | inr (x, e) ↦
              unfold inject_plaintext in
              rw (fit, got, answers, e, inject_plaintext)
                (encrypt_and_send-injected os r priv1 x reply)
        ]
      ]

  deliver_lem :
      (r : Readings) (priv : Netdev) (peer : Peer) (text padding : Bytes) (n : ℕ)
      → IsPacket text
      → length text ≤ n
      → source_allowed peer.allowed_source_ips (u32_at text 12) ≡ true
      → priv.bifup ≡ true
      → os.iob_ok text ≡ true
      → (deliver os r priv peer (text ++ padding) n).injected ≡ text ∷ priv.injected
  deliver_lem r priv peer text padding n packet fits allowed up got =
      let long = packet.long in
      let short = packet.short in
      let at0 = get_or-append text padding 0 (omega arith) in
      let at2 = get_or-append text padding 2 (omega arith) in
      let at3 = get_or-append text padding 3 (omega arith) in
      let source : u32_at (text ++ padding) 12 ≡ u32_at text 12 =
        unfold u32_at in rw (slice-append 12 4 text padding (omega arith)) refl in
      let ipv4 : (get_or text 0 0 / 16 % 16 == 4) ≡ true =
        (let v = packet.version in ground arith) in
      let within : leb (length text) n ≡ true = ground arith in
      let whole = take_front (length text) text padding refl in
      unfold deliver in
      rw (at0, at2, at3, source, packet.own_length, ipv4, allowed, within, whole)
        (inject_plaintext_lem r priv text (omega arith) (omega arith) up got)

  -- The steps of `open_data` on a message that passes them all, with `n` bytes of decrypted text.
  open_data_lem :
      (r : Readings) (priv : Netdev) (x : ℕ) (peer : Peer) (slot : Slot) (msg : Bytes)
      (addr port : ℕ) (plain : Bytes) (after : Keypair) (counter n : ℕ)
      → length msg ≡ 16 + (n + 16)
      → 0 < n
      → n ≤ max_packet
      → u64_at msg 8 ≡ counter
      → os.crypto.aead_decrypt (get_slot peer slot).receiving_key counter [] (drop 16 msg)
        ≡ some plain
      → check_replay (get_slot peer slot) counter ≡ (after, true)
      → open_data os r priv x peer slot msg addr port
        ≡ deliver os
            (later 3 r)
            (record priv {
              wg = put_peer (priv.wg) x (after_receive os r peer slot after addr port);
              peer_rx_bytes = add_at priv.peer_rx_bytes x (n + 16);
              carrier = true;
            })
            (after_receive os r peer slot after addr port)
            plain
            n
  open_data_lem r priv x peer slot msg addr port plain after counter n size some_bytes short nonce
        opened fresh =
      let data_len : length msg - 16 ≡ n + 16 = omega arith in
      let room : (ltb (n + 16) 16 || ltb max_packet (n + 16 - 16)) ≡ false = ground arith in
      let more : ltb 16 (n + 16) ≡ true = ground arith in
      let text_len : u16 (n + 16 - 16) ≡ n = omega arith in
      unfold open_data in
      rw (data_len, room, nonce, opened, open_data, nonce, fresh, data_len, more, text_len) refl

  length-transport_message :
      (keypair : Keypair) (text : Bytes)
      → Lawful os.crypto
      → length (transport_message os keypair text) ≡ 16 + (padded_len (length text) + 16)
  unfolding transport_message transport_header to_little
  length-transport_message keypair text laws =
      let pad : Bytes = replicate (padded_len (length text) - length text) 0 in
      let sealed = laws.sealed keypair.sending_key keypair.sending_counter [] (text ++ pad) in
      let plain : length (text ++ pad) ≡ padded_len (length text) =
        length-append text pad
        ∙ ap (λ (n : ℕ). length text + n)
            (length-replicate (padded_len (length text) - length text) 0)
        ∙ omega arith in
      omega arith

  -- A packet sealed under a keypair reaches the stack of the other side, unchanged, and nothing else
  -- does: where the other side has the crossed keypair in a slot, finds it by its index, may still
  -- receive with it and has not seen the counter, the packet is a complete IPv4 packet of at most
  -- 1488 bytes from a source that the allowed-ips cover, wg0 is up, and there is a buffer for it.
  pub tunnel-delivers :
      (r : Readings) (priv : Netdev) (x : ℕ) (peer : Peer) (slot : Slot) (keypair : Keypair)
      (text : Bytes) (addr port : ℕ)
      → Lawful os.crypto
      → Crossed keypair (get_slot peer slot)
      → keypair.remote_index < 2 ^ 32
      → keypair.sending_counter < 2 ^ 64
      → keypair_for_idx peer keypair.remote_index ≡ some slot
      → (get_slot peer slot).receiving_valid ≡ true
      → expired (r.now 0) (get_slot peer slot).keypair_millis reject_after_time ≡ false
      → (get_slot peer slot).replay_counter < reject_after_messages
      → (check_replay (get_slot peer slot) keypair.sending_counter).1 ≡ true
      → IsPacket text
      → source_allowed peer.allowed_source_ips (u32_at text 12) ≡ true
      → priv.bifup ≡ true
      → os.iob_ok text ≡ true
      → (process_data_message os r priv x peer
          (transport_message os keypair text)
          addr
          port).injected
        ≡ text ∷ priv.injected
  tunnel-delivers r priv x peer slot keypair text addr port laws crossed index_ok counter_ok found
        receiving young unspent fresh packet allowed up got =
      let theirs = get_slot peer slot in
      let counter = keypair.sending_counter in
      let n = padded_len (length text) in
      let pad : Bytes = replicate (n - length text) 0 in
      let msg = transport_message os keypair text in
      let (at_index, at_nonce, at_sealed) =
        transport_fields keypair.remote_index counter
          (os.crypto.aead_encrypt keypair.sending_key counter [] (text ++ pad)) index_ok
          counter_ok in
      let unspent' : leb reject_after_messages theirs.replay_counter ≡ false = ground arith in
      let long = packet.long in
      let opened : os.crypto.aead_decrypt theirs.receiving_key counter [] (drop 16 msg)
          ≡ some (text ++ pad) =
        unfold transport_message in
        rw (at_sealed, ← crossed.sending)
          (laws.opens keypair.sending_key counter [] (text ++ pad)) in
      let after = (check_replay theirs counter).0 in
      let passed =
        open_data_lem r priv x peer slot msg addr port (text ++ pad) after counter n
          (length-transport_message keypair text laws) (omega arith) packet.short
          (unfold transport_message in at_nonce) opened (ap (λ (b : Bool). (after, b)) fresh) in
      let named : u32_at msg 4 ≡ keypair.remote_index = (unfold transport_message in at_index) in
      unfold process_data_message in
      rw (named, found, process_data_message, receiving, young, unspent', passed)
        (deliver_lem (later 3 r) _ (after_receive os r peer slot after addr port) text pad n packet
          (omega arith)
          (ap (λ (entries : List AllowedIp). source_allowed entries (u32_at text 12))
              (after_receive-allowed os r peer slot after addr port)
            ∙ allowed)
          up got)
