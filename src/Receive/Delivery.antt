-- ===== src/Receive/Delivery.antt =====
-- What the network stack gets of a decrypted packet.
use gsoc2026_nuttx_wireguard.Base.{
  ℕ, ◌+◌, ◌*◌, ◌/◌, ◌%◌, true, not, ◌&&◌, ◌||◌, ◌∷◌, length, get_elem?, get_or, take, ltb, leb,
  ◌==◌, ◌≡◌, ◌⊎◌, inl, inr, refl, sym, subst, arith, Bytes, Bool-cases, Option-cases,
}
use gsoc2026_nuttx_wireguard.Device.{Keypair, Peer, Netdev, Readings, max_packet}
use gsoc2026_nuttx_wireguard.Session.{Slot, curr, prev, next, keypair_update}
use gsoc2026_nuttx_wireguard.Route.{peer_for_dest}
use gsoc2026_nuttx_wireguard.Message.{u32_at}
use gsoc2026_nuttx_wireguard.Transport.{Os, send_sealed, send_to_peer, encrypt_and_send}
use gsoc2026_nuttx_wireguard.Receive.{source_allowed, inject_plaintext, deliver, after_receive}

module _ (os : Os) where
  send_to_peer-injected :
      (r : Readings) (priv : Netdev) (x : ℕ) (peer : Peer) (text : Bytes)
      → (send_to_peer os r priv x peer text).0.injected ≡ priv.injected
  unfolding send_to_peer send_sealed
  send_to_peer-injected r priv x peer text = ground arith

  pub encrypt_and_send-injected :
      (r : Readings) (priv : Netdev) (x : ℕ) (text : Bytes)
      → (encrypt_and_send os r priv x text).0.injected ≡ priv.injected
  unfolding encrypt_and_send
  encrypt_and_send-injected r priv x text = elim (Option-cases (get_elem? priv.wg.peers x)) [
    | inl out ↦ rw (out, encrypt_and_send) refl
    | inr (peer, at) ↦ rw (at, encrypt_and_send) (send_to_peer-injected r priv x peer text)
  ]

  -- A packet reached the stack, or none did.
  abbrev Injected : Netdev → Bytes → Netdev → Type 0
  Injected priv text after =
      (after.injected ≡ priv.injected) ⊎ (after.injected ≡ text ∷ priv.injected)

  inject_plaintext-Injected :
      (r : Readings) (priv : Netdev) (text : Bytes)
      → Injected priv text (inject_plaintext os r priv text)
  inject_plaintext-Injected r priv text =
      let priv1 : Netdev = record priv { injected = text ∷ priv.injected } in
      let reply = os.ipv4_reply text in
      let same : (n : Netdev)
          → inject_plaintext os r priv text ≡ n
          → Injected priv text n
          → Injected priv text (inject_plaintext os r priv text) =
        λ n e. subst (Injected priv text) (sym e) in
      elim (Bool-cases (length text == 0 || (ltb max_packet (length text) || not priv.bifup))) [
        | inl out ↦ same priv (unfold inject_plaintext in rw out refl) (inl refl)
        | inr fit ↦ elim (Bool-cases (os.iob_ok text)) [
          | inr out ↦ same priv (unfold inject_plaintext in rw (fit, out) refl) (inl refl)
          | inl got ↦ elim (Bool-cases (ltb 0 (length reply) && leb (length reply) max_packet)) [
            | inr out ↦ same priv1 (unfold inject_plaintext in rw (fit, got, out) refl) (inr refl)
            | inl answers ↦ elim (Option-cases (peer_for_dest (priv1.wg) (u32_at reply 16))) [
              | inl out ↦
                  same priv1
                    (unfold inject_plaintext in rw (fit, got, answers, out, inject_plaintext) refl)
                    (inr refl)
              | inr (x, e) ↦
                  same ((encrypt_and_send os r priv1 x reply).0)
                    (unfold inject_plaintext in rw (fit, got, answers, e, inject_plaintext) refl)
                    (inr (encrypt_and_send-injected r priv1 x reply))
            ]
          ]
        ]
      ]

  -- What may reach the stack of a decrypted packet: its own length of it, from an allowed source.
  abbrev pub Delivered : Netdev → Peer → Bytes → Netdev → Type 0
  Delivered priv peer plain after =
      (after.injected ≡ priv.injected)
      ⊎ ((after.injected ≡ take (get_or plain 2 0 * 256 + get_or plain 3 0) plain ∷ priv.injected)
          × (source_allowed peer.allowed_source_ips (u32_at plain 12) ≡ true))

  pub deliver-Delivered :
      (r : Readings) (priv : Netdev) (peer : Peer) (plain : Bytes) (pktlen : ℕ)
      → Delivered priv peer plain (deliver os r priv peer plain pktlen)
  deliver-Delivered r priv peer plain pktlen =
      let totlen = get_or plain 2 0 * 256 + get_or plain 3 0 in
      let allowed = source_allowed peer.allowed_source_ips (u32_at plain 12) in
      let same : (n : Netdev)
          → deliver os r priv peer plain pktlen ≡ n
          → Delivered priv peer plain n
          → Delivered priv peer plain (deliver os r priv peer plain pktlen) =
        λ n e. subst (Delivered priv peer plain) (sym e) in
      elim (Bool-cases (get_or plain 0 0 / 16 % 16 == 4)) [
        | inr out ↦ same priv (unfold deliver in rw out refl) (inl refl)
        | inl ipv4 ↦ elim (Bool-cases (allowed && leb totlen pktlen)) [
          | inr out ↦ same priv (unfold deliver in rw (ipv4, out) refl) (inl refl)
          | inl fit ↦
              same (inject_plaintext os r priv (take totlen plain))
                (unfold deliver in rw (ipv4, fit) refl)
                (elim (inject_plaintext-Injected r priv (take totlen plain)) [
                  | inl none_in ↦ inl none_in
                  | inr one ↦ inr (one, ground arith)
                ])
        ]
      ]

pub after_receive-allowed :
    (os : Os) (r : Readings) (peer : Peer) (slot : Slot) (keypair : Keypair) (addr port : ℕ)
    → (after_receive os r peer slot keypair addr port).allowed_source_ips ≡ peer.allowed_source_ips
unfolding after_receive keypair_update
after_receive-allowed os r peer curr keypair addr port = ground arith
after_receive-allowed os r peer prev keypair addr port = ground arith
after_receive-allowed os r peer next keypair addr port = ground arith
