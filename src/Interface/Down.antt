-- ===== src/Interface/Down.antt =====
-- What the state that `wg_ifdown` leaves does with a datagram and with the timers.
use gsoc2026_nuttx_wireguard.Base.{
  ℕ, zero, suc, ◌+◌, Bool, true, false, List, [], ◌∷◌, none, some, get_elem?, set, map, ◌==◌, ◌≡◌,
  refl, ap, arith, inl, inr, Bool-cases, Option-cases, Bytes, subst,
}
use gsoc2026_nuttx_wireguard.Device.{Peer, Device, Netdev, Readings}
use gsoc2026_nuttx_wireguard.Session.{
  first_peer, peer_lookup_by_receiver, peer_lookup_by_handshake, owns_receiver, owns_handshake,
  keypair_destroy, put_peer,
}
use gsoc2026_nuttx_wireguard.Message.{get_message_type, u32_at, message_handshake_initiation}
use gsoc2026_nuttx_wireguard.Transport.{Os, put_netdev_peer}
use gsoc2026_nuttx_wireguard.Receive.{
  process_response_packet, process_cookie_packet, process_transport_packet, process_udp_packet,
}
use gsoc2026_nuttx_wireguard.Timers.{
  expire_keypairs, keepalive_due, should_initiate, run_keepalive, run_handshake, run_peer,
  run_peers, run_timers,
}
use gsoc2026_nuttx_wireguard.Interface.{deactivate, ifdown}

-- No session, no handshake under way, and none asked for.
pub record IsIdle (peer : Peer) : Type 0 where
  pub no_curr : peer.curr_keypair.valid ≡ false
  pub no_prev : peer.prev_keypair.valid ≡ false
  pub no_next : peer.next_keypair.valid ≡ false
  pub no_handshake : peer.handshake.valid ≡ false
  pub inactive : peer.active ≡ false
  pub unasked : peer.send_handshake ≡ false

abbrev AllIdle : List Peer → Type 0
AllIdle peers = (x : ℕ) (p : Peer) → get_elem? peers x ≡ some p → p.valid ≡ true → IsIdle p

deactivate-IsIdle : (p : Peer) → (deactivate p).valid ≡ true → IsIdle (deactivate p)
unfolding deactivate keypair_destroy
deactivate-IsIdle p live = elim (Bool-cases p.valid) [
  | inl v ↦ rw v (record {
    no_curr = refl;
    no_prev = refl;
    no_next = refl;
    no_handshake = refl;
    inactive = refl;
    unasked = refl;
  })
  | inr v ↦ absurd (ground arith)
]

deactivate-AllIdle : (peers : List Peer) → AllIdle (map deactivate peers)
deactivate-AllIdle [] x p at live = cc
deactivate-AllIdle (q ∷ qs) zero p at live =
    let e : deactivate q ≡ p = cc in subst IsIdle e (deactivate-IsIdle q (rw e live))
deactivate-AllIdle (q ∷ qs) (suc x) p at live = deactivate-AllIdle qs x p at live

-- After `wg_ifdown` every peer in use is idle.
pub ifdown-AllIdle :
    (priv : Netdev) (x : ℕ) (p : Peer)
    → get_elem? (ifdown priv).wg.peers x ≡ some p
    → p.valid ≡ true
    → IsIdle p
unfolding ifdown
ifdown-AllIdle priv = deactivate-AllIdle priv.wg.peers

no_peer :
    (test : Peer → Bool) (y : ℕ) (peers : List Peer)
    → ((x : ℕ) (p : Peer) → get_elem? peers x ≡ some p → test p ≡ false)
    → first_peer test y peers ≡ none
unfolding first_peer
no_peer test y [] h = refl
no_peer test y (p ∷ ps) h = rw (h 0 p refl) (no_peer test (y + 1) ps (λ x q at. h (suc x) q at))

module _ (device : Device) (idle : AllIdle device.peers) where
  no_receiver : (idx : ℕ) → peer_lookup_by_receiver device idx ≡ none
  unfolding peer_lookup_by_receiver
  no_receiver idx = no_peer (owns_receiver idx) 0 device.peers (λ x p at.
      elim (Bool-cases p.valid) [
        | inl v ↦ (let i = idle x p at v in rw (v, i.no_curr, i.no_prev, i.no_next) refl)
        | inr v ↦ rw v refl
      ])

  no_handshake_for : (idx : ℕ) → peer_lookup_by_handshake device idx ≡ none
  unfolding peer_lookup_by_handshake
  no_handshake_for idx = no_peer (owns_handshake idx) 0 device.peers (λ x p at.
      elim (Bool-cases p.valid) [
        | inl v ↦ (let i = idle x p at v in rw (v, i.no_handshake) refl)
        | inr v ↦ rw v refl
      ])

module _ (os : Os) (r : Readings) (priv : Netdev) where
  -- In the state that `wg_ifdown` leaves, a datagram that is not a handshake initiation changes
  -- nothing.
  pub ifdown-deaf :
      (threshold : ℕ) (msg : Bytes) (addr port : ℕ)
      → (get_message_type msg == message_handshake_initiation) ≡ false
      → process_udp_packet os threshold r (ifdown priv) msg addr port ≡ ifdown priv
  unfolding process_udp_packet process_response_packet process_cookie_packet
      process_transport_packet
  ifdown-deaf threshold msg addr port other =
      let down = ifdown priv in
      let idle = ifdown-AllIdle priv in
      let unlisted = no_handshake_for (down.wg) idle in
      rw
        (
          other,
          no_receiver (down.wg) idle,
          unlisted (u32_at msg 8),
          unlisted (u32_at msg 4),
          process_cookie_packet,
        )
        (ground arith)

set_same : {A : Type 0} (xs : List A) (x : ℕ) {a : A} → get_elem? xs x ≡ some a → set xs x a ≡ xs
set_same [] x at = refl
set_same (y ∷ ys) zero at = cc
set_same (y ∷ ys) (suc x) at = ap (λ zs. y ∷ zs) (set_same ys x at)

-- An idle peer has nothing that the timers act on.
module _ (r : Readings) (p : Peer) (i : IsIdle p) where
  idle_expires : expire_keypairs r p ≡ p
  unfolding expire_keypairs
  idle_expires = let e = i.no_curr in ground arith

  idle_keepalive : keepalive_due r p ≡ false
  unfolding keepalive_due
  idle_keepalive = rw (i.no_curr, i.no_prev) (ground arith)

  idle_initiates : should_initiate r p ≡ false
  unfolding should_initiate
  idle_initiates = rw (i.no_curr, i.inactive, i.unasked) (ground arith)

module _ (os : Os) (rs : ℕ → Readings) (priv : Netdev) (idle : AllIdle priv.wg.peers) where
  idle_round : (x : ℕ) (link_up : Bool) → run_peer os (rs x) priv x link_up ≡ (priv, link_up)
  idle_round x link_up = elim (Option-cases (get_elem? priv.wg.peers x)) [
    | inl out ↦ unfold run_peer in rw (out, run_peer) refl
    | inr (p, at) ↦ elim (Bool-cases p.valid) [
      | inr v ↦ unfold run_peer in rw (at, run_peer, v) refl
      | inl v ↦
          let i = idle x p at v in
          let r = rs x in
          let e : put_netdev_peer priv x (expire_keypairs r p) ≡ priv =
            unfold put_peer in rw (idle_expires r p i, set_same priv.wg.peers x at) refl in
          let k : run_keepalive os r priv x ≡ priv =
            unfold run_keepalive in rw (at, run_keepalive, idle_keepalive r p i) refl in
          let h : run_handshake os r priv x ≡ priv =
            unfold run_handshake in rw (at, run_handshake, idle_initiates r p i) refl in
          unfold run_peer in
          rw (at, run_peer, e, k, h, at, run_peer, v, i.no_curr, i.no_prev) (ground arith)
    ]
  ]

  idle_rounds :
      (left x : ℕ) (link_up : Bool) → run_peers os left rs priv x link_up ≡ (priv, link_up)
  unfolding run_peers
  idle_rounds zero x link_up = refl
  idle_rounds (suc left) x link_up = rw (idle_round x link_up) (idle_rounds left (x + 1) link_up)

-- In the state that `wg_ifdown` leaves, a run of the timers changes nothing.
pub ifdown-quiet :
    (os : Os) (rs : ℕ → Readings) (priv : Netdev) → run_timers os rs (ifdown priv) ≡ ifdown priv
unfolding run_timers
ifdown-quiet os rs priv =
    rw (idle_rounds os rs (ifdown priv) (ifdown-AllIdle priv) _ 0 false) (unfold ifdown in refl)
