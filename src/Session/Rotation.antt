-- ===== src/Session/Rotation.antt =====
-- The lookups of a peer and a keypair by an index, and what they find.
use gsoc2026_nuttx_wireguard.Base.{
  ℕ, suc, ◌+◌, Bool, true, List, [], ◌∷◌, some, get_elem?, ◌≡◌, refl, arith, Bool-cases,
  Option-cases, inl, inr,
}
use gsoc2026_nuttx_wireguard.Device.{Peer, Device}
use gsoc2026_nuttx_wireguard.Session.{
  Slot, curr, prev, next, get_slot, keypair_for_idx, first_peer, peer_lookup_by_receiver,
  owns_receiver,
}

-- The slot found for an index holds a valid keypair with that index.
pub keypair_for_idx_lem :
    (peer : Peer) (idx : ℕ) (slot : Slot)
    → keypair_for_idx peer idx ≡ some slot
    → ((get_slot peer slot).valid ≡ true) × ((get_slot peer slot).local_index ≡ idx)
unfolding keypair_for_idx
keypair_for_idx_lem peer idx curr h = ground arith
keypair_for_idx_lem peer idx prev h = ground arith
keypair_for_idx_lem peer idx next h = ground arith

-- A peer found by the loop passes the test, and stands where the index says.
pub first_peer_lem :
    (test : Peer → Bool) (x : ℕ) (peers : List Peer) (y : ℕ)
    → first_peer test x peers ≡ some y
    → (k : ℕ) × (p : Peer) × (y ≡ x + k) × (get_elem? peers k ≡ some p) × (test p ≡ true)
unfolding first_peer
first_peer_lem test x [] y h = absurd (ground arith)
first_peer_lem test x (p ∷ ps) y h = elim (Bool-cases (test p)) [
  | inl here ↦ (0, p, ground arith, refl, here)
  | inr later ↦
      let (k, q, e, at, ok) = first_peer_lem test (x + 1) ps y (rw later at h) in
      (suc k, q, omega arith, at, ok)
]

owned_has_slot :
    (peer : Peer) (receiver : ℕ)
    → owns_receiver receiver peer ≡ true
    → (slot : Slot) × (keypair_for_idx peer receiver ≡ some slot)
owned_has_slot peer receiver h = elim (Option-cases (keypair_for_idx peer receiver)) [
  | inl missing ↦ absurd (unfold keypair_for_idx in ground arith)
  | inr found ↦ found
]

-- A peer is found for every index that one of its valid keypairs has, and then a keypair is too.
pub receiver_has_keypair :
    (device : Device) (receiver x : ℕ)
    → peer_lookup_by_receiver device receiver ≡ some x
    → (peer : Peer) × (slot : Slot) × (get_elem? device.peers x ≡ some peer)
      × (peer.valid ≡ true)
      × (keypair_for_idx peer receiver ≡ some slot)
      × ((get_slot peer slot).valid ≡ true)
      × ((get_slot peer slot).local_index ≡ receiver)
unfolding peer_lookup_by_receiver
receiver_has_keypair device receiver x h =
    let (k, peer, at, there, owns) = first_peer_lem (owns_receiver receiver) 0 device.peers x h in
    let (slot, found) = owned_has_slot peer receiver owns in
    let (live, same) = keypair_for_idx_lem peer receiver slot found in
    let e : k ≡ x = omega arith in (peer, slot, rw e at there, ground arith, found, live, same)
