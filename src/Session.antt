-- ===== src/Session.antt =====
-- The keypairs of a peer and the lookups of a device, from netutils/wireguard/wireguard.c: the
-- part of the protocol core that shares its state with nuttx-wireguardif.c. A pointer to one of a
-- peer's three keypairs is a `Slot`, a pointer to a peer is its index in `peers`.
pub mod Rotation
pub mod Index
use gsoc2026_nuttx_wireguard.Base.{
  ℕ, suc, ◌+◌, ◌*◌, Bool, true, false, not, ◌&&◌, ◌||◌, List, [], ◌∷◌, Option, none, some, length,
  get_elem?, set, leb, ◌==◌, if◌then◌else◌, u32, sub32, Bytes, str_eq,
}
use gsoc2026_nuttx_wireguard.Device.{Keypair, Handshake, Peer, Device, zero_keypair, zero_key}
use gsoc2026_nuttx_wireguard.Crypto.{Crypto}

-- `wireguard_expired` at the reading `now` of the clock.
unfoldable pub expired : ℕ → ℕ → ℕ → Bool
expired now created_millis valid_seconds =
    leb (u32 (valid_seconds * 1000)) (sub32 now created_millis)

pub data Slot : Type 0 where
  curr prev next : Slot

abbrev pub get_slot : Peer → Slot → Keypair
get_slot peer curr = peer.curr_keypair
get_slot peer prev = peer.prev_keypair
get_slot peer next = peer.next_keypair

abbrev pub put_slot : Peer → Slot → Keypair → Peer
put_slot peer curr keypair = record peer { curr_keypair = keypair }
put_slot peer prev keypair = record peer { prev_keypair = keypair }
put_slot peer next keypair = record peer { next_keypair = keypair }

-- The window keeps its size.
unfoldable pub keypair_destroy : Keypair → Keypair
keypair_destroy keypair = zero_keypair (length keypair.replay_bitmap)

unfoldable pub keypair_update : Peer → Slot → Peer
keypair_update peer next = record peer {
  prev_keypair = peer.curr_keypair;
  curr_keypair = peer.next_keypair;
  next_keypair = keypair_destroy peer.next_keypair;
}
keypair_update peer slot = peer

unfoldable pub add_new_keypair : Peer → Keypair → Peer
add_new_keypair peer new_keypair =
    if new_keypair.initiator
    then (if peer.next_keypair.valid
        then record peer {
          prev_keypair = peer.next_keypair;
          next_keypair = keypair_destroy peer.next_keypair;
          curr_keypair = new_keypair;
        }
        else record peer { prev_keypair = peer.curr_keypair; curr_keypair = new_keypair })
    else record peer {
      next_keypair = new_keypair;
      prev_keypair = keypair_destroy peer.prev_keypair;
    }

-- `wireguard_start_session` at the reading `now` of the clock. The new keypair has windows of the
-- size of the others.
unfoldable pub start_session : Crypto → ℕ → Peer → Bool → Peer
unfolding add_new_keypair
start_session crypto now peer initiator =
    let handshake = peer.handshake in
    let (tau1, tau2) = crypto.kdf2 handshake.chaining_key [] in
    let new_keypair : Keypair = record (zero_keypair (length peer.curr_keypair.replay_bitmap)) {
      initiator = initiator;
      local_index = handshake.local_index;
      remote_index = handshake.remote_index;
      keypair_millis = now;
      sending_valid = true;
      receiving_valid = true;
      sending_key = if initiator then tau1 else tau2;
      receiving_key = if initiator then tau2 else tau1;
      valid = true;
    } in
    let peer' : Peer = record peer {
      handshake = record handshake {
        ephemeral_private = zero_key;
        remote_ephemeral = zero_key;
        hash = zero_key;
        chaining_key = zero_key;
        remote_index = 0;
        local_index = 0;
        valid = false;
      };
    } in
    add_new_keypair peer' new_keypair

-- `get_peer_keypair_for_idx`
unfoldable pub keypair_for_idx : Peer → ℕ → Option Slot
keypair_for_idx peer idx =
    if peer.curr_keypair.valid && peer.curr_keypair.local_index == idx
    then some curr
    else if peer.next_keypair.valid && peer.next_keypair.local_index == idx
    then some next
    else if peer.prev_keypair.valid && peer.prev_keypair.local_index == idx
    then some prev
    else none

-- The loops over `peers` that stop at the first peer to pass a test, from peer `x` on.
unfoldable pub first_peer : (Peer → Bool) → ℕ → List Peer → Option ℕ
first_peer test x [] = none
first_peer test x (peer ∷ peers) = if test peer then some x else first_peer test (x + 1) peers

unfoldable pub peer_alloc : Device → Option ℕ
peer_alloc device = first_peer (λ peer. not peer.valid) 0 device.peers

unfoldable pub peer_lookup_by_pubkey : Device → Bytes → Option ℕ
peer_lookup_by_pubkey device public_key =
    first_peer (λ peer. peer.valid && str_eq peer.public_key public_key) 0 device.peers

abbrev pub owns_receiver : ℕ → Peer → Bool
owns_receiver receiver peer =
    peer.valid
    && ((peer.curr_keypair.valid && peer.curr_keypair.local_index == receiver)
        || (peer.next_keypair.valid && peer.next_keypair.local_index == receiver)
        || (peer.prev_keypair.valid && peer.prev_keypair.local_index == receiver))

unfoldable pub peer_lookup_by_receiver : Device → ℕ → Option ℕ
peer_lookup_by_receiver device receiver = first_peer (owns_receiver receiver) 0 device.peers

abbrev pub owns_handshake : ℕ → Peer → Bool
owns_handshake receiver peer =
    peer.valid
    && (peer.handshake.valid && peer.handshake.initiator && peer.handshake.local_index == receiver)

unfoldable pub peer_lookup_by_handshake : Device → ℕ → Option ℕ
peer_lookup_by_handshake device receiver = first_peer (owns_handshake receiver) 0 device.peers

-- Peer `x` is `peer`, and the others stay.
unfoldable pub put_peer : Device → ℕ → Peer → Device
put_peer device x peer = record device { peers = set device.peers x peer }
