-- ===== src/Route.antt =====
-- `wg_peer_for_dest` of netutils/wireguard/nuttx-wireguardif.c: cryptokey routing, the choice of
-- the peer for an address by the longest prefix among the allowed-ips of all peers.
pub mod Longest
use gsoc2026_nuttx_wireguard.Base.{
  ℕ, ◌+◌, Bool, true, false, ◌&&◌, ◌||◌, not, List, [], ◌∷◌, Option, none, some, bit_and, ltb, ◌==◌,
  if◌then◌else◌, ntohl,
}
use gsoc2026_nuttx_wireguard.Device.{AllowedIp, Peer, Device}

-- `(addr & mask) == (ip & mask)` on a valid entry; `wg_process_data_message` has the same test.
unfoldable pub covers : AllowedIp → ℕ → Bool
covers allowed addr = allowed.valid && bit_and addr allowed.mask == bit_and allowed.ip allowed.mask

-- `best` and `best_mask`
pub record Best : Type 0 where
  pub best : Option ℕ
  pub best_mask : ℕ

abbrev pub is_none : Option ℕ → Bool
is_none none = true
is_none (some x) = false

-- The body of the inner loop, at one entry of peer `x`.
pub best_step : ℕ → ℕ → Best → AllowedIp → Best
best_step dest x b allowed =
    if not (covers allowed dest)
    then b
    else if is_none b.best || ltb b.best_mask (ntohl allowed.mask)
    then record { best = some x; best_mask = ntohl allowed.mask }
    else b

-- The loop over the entries of peer `x`.
pub best_entry : ℕ → ℕ → Best → List AllowedIp → Best
best_entry dest x b [] = b
best_entry dest x b (allowed ∷ entries) = best_entry dest x (best_step dest x b allowed) entries

-- The loop over the peers from `x` on.
pub best_peer : ℕ → ℕ → Best → List Peer → Best
best_peer dest x b [] = b
best_peer dest x b (peer ∷ peers) =
    best_peer dest (x + 1) (if peer.valid then best_entry dest x b peer.allowed_source_ips else b)
      peers

unfoldable pub peer_for_dest : Device → ℕ → Option ℕ
peer_for_dest device dest =
    (best_peer dest 0 (record { best = none; best_mask = 0 }) device.peers).best
