-- ===== src/Session/Index.antt =====
-- `wireguard_generate_unique_index` of netutils/wireguard/wireguard.c, on the successive results of
-- `wireguard_random_bytes`.
use gsoc2026_nuttx_wireguard.Base.{
  ℕ, Bool, true, false, ◌||◌, List, [], ◌∷◌, Option, none, some, ◌==◌, if◌then◌else◌, ◌≡◌, ◌≢◌, ◌^◌,
  ◌-◌, ◌⊎◌, inl, inr, refl, sym, ◌∙◌, arith, Bytes, Bool-cases,
}
use gsoc2026_nuttx_wireguard.Device.{Peer, Device}
use gsoc2026_nuttx_wireguard.Message.{of_little}

unfoldable pub has_index : ℕ → Peer → Bool
has_index index peer =
    index == peer.curr_keypair.local_index
    || (index == peer.prev_keypair.local_index
        || (index == peer.next_keypair.local_index || index == peer.handshake.local_index))

-- The loop over the peers, from `existing` on: each round assigns it anew.
unfoldable pub index_exists : ℕ → Bool → List Peer → Bool
index_exists index existing [] = existing
index_exists index existing (peer ∷ peers) = index_exists index (has_index index peer) peers

-- The condition of the inner loop.
unfoldable pub reserved : ℕ → Bool
reserved index = index == 0 || index == 2 ^ 32 - 1

-- Both loops; `none` where they have used up the random bytes.
unfoldable pub unique_index : Device → List Bytes → Option ℕ
unique_index device [] = none
unique_index device (buf ∷ bufs) =
    let result = of_little buf in
    let rest = unique_index device bufs in
    if reserved result
    then rest
    else if index_exists result false device.peers
    then rest
    else some result

-- An index that no peer has.
abbrev pub AllNew : ℕ → List Peer → Type 0
AllNew index [] = Unit
AllNew index (peer ∷ peers) = (has_index index peer ≡ false) × AllNew index peers

-- One of the results is neither reserved nor in use.
abbrev pub HasFresh : List Peer → List Bytes → Type 0
HasFresh peers [] = ⊥
HasFresh peers (buf ∷ bufs) =
    ((reserved (of_little buf) ≡ false) × AllNew (of_little buf) peers) ⊎ HasFresh peers bufs

index_exists-AllNew :
    (index : ℕ) (peers : List Peer) → AllNew index peers → index_exists index false peers ≡ false
unfolding index_exists
index_exists-AllNew index [] new = refl
index_exists-AllNew index (peer ∷ peers) (free, new) = rw free (index_exists-AllNew index peers new)

-- What is known of an index that has been returned.
abbrev Returned : Device → Option ℕ → Type 0
Returned device o =
    (index : ℕ) × (o ≡ some index)
    × (reserved index ≡ false)
    × (index_exists index false device.peers ≡ false)

fresh_later :
    (peers : List Peer) (buf : Bytes) (bufs : List Bytes)
    → HasFresh peers (buf ∷ bufs)
    → (reserved (of_little buf) ≡ true) ⊎ (index_exists (of_little buf) false peers ≡ true)
    → HasFresh peers bufs
fresh_later peers buf bufs (inl (free, new)) (inl bad) = absurd (ground arith)
fresh_later peers buf bufs (inl (free, new)) (inr bad) =
    let unused = index_exists-AllNew (of_little buf) peers new in absurd (ground arith)
fresh_later peers buf bufs (inr later) bad = later

unique_index-Returned :
    (device : Device) (bufs : List Bytes)
    → HasFresh device.peers bufs
    → Returned device (unique_index device bufs)
unfolding unique_index
unique_index-Returned device [] fresh = absurd fresh
unique_index-Returned device (buf ∷ bufs) fresh = elim (Bool-cases (reserved (of_little buf))) [
  | inl bad ↦
      rw bad (unique_index-Returned device bufs (fresh_later device.peers buf bufs fresh (inl bad)))
  | inr good ↦ elim (Bool-cases (index_exists (of_little buf) false device.peers)) [
    | inl used ↦
        rw (good, used)
          (unique_index-Returned device bufs (fresh_later device.peers buf bufs fresh (inr used)))
    | inr free ↦ rw (good, free) (of_little buf, refl, good, free)
  ]
]

-- `wireguard_generate_unique_index` returns as soon as the random source gives an index that is not
-- reserved and that no peer has. What it returns is not reserved, and where the device has one peer,
-- that peer does not have it.
pub unique_index-returns :
    (device : Device) (bufs : List Bytes)
    → HasFresh device.peers bufs
    → (index : ℕ) × (unique_index device bufs ≡ some index)
      × (index ≢ 0)
      × (index ≢ 2 ^ 32 - 1)
      × ((peer : Peer) → device.peers ≡ peer ∷ [] → has_index index peer ≡ false)
unfolding reserved
unique_index-returns device bufs fresh =
    let (index, e, good, free) = unique_index-Returned device bufs fresh in
    (
      index,
      e,
      ground arith,
      ground arith,
      λ peer one.
          let free1 = rw one at free in
          let free2 : index_exists index false (peer ∷ []) ≡ has_index index peer =
            unfold index_exists in refl in
          sym free2 ∙ free1,
    )
