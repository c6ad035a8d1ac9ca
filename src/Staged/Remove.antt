-- ===== src/Staged/Remove.antt =====
-- What `wg remove` leaves of the list of staged peers.
use gsoc2026_nuttx_wireguard.Base.{
  ℕ, zero, suc, ◌+◌, ◌≤◌, Bool, true, false, List, [], ◌∷◌, none, some, length, ◌≡◌, inl, inr, refl,
  arith, Bytes, str_eq, str_eq_iff, Bool-cases, Option-cases,
}
use gsoc2026_nuttx_wireguard.Config.{Kconfig, ok, err}
use gsoc2026_nuttx_wireguard.Staged.{StagedPeer, Staged, find_key, remove_at, remove_peer}
use gsoc2026_nuttx_wireguard.Staged.Peers.{find_key_lem}
use gsoc2026_nuttx_wireguard.Staged.Unique.{Unique, IsStaged, find_key-shift}

length-remove_at : (i : ℕ) (ps : List StagedPeer) → length (remove_at i ps) ≤ length ps
unfolding remove_at
length-remove_at i [] = omega arith
length-remove_at zero (p ∷ ps) = omega arith
length-remove_at (suc i) (p ∷ ps) = let l = length-remove_at i ps in omega arith

-- A missing key stays missing.
find_key-remove_at :
    (key : Bytes) (j i : ℕ) (ps : List StagedPeer)
    → find_key key j ps ≡ none
    → find_key key j (remove_at i ps) ≡ none
unfolding find_key remove_at
find_key-remove_at key j i [] h = refl
find_key-remove_at key j zero (p ∷ ps) h = elim (Bool-cases (str_eq p.public_key key)) [
  | inl e ↦ absurd (ground arith)
  | inr ne ↦ find_key-shift key (j + 1) j ps (rw ne at h)
]
find_key-remove_at key j (suc i) (p ∷ ps) h = elim (Bool-cases (str_eq p.public_key key)) [
  | inl e ↦ absurd (ground arith)
  | inr ne ↦ rw ne (find_key-remove_at key (j + 1) i ps (rw ne at h))
]

remove_at-Unique : (i : ℕ) (ps : List StagedPeer) → Unique ps → Unique (remove_at i ps)
unfolding remove_at
remove_at-Unique i [] u = u
remove_at-Unique zero (p ∷ ps) (first, u) = u
remove_at-Unique (suc i) (p ∷ ps) (first, u) =
    (find_key-remove_at p.public_key 0 i ps first, remove_at-Unique i ps u)

-- With distinct keys, the entry that is found is the only one.
remove_at-gone :
    (key : Bytes) (j k : ℕ) (ps : List StagedPeer)
    → Unique ps
    → find_key key j ps ≡ some (j + k)
    → find_key key j (remove_at k ps) ≡ none
unfolding find_key remove_at
remove_at-gone key j k [] u h = absurd (ground arith)
remove_at-gone key j zero (p ∷ ps) (first, u) h = elim (Bool-cases (str_eq p.public_key key)) [
  | inl e ↦
      (let same : p.public_key ≡ key = (str_eq_iff p.public_key key).0 e in
        find_key-shift key 0 j ps (rw same at first))
  | inr ne ↦
      (let (k', q, later, at, same) = find_key_lem key (j + 1) ps (j + 0) (rw ne at h) in
        absurd (omega arith))
]
remove_at-gone key j (suc k) (p ∷ ps) (first, u) h = elim (Bool-cases (str_eq p.public_key key)) [
  | inl e ↦ absurd (ground arith)
  | inr ne ↦
      (let moved : j + suc k ≡ j + 1 + k = omega arith in
        rw ne (remove_at-gone key (j + 1) k ps u (rw (ne, moved) at h)))
]

-- `wg_remove_peer` keeps the list well formed; when it succeeds, no entry has the key any more,
-- and when it fails, the configuration is as it was.
pub remove_peer-gone :
    (kconfig : Kconfig) (registered : Bool) (staged : Staged) (pubkey : Bytes)
    → IsStaged kconfig staged
    → let (after, ret) = remove_peer registered staged pubkey in
      IsStaged kconfig after
      × (ret ≡ ok → find_key pubkey 0 after.peers ≡ none)
      × ((e : _) → ret ≡ err e → after ≡ staged)
unfolding remove_peer
remove_peer-gone kconfig true staged pubkey w = (w, λ e. absurd (ground arith), λ e h. refl)
remove_peer-gone kconfig false staged pubkey w =
    elim (Option-cases (find_key pubkey 0 staged.peers)) [
      | inl missing ↦ rw (missing, remove_peer) (w, λ e. absurd (ground arith), λ e h. refl)
      | inr (i, found) ↦
          rw (found, remove_peer)
            (
              record {
                bounded =
                    (let b = w.bounded in let l = length-remove_at i staged.peers in omega arith);
                unique = remove_at-Unique i staged.peers w.unique;
              },
              λ e.
                  remove_at-gone pubkey 0 i staged.peers w.unique
                    (let z : i ≡ 0 + i = omega arith in rw z at found),
              λ e h. absurd (ground arith),
            )
    ]
