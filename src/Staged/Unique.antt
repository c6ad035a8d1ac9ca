-- ===== src/Staged/Unique.antt =====
-- The staged list keeps its size limit and never has two entries for one key.
use gsoc2026_nuttx_wireguard.Base.{
  ℕ, zero, suc, ◌+◌, ◌≤◌, ◌<◌, Bool, false, List, [], ◌∷◌, ◌++◌, Option, none, some, length,
  get_elem?, set, take_all, length-set, length-append, ◌≡◌, inl, inr, refl, sym, ◌∙◌, subst, arith,
  Bytes, str_eq, str_eq_iff, Bool-cases,
}
use gsoc2026_nuttx_wireguard.Config.{Kconfig, Libc, ℤ, Ret, ok, err}
use gsoc2026_nuttx_wireguard.Staged.{StagedPeer, Staged, find_key, fresh_peer, set_peer}
use gsoc2026_nuttx_wireguard.Staged.Peers.{SetPeer, set_peer-SetPeer}

-- No two entries have the same key.
abbrev pub Unique : List StagedPeer → Type 0
Unique [] = Unit
Unique (p ∷ ps) = (find_key p.public_key 0 ps ≡ none) × Unique ps

-- The index from which the search counts has no bearing on whether the key is missing.
pub find_key-shift :
    (key : Bytes) (i j : ℕ) (ps : List StagedPeer)
    → find_key key i ps ≡ none
    → find_key key j ps ≡ none
unfolding find_key
find_key-shift key i j [] h = refl
find_key-shift key i j (p ∷ ps) h = elim (Bool-cases (str_eq p.public_key key)) [
  | inl e ↦ absurd (ground arith)
  | inr ne ↦ rw ne (find_key-shift key (i + 1) (j + 1) ps (rw ne at h))
]

find_key-set :
    (key : Bytes) (j i : ℕ) (ps : List StagedPeer) (old entry : StagedPeer)
    → get_elem? ps i ≡ some old
    → entry.public_key ≡ old.public_key
    → find_key key j (set ps i entry) ≡ find_key key j ps
unfolding find_key
find_key-set key j i [] old entry at same = refl
find_key-set key j zero (p ∷ ps) old entry at same =
    let e : entry.public_key ≡ p.public_key = cc in rw e refl
find_key-set key j (suc i) (p ∷ ps) old entry at same =
    rw (find_key-set key (j + 1) i ps old entry at same) refl

find_key-append :
    (key : Bytes) (j : ℕ) (ps : List StagedPeer) (entry : StagedPeer)
    → find_key key j ps ≡ none
    → str_eq entry.public_key key ≡ false
    → find_key key j (ps ++ (entry ∷ [])) ≡ none
unfolding find_key
find_key-append key j [] entry missing other = rw other refl
find_key-append key j (p ∷ ps) entry missing other = elim (Bool-cases (str_eq p.public_key key)) [
  | inl e ↦ absurd (ground arith)
  | inr ne ↦ rw ne (find_key-append key (j + 1) ps entry (rw ne at missing) other)
]

pub str_ne-sym : (a b : Bytes) → str_eq a b ≡ false → str_eq b a ≡ false
str_ne-sym a b ne = elim (Bool-cases (str_eq b a)) [
  | inl e ↦ (let back = (str_eq_iff a b).1 (sym ((str_eq_iff b a).0 e)) in absurd (ground arith))
  | inr e ↦ e
]

set-Unique :
    (i : ℕ) (ps : List StagedPeer) (old entry : StagedPeer)
    → get_elem? ps i ≡ some old
    → entry.public_key ≡ old.public_key
    → Unique ps
    → Unique (set ps i entry)
set-Unique i [] old entry at same u = u
set-Unique zero (p ∷ ps) old entry at same (missing, u) =
    let e : entry.public_key ≡ p.public_key = cc in (rw e missing, u)
set-Unique (suc i) (p ∷ ps) old entry at same (missing, u) = (
  find_key-set p.public_key 0 i ps old entry at same ∙ missing,
  set-Unique i ps old entry at same u,
)

append-Unique :
    (ps : List StagedPeer) (entry : StagedPeer)
    → Unique ps
    → find_key entry.public_key 0 ps ≡ none
    → Unique (ps ++ (entry ∷ []))
unfolding find_key
append-Unique [] entry u missing = (refl, tt)
append-Unique (p ∷ ps) entry (first, u) missing =
    elim (Bool-cases (str_eq p.public_key entry.public_key)) [
      | inl e ↦ absurd (ground arith)
      | inr ne ↦ (
        find_key-append p.public_key 0 ps entry first (str_ne-sym _ _ ne),
        append-Unique ps entry u (find_key-shift entry.public_key 1 0 ps (rw ne at missing)),
      )
    ]

-- The list is no longer than the array, and its keys are distinct.
pub record IsStaged (kconfig : Kconfig) (staged : Staged) : Type 0 where
  pub bounded : length staged.peers ≤ kconfig.max_peers
  pub unique : Unique staged.peers

module _ (libc : Libc) (kconfig : Kconfig) (staged : Staged) (pubkey : Bytes) where
  SetPeer-IsStaged :
      (p : Staged × Ret)
      → SetPeer libc kconfig staged pubkey p
      → length pubkey < 48
      → IsStaged kconfig staged
      → IsStaged kconfig (p.0)
  SetPeer-IsStaged (after, err e) same short w = subst (IsStaged kconfig) (sym same) w
  SetPeer-IsStaged (after, ok) (key, inl u) short w = record {
    bounded = rw (u.list, length-set) (w.bounded);
    unique =
        subst Unique (sym u.list) (
          set-Unique u.index staged.peers u.old u.entry u.at (u.keeps_key ∙ sym u.had_key)
            w.unique);
  }
  SetPeer-IsStaged (after, ok) (key, inr a) short w =
      let named : a.entry.public_key ≡ pubkey =
        a.key ∙ unfold fresh_peer in take_all 47 pubkey (omega arith) in
      record {
        bounded = rw (a.list, length-append) (let room = a.room in omega arith);
        unique =
            subst Unique (sym a.list)
              (append-Unique staged.peers a.entry w.unique (rw named a.was_missing));
      }

  -- `wg_set_peer` with a key text that fits its field keeps the staged list within the array and
  -- its keys distinct, whatever it returns.
  pub set_peer-IsStaged :
      (registered : Bool) (endpoint allowed : Option Bytes) (keepalive : ℤ)
      → length pubkey < 48
      → IsStaged kconfig staged
      → IsStaged kconfig
          (set_peer libc kconfig registered staged pubkey endpoint allowed keepalive).0
  set_peer-IsStaged registered endpoint allowed keepalive =
      SetPeer-IsStaged _
        (set_peer-SetPeer libc kconfig staged pubkey endpoint allowed keepalive registered)
