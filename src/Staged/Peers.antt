-- ===== src/Staged/Peers.antt =====
-- What `wg set peer` and `wg remove` do to the list of staged peers.
use gsoc2026_nuttx_wireguard.Base.{
  ℕ, suc, ◌+◌, ◌<◌, Bool, true, false, List, [], ◌∷◌, ◌++◌, Option, none, some, length, get_elem?,
  set, leb, ◌≡◌, ◌⊎◌, inl, inr, refl, sym, ◌∙◌, subst, arith, Bytes, str_eq, str_eq_iff, Bool-cases,
  Option-cases,
}
use gsoc2026_nuttx_wireguard.Config.{Kconfig, Libc, ℤ, Ret, ok, err, einval, enospc, ebusy}
use gsoc2026_nuttx_wireguard.Staged.{
  StagedPeer, Staged, find_key, parse_endpoint, parse_allowed, decode_key, apply_settings,
  fresh_peer, update_peer, append_peer, set_peer,
}

-- What a found index means: the entry there has the key.
pub find_key_lem :
    (key : Bytes) (i : ℕ) (ps : List StagedPeer) (j : ℕ)
    → find_key key i ps ≡ some j
    → (k : ℕ) × (p : StagedPeer) × (j ≡ i + k) × (get_elem? ps k ≡ some p) × (p.public_key ≡ key)
unfolding find_key
find_key_lem key i [] j h = absurd (ground arith)
find_key_lem key i (p ∷ ps) j h = elim (Bool-cases (str_eq p.public_key key)) [
  | inl e ↦ (0, p, ground arith, refl, (str_eq_iff p.public_key key).0 e)
  | inr ne ↦
      let (k, q, e, at, same) = find_key_lem key (i + 1) ps j (rw ne at h) in
      (suc k, q, omega arith, at, same)
]

module _ (libc : Libc) where
  -- The settings of a peer never touch its key.
  parse_endpoint-key :
      (text : Bytes) (tmp after : StagedPeer)
      → parse_endpoint libc text tmp ≡ some after
      → after.public_key ≡ tmp.public_key
  unfolding parse_endpoint
  parse_endpoint-key text tmp after h = ground arith

  parse_allowed-key :
      (text : Bytes) (tmp after : StagedPeer)
      → parse_allowed libc text tmp ≡ some after
      → after.public_key ≡ tmp.public_key
  unfolding parse_allowed
  parse_allowed-key text tmp after h = ground arith

  apply_settings-key :
      (endpoint allowed : Option Bytes) (keepalive : ℤ) (tmp after : StagedPeer)
      → apply_settings libc endpoint allowed keepalive tmp ≡ some after
      → after.public_key ≡ tmp.public_key
  unfolding apply_settings
  apply_settings-key none none keepalive tmp after h = ground arith
  apply_settings-key none (some a) keepalive tmp after h =
      elim (Option-cases (parse_allowed libc a tmp)) [
        | inl missing ↦ absurd (ground arith)
        | inr (t, e) ↦ let l = parse_allowed-key a tmp t e in ground arith
      ]
  apply_settings-key (some e) none keepalive tmp after h =
      elim (Option-cases (parse_endpoint libc e tmp)) [
        | inl missing ↦ absurd (ground arith)
        | inr (t, e) ↦ let l = parse_endpoint-key _ tmp t e in ground arith
      ]
  apply_settings-key (some e) (some a) keepalive tmp after h =
      elim (Option-cases (parse_endpoint libc e tmp)) [
        | inl missing ↦ absurd (ground arith)
        | inr (t, e1) ↦ elim (Option-cases (parse_allowed libc a t)) [
          | inl missing ↦ (let h' = rw (e1, apply_settings, missing) at h in absurd (ground arith))
          | inr (u, e2) ↦
              let l = parse_endpoint-key _ tmp t e1 in
              let m = parse_allowed-key _ t u e2 in
              let h' = rw (e1, apply_settings, e2) at h in ground arith
        ]
      ]

  module _ (kconfig : Kconfig) (staged : Staged) (pubkey : Bytes) where
    -- The change of an entry that has the key: its other fields may change, and no other entry.
    pub record Updated (after : Staged) : Type 0 where
      pub index : ℕ
      pub old : StagedPeer
      pub entry : StagedPeer
      pub at : get_elem? staged.peers index ≡ some old
      pub had_key : old.public_key ≡ pubkey
      pub keeps_key : entry.public_key ≡ pubkey
      pub list : after.peers ≡ set staged.peers index entry

    -- A new entry at the end, where there was room and no entry had the key.
    pub record Appended (after : Staged) : Type 0 where
      pub entry : StagedPeer
      pub room : length staged.peers < kconfig.max_peers
      pub was_missing : find_key pubkey 0 staged.peers ≡ none
      pub key : entry.public_key ≡ (fresh_peer libc kconfig pubkey).public_key
      pub list : after.peers ≡ staged.peers ++ (entry ∷ [])

    abbrev pub SetPeer : Staged × Ret → Type 0
    SetPeer (after, err e) = after ≡ staged
    SetPeer (after, ok) =
        (after.private_key ≡ staged.private_key) × (Updated after ⊎ Appended after)

    module _ (endpoint allowed : Option Bytes) (keepalive : ℤ) where
      ends_with : (p q : Staged × Ret) → q ≡ p → SetPeer p → SetPeer q
      ends_with p q e o = subst SetPeer (sym e) o

      update_peer-SetPeer :
          (i : ℕ)
          → find_key pubkey 0 staged.peers ≡ some i
          → SetPeer (update_peer libc kconfig staged i endpoint allowed keepalive)
      update_peer-SetPeer i found =
          let (k, old, e, at, same) = find_key_lem pubkey 0 staged.peers i found in
          let at' : get_elem? staged.peers i ≡ some old =
            (let ki : k ≡ i = omega arith in rw ki at at) in
          elim (Option-cases (apply_settings libc endpoint allowed keepalive old)) [
            | inl bad ↦
                ends_with (staged, err einval) _
                  (unfold update_peer in rw (at', update_peer, bad) refl) refl
            | inr (tmp, good) ↦
                let key = apply_settings-key endpoint allowed keepalive old tmp good in
                ends_with (record staged { peers = set staged.peers i tmp }, ok) _
                  (unfold update_peer in rw (at', update_peer, good) refl)
                  (
                    refl,
                    inl (record {
                      index = i;
                      old = old;
                      entry = tmp;
                      at = at';
                      had_key = same;
                      keeps_key = key ∙ same;
                      list = refl;
                    }),
                  )
          ]

      append_peer-SetPeer :
          find_key pubkey 0 staged.peers ≡ none
          → SetPeer (append_peer libc kconfig staged pubkey endpoint allowed keepalive)
      append_peer-SetPeer missing =
          elim (Bool-cases (leb kconfig.max_peers (length staged.peers))) [
            | inl full ↦ ends_with (staged, err enospc) _ (unfold append_peer in rw full refl) refl
            | inr free ↦
                elim (Option-cases (
                  apply_settings libc endpoint allowed keepalive
                    (fresh_peer libc kconfig pubkey))) [
                      | inl bad ↦
                          ends_with (staged, err einval) _
                            (unfold append_peer in rw (free, bad, append_peer) refl) refl
                      | inr (tmp, good) ↦
                          ends_with (record staged { peers = staged.peers ++ (tmp ∷ []) }, ok) _
                            (unfold append_peer in rw (free, good) refl)
                            (
                              refl,
                              inr (record {
                                entry = tmp;
                                room = ground arith;
                                was_missing = missing;
                                key = apply_settings-key endpoint allowed keepalive _ tmp good;
                                list = refl;
                              }),
                            )
                    ]
          ]

      -- `wg_set_peer`: an error leaves the staged configuration as it was; otherwise either the
      -- entry with the key changes in place, or an entry with a new key is added below the limit.
      pub set_peer-SetPeer :
          (registered : Bool)
          → SetPeer (set_peer libc kconfig registered staged pubkey endpoint allowed keepalive)
      set_peer-SetPeer true = ends_with (staged, err ebusy) _ (unfold set_peer in refl) refl
      set_peer-SetPeer false = elim (Option-cases (decode_key pubkey)) [
        | inl bad ↦
            ends_with (staged, err einval) _ (unfold set_peer in rw (bad, set_peer) refl) refl
        | inr (key, good) ↦ elim (Option-cases (find_key pubkey 0 staged.peers)) [
          | inl missing ↦
              ends_with (append_peer libc kconfig staged pubkey endpoint allowed keepalive) _
                (unfold set_peer in rw (good, set_peer, missing, set_peer) refl)
                (append_peer-SetPeer missing)
          | inr (i, found) ↦
              ends_with (update_peer libc kconfig staged i endpoint allowed keepalive) _
                (unfold set_peer in rw (good, set_peer, found, set_peer) refl)
                (update_peer-SetPeer i found)
        ]
      ]
