-- ===== src/Route/Longest.antt =====
-- The chosen peer has the longest matching prefix.
use gsoc2026_nuttx_wireguard.Base.{
  ℕ, zero, suc, ◌+◌, ◌≤◌, true, false, List, [], ◌∷◌, Option, none, some, get_elem?, ◌≡◌, ◌⊎◌, inl,
  inr, refl, ap, sym, subst, ◌∙◌, arith, ntohl, Bool-cases, if◌then◌else◌,
}
use native.Mathlib.Nat.{zero-add}
use gsoc2026_nuttx_wireguard.Device.{AllowedIp, Peer, Device}
use gsoc2026_nuttx_wireguard.Route.{
  is_none, covers, Best, best_step, best_entry, best_peer, peer_for_dest,
}

-- Entry `j` of peer `x` is valid, belongs to a valid peer and covers `dest`.
pub record Candidate (peers : List Peer) (dest x : ℕ) (entry : AllowedIp) : Type 0 where
  pub peer : Peer
  pub at : get_elem? peers x ≡ some peer
  pub live : peer.valid ≡ true
  pub index : ℕ
  pub listed : get_elem? peer.allowed_source_ips index ≡ some entry
  pub matches : covers entry dest ≡ true

-- While no peer is chosen the best mask is the 0 that it starts with.
abbrev Started : Best → Type 0
Started b = is_none b.best ≡ true → b.best_mask ≡ 0

-- `c` is a later state of the loop than `b`.
record Later (b c : Best) : Type 0 where
  started : Started c
  grows : b.best_mask ≤ c.best_mask
  chosen : is_none b.best ≡ false → is_none c.best ≡ false

-- The state accounts for mask `m`.
abbrev Beats : Best → ℕ → Type 0
Beats c m = (m ≤ c.best_mask) × (is_none c.best ≡ false)

Later-trans : {a b c : Best} → Later a b → Later b c → Later a c
Later-trans p q = record {
  started = q.started;
  grows = omega arith;
  chosen = λ e. q.chosen (p.chosen e);
}

Later-Beats : {b c : Best} {m : ℕ} → Later b c → Beats b m → Beats c m
Later-Beats p q = (omega arith, p.chosen q.1)

module _ (dest : ℕ) where
  step-Later : (x : ℕ) (b : Best) (e : AllowedIp) → Started b → Later b (best_step dest x b e)
  unfolding best_step
  step-Later x b e s = ground arith

  step-Beats :
      (x : ℕ) (b : Best) (e : AllowedIp)
      → covers e dest ≡ true
      → Beats (best_step dest x b e) (ntohl e.mask)
  unfolding best_step
  step-Beats x b e h = ground arith

  entry-Later :
      (x : ℕ) (b : Best) (es : List AllowedIp) → Started b → Later b (best_entry dest x b es)
  unfolding best_entry
  entry-Later x b [] s = record { started = s; grows = omega arith; chosen = λ e. e }
  entry-Later x b (e ∷ es) s =
      let p = step-Later x b e s in
      Later-trans p (entry-Later x (best_step dest x b e) es p.started)

  entry-Beats :
      (x : ℕ) (b : Best) (es : List AllowedIp) (j : ℕ) (e : AllowedIp)
      → Started b
      → get_elem? es j ≡ some e
      → covers e dest ≡ true
      → Beats (best_entry dest x b es) (ntohl e.mask)
  unfolding best_entry
  entry-Beats x b [] j e s at h = cc
  entry-Beats x b (d ∷ es) zero e s at h =
      let same : d ≡ e = cc in
      Later-Beats (entry-Later x (best_step dest x b d) es ((step-Later x b d s).started))
        (rw same (step-Beats x b e h))
  entry-Beats x b (d ∷ es) (suc j) e s at h =
      entry-Beats x (best_step dest x b d) es j e ((step-Later x b d s).started) at h

  -- The body of the outer loop.
  abbrev peer_step : ℕ → Best → Peer → Best
  peer_step x b peer = if peer.valid then best_entry dest x b peer.allowed_source_ips else b

  peer_step-Later : (x : ℕ) (b : Best) (p : Peer) → Started b → Later b (peer_step x b p)
  peer_step-Later x b p s = elim (Bool-cases p.valid) [
    | inl live ↦ rw live (entry-Later x b p.allowed_source_ips s)
    | inr dead ↦ rw dead (record { started = s; grows = omega arith; chosen = λ e. e })
  ]

  peer-Later : (x : ℕ) (b : Best) (ps : List Peer) → Started b → Later b (best_peer dest x b ps)
  unfolding best_peer
  peer-Later x b [] s = record { started = s; grows = omega arith; chosen = λ e. e }
  peer-Later x b (p ∷ ps) s =
      let q = peer_step-Later x b p s in
      Later-trans q (peer-Later (x + 1) (peer_step x b p) ps q.started)

  peer-Beats :
      (x : ℕ) (b : Best) (ps : List Peer) (y : ℕ) (e : AllowedIp)
      → Started b
      → Candidate ps dest y e
      → Beats (best_peer dest x b ps) (ntohl e.mask)
  unfolding best_peer
  peer-Beats x b [] y e s c = absurd (ground (arith, c.at))
  peer-Beats x b (p ∷ ps) zero e s c =
      let q = peer_step-Later x b p s in
      let same : p ≡ c.peer = ground (arith, c.at) in
      Later-Beats (peer-Later (x + 1) (peer_step x b p) ps q.started) (
        rw (same, c.live)
          (entry-Beats x b c.peer.allowed_source_ips c.index e s c.listed c.matches))
  peer-Beats x b (p ∷ ps) (suc y) e s c =
      let q = peer_step-Later x b p s in
      peer-Beats (x + 1) (peer_step x b p) ps y e q.started (record {
        peer = c.peer;
        at = c.at;
        live = c.live;
        index = c.index;
        listed = c.listed;
        matches = c.matches;
      })

  abbrev choice : ℕ → ℕ → Best
  choice x m = record { best = some x; best_mask = m }

  step-Origin :
      (x : ℕ) (b : Best) (e : AllowedIp)
      → (best_step dest x b e ≡ b)
        ⊎ ((covers e dest ≡ true) × (best_step dest x b e ≡ choice x (ntohl e.mask)))
  unfolding best_step
  step-Origin x b e = ground arith

  entry-Origin :
      (x : ℕ) (b : Best) (es : List AllowedIp)
      → (best_entry dest x b es ≡ b)
        ⊎ ((j : ℕ) × (e : AllowedIp) × (get_elem? es j ≡ some e)
            × (covers e dest ≡ true)
            × (best_entry dest x b es ≡ choice x (ntohl e.mask)))
  unfolding best_entry
  entry-Origin x b [] = inl refl
  entry-Origin x b (d ∷ es) = elim (entry-Origin x (best_step dest x b d) es) [
    | inl kept ↦ elim (step-Origin x b d) [
      | inl same ↦ inl (kept ∙ same)
      | inr (h, taken) ↦ inr (0, d, refl, h, kept ∙ taken)
    ]
    | inr (j, e, at, h, taken) ↦ inr (suc j, e, at, h, taken)
  ]

  Candidate-later :
      {p : Peer} {ps : List Peer} {y : ℕ} {e : AllowedIp}
      → Candidate ps dest y e
      → Candidate (p ∷ ps) dest (suc y) e
  Candidate-later c = record {
    peer = c.peer;
    at = c.at;
    live = c.live;
    index = c.index;
    listed = c.listed;
    matches = c.matches;
  }

  peer_step-Origin :
      (x : ℕ) (b : Best) (p : Peer) (ps : List Peer)
      → (peer_step x b p ≡ b)
        ⊎ ((e : AllowedIp) × Candidate (p ∷ ps) dest 0 e
            × (peer_step x b p ≡ choice x (ntohl e.mask)))
  peer_step-Origin x b p ps = elim (Bool-cases p.valid) [
    | inr dead ↦ inl (rw dead)
    | inl live ↦ elim (entry-Origin x b p.allowed_source_ips) [
      | inl kept ↦ inl (rw live kept)
      | inr (j, e, listed, h, taken) ↦ inr (
        e,
        record { peer = p; at = refl; live = live; index = j; listed = listed; matches = h },
        rw live taken,
      )
    ]
  ]

  peer-Origin :
      (x : ℕ) (b : Best) (ps : List Peer)
      → (best_peer dest x b ps ≡ b)
        ⊎ ((y : ℕ) × (e : AllowedIp) × Candidate ps dest y e
            × (best_peer dest x b ps ≡ choice (x + y) (ntohl e.mask)))
  unfolding best_peer
  peer-Origin x b [] = inl refl
  peer-Origin x b (p ∷ ps) = elim (peer-Origin (x + 1) (peer_step x b p) ps) [
    | inl kept ↦ elim (peer_step-Origin x b p ps) [
      | inl same ↦ inl (kept ∙ same)
      | inr (e, c, taken) ↦
          inr (0, e, c, kept ∙ taken ∙ ap (λ n. choice n (ntohl e.mask)) (omega arith))
    ]
    | inr (y, e, c, taken) ↦
        inr (suc y, e, Candidate-later c, taken ∙ ap (λ n. choice n (ntohl e.mask)) (omega arith))
  ]

-- What a choice of peer must be: the owner of an entry of the longest prefix among all entries
-- that cover the address, or no peer where none covers it.
abbrev pub IsLongest : List Peer → ℕ → Option ℕ → Type 0
IsLongest peers dest none = (y : ℕ) (e : AllowedIp) → ¬ Candidate peers dest y e
IsLongest peers dest (some x) =
    (entry : AllowedIp) × Candidate peers dest x entry
    × ((y : ℕ) (e : AllowedIp) → Candidate peers dest y e → ntohl e.mask ≤ ntohl entry.mask)

-- Cryptokey routing: `peer_for_dest` chooses a valid peer with a valid entry that covers the
-- address, whose mask, in host order, is at least that of every such entry of every valid peer,
-- and it chooses none only where there is no such entry.
pub peer_for_dest-IsLongest :
    (device : Device) (dest : ℕ) → IsLongest device.peers dest (peer_for_dest device dest)
unfolding peer_for_dest
peer_for_dest-IsLongest device dest =
    let start : Best = record { best = none; best_mask = 0 } in
    let P = λ (b : Best). IsLongest device.peers dest b.best in
    elim (peer-Origin dest 0 start device.peers) [
      | inl untouched ↦ subst P (sym untouched) (λ y e c.
          let beats = peer-Beats dest 0 start device.peers y e (λ h. refl) c in
          ground (arith, untouched, beats))
      | inr (x, entry, c, chosen) ↦
          let at_x : peer_for_dest device dest ≡ some x =
            ap (λ (b : Best). b.best) chosen ∙ ap some (zero-add x) in
          subst (IsLongest device.peers dest) (sym at_x) (
            entry,
            c,
            λ y e d. ground (arith, peer-Beats dest 0 start device.peers y e (λ h. refl) d, chosen),
          )
    ]
