-- ===== src/Replay/Stream.antt =====
-- A run of `check_replay` over the packets of one session.
use gsoc2026_nuttx_wireguard.Base.{
  ℕ, ◌+◌, ◌<◌, true, false, List, [], ◌∷◌, ◌*◌, length, ◌==◌, if◌then◌else◌, u64, ◌≡◌, refl, ap,
  ◌∙◌, ◌%◌, ◌/◌, bit, ltb, arith, get_or-replicate, length-replicate, Bool-cases, inl, inr,
}
use gsoc2026_nuttx_wireguard.Base.Bits.{bit-zero}
use gsoc2026_nuttx_wireguard.Device.{Keypair, zero_keypair}
use gsoc2026_nuttx_wireguard.Replay.{check_replay}
use gsoc2026_nuttx_wireguard.Replay.Window.{contains, is_fresh, IsWindow, replicate-IsWords}
use gsoc2026_nuttx_wireguard.Replay.Check.{check_replay-IsWindow}

-- The packets that a keypair accepts, in the order in which they arrive.
pub accepted : Keypair → List ℕ → List ℕ
accepted keypair [] = []
accepted keypair (seq ∷ seqs) =
    let (keypair', ok) = check_replay keypair seq in
    let rest = accepted keypair' seqs in if ok then seq ∷ rest else rest

abbrev pub Distinct : List ℕ → Type 0
Distinct [] = Unit
Distinct (x ∷ xs) = (contains xs x ≡ false) × Distinct xs

-- A packet that the window knows is not fresh.
seen-not-fresh :
    (keypair : Keypair) (seen : List ℕ) (s : ℕ)
    → IsWindow keypair seen
    → contains seen s ≡ true
    → is_fresh (length keypair.replay_bitmap * 64) keypair.replay_counter seen s ≡ false
seen-not-fresh keypair seen s w old =
    let not_above : ltb keypair.replay_counter s ≡ false = ground (arith, w.known s old) in
    ground arith

-- A packet that was accepted before is not accepted again.
seen-not-accepted :
    (seqs : List ℕ) (keypair : Keypair) (seen : List ℕ) (q : ℕ)
    → IsWindow keypair seen
    → contains seen (u64 (q + 1)) ≡ true
    → contains (accepted keypair seqs) q ≡ false
unfolding accepted
seen-not-accepted [] keypair seen q w old = refl
seen-not-accepted (seq ∷ seqs) keypair seen q w old =
    let r = check_replay keypair seq in
    let (answer, w') = check_replay-IsWindow keypair seen w seq in
    elim (Bool-cases r.1) [
      | inl taken ↦ rw taken (elim (Bool-cases (q == seq)) [
        | inl same ↦
            let e : q ≡ seq = ground arith in
            let stale = seen-not-fresh keypair seen (u64 (seq + 1)) w (rw e at old) in
            absurd (ground arith)
        | inr other ↦
            rw other
              (seen-not-accepted seqs r.0 (u64 (seq + 1) ∷ seen) q (rw taken at w') (ground arith))
      ])
      | inr dropped ↦ rw dropped (seen-not-accepted seqs r.0 seen q (rw dropped at w') old)
    ]

accepted-Distinct_from :
    (seqs : List ℕ) (keypair : Keypair) (seen : List ℕ)
    → IsWindow keypair seen
    → Distinct (accepted keypair seqs)
unfolding accepted
accepted-Distinct_from [] keypair seen w = tt
accepted-Distinct_from (seq ∷ seqs) keypair seen w =
    let r = check_replay keypair seq in
    let (answer, w') = check_replay-IsWindow keypair seen w seq in
    elim (Bool-cases r.1) [
      | inl taken ↦
          let w'' : IsWindow r.0 (u64 (seq + 1) ∷ seen) = rw taken at w' in
          rw taken (
            seen-not-accepted seqs r.0 (u64 (seq + 1) ∷ seen) seq w'' (ground arith),
            accepted-Distinct_from seqs r.0 (u64 (seq + 1) ∷ seen) w'',
          )
      | inr dropped ↦ rw dropped (accepted-Distinct_from seqs r.0 seen (rw dropped at w'))
    ]

pub zero_keypair-IsWindow : (n : ℕ) → 0 < n → IsWindow (zero_keypair n) []
zero_keypair-IsWindow n pos = record {
  words = replicate-IsWords n;
  nonempty = rw length-replicate pos;
  known = λ s there. cc;
  marked = λ k h.
      ap (λ (x : ℕ). bit x (k % 64)) (get_or-replicate {A = ℕ} n (k / 64) 0) ∙ bit-zero (k % 64);
}

-- Over any sequence of arriving packets a new session accepts no packet twice.
pub accepted-Distinct : (n : ℕ) (seqs : List ℕ) → 0 < n → Distinct (accepted (zero_keypair n) seqs)
accepted-Distinct n seqs pos =
    accepted-Distinct_from seqs (zero_keypair n) [] (zero_keypair-IsWindow n pos)
