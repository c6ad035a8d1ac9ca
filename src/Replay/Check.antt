-- ===== src/Replay/Check.antt =====
-- One call of `check_replay` against the packets accepted so far.
use gsoc2026_nuttx_wireguard.Base.{
  ℕ, ◌+◌, ◌-◌, ◌*◌, ◌/◌, ◌%◌, ◌^◌, ◌≤◌, ◌<◌, Bool, true, false, not, List, ◌∷◌, length, get_or,
  replicate, bit, bit_and, ltb, ◌==◌, if◌then◌else◌, u64, ◌≡◌, sym, ap, ◌∙◌, arith,
  get_or-replicate, length-set, length-replicate, lt→ltb, subst, Bool-cases, inl, inr,
}
use gsoc2026_nuttx_wireguard.Base.Bits.{bit_and-mark, bit-zero}
use native.Mathlib.Decide.{dec_lt, ℕ_discrete}
use gsoc2026_nuttx_wireguard.Device.{Keypair}
use gsoc2026_nuttx_wireguard.Replay.{shift_loop, check_replay}
use gsoc2026_nuttx_wireguard.Replay.Shift.{
  window_bit, IsWords, length-shift_loop, shift_loop_bit, shift_loop-IsWords,
}
use gsoc2026_nuttx_wireguard.Replay.Window.{
  contains, bit_of, is_fresh, IsWindow, mark, mark_bit, mark-IsWords, replicate-IsWords,
}

module _ (keypair : Keypair) (seen : List ℕ) (w : IsWindow keypair seen) where
  open keypair use {replay_bitmap as bm, replay_counter as counter}
  open w use {words, nonempty, known, marked}

  abbrev window : ℕ
  window = length bm * 64

  -- The bitmap after a packet above all others.
  abbrev advanced : ℕ → List ℕ
  advanced diff =
      if ltb diff window
      then mark (shift_loop (length bm) (diff / 64) (diff % 64) bm) 0
      else mark (replicate (length bm) 0) 0

  unseen_above : (s : ℕ) → counter < s → contains seen s ≡ false
  unseen_above s h = elim (Bool-cases (contains seen s)) [
    | inl there ↦ absurd (omega (arith, known s there))
    | inr new ↦ new
  ]

  unseen_zero : contains seen 0 ≡ false
  unseen_zero = elim (Bool-cases (contains seen 0)) [
    | inl there ↦ absurd (omega (arith, known 0 there))
    | inr new ↦ new
  ]

  seen_after :
      (diff k : ℕ)
      → 0 < diff
      → contains ((counter + diff) ∷ seen) (counter + diff - k) ≡ (
          if k == 0
          then true
          else if ltb k diff
          then false
          else contains seen (counter - (k - diff)))
  seen_after diff k pos = elim (dec_lt k diff) [
    | yes above ↦ ground (arith, unseen_above (counter + diff - k) (omega arith))
    | no below ↦
        let e : counter + diff - k ≡ counter - (k - diff) = omega arith in
        let f : ((counter - (k - diff)) == (counter + diff)) ≡ false = ground arith in
        let g : (k == 0) ≡ false = ground arith in
        let i : ltb k diff ≡ false = ground arith in rw (e, f, g, i)
  ]

  advanced_bit :
      (diff k : ℕ)
      → 0 < diff
      → k < window
      → window_bit (advanced diff) k
        ≡ bit_of (contains ((counter + diff) ∷ seen) (counter + diff - k))
  advanced_bit diff k pos h = rw seen_after (elim (Bool-cases (ltb diff window)) [
    | inl near ↦
        let moved = shift_loop (length bm) (diff / 64) (diff % 64) bm in
        rw near (
          ground (
            arith,
            mark_bit moved 0 k (rw length-shift_loop (omega arith)),
            shift_loop_bit diff bm k words h,
            marked (k - diff),
          ))
    | inr far ↦ rw far (
        ground (
          arith,
          mark_bit (replicate (length bm) 0) 0 k (rw length-replicate (omega arith)),
          ap (λ x. bit x (k % 64)) (get_or-replicate {A = ℕ} (length bm) (k / 64) 0),
          bit-zero (k % 64),
        ))
  ])

  length-advanced : (diff : ℕ) → length (advanced diff) ≡ length bm
  length-advanced diff = elim (Bool-cases (ltb diff window)) [
    | inl near ↦
        rw near (length-set _ 0 _ ∙ length-shift_loop (length bm) (diff / 64) (diff % 64) bm)
    | inr far ↦ rw far (length-set _ 0 _ ∙ length-replicate (length bm) 0)
  ]

  advanced-IsWords : (diff : ℕ) → IsWords (advanced diff)
  advanced-IsWords diff = elim (Bool-cases (ltb diff window)) [
    | inl near ↦ rw near (
        mark-IsWords _ 0 (rw length-shift_loop (omega arith))
          (shift_loop-IsWords (diff / 64) (diff % 64) bm words))
    | inr far ↦
        rw far
          (mark-IsWords _ 0 (rw length-replicate (omega arith)) (replicate-IsWords (length bm)))
  ]

  -- A packet above all others.
  advance-IsWindow :
      (s : ℕ)
      → counter < s
      → IsWindow
          (record keypair { replay_bitmap = advanced (s - counter); replay_counter = s })
          (s ∷ seen)
  advance-IsWindow s h = record {
    words = advanced-IsWords (s - counter);
    nonempty = rw length-advanced nonempty;
    known = λ t there. ground (arith, known t);
    marked = λ k below.
        let e : counter + (s - counter) ≡ s = omega arith in
        subst (λ n. window_bit (advanced (s - counter)) k ≡ bit_of (contains (n ∷ seen) (n - k))) e
          (advanced_bit (s - counter) k (omega arith) (rw length-advanced at below));
  }

  -- A packet within the window, whose bit was clear.
  mark-IsWindow :
      (s : ℕ)
      → 0 < s
      → s ≤ counter
      → counter - s < window
      → IsWindow (record keypair { replay_bitmap = mark bm (counter - s) }) (s ∷ seen)
  mark-IsWindow s pos le near = record {
    words = mark-IsWords bm (counter - s) near words;
    nonempty = rw length-set nonempty;
    known = λ t there. ground (arith, known t);
    marked = λ k below.
        ground (arith, mark_bit bm (counter - s) k near, marked k (rw length-set at below));
  }

  -- The bit that the code tests.
  tested :
      (s : ℕ)
      → s ≤ counter
      → counter - s < window
      → (bit_and (get_or bm ((counter - s) / 64) 0) (2 ^ ((counter - s) % 64)) == 0)
        ≡ not (contains seen s)
  tested s le near =
      let e : counter - (counter - s) ≡ s = omega arith in
      bit_and-mark (get_or bm ((counter - s) / 64) 0) ((counter - s) % 64)
      ∙ rw (marked (counter - s) near, e) (ground arith)

  -- What a call may return for packet `s`: whether it is fresh, and the window that knows it.
  abbrev Answers : ℕ → Keypair × Bool → Type 0
  Answers s r =
      (r.1 ≡ is_fresh window counter seen s) × IsWindow r.0 (if r.1 then s ∷ seen else seen)

  refuses :
      (seq : ℕ)
      → check_replay keypair seq ≡ (keypair, false)
      → is_fresh window counter seen (u64 (seq + 1)) ≡ false
      → Answers (u64 (seq + 1)) (check_replay keypair seq)
  refuses seq e stale = subst (Answers (u64 (seq + 1))) (sym e) (sym stale, w)

  advances :
      (seq : ℕ) → counter < u64 (seq + 1) → Answers (u64 (seq + 1)) (check_replay keypair seq)
  unfolding check_replay
  advances seq h =
      let s = u64 (seq + 1) in
      let some_number : (s == 0) ≡ false = ground arith in
      let e : check_replay keypair seq
          ≡ (record keypair { replay_bitmap = advanced (s - counter); replay_counter = s }, true) =
        rw (some_number, lt→ltb counter s h)
          (elim (Bool-cases (ltb (s - counter) window)) [
            | inl near ↦ rw near
            | inr far ↦ rw (far, get_or-replicate {A = ℕ})
          ]) in
      subst (Answers s) (sym e) (ground arith, advance-IsWindow s h)

  marks :
      (seq : ℕ)
      → 0 < u64 (seq + 1)
      → u64 (seq + 1) ≤ counter
      → counter - u64 (seq + 1) < window
      → Answers (u64 (seq + 1)) (check_replay keypair seq)
  unfolding check_replay
  marks seq pos le near =
      let s = u64 (seq + 1) in
      let some_number : (s == 0) ≡ false = ground arith in
      let not_above : ltb counter s ≡ false = ground arith in
      let inside : ltb (counter - s) window ≡ true = ground arith in
      elim (Bool-cases (contains seen s)) [
        | inl old ↦
            refuses seq (rw (some_number, not_above, inside, tested s le near, old))
              (rw (some_number, not_above, inside, old))
        | inr new ↦
            let e : check_replay keypair seq
                ≡ (record keypair { replay_bitmap = mark bm (counter - s) }, true) =
              rw (some_number, not_above, inside, tested s le near, new) in
            subst (Answers s) (sym e)
              (rw (some_number, not_above, inside, new), mark-IsWindow s pos le near)
      ]

  -- `check_replay` accepts a packet exactly if it is fresh, and the window then knows it too; a
  -- packet that it refuses is not fresh, and leaves a window that knows the same packets.
  pub check_replay-IsWindow : (seq : ℕ) → Answers (u64 (seq + 1)) (check_replay keypair seq)
  check_replay-IsWindow seq = elim (ℕ_discrete (u64 (seq + 1)) 0) [
    | yes wrapped ↦ refuses seq (unfold check_replay in rw wrapped) (rw wrapped)
    | no number ↦ elim (dec_lt counter (u64 (seq + 1))) [
      | yes above ↦ advances seq above
      | no below ↦ elim (dec_lt (counter - u64 (seq + 1)) window) [
        | yes near ↦ marks seq (omega arith) (omega arith) near
        | no far ↦
            let some_number : (u64 (seq + 1) == 0) ≡ false = ground arith in
            let not_above : ltb counter (u64 (seq + 1)) ≡ false = ground arith in
            let outside : ltb (counter - u64 (seq + 1)) window ≡ false = ground arith in
            refuses seq (unfold check_replay in rw (some_number, not_above, outside))
              (rw (some_number, not_above, outside))
      ]
    ]
  ]
