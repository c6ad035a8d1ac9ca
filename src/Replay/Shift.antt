-- ===== src/Replay/Shift.antt =====
-- The bits of the window after the shift loop.
use gsoc2026_nuttx_wireguard.Base.{
  ℕ, zero, suc, ◌+◌, ◌-◌, ◌*◌, ◌/◌, ◌%◌, ◌^◌, ◌≤◌, ◌<◌, List, length, get_or, set, bit, ltb,
  if◌then◌else◌, u64, ◌≡◌, refl, ap, ◌∙◌, arith, get_or-set_self, get_or-set_ne, length-set, lt→ltb,
  leb, true, false, subst,
}
use gsoc2026_nuttx_wireguard.Base.Bits.{
  bit-bit_or, bit-div, bit-mod, bit-mul_low, bit-mul_high, bit-eq-zero, bit-zero, bit_or-lt,
}
use native.Mathlib.Decide.{dec_lt}
use native.Mathlib.Nat.{div-le_self}
use gsoc2026_nuttx_wireguard.Replay.{shifted_word, shift_loop}

-- Bit `k` of the window: bit `k % 64` of word `k / 64`.
abbrev pub window_bit : List ℕ → ℕ → ℕ
window_bit bm k = bit (get_or bm (k / 64) 0) (k % 64)

-- Every word fits 64 bits.
abbrev pub IsWords : List ℕ → Type 0
IsWords bm = (i : ℕ) → get_or bm i 0 < 2 ^ 64

pub length-shift_loop : (n ws bs : ℕ) (bm : List ℕ) → length (shift_loop n ws bs bm) ≡ length bm
unfolding shift_loop
length-shift_loop zero ws bs bm = refl
length-shift_loop (suc n) ws bs bm =
    length-shift_loop n ws bs (set bm n (shifted_word ws bs bm n))
    ∙ length-set bm n (shifted_word ws bs bm n)

-- A store into a word from `i` on is not read for word `j`, below `i`.
shifted_word-set :
    (ws bs : ℕ) (bm : List ℕ) (i j v : ℕ)
    → j < i
    → shifted_word ws bs (set bm i v) j ≡ shifted_word ws bs bm j
unfolding shifted_word
shifted_word-set ws bs bm i j v h =
    ground (arith, get_or-set_ne bm i (j - ws) v 0, get_or-set_ne bm i (j - ws - 1) v 0)

-- The loop leaves the words from `n` on alone, and the others are as read before it.
pub shift_loop_words :
    (n ws bs : ℕ) (bm : List ℕ)
    → n ≤ length bm
    → (j : ℕ)
    → get_or (shift_loop n ws bs bm) j 0
      ≡ (if ltb j n then shifted_word ws bs bm j else get_or bm j 0)
unfolding shift_loop
shift_loop_words zero ws bs bm h j = ground arith
shift_loop_words (suc n) ws bs bm h j = ground (
  arith,
  shift_loop_words n ws bs (set bm n (shifted_word ws bs bm n)) (rw length-set (omega arith)) j,
  shifted_word-set ws bs bm n j (shifted_word ws bs bm n),
  get_or-set_self bm n (shifted_word ws bs bm n) 0,
  get_or-set_ne bm n j (shifted_word ws bs bm n) 0,
)

left_bit :
    (x bs i : ℕ) → i < 64 → bit (u64 (x * 2 ^ bs)) i ≡ (if ltb i bs then 0 else bit x (i - bs))
left_bit x bs i h = bit-mod 64 i (x * 2 ^ bs) h ∙ elim (dec_lt i bs) [
  | yes low ↦ rw (lt→ltb i bs low) (bit-mul_low bs i x low)
  | no high ↦
      let e : i ≡ bs + (i - bs) = omega arith in
      let high' : ltb i bs ≡ false = ground arith in
      rw high' (ap (bit (x * 2 ^ bs)) e ∙ bit-mul_high bs (i - bs) x)
]

right_bit :
    (y bs i : ℕ)
    → y < 2 ^ 64
    → bs < 64
    → bit (y / 2 ^ (64 - bs)) i ≡ (if ltb i bs then bit y (64 - bs + i) else 0)
right_bit y bs i fits h = bit-div (64 - bs) i y ∙ elim (dec_lt i bs) [
  | yes low ↦ rw (lt→ltb i bs low)
  | no high ↦
      let e : 64 - bs + i ≡ 64 + (i - bs) = omega arith in
      let high' : ltb i bs ≡ false = ground arith in
      rw high' (ap (bit y) e ∙ bit-eq-zero 64 (i - bs) y fits)
]

module _ (ws bs : ℕ) (bm : List ℕ) (j i : ℕ) (fits : IsWords bm) (hb : bs < 64) (hi : i < 64) where
  abbrev low_word : ℕ
  low_word = u64 (get_or bm (j - ws) 0 * 2 ^ bs)

  abbrev carried : ℕ
  carried = get_or bm (j - ws - 1) 0 / 2 ^ (64 - bs)

  word_above :
      ws ≤ j
      → bit (shifted_word ws bs bm j) i ≡ (
          if ltb i bs
          then (if ltb ws j then bit (get_or bm (j - ws - 1) 0) (64 - bs + i) else 0)
          else bit (get_or bm (j - ws) 0) (i - bs))
  unfolding shifted_word
  word_above h =
      let reached : leb ws j ≡ true = ground arith in
      rw reached (
        ground (
          arith,
          left_bit (get_or bm (j - ws) 0) bs i hi,
          right_bit (get_or bm (j - ws - 1) 0) bs i (fits (j - ws - 1)) hb,
          bit-bit_or i low_word carried,
        ))

  word_below : j < ws → bit (shifted_word ws bs bm j) i ≡ 0
  unfolding shifted_word
  word_below h = let missed : leb ws j ≡ false = ground arith in rw missed (bit-zero i)

  -- The position that bit `i` of word `j` comes from.
  abbrev source : ℕ
  source = j * 64 + i - (ws * 64 + bs)

  -- Bit `i` of the new word `j` is the old bit `ws * 64 + bs` places below it.
  pub bit-shifted_word :
      bit (shifted_word ws bs bm j) i
      ≡ (if ltb (j * 64 + i) (ws * 64 + bs) then 0 else window_bit bm source)
  bit-shifted_word = elim (dec_lt j ws) [
    | yes below ↦ rw (word_below below, lt→ltb (j * 64 + i) (ws * 64 + bs) (omega arith))
    | no above ↦ rw (word_above (omega arith)) (elim (dec_lt i bs) [
      | yes low ↦ elim (dec_lt ws j) [
        | yes inside ↦
            let at : ltb (j * 64 + i) (ws * 64 + bs) ≡ false = ground arith in
            let word : source / 64 ≡ j - ws - 1 = omega arith in
            let place : source % 64 ≡ 64 - bs + i = omega arith in
            rw (lt→ltb i bs low, lt→ltb ws j inside, at, word, place)
        | no edge ↦
            let here : ltb ws j ≡ false = ground arith in
            rw (lt→ltb i bs low, here, lt→ltb (j * 64 + i) (ws * 64 + bs) (omega arith))
      ]
      | no high ↦
          let later : ltb i bs ≡ false = ground arith in
          let at : ltb (j * 64 + i) (ws * 64 + bs) ≡ false = ground arith in
          let word : source / 64 ≡ j - ws = omega arith in
          let place : source % 64 ≡ i - bs = omega arith in rw (later, at, word, place)
    ])
  ]

-- The loop over the whole bitmap moves the window up by `diff` places.
pub shift_loop_bit :
    (diff : ℕ) (bm : List ℕ) (k : ℕ)
    → IsWords bm
    → k < length bm * 64
    → window_bit (shift_loop (length bm) (diff / 64) (diff % 64) bm) k
      ≡ (if ltb k diff then 0 else window_bit bm (k - diff))
shift_loop_bit diff bm k fits h =
    let word : get_or (shift_loop (length bm) (diff / 64) (diff % 64) bm) (k / 64) 0
        ≡ shifted_word (diff / 64) (diff % 64) bm (k / 64) =
      ground
        (arith, shift_loop_words (length bm) (diff / 64) (diff % 64) bm (omega arith) (k / 64)) in
    let whole : k / 64 * 64 + k % 64 ≡ k = omega arith in
    let whole_diff : diff / 64 * 64 + diff % 64 ≡ diff = omega arith in
    rw word (
      subst
        (λ n.
          bit (shifted_word (diff / 64) (diff % 64) bm (k / 64)) (k % 64)
          ≡ (if ltb n diff then 0 else window_bit bm (n - diff)))
        whole
        (subst
          (λ d. bit (shifted_word (diff / 64) (diff % 64) bm (k / 64)) (k % 64) ≡ (
            if ltb (k / 64 * 64 + k % 64) d then 0 else window_bit bm (k / 64 * 64 + k % 64 - d)))
          whole_diff
          (bit-shifted_word (diff / 64) (diff % 64) bm (k / 64) (k % 64) fits (omega arith)
            (omega arith))))

shifted_word-lt : (ws bs : ℕ) (bm : List ℕ) (j : ℕ) → IsWords bm → shifted_word ws bs bm j < 2 ^ 64
unfolding shifted_word
shifted_word-lt ws bs bm j fits = ground (
  arith,
  bit_or-lt 64 (u64 (get_or bm (j - ws) 0 * 2 ^ bs)) (get_or bm (j - ws - 1) 0 / 2 ^ (64 - bs)),
  fits (j - ws - 1),
  div-le_self (get_or bm (j - ws - 1) 0) (2 ^ (64 - bs)),
)

pub shift_loop-IsWords :
    (ws bs : ℕ) (bm : List ℕ) → IsWords bm → IsWords (shift_loop (length bm) ws bs bm)
shift_loop-IsWords ws bs bm fits i = ground (
  arith,
  shift_loop_words (length bm) ws bs bm (omega arith) i,
  shifted_word-lt ws bs bm i fits,
  fits i,
)
