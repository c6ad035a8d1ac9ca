-- ===== src/Replay/Window.antt =====
-- The replay window against the list of the packet numbers accepted so far.
use gsoc2026_nuttx_wireguard.Base.{
  ℕ, ◌-◌, ◌*◌, ◌/◌, ◌%◌, ◌^◌, ◌≤◌, ◌<◌, Bool, true, false, not, ◌&&◌, ◌||◌, List, [], ◌∷◌, length,
  get_or, set, replicate, bit_or, ltb, ◌==◌, if◌then◌else◌, ◌≡◌, sym, arith, get_or-set_self,
  get_or-set_ne, get_or-replicate,
}
use gsoc2026_nuttx_wireguard.Base.Bits.{bit-mark, bit_or-lt, place-lt}
use native.Mathlib.Decide.{ℕ_discrete}
use gsoc2026_nuttx_wireguard.Device.{Keypair}
use gsoc2026_nuttx_wireguard.Replay.Shift.{window_bit, IsWords}

abbrev pub contains : List ℕ → ℕ → Bool
contains [] s = false
contains (x ∷ xs) s = s == x || contains xs s

abbrev pub bit_of : Bool → ℕ
bit_of b = if b then 1 else 0

-- `keypair` remembers exactly the packets of `seen`, counted from 1, as far back as its window
-- reaches.
pub record IsWindow (keypair : Keypair) (seen : List ℕ) : Type 0 where
  pub words : IsWords keypair.replay_bitmap
  pub nonempty : 0 < length keypair.replay_bitmap
  pub known : (s : ℕ) → contains seen s ≡ true → (0 < s) × (s ≤ keypair.replay_counter)
  pub marked :
      (k : ℕ)
      → k < length keypair.replay_bitmap * 64
      → window_bit keypair.replay_bitmap k ≡ bit_of (contains seen (keypair.replay_counter - k))

-- What the window promises for packet `s`: it is above all others, or within the window and new.
abbrev pub is_fresh : ℕ → ℕ → List ℕ → ℕ → Bool
is_fresh window counter seen s =
    not (s == 0) && (ltb counter s || (ltb (counter - s) window && not (contains seen s)))

-- `replay_bitmap[p / 64] |= 1 << (p % 64)`.
abbrev pub mark : List ℕ → ℕ → List ℕ
mark bm p = set bm (p / 64) (bit_or (get_or bm (p / 64) 0) (2 ^ (p % 64)))

pub mark_bit :
    (bm : List ℕ) (p k : ℕ)
    → p < length bm * 64
    → window_bit (mark bm p) k ≡ (if k == p then 1 else window_bit bm k)
mark_bit bm p k h = elim (ℕ_discrete (k / 64) (p / 64)) [
  | yes same ↦
      let word : get_or (mark bm p) (k / 64) 0 ≡ bit_or (get_or bm (p / 64) 0) (2 ^ (p % 64)) =
        rw same (get_or-set_self bm (p / 64) _ 0 (omega arith)) in
      let place : (k % 64 == p % 64) ≡ (k == p) = ground arith in rw (word, bit-mark, place, same)
  | no other ↦
      let word : get_or (mark bm p) (k / 64) 0 ≡ get_or bm (k / 64) 0 =
        get_or-set_ne bm (p / 64) (k / 64) _ 0 (λ e. other (sym e)) in
      let place : (k == p) ≡ false = ground arith in rw (word, place)
]

-- A store of a 64-bit word keeps the words of 64 bits.
set-IsWords :
    (bm : List ℕ) (i v : ℕ) → v < 2 ^ 64 → i < length bm → IsWords bm → IsWords (set bm i v)
set-IsWords bm i v h here fits j =
    ground (arith, get_or-set_self bm i v 0 here, get_or-set_ne bm i j v 0, fits j)

pub mark-IsWords : (bm : List ℕ) (p : ℕ) → p < length bm * 64 → IsWords bm → IsWords (mark bm p)
mark-IsWords bm p h fits =
    set-IsWords bm (p / 64) _
      (bit_or-lt 64 (get_or bm (p / 64) 0) (2 ^ (p % 64)) (fits (p / 64)) (place-lt p))
      (omega arith) fits

pub replicate-IsWords : (n : ℕ) → IsWords (replicate n 0)
replicate-IsWords n i = rw get_or-replicate (omega arith)
