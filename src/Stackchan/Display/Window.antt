-- ===== src/Stackchan/Display/Window.antt =====
-- What is drawn stays on the display, and the transfers of a rectangle fit their array.
use gsoc2026_nuttx_wireguard.Base.{
  ℕ, zero, suc, ◌+◌, ◌-◌, ◌*◌, ◌/◌, ◌≤◌, ◌<◌, Bool, true, not, ◌&&◌, ◌||◌, List, [], ◌∷◌, length,
  ltb, leb, ◌==◌, if◌then◌else◌, ◌≡◌, refl, ap, ◌∙◌, arith, Bool-cases, inl, inr,
}
use native.Mathlib.Nat.{mul-le-mul}
use gsoc2026_nuttx_wireguard.Config.{ℤ}
use gsoc2026_nuttx_wireguard.Stackchan.Int.{pos_part, not_negative, ◌+ℤ◌, ◌-ℤ◌}
use gsoc2026_nuttx_wireguard.Base.Below.{all_below, all_below_lem}
use gsoc2026_nuttx_wireguard.Stackchan.Display.{
  Rect, Transfer, lcd_w, lcd_h, lcd_chunk, trans_size, pixel_transfers, fill_sequence, half_width,
  above_zero, circle_rows, lcd_circle, brow, face_eye, face_eyes, face_mouth, face_expr, face_blink,
}

-- From `from` on, `size` places, all of them between 0 and `bound`.
abbrev within : ℕ → ℤ → ℤ → Bool
within bound from size = not_negative from && leb (pos_part from + pos_part size) bound

-- A rectangle that lies on the display, or that draws nothing.
abbrev pub on_display : Rect → Bool
on_display r =
    not (above_zero r.w) || (not (above_zero r.h) || (within lcd_w r.x r.w && within lcd_h r.y r.h))

abbrev pub all_on_display : List Rect → Bool
all_on_display [] = true
all_on_display (r ∷ rs) = on_display r && all_on_display rs

abbrev faces_fit : ℕ → Bool
faces_fit expr = all_on_display (face_expr expr) && all_on_display (face_blink expr)

all_faces_fit : all_below 6 faces_fit ≡ true
unfolding all_below half_width circle_rows lcd_circle brow face_eye face_eyes face_mouth face_expr
    face_blink ◌+ℤ◌ ◌-ℤ◌
all_faces_fit = refl

-- The bytes of transfers.
abbrev pub words : List Transfer → ℕ
words [] = 0
words (t ∷ ts) = t.nwords + words ts

abbrev pub AllShort : List Transfer → Type 0
AllShort [] = Unit
AllShort (t ∷ ts) = (t.nwords ≤ lcd_chunk) × AllShort ts

abbrev chunk : ℕ → ℕ
chunk total = if ltb lcd_chunk total then lcd_chunk else total

chunk_lem :
    (total : ℕ)
    → 0 < total
    → (chunk total ≤ lcd_chunk)
      × (chunk total ≤ total)
      × (0 < chunk total)
      × ((total - chunk total + 2047) / 2048 + 1 ≤ (total + 2047) / 2048)
chunk_lem total some_left = elim (Bool-cases (ltb lcd_chunk total)) [
  | inl full ↦
      let more : 2048 < total = ground arith in
      rw full (omega arith, omega arith, omega arith, omega arith)
  | inr rest ↦
      let few : total ≤ 2048 = ground arith in rw rest (few, omega arith, some_left, omega arith)
]

pixel_transfers_lem :
    (fuel color total : ℕ)
    → total ≤ fuel
    → let ts = pixel_transfers fuel color total in
      (words ts ≡ total) × AllShort ts × (length ts ≤ (total + 2047) / 2048)
unfolding pixel_transfers
pixel_transfers_lem zero color total enough =
    let e : total ≡ 0 = omega arith in rw e (refl, tt, omega arith)
pixel_transfers_lem (suc fuel) color total enough = elim (Bool-cases (total == 0)) [
  | inl done ↦ let e : total ≡ 0 = ground arith in rw e (refl, tt, omega arith)
  | inr more ↦
      let some_left : 0 < total = ground arith in
      let (short1, within, nonzero, count1) = chunk_lem total some_left in
      let (sum, short, count) =
        pixel_transfers_lem fuel color (total - chunk total) (omega arith) in
      rw more (ap (λ (n : ℕ). chunk total + n) sum ∙ omega arith, (short1, short), omega arith)
]

-- The entries of `trans` that `lcd_fill` fills for a rectangle of the display are no more than the
-- array has, none of them sends more than `pixbuf` holds, and those with pixels send two bytes for
-- each pixel. Every rectangle of a face, drawn or blinking, with any of the six expressions, has no
-- pixels or lies on the display: no coordinate is negative, and none reaches the far edge.
pub fill_sequence-fits :
    (r : Rect) (expr : ℕ)
    → pos_part r.w ≤ lcd_w
    → pos_part r.h ≤ lcd_h
    → expr < 6
    → (length (fill_sequence r) ≤ trans_size)
      × AllShort (fill_sequence r)
      × (words (fill_sequence r) ≡ 1 + 2 * (pos_part r.w * pos_part r.h))
      × (all_on_display (face_expr expr) ≡ true)
      × (all_on_display (face_blink expr) ≡ true)
unfolding fill_sequence
fill_sequence-fits r expr narrow low known =
    let area : pos_part r.w * pos_part r.h ≤ 320 * 240 = mul-le-mul narrow low in
    let (sum, short, count) =
      pixel_transfers_lem (pos_part r.w * pos_part r.h * 2) r.color
        (pos_part r.w * pos_part r.h * 2) (omega arith) in
    let fits = all_below_lem 6 faces_fit all_faces_fit expr known in
    (omega arith, (omega arith, short), omega arith, ground arith, ground arith)
