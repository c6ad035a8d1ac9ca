-- ===== src/Stackchan/Display.antt =====
-- The display and the faces of demo/stackchan/stackchan_main.c. A drawing is the list of the calls of
-- `lcd_fill` that it makes, with coordinates and sizes that are signed, as in the source.
pub mod Window
use gsoc2026_nuttx_wireguard.Base.{
  ℕ, zero, suc, ◌+◌, ◌-◌, ◌*◌, ◌/◌, ◌%◌, Bool, true, false, not, ◌||◌, List, [], ◌∷◌, ◌++◌, Option,
  none, some, length, ltb, leb, ◌==◌, if◌then◌else◌, u8, Bytes, codes, str_eq,
}
use gsoc2026_nuttx_wireguard.Config.{ℤ, pos, negsuc, Errno, Ret, ok, err}
use gsoc2026_nuttx_wireguard.Stackchan.Int.{pos_part, abs, ◌+ℤ◌, ◌-ℤ◌}

abbrev pub lcd_w : ℕ
lcd_w = 320

abbrev pub lcd_h : ℕ
lcd_h = 240

abbrev pub lcd_chunk : ℕ
lcd_chunk = 2048

-- The entries of the array `trans`.
abbrev pub trans_size : ℕ
trans_size = 2 + lcd_w * lcd_h * 2 / lcd_chunk

abbrev pub white : ℕ
white = 65535

abbrev pub black : ℕ
black = 0

-- A call of `lcd_fill`.
pub record Rect : Type 0 where
  pub x : ℤ
  pub y : ℤ
  pub w : ℤ
  pub h : ℤ
  pub color : ℕ

abbrev pub rect : ℤ → ℤ → ℤ → ℤ → ℕ → Rect
rect x y w h color = record { x = x; y = y; w = w; h = h; color = color }

-- What a transfer sends: bytes, or the start of `pixbuf` filled with a colour.
pub data Source : Type 0 where
  bytes : Bytes → Source
  pixels : ℕ → Source

-- `struct spi_trans_s`
pub record Transfer : Type 0 where
  pub cmd : Bool
  pub nwords : ℕ
  pub source : Source
  pub deselect : Bool

-- The sequence of `lcd_cmd`.
unfoldable pub cmd_sequence : ℕ → Bytes → List Transfer
cmd_sequence cmd payload =
    record { cmd = true; nwords = 1; source = bytes (cmd ∷ []); deselect = length payload == 0 }
    ∷ (if ltb 0 (length payload)
        then (record {
          cmd = false;
          nwords = length payload;
          source = bytes payload;
          deselect = true;
        })
          ∷ []
        else [])

-- `n >> 8`
unfoldable pub shift_byte : ℤ → ℤ
shift_byte (pos n) = pos (n / 256)
shift_byte (negsuc n) = negsuc (n / 256)

-- The low byte of an `int`.
unfoldable pub low_byte : ℤ → ℕ
low_byte (pos n) = u8 n
low_byte (negsuc n) = 255 - u8 n

-- The bytes that set a window from `from` to `from + size - 1`.
unfoldable pub window : ℤ → ℤ → Bytes
window from size =
    let last = from +ℤ size -ℤ pos 1 in
    low_byte (shift_byte from) ∷ low_byte from ∷ low_byte (shift_byte last) ∷ low_byte last ∷ []

-- The loop over the pixels: `total` bytes are left, and the last transfer deselects.
unfoldable pub pixel_transfers : ℕ → ℕ → ℕ → List Transfer
pixel_transfers zero color total = []
pixel_transfers (suc fuel) color total =
    let len = if ltb lcd_chunk total then lcd_chunk else total in
    let rest = pixel_transfers fuel color (total - len) in
    if total == 0
    then []
    else (record {
      cmd = false;
      nwords = len;
      source = pixels color;
      deselect = (total - len) == 0;
    })
      ∷ rest

-- The transfers of the pixels, for a width and a height that are above zero.
unfoldable pub fill_sequence : Rect → List Transfer
fill_sequence rect =
    let total = pos_part rect.w * pos_part rect.h * 2 in
    record { cmd = true; nwords = 1; source = bytes (44 ∷ []); deselect = false }
    ∷ pixel_transfers total rect.color total

abbrev pub above_zero : ℤ → Bool
above_zero (pos zero) = false
above_zero (pos (suc n)) = true
above_zero (negsuc n) = false

-- `lcd_fill`: the sequences that it gives to the bus, and its result.
unfoldable pub lcd_fill : (List Transfer → Option Errno) → Rect → List (List Transfer) × Ret
lcd_fill spi rect =
    let columns = cmd_sequence 42 (window rect.x rect.w) in
    let rows = cmd_sequence 43 (window rect.y rect.h) in
    let fill = fill_sequence rect in
    if not (above_zero rect.w) || not (above_zero rect.h) then ([], ok) else elim (spi columns) [
      | some e ↦ (columns ∷ [], err e)
      | none ↦ elim (spi rows) [
        | some e ↦ (columns ∷ rows ∷ [], err e)
        | none ↦ elim (spi fill) [
          | some e ↦ (columns ∷ rows ∷ fill ∷ [], err e)
          | none ↦ (columns ∷ rows ∷ fill ∷ [], ok)
        ]
      ]
    ]

-- The largest `dx` from the given one down that lies in the circle.
unfoldable pub half_width : ℕ → ℕ → ℕ → ℕ
half_width r dy zero = zero
half_width r dy (suc dx) =
    let rest = half_width r dy dx in
    if ltb (r * r) (suc dx * suc dx + dy * dy) then rest else suc dx

-- The first `n` rows of a circle around (`cx`, `cy`), from the one `r` above the centre on.
unfoldable pub circle_rows : ℤ → ℤ → ℕ → ℕ → ℕ → List Rect
circle_rows cx cy r color zero = []
circle_rows cx cy r color (suc n) =
    let dy = pos n -ℤ pos r in
    let dx = half_width r (abs dy) r in
    circle_rows cx cy r color n
    ++ (rect (cx -ℤ pos dx) (cy +ℤ dy) (pos (2 * dx + 1)) (pos 1) color ∷ [])

-- `lcd_circle`, whose radius is never negative.
unfoldable pub lcd_circle : ℤ → ℤ → ℕ → ℕ → List Rect
lcd_circle cx cy r color = circle_rows cx cy r color (2 * r + 1)

abbrev pub expr_happy : ℕ
expr_happy = 1

abbrev pub expr_sad : ℕ
expr_sad = 2

abbrev pub expr_angry : ℕ
expr_angry = 3

abbrev pub expr_sleepy : ℕ
expr_sleepy = 4

abbrev pub expr_surprised : ℕ
expr_surprised = 5

-- The brow of an angry eye at `cx`: `n` of its rows, from row 84 on.
unfoldable pub brow : ℤ → Bool → ℕ → List Rect
brow cx left zero = []
brow cx left (suc n) =
    let cut = pos (2 * (n + 2)) in
    let x = if left then cx -ℤ pos 16 +ℤ cut else cx -ℤ pos 16 in
    brow cx left n ++ (rect x (pos (84 + n)) (pos 33 -ℤ cut) (pos 1) black ∷ [])

-- `face_eye`
unfoldable pub face_eye : ℤ → Bool → ℕ → Bool → List Rect
face_eye cx left expr opened =
    rect (cx -ℤ pos 28) (pos 72) (pos 57) (pos 57) black
    ∷ (if not opened || expr == expr_sleepy
        then rect (cx -ℤ pos 16) (pos 97) (pos 33) (pos 6) white ∷ []
        else if expr == expr_happy
        then lcd_circle cx (pos 100) 16 white ++ lcd_circle cx (pos 108) 16 black
        else if expr == expr_sad
        then lcd_circle cx (pos 104) 12 white
        else if expr == expr_angry
        then lcd_circle cx (pos 100) 16 white ++ brow cx left 17
        else if expr == expr_surprised
        then lcd_circle cx (pos 100) 22 white
        else lcd_circle cx (pos 100) 16 white)

-- `face_eyes`
unfoldable pub face_eyes : ℕ → Bool → List Rect
face_eyes expr opened = face_eye (pos 96) true expr opened ++ face_eye (pos 224) false expr opened

-- `face_mouth`
unfoldable pub face_mouth : ℕ → List Rect
face_mouth expr =
    rect (pos 100) (pos 130) (pos 120) (pos 100) black
    ∷ (if expr == expr_happy
        then lcd_circle (pos 160) (pos 160) 30 white ++ lcd_circle (pos 160) (pos 148) 30 black
        else if expr == expr_sad
        then lcd_circle (pos 160) (pos 196) 30 white ++ lcd_circle (pos 160) (pos 208) 30 black
        else if expr == expr_angry
        then rect (pos 130) (pos 172) (pos 60) (pos 6) white ∷ []
        else if expr == expr_sleepy
        then rect (pos 145) (pos 170) (pos 30) (pos 6) white ∷ []
        else if expr == expr_surprised
        then lcd_circle (pos 160) (pos 175) 14 white ++ lcd_circle (pos 160) (pos 175) 8 black
        else rect (pos 115) (pos 168) (pos 90) (pos 8) white ∷ [])

-- `face_expr`
unfoldable pub face_expr : ℕ → List Rect
face_expr expr = face_eyes expr true ++ face_mouth expr

-- `face_blink`, less the pause.
unfoldable pub face_blink : ℕ → List Rect
face_blink expr = face_eyes expr false ++ face_eyes expr true

-- `g_expr_names`
abbrev pub expr_names : List Bytes
expr_names =
    codes "neutral"
    ∷ codes "happy"
    ∷ codes "sad"
    ∷ codes "angry"
    ∷ codes "sleepy"
    ∷ codes "surprised"
    ∷ []

-- The loop of `expr_parse`, from expression `i` on; `none` for -1.
unfoldable pub expr_from : ℕ → List Bytes → Bytes → Option ℕ
expr_from i [] name = none
expr_from i (known ∷ names) name =
    let rest = expr_from (i + 1) names name in if str_eq name known then some i else rest

-- `expr_parse`
unfoldable pub expr_parse : Bytes → Option ℕ
expr_parse name = expr_from 0 expr_names name
