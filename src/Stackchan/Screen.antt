-- ===== src/Stackchan/Screen.antt =====
-- `lcd_cmd`, `lcd_init` and `face_draw` of demo/stackchan/stackchan_main.c: the display is set up and
-- a face is drawn. The sequences that are given to the SPI bus are listed in order.
use gsoc2026_nuttx_wireguard.Base.{ℕ, true, false, List, [], ◌∷◌, ◌++◌, Option, none, some, Bytes}
use gsoc2026_nuttx_wireguard.Config.{pos, Errno, Ret, ok, err, enodev}
use gsoc2026_nuttx_wireguard.Stackchan.Bus.{
  Bus, i2c_write, i2c_setbits, and_then, addr_axp2101, addr_aw9523,
}
use gsoc2026_nuttx_wireguard.Stackchan.Display.{
  Rect, Transfer, lcd_w, lcd_h, black, rect, cmd_sequence, lcd_fill, face_expr,
}

-- The SPI bus: the error of opening its device file, and of a sequence, if there is one.
pub record Spi : Type 0 where
  pub refuses : Option Errno
  pub fails : List Transfer → Option Errno

-- `lcd_cmd`
unfoldable pub lcd_cmd : Spi → ℕ → Bytes → List (List Transfer) × Ret
lcd_cmd spi cmd payload =
    let sequence = cmd_sequence cmd payload in
    elim (spi.fails sequence) [ none ↦ (sequence ∷ [], ok) | some e ↦ (sequence ∷ [], err e) ]

-- Commands in turn, up to the first that fails.
unfoldable pub lcd_cmds : Spi → List (ℕ × Bytes) → List (List Transfer) × Ret
lcd_cmds spi [] = ([], ok)
lcd_cmds spi ((cmd, payload) ∷ cmds) =
    let (sent, ret) = lcd_cmd spi cmd payload in
    let (rest, last) = lcd_cmds spi cmds in
    elim ret [ err e ↦ (sent, err e) | ok ↦ (sent ++ rest, last) ]

-- The power of the backlight, and the reset of the panel released.
unfoldable pub lcd_power : Bus → Bus × Ret
lcd_power bus = and_then (i2c_setbits bus addr_axp2101 144 128 true) (λ b1.
    and_then (i2c_write b1 addr_axp2101 153 (24 ∷ [])) (λ b2.
      and_then (i2c_setbits b2 addr_aw9523 3 2 true) (λ b3. i2c_setbits b3 addr_aw9523 5 2 false)))

-- `lcd_init`, less the pause and the messages.
unfoldable pub lcd_init : Spi → Bus → Bus × List (List Transfer) × Ret
lcd_init spi bus =
    let (bus1, powered) = lcd_power bus in
    let (sent, ret) =
      lcd_cmds spi ((17, []) ∷ (58, 85 ∷ []) ∷ (54, 8 ∷ []) ∷ (33, []) ∷ (41, []) ∷ []) in
    elim (spi.refuses) [
      | some e ↦ (bus, [], err enodev)
      | none ↦ elim powered [ err e ↦ (bus1, [], err e) | ok ↦ (bus1, sent, ret) ]
    ]

-- Rectangles in turn; their results are not looked at.
unfoldable pub fills : Spi → List Rect → List (List Transfer)
fills spi [] = []
fills spi (r ∷ rs) = (lcd_fill spi.fails r).0 ++ fills spi rs

-- `face_draw`
unfoldable pub face_draw : Spi → Bus → ℕ → Bus × List (List Transfer) × Ret
face_draw spi bus expr =
    let (bus1, sent, ret) = lcd_init spi bus in
    let (cleared, last) = lcd_fill spi.fails (rect (pos 0) (pos 0) (pos lcd_w) (pos lcd_h) black) in
    elim ret [
      | err e ↦ (bus1, sent, err e)
      | ok ↦ (bus1, sent ++ (cleared ++ fills spi (face_expr expr)), last)
    ]
