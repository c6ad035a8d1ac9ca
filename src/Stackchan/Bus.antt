-- ===== src/Stackchan/Bus.antt =====
-- The devices on the I2C bus of demo/stackchan/stackchan_main.c: the PY32 expander with the power of
-- the servos and the LEDs.
pub mod Bits
use gsoc2026_nuttx_wireguard.Base.{
  ℕ, zero, suc, ◌+◌, ◌-◌, ◌*◌, ◌/◌, ◌^◌, Bool, true, false, not, ◌&&◌, ◌||◌, List, [], ◌∷◌, ◌++◌,
  Option, none, some, length, get_or, take, ltb, ◌==◌, if◌then◌else◌, u8, bit_and, bit_or, Bytes,
}
use gsoc2026_nuttx_wireguard.Config.{Errno, Ret, ok, err, einval, eio, enodev, etimedout}

abbrev pub addr_axp2101 : ℕ
addr_axp2101 = 52

abbrev pub addr_aw9523 : ℕ
addr_aw9523 = 88

abbrev pub addr_aw88298 : ℕ
addr_aw88298 = 54

abbrev pub addr_py32 : ℕ
addr_py32 = 111

abbrev pub py32_version : ℕ
py32_version = 2

abbrev pub py32_dir_l : ℕ
py32_dir_l = 3

abbrev pub py32_dir_h : ℕ
py32_dir_h = 4

abbrev pub py32_out_l : ℕ
py32_out_l = 5

abbrev pub py32_pull_l : ℕ
py32_pull_l = 9

abbrev pub py32_pull_h : ℕ
py32_pull_h = 10

abbrev pub py32_od_h : ℕ
py32_od_h = 20

abbrev pub py32_ledcfg : ℕ
py32_ledcfg = 36

abbrev pub py32_ledram : ℕ
py32_ledram = 48

abbrev pub nleds : ℕ
nleds = 12

abbrev pub i2c_retries : ℕ
i2c_retries = 5

-- A write that a device has taken.
pub record Write : Type 0 where
  pub addr : ℕ
  pub reg : ℕ
  pub payload : Bytes

-- The bus: whether its device file opens, how the transfers to come fare, each with an error or with
-- the bytes that a read gives, and the writes so far, newest first. A transfer beyond the list works
-- and reads zeros.
pub record Bus : Type 0 where
  pub opens : Bool
  pub answers : List (Option Errno × Bytes)
  pub written : List Write

-- The loop of `sc_i2c_transfer` with a number of tries left: the answers that are left, the result,
-- and the bytes read.
unfoldable pub try_transfer :
    ℕ → Errno → List (Option Errno × Bytes) → List (Option Errno × Bytes) × Ret × Bytes
try_transfer zero e answers = (answers, err e, [])
try_transfer (suc n) e [] = ([], ok, [])
try_transfer (suc n) e ((none, given) ∷ answers) = (answers, ok, given)
try_transfer (suc n) e ((some e', given) ∷ answers) = try_transfer n e' answers

-- `sc_i2c_transfer`
unfoldable pub i2c_transfer : Bus → Bus × Ret × Bytes
i2c_transfer bus =
    let (answers, ret, given) = try_transfer i2c_retries eio bus.answers in
    (record bus { answers = answers }, ret, given)

-- `sc_i2c_write`
unfoldable pub i2c_write : Bus → ℕ → ℕ → Bytes → Bus × Ret
i2c_write bus addr reg payload =
    let (bus1, ret, given) = i2c_transfer bus in
    let taken : Write = record { addr = addr; reg = reg; payload = payload } in
    if ltb (1 + 2 * nleds) (length payload + 1) || not bus.opens
    then (bus, err einval)
    else elim ret [
      | err e ↦ (bus1, err e)
      | ok ↦ (record bus1 { written = taken ∷ bus1.written }, ok)
    ]

-- `sc_i2c_read` of one byte.
unfoldable pub i2c_read : Bus → ℕ → ℕ → Bus × Ret × ℕ
i2c_read bus addr reg =
    let (bus1, ret, given) = i2c_transfer bus in
    if not bus.opens then (bus, err enodev, 0) else (bus1, ret, get_or given 0 0)

-- `sc_i2c_w8`
unfoldable pub i2c_w8 : Bus → ℕ → ℕ → ℕ → Bus × Ret
i2c_w8 bus addr reg value = i2c_write bus addr reg (value ∷ [])

-- `on ? (val | mask) : (val & ~mask)` in a `uint8_t`
unfoldable pub masked : ℕ → ℕ → Bool → ℕ
masked value mask on = if on then bit_or value mask else bit_and value (255 - mask)

-- `sc_i2c_setbits`
unfoldable pub i2c_setbits : Bus → ℕ → ℕ → ℕ → Bool → Bus × Ret
i2c_setbits bus addr reg mask on =
    let (bus1, ret, value) = i2c_read bus addr reg in
    elim ret [ err e ↦ (bus1, err e) | ok ↦ i2c_w8 bus1 addr reg (masked value mask on) ]

-- `py32_wait`, with a number of looks left.
unfoldable pub py32_wait : ℕ → Bus → Bus × Ret
py32_wait zero bus = (bus, err etimedout)
py32_wait (suc n) bus =
    let (bus1, ret, ver) = i2c_read bus addr_py32 py32_version in
    let rest = py32_wait n bus1 in
    elim ret [ err e ↦ rest | ok ↦ if not (ver == 0) && not (ver == 255) then (bus1, ok) else rest ]

-- The next step, if there was no error.
abbrev pub and_then : Bus × Ret → (Bus → Bus × Ret) → Bus × Ret
and_then (bus, ok) next = next bus
and_then (bus, err e) next = (bus, err e)

-- `servo_power`, less the pause and the message.
unfoldable pub servo_power : Bus → Bool → Bus × Ret
servo_power bus on = and_then (i2c_setbits bus addr_py32 py32_dir_l 1 true) (λ b.
    and_then (i2c_setbits b addr_py32 py32_pull_l 1 true)
      (λ c. i2c_setbits c addr_py32 py32_out_l 1 on))

-- The colour of an LED in 16 bits.
unfoldable pub led_color : ℕ → ℕ → ℕ → ℕ
led_color red green blue =
    bit_or (bit_or (bit_and red 248 * 256) (bit_and green 252 * 8)) (blue / 8)

unfoldable pub led_ram : ℕ → ℕ → Bytes
led_ram zero color = []
led_ram (suc n) color = u8 color ∷ u8 (color / 256) ∷ led_ram n color

-- `led_set`, less the pause.
unfoldable pub led_set : Bus → ℕ → ℕ → ℕ → Bus × Ret
led_set bus red green blue = and_then (i2c_setbits bus addr_py32 py32_dir_h 32 true) (λ b1.
    and_then (i2c_setbits b1 addr_py32 py32_pull_h 32 true) (λ b2.
      and_then (i2c_setbits b2 addr_py32 py32_od_h 32 false) (λ b3.
        and_then (i2c_w8 b3 addr_py32 py32_ledcfg nleds) (λ b4.
          and_then (i2c_write b4 addr_py32 py32_ledram (led_ram nleds (led_color red green blue)))
            (λ b5. i2c_setbits b5 addr_py32 py32_ledcfg 64 true)))))
