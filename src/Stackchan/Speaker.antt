-- ===== src/Stackchan/Speaker.antt =====
-- The loudspeaker of demo/stackchan/stackchan_main.c: `amp_write`, `amp_on`, `amp_off` and `say`.
pub mod Rate
use gsoc2026_nuttx_wireguard.Base.{
  ℕ, zero, suc, ◌+◌, ◌/◌, ◌%◌, ◌^◌, Bool, true, false, not, List, [], ◌∷◌, ◌++◌, Option, none, some,
  ltb, if◌then◌else◌, u8, u32, bit_or, Bytes,
}
use gsoc2026_nuttx_wireguard.Config.{Errno, Ret, ok, err, etimedout, enomem}
use gsoc2026_nuttx_wireguard.Stackchan.Bus.{
  Bus, i2c_write, i2c_setbits, and_then, addr_aw9523, addr_aw88298,
}
use gsoc2026_nuttx_wireguard.Stackchan.Display.{expr_surprised}

-- `amp_write`
unfoldable pub amp_write : Bus → ℕ → ℕ → Bus × Ret
amp_write bus reg value = i2c_write bus addr_aw88298 reg (u8 (value / 256) ∷ u8 value ∷ [])

abbrev pub rate_tbl : List ℕ
rate_tbl = 4 ∷ 5 ∷ 6 ∷ 8 ∷ 10 ∷ 11 ∷ 15 ∷ 20 ∷ 22 ∷ 44 ∷ []

-- The loop over the table, which stops at its last entry.
unfoldable pub rate_index : ℕ → ℕ → List ℕ → ℕ
rate_index r i [] = i
rate_index r i (t ∷ []) = i
rate_index r i (t ∷ u ∷ ts) =
    let rest = rate_index r (i + 1) (u ∷ ts) in if ltb t r then rest else i

-- The rate in units of 2205 Hz, rounded.
unfoldable pub rate_units : ℕ → ℕ
rate_units rate = u32 (rate + 1102) / 2205

-- The registers that switch the amplifier on.
unfoldable pub amp_registers : Bus → ℕ → Bus × Ret
amp_registers bus reg06 = and_then (amp_write bus 97 1651) (λ b1.
    and_then (amp_write b1 4 16448) (λ b2.
      and_then (amp_write b2 5 8)
        (λ b3. and_then (amp_write b3 6 (bit_or reg06 5312)) (λ b4. amp_write b4 12 100))))

-- `amp_on`, less the pause.
unfoldable pub amp_on : Bus → ℕ → Bus × Ret
amp_on bus rate = and_then (i2c_setbits bus addr_aw9523 17 16 true) (λ b1.
    and_then (i2c_setbits b1 addr_aw9523 4 4 false) (λ b2.
      and_then (i2c_setbits b2 addr_aw9523 2 4 true)
        (λ b3. amp_registers b3 (rate_index (rate_units rate) 0 rate_tbl))))

-- `amp_off`
unfoldable pub amp_off : Bus → Bus
amp_off bus = (i2c_setbits ((amp_write bus 4 16384).0) addr_aw9523 2 4 false).0

-- What the player does: whether it can be made, whether it takes the file, and whether it is busy each
-- time that its state is looked at. It is idle beyond the list.
pub record Player : Type 0 where
  pub made : Bool
  pub play : Option Errno
  pub looks : List Bool

-- One look at the state of the player.
abbrev pub look_once : List Bool → List Bool × Bool
look_once [] = ([], false)
look_once (busy ∷ looks) = (looks, busy)

-- The loop that waits for the stream to start, and the look after it: the looks that are left, and
-- whether the player is busy.
unfoldable pub await_start : ℕ → List Bool → List Bool × Bool
await_start zero looks = look_once looks
await_start (suc rounds) [] = ([], false)
await_start (suc rounds) (true ∷ looks) = look_once looks
await_start (suc rounds) (false ∷ looks) = await_start rounds looks

-- The loop that moves the mouth until the player is idle: the expressions of the mouth.
unfoldable pub mouths : Bool → ℕ → List Bool → List ℕ
mouths opened expr [] = expr ∷ []
mouths opened expr (false ∷ looks) = expr ∷ []
mouths opened expr (true ∷ looks) =
    (if not opened then expr_surprised else expr) ∷ mouths (not opened) expr looks

-- `say`, less the pauses and the messages: the bus, the expressions that it gives the mouth and the
-- result. While the demonstration task runs, it is the task that moves the mouth.
unfoldable pub say : Player → Bool → Bool → ℕ → Bus → ℕ → Bus × List ℕ × Ret
say player spi_opens demo_runs expr bus rate =
    let (bus1, on) = amp_on bus rate in
    let (looks, started) = await_start 50 player.looks in
    elim on [
      | err e ↦ (bus1, [], err e)
      | ok ↦ if not player.made then (amp_off bus1, [], err enomem) else elim player.play [
        | some e ↦ (amp_off bus1, [], err e)
        | none ↦
            if not started
            then (amp_off bus1, [], err etimedout)
            else if demo_runs
            then (amp_off bus1, [], ok)
            else (amp_off bus1, if spi_opens then mouths false expr looks else [], ok)
      ]
    ]
