-- ===== src/Setconf/Lines.antt =====
-- The lines that `fgets` makes of a file, and the loop of `wg_setconf` on them.
use gsoc2026_nuttx_wireguard.Base.{
  ℕ, zero, suc, ◌-◌, if◌then◌else◌, ◌≤◌, List, [], ◌∷◌, ◌++◌, length, length-append, ◌==◌, ◌≡◌,
  refl, ap, ◌∙◌, sym, arith, Bytes, Bool-cases, inl, inr,
}
use gsoc2026_nuttx_wireguard.Config.{Kconfig, Libc, ok, is_ok}
use gsoc2026_nuttx_wireguard.Staged.{Staged}
use gsoc2026_nuttx_wireguard.Setconf.{ConfPeer, Progress, fgets, line_size, conf_line, conf_loop}

-- The pieces that calls of `fgets` make of a whole file.
unfoldable pub file_lines : ℕ → Bytes → List Bytes
file_lines zero file = []
file_lines (suc fuel) [] = []
file_lines (suc fuel) (c ∷ cs) =
    let (line, rest) = fgets (line_size - 1) (c ∷ cs) in line ∷ file_lines fuel rest

-- A line and the rest are the file again, and the line fits.
fgets_lem :
    (room : ℕ) (file : Bytes)
    → let (line, rest) = fgets room file in (line ++ rest ≡ file) × (length line ≤ room)
unfolding fgets
fgets_lem zero file = (refl, omega arith)
fgets_lem (suc room) [] = (refl, omega arith)
fgets_lem (suc room) (c ∷ cs) =
    let (whole, fits) = fgets_lem room cs in
    elim (Bool-cases (c == 10)) [
      | inl newline ↦ rw newline (refl, omega arith)
      | inr other ↦ rw other (ap (λ t. c ∷ t) whole, omega arith)
    ]

-- A call of `fgets` with room takes at least one byte of a file that is not at its end.
fgets-shorter : (room c : ℕ) (cs : Bytes) → length (fgets (suc room) (c ∷ cs)).1 ≤ length cs
unfolding fgets
fgets-shorter room c cs =
    let (whole, fits) = fgets_lem room cs in
    let parts = sym (length-append {0} (fgets room cs).0 (fgets room cs).1) ∙ ap length whole in
    elim (Bool-cases (c == 10)) [
      | inl newline ↦ rw newline (omega arith)
      | inr other ↦ rw other (omega (arith, parts))
    ]

abbrev pub join : List Bytes → Bytes
join [] = []
join (line ∷ lines) = line ++ join lines

module _ (libc : Libc) (kconfig : Kconfig) where
  -- The loop on lines that have been read, up to the first error.
  unfoldable pub conf_lines : Staged → ConfPeer → List Bytes → Progress
  conf_lines staged acc [] = record { staged = staged; acc = acc; ret = ok }
  conf_lines staged acc (line ∷ lines) =
      let p = conf_line libc kconfig staged acc line in
      let rest = conf_lines p.staged p.acc lines in if is_ok p.ret then rest else p

  -- Reading each line as it is needed does what reading them all first would.
  pub conf_loop_lem :
      (fuel : ℕ) (staged : Staged) (acc : ConfPeer) (file : Bytes)
      → conf_loop libc kconfig fuel staged acc file ≡ conf_lines staged acc (file_lines fuel file)
  unfolding conf_loop conf_lines file_lines
  conf_loop_lem zero staged acc file = refl
  conf_loop_lem (suc fuel) staged acc [] = refl
  conf_loop_lem (suc fuel) staged acc (c ∷ cs) =
      let (line, file) = fgets (line_size - 1) (c ∷ cs) in
      let p = conf_line libc kconfig staged acc line in
      rw (conf_loop_lem fuel p.staged p.acc file) refl

  -- The loop ends before a fuel of at least as much as the file has bytes: more changes nothing.
  conf_loop_enough :
      (fuel more : ℕ) (staged : Staged) (acc : ConfPeer) (file : Bytes)
      → length file ≤ fuel
      → length file ≤ more
      → conf_loop libc kconfig fuel staged acc file ≡ conf_loop libc kconfig more staged acc file
  unfolding conf_loop
  conf_loop_enough zero zero staged acc file h k = refl
  conf_loop_enough zero (suc more) staged acc [] h k = refl
  conf_loop_enough zero (suc more) staged acc (c ∷ cs) h k = absurd (omega arith)
  conf_loop_enough (suc fuel) zero staged acc [] h k = refl
  conf_loop_enough (suc fuel) zero staged acc (c ∷ cs) h k = absurd (omega arith)
  conf_loop_enough (suc fuel) (suc more) staged acc [] h k = refl
  conf_loop_enough (suc fuel) (suc more) staged acc (c ∷ cs) h k =
      let (line, file) = fgets (line_size - 1) (c ∷ cs) in
      let p = conf_line libc kconfig staged acc line in
      let less = fgets-shorter 126 c cs in
      rw (conf_loop_enough fuel more p.staged p.acc file (omega arith) (omega arith)) refl
