-- ===== src/Base/Below.antt =====
-- A Boolean test on all numbers below a bound.
use Prim.Native.Nat.{ℕ, zero, suc, ◌<◌}
use mathlib.Core.Path.{◌≡◌}
use mathlib.Core.Logic.{inl, inr}
use mathlib.Core.Bool.{Bool, true, ◌&&◌}
use native.Mathlib.Omega.{arith}
use gsoc2026_nuttx_wireguard.Base.Tests.{◌==◌, ==_iff, Bool-cases}

unfoldable pub all_below : ℕ → (ℕ → Bool) → Bool
all_below zero test = true
all_below (suc n) test = test n && all_below n test

pub all_below_lem :
    (n : ℕ) (test : ℕ → Bool) → all_below n test ≡ true → (i : ℕ) → i < n → test i ≡ true
unfolding all_below
all_below_lem zero test h i lt = absurd (omega arith)
all_below_lem (suc n) test h i lt = elim (Bool-cases (i == n)) [
  | inl e ↦ (let e' : i ≡ n = (==_iff i n).0 e in rw e' (ground arith))
  | inr ne ↦ all_below_lem n test (ground arith) i (ground arith)
]
