-- ===== src/Base/Text.antt =====
-- Text of the source as bytes, and the character tests and searches of <string.h>.
use Prim.Native.Char.{code}
use Prim.Native.String.{String}
use Prim.Native.Nat.{ℕ, ◌+◌, ◌-◌, ◌<◌}
use mathlib.Core.Path.{◌≡◌, refl}
use mathlib.Core.Logic.{◌≢◌}
use native.Mathlib.Omega.{arith}
use mathlib.Core.Bool.{Bool, true, false, ◌&&◌}
use mathlib.Core.List.{[], ◌∷◌, ◌++◌}
use mathlib.Core.Option.{Option, none, some}
use gsoc2026_nuttx_wireguard.Base.Tests.{leb, ◌==◌, if◌then◌else◌, Bytes}
use gsoc2026_nuttx_wireguard.Base.Lists.{take, All}

-- The bytes of an ASCII text.
abbrev pub codes : String → Bytes
codes String.[] = []
codes (String.◌∷◌ c s) = code c ∷ codes s

-- `strlcpy` into a buffer of `size` bytes.
abbrev pub strlcpy : Bytes → ℕ → Bytes
strlcpy src size = take (size - 1) src

-- The text before and after the first `c`, as `strchr` and a NUL in its place leave it.
unfoldable pub split_first : ℕ → Bytes → Option (Bytes × Bytes)
split_first c [] = none
split_first c (x ∷ xs) =
    let rest = split_first c xs in
    if x == c then some ([], xs) else elim rest [ none ↦ none | some (l, r) ↦ some (x ∷ l, r) ]

-- The same at the last `c`, as with `strrchr`.
unfoldable pub split_last : ℕ → Bytes → Option (Bytes × Bytes)
split_last c [] = none
split_last c (x ∷ xs) = elim (split_last c xs) [
  | some (l, r) ↦ some (x ∷ l, r)
  | none ↦ if x == c then some ([], xs) else none
]

abbrev lower : ℕ → ℕ
lower c = if leb b'A' c && leb c b'Z' then c + 32 else c

-- `strcasecmp(a, b) == 0`
unfoldable pub str_case_eq : Bytes → Bytes → Bool
str_case_eq [] [] = true
str_case_eq [] (y ∷ ys) = false
str_case_eq (x ∷ xs) [] = false
str_case_eq (x ∷ xs) (y ∷ ys) = lower x == lower y && str_case_eq xs ys

-- A byte after the blank.
abbrev pub Visible : ℕ → Type 0
Visible c = 32 < c

abbrev pub NotByte : ℕ → ℕ → Type 0
NotByte b c = c ≢ b

-- The first and the last `b` of a text in which no other stands before or after it.
pub split_first_lem :
    (b : ℕ) (left right : Bytes)
    → All (NotByte b) left
    → split_first b (left ++ (b ∷ right)) ≡ some (left, right)
unfolding split_first
split_first_lem b [] right n = ground arith
split_first_lem b (c ∷ cs) right (n, ns) =
    let other : (c == b) ≡ false = ground arith in
    rw (other, split_first_lem b cs right ns, split_first) refl

split_last-none : (b : ℕ) (text : Bytes) → All (NotByte b) text → split_last b text ≡ none
unfolding split_last
split_last-none b [] n = refl
split_last-none b (c ∷ cs) (n, ns) =
    let other : (c == b) ≡ false = ground arith in
    rw (split_last-none b cs ns, split_last, other) refl

pub split_last_lem :
    (b : ℕ) (left right : Bytes)
    → All (NotByte b) right
    → split_last b (left ++ (b ∷ right)) ≡ some (left, right)
unfolding split_last
split_last_lem b [] right n = ground (arith, split_last-none b right n)
split_last_lem b (c ∷ cs) right n = rw (split_last_lem b cs right n, split_last) refl
