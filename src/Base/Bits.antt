-- ===== src/Base/Bits.antt =====
-- The bits of `|`, `&`, shifts and truncations, as equations about single bits.
use Prim.Native.Nat.{
  bit_and, bit_or, bitwise, digits, bit_and-bitwise, bit_or-bitwise, max, min, ◌≤◌, ◌<◌, ◌^◌, ◌%◌,
  ◌/◌, ◌-◌, ◌*◌, ◌+◌, ℕ, suc, zero,
}
use mathlib.Core.Path.{◌≡◌, refl, sym, ap, ◌∙◌}
use mathlib.Core.Logic.{◌≢◌}
use native.Mathlib.Nat.{pow-succ', one-le-pow, div-div-eq-div-mul, zero-add, div-one, suc-add}
use native.Mathlib.Nat.{
  mul-div_cancel, mul-add-mod_self_left, mod-eq_of_lt, mod-lt, div-add-mod, pow-le-pow_right,
  le_trans,
}
use native.Mathlib.Omega.{arith}
use mathlib.Core.Logic.{inl, inr}
use gsoc2026_nuttx_wireguard.Base.Tests.{◌==◌, if◌then◌else◌, Bool-cases}
use gsoc2026_nuttx_wireguard.Base.Words.{bit}

-- The bits of two numbers, one at a time: fuel beyond the first number changes nothing.
module _ (rest : ℕ → ℕ) (on_bits : ℕ → ℕ → ℕ) where
  spare_fuel :
      (fuel spare a b : ℕ)
      → a ≤ fuel
      → digits rest on_bits (fuel + spare) a b ≡ digits rest on_bits fuel a b
  spare_fuel zero zero zero b le = refl
  spare_fuel zero (suc spare) zero b le = rw zero-add refl
  spare_fuel zero spare (suc a) b le = absurd (omega arith)
  spare_fuel (suc fuel) spare zero b le = rw suc-add refl
  spare_fuel (suc fuel) spare (suc a) b le =
      let half = spare_fuel fuel spare (suc a / 2) (b / 2) (omega arith) in
      rw suc-add (omega (arith, half))

  low_bit :
      (a b : ℕ)
      → bitwise rest on_bits (suc a) b
        ≡ on_bits (suc a % 2) (b % 2) + 2 * bitwise rest on_bits (suc a / 2) (b / 2)
  low_bit a b =
      let half = suc a / 2 in
      let fuel : half + (a - half) ≡ a = omega arith in
      let spared = spare_fuel half (a - half) half (b / 2) (omega arith) in
      let enough = rw fuel at spared in omega (arith, enough)

pub bit_or_low : (a b : ℕ) → bit_or a b ≡ max (a % 2) (b % 2) + 2 * bit_or (a / 2) (b / 2)
bit_or_low zero b = omega (arith, bit_or-bitwise 0 b, bit_or-bitwise 0 (b / 2))
bit_or_low (suc a) b =
    let whole = bit_or-bitwise (suc a) b in
    let half = bit_or-bitwise (suc a / 2) (b / 2) in
    omega (arith, low_bit (λ y. y) max a b, whole, half)

pub bit_and_low : (a b : ℕ) → bit_and a b ≡ min (a % 2) (b % 2) + 2 * bit_and (a / 2) (b / 2)
bit_and_low zero b = omega (arith, bit_and-bitwise 0 b, bit_and-bitwise 0 (b / 2))
bit_and_low (suc a) b =
    let whole = bit_and-bitwise (suc a) b in
    let half = bit_and-bitwise (suc a / 2) (b / 2) in
    omega (arith, low_bit (λ y. 0) min a b, whole, half)

pub bit-le-one : (i w : ℕ) → bit w i ≤ 1
bit-le-one zero w = omega arith
bit-le-one (suc i) w = bit-le-one i (w / 2)

pub bit-zero : (i : ℕ) → bit 0 i ≡ 0
bit-zero zero = refl
bit-zero (suc i) = bit-zero i

bit_or-half : (a b : ℕ) → bit_or a b / 2 ≡ bit_or (a / 2) (b / 2)
bit_or-half a b = omega (arith, bit_or_low a b)

bit_and-half : (a b : ℕ) → bit_and a b / 2 ≡ bit_and (a / 2) (b / 2)
bit_and-half a b = omega (arith, bit_and_low a b)

pub bit-bit_or : (i a b : ℕ) → bit (bit_or a b) i ≡ max (bit a i) (bit b i)
bit-bit_or zero a b = omega (arith, bit_or_low a b)
bit-bit_or (suc i) a b = rw bit_or-half (bit-bit_or i (a / 2) (b / 2))

no_common_bits : (most a : ℕ) → a ≤ most → bit_and a 0 ≡ 0
no_common_bits most zero le = refl
no_common_bits zero (suc a) le = absurd (omega arith)
no_common_bits (suc most) (suc a) le =
    let half = no_common_bits most (suc a / 2) (omega arith) in
    omega (arith, half, bit_and_low (suc a) 0)

pub bit-bit_and : (i a b : ℕ) → bit (bit_and a b) i ≡ min (bit a i) (bit b i)
bit-bit_and zero a b = omega (arith, bit_and_low a b)
bit-bit_and (suc i) a b = rw bit_and-half (bit-bit_and i (a / 2) (b / 2))

pub two-pow-pos : (n : ℕ) → 0 < 2 ^ n
two-pow-pos n = one-le-pow n 2 (omega arith)

-- `x >> s` moves bit `s + i` to bit `i`.
pub bit-div : (s i x : ℕ) → bit (x / 2 ^ s) i ≡ bit x (s + i)
bit-div zero i x = rw (zero-add, div-one)
bit-div (suc s) i x = rw (pow-succ', ← div-div-eq-div-mul, suc-add) (bit-div s i (x / 2))

half-lt : (n x : ℕ) → x < 2 ^ suc n → x / 2 < 2 ^ n
half-lt n x h = omega (arith, pow-succ' 2 n)

-- A number below `2 ^ n` has no bit from `n` on.
pub bit-eq-zero : (n i x : ℕ) → x < 2 ^ n → bit x (n + i) ≡ 0
bit-eq-zero zero i x h = let e : x ≡ 0 = omega arith in rw (zero-add, e) (bit-zero i)
bit-eq-zero (suc n) i x h = rw suc-add (bit-eq-zero n i (x / 2) (half-lt n x h))

-- The low bit, and the others, of a remainder.
mod-suc-low : (n x : ℕ) → x % 2 ^ suc n ≡ 2 * (x / 2 % 2 ^ n) + x % 2
mod-suc-low n x =
    ap (λ y. y % 2 ^ suc n) parts ∙ mul-add-mod_self_left (2 ^ suc n) q low ∙ mod-eq_of_lt small
  where
    q : ℕ
    q = x / 2 / 2 ^ n

    low : ℕ
    low = 2 * (x / 2 % 2 ^ n) + x % 2

    parts : x ≡ 2 ^ suc n * q + low
    parts = omega (arith, div-add-mod (x / 2) (2 ^ n), ap (λ (t : ℕ). t * q) (pow-succ' 2 n))

    small : low < 2 ^ suc n
    small = omega (arith, pow-succ' 2 n, mod-lt (x / 2) (two-pow-pos n))

mod-suc-half : (n x : ℕ) → x % 2 ^ suc n / 2 ≡ x / 2 % 2 ^ n
mod-suc-half n x = omega (arith, mod-suc-low n x)

pub bit-mod : (n i x : ℕ) → i < n → bit (x % 2 ^ n) i ≡ bit x i
bit-mod zero i x h = elim h [ ]
bit-mod (suc n) zero x h = omega (arith, mod-suc-low n x)
bit-mod (suc n) (suc i) x h = rw mod-suc-half (bit-mod n i (x / 2) (omega arith))

double : (s x : ℕ) → x * 2 ^ suc s ≡ 2 * (x * 2 ^ s)
double s x = omega (arith, ap (λ (t : ℕ). x * t) (pow-succ' 2 s))

-- `x << s`.
pub bit-mul_low : (s i x : ℕ) → i < s → bit (x * 2 ^ s) i ≡ 0
bit-mul_low zero i x h = elim h [ ]
bit-mul_low (suc s) zero x h = omega (arith, double s x)
bit-mul_low (suc s) (suc i) x h =
    rw (let e : x * 2 ^ suc s / 2 ≡ x * 2 ^ s = omega (arith, double s x) in e)
      (bit-mul_low s i x (omega arith))

pub bit-mul_high : (s i x : ℕ) → bit (x * 2 ^ s) (s + i) ≡ bit x i
bit-mul_high s i x =
    sym (bit-div s i (x * 2 ^ s)) ∙ ap (λ y. bit y i) (mul-div_cancel x (two-pow-pos s))

pub bit-pow_self : (i : ℕ) → bit (2 ^ i) i ≡ 1
bit-pow_self zero = refl
bit-pow_self (suc i) =
    rw (let e : 2 ^ suc i / 2 ≡ 2 ^ i = omega (arith, pow-succ' 2 i) in e) (bit-pow_self i)

pub bit-pow_ne : (j i : ℕ) → i ≢ j → bit (2 ^ j) i ≡ 0
bit-pow_ne zero zero h = absurd (h refl)
bit-pow_ne zero (suc i) h = bit-zero i
bit-pow_ne (suc j) zero h = omega (arith, pow-succ' 2 j)
bit-pow_ne (suc j) (suc i) h =
    rw (let e : 2 ^ suc j / 2 ≡ 2 ^ j = omega (arith, pow-succ' 2 j) in e)
      (bit-pow_ne j i (λ q. h (ap suc q)))

-- `|` of two numbers of `n` bits has `n` bits.
pub bit_or-lt : (n a b : ℕ) → a < 2 ^ n → b < 2 ^ n → bit_or a b < 2 ^ n
bit_or-lt zero a b h k =
    let p : a ≡ 0 = omega arith in let q : b ≡ 0 = omega arith in rw (p, q) (omega arith)
bit_or-lt (suc n) a b h k = omega (
  arith,
  bit_or_low a b,
  pow-succ' 2 n,
  bit_or-lt n (a / 2) (b / 2) (half-lt n a h) (half-lt n b k),
)

-- `w | (1 << p)`.
pub bit-mark : (w p i : ℕ) → bit (bit_or w (2 ^ p)) i ≡ (if i == p then 1 else bit w i)
bit-mark w p i = elim (Bool-cases (i == p)) [
  | inl same ↦
      let e : i ≡ p = ground arith in
      rw same (rw bit-bit_or (rw e (omega (arith, bit-pow_self p, bit-le-one p w))))
  | inr other ↦
      let ne : i ≢ p = ground arith in
      rw other (omega (arith, bit-bit_or i w (2 ^ p), bit-pow_ne p i ne))
]

-- `w & (1 << p)` is zero exactly where bit `p` is.
and_pow_low : (p w : ℕ) → bit_and w (2 ^ p) ≡ bit w p * 2 ^ p
and_pow_low zero w = omega (arith, bit_and_low w 1, no_common_bits (w / 2) (w / 2) (omega arith))
and_pow_low (suc p) w =
    let half : 2 ^ suc p / 2 ≡ 2 ^ p = omega (arith, pow-succ' 2 p) in
    let even : 2 ^ suc p % 2 ≡ 0 = omega (arith, pow-succ' 2 p) in
    bit_and_low w (2 ^ suc p)
    ∙ rw (half, even, and_pow_low p (w / 2)) (omega (arith, double p (bit (w / 2) p)))

pub bit_and-mark : (w p : ℕ) → (bit_and w (2 ^ p) == 0) ≡ (bit w p == 0)
bit_and-mark w p = rw and_pow_low (elim (Bool-cases (bit w p == 0)) [
  | inl clear ↦ let e : bit w p ≡ 0 = ground arith in rw e (ground arith)
  | inr marked ↦
      let e : bit w p ≡ 1 = ground (arith, bit-le-one p w) in rw e (ground (arith, two-pow-pos p))
])

-- A bit of a 64-bit word.
pub place-lt : (p : ℕ) → 2 ^ (p % 64) < 2 ^ 64
place-lt p = le_trans (grow (p % 64)) (pow-le-pow_right (omega arith) (mod-lt p (omega arith)))
  where
    grow : (n : ℕ) → 2 ^ n < 2 ^ suc n
    grow n = omega (arith, pow-succ' 2 n, two-pow-pos n)

-- `(a << k) | b` of a `b` below the shift is a sum.
bit_or_none : (most a : ℕ) → a ≤ most → bit_or a 0 ≡ a
bit_or_none most zero le = omega (arith, bit_or_low 0 0)
bit_or_none zero (suc a) le = absurd (omega arith)
bit_or_none (suc most) (suc a) le =
    let half = bit_or_none most (suc a / 2) (omega arith) in
    omega (arith, half, bit_or_low (suc a) 0)

pub bit_or-shifted : (k a b : ℕ) → b < 2 ^ k → bit_or (a * 2 ^ k) b ≡ a * 2 ^ k + b
bit_or-shifted zero a b h =
    let e : b ≡ 0 = omega arith in
    let f : a * 2 ^ 0 ≡ a = omega arith in rw (e, f) (omega (arith, bit_or_none a a (omega arith)))
bit_or-shifted (suc k) a b h =
    let half = bit_or-shifted k a (b / 2) (half-lt k b h) in
    let halved : a * 2 ^ suc k / 2 ≡ a * 2 ^ k = omega (arith, double k a) in
    let even : a * 2 ^ suc k % 2 ≡ 0 = omega (arith, double k a) in
    bit_or_low (a * 2 ^ suc k) b ∙ rw (halved, even, half) (omega (arith, double k a))

-- `&` stays within its first argument.
pub bit_and-le : (most a b : ℕ) → a ≤ most → bit_and a b ≤ a
bit_and-le zero zero b le = omega (arith, bit_and-bitwise 0 b)
bit_and-le zero (suc a) b le = absurd (omega arith)
bit_and-le (suc most) zero b le = omega (arith, bit_and-bitwise 0 b)
bit_and-le (suc most) (suc a) b le =
    let half = bit_and-le most (suc a / 2) (b / 2) (omega arith) in
    omega (arith, half, bit_and_low (suc a) b)
