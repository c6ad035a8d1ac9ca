-- ===== src/Tests/Decimal.antt =====
-- Library functions that print and read decimal numbers, and know the addresses of the tests.
use gsoc2026_nuttx_wireguard.Base.{
  str_eq_iff, ℕ, zero, suc, ◌+◌, ◌-◌, ◌*◌, ◌/◌, ◌%◌, ◌^◌, ◌≤◌, ◌<◌, [], ◌∷◌, ◌++◌, Option, some,
  none, length, length-append, if◌then◌else◌, ◌≡◌, ◌≢◌, inl, inr, refl, ap, ◌∙◌, arith, Bytes,
  codes, All, All-append, ltb, ◌==◌, str_eq, Bool-cases,
}
use native.Mathlib.Nat.{pow-suc}
use gsoc2026_nuttx_wireguard.Config.{Libc, pos, negsuc}
use gsoc2026_nuttx_wireguard.Staged.{prefix_mask}
use gsoc2026_nuttx_wireguard.Setconf.Printable.{IsDigit, IsAddressByte, PrintsNumbers}
use gsoc2026_nuttx_wireguard.Setconf.Block.{append-ne}
use gsoc2026_nuttx_wireguard.Setconf.Staging.{TakesAddresses}

abbrev digits : ℕ → ℕ → Bytes
digits zero n = []
digits (suc fuel) n =
    let rest = digits fuel (n / 10) in
    if ltb n 10 then (48 + n) ∷ [] else rest ++ ((48 + n % 10) ∷ [])

abbrev value : ℕ → Bytes → ℕ
value acc [] = acc
value acc (c ∷ cs) = value (acc * 10 + (c - 48)) cs

-- The addresses of the tests.
abbrev known : Bytes → Option ℕ
known text =
    if str_eq text (codes "192.0.2.1")
    then some 16908480
    else if str_eq text (codes "10.0.0.0")
    then some 10
    else if str_eq text (codes "0.0.0.0")
    then some 0
    else if str_eq text (codes "255.255.0.0")
    then some 65535
    else none

abbrev pub decimal_libc : Libc
decimal_libc = record {
  inet_pton = known;
  inet_ntop = λ addr size.
      if addr == 65535
      then some (codes "255.255.0.0")
      else if addr == 0
      then some (codes "0.0.0.0")
      else none;
  atoi = λ text. pos (value 0 text);
  print_int = λ k. elim k [ pos n ↦ digits 10 n | negsuc n ↦ [] ];
}

value-append :
    (acc : ℕ) (xs : Bytes) (c : ℕ) → value acc (xs ++ (c ∷ [])) ≡ value acc xs * 10 + (c - 48)
value-append acc [] c = refl
value-append acc (x ∷ xs) c = value-append (acc * 10 + (x - 48)) xs c

value-digits : (fuel n : ℕ) → n < 10 ^ fuel → value 0 (digits fuel n) ≡ n
value-digits zero n small = omega arith
value-digits (suc fuel) n small = elim (Bool-cases (ltb n 10)) [
  | inl one ↦ rw one (omega arith)
  | inr more ↦
      let less : n / 10 < 10 ^ fuel = omega (arith, pow-suc 10 fuel) in
      rw more (
        value-append 0 (digits fuel (n / 10)) (48 + n % 10)
        ∙ omega (arith, value-digits fuel (n / 10) less))
]

All-digits : (fuel n : ℕ) → All IsDigit (digits fuel n)
All-digits zero n = tt
All-digits (suc fuel) n = elim (Bool-cases (ltb n 10)) [
  | inl one ↦ rw one (ground arith, tt)
  | inr more ↦ rw more (
      All-append IsDigit (digits fuel (n / 10)) ((48 + n % 10) ∷ []) (All-digits fuel (n / 10))
        (omega arith, tt))
]

length-digits : (fuel k n : ℕ) → 0 < k → n < 10 ^ k → length (digits fuel n) ≤ k
length-digits zero k n some_digit small = omega arith
length-digits (suc fuel) zero n some_digit small = absurd (omega arith)
length-digits (suc fuel) (suc zero) n some_digit small = ground arith
length-digits (suc fuel) (suc (suc k)) n some_digit small = elim (Bool-cases (ltb n 10)) [
  | inl one ↦ rw one (omega arith)
  | inr more ↦
      let less : n / 10 < 10 ^ suc k = omega (arith, pow-suc 10 (suc k)) in
      rw more (
        omega (
          arith,
          length-append {0} (digits fuel (n / 10)) ((48 + n % 10) ∷ []),
          length-digits fuel (suc k) (n / 10) (omega arith) less,
        ))
]

digits-ne : (fuel n : ℕ) → digits (suc fuel) n ≢ []
digits-ne fuel n e = elim (Bool-cases (ltb n 10)) [
  | inl one ↦ (let bad = rw one at e in absurd (ground arith))
  | inr more ↦ append-ne (digits fuel (n / 10)) (48 + n % 10) [] (rw more at e)
]

pub decimal-PrintsNumbers : PrintsNumbers decimal_libc
decimal-PrintsNumbers = record {
  atoi_print = λ n small. ap pos (value-digits 10 n (omega arith));
  digits = λ n small. All-digits 10 n;
  starts = λ n small. digits-ne 9 n;
  fits = λ k n some_digit small. length-digits 10 k n some_digit small;
}

abbrev IsQuad : Bytes → Type 0
IsQuad text = All IsAddressByte text × (length text ≤ 15)

known-IsQuad : (text : Bytes) (addr : ℕ) → known text ≡ some addr → IsQuad text
known-IsQuad text addr h = elim (Bool-cases (str_eq text (codes "192.0.2.1"))) [
  | inl a ↦ rw ((str_eq_iff text _).0 a) (omega arith, omega arith)
  | inr na ↦ elim (Bool-cases (str_eq text (codes "10.0.0.0"))) [
    | inl b ↦ rw ((str_eq_iff text _).0 b) (omega arith, omega arith)
    | inr nb ↦ elim (Bool-cases (str_eq text (codes "0.0.0.0"))) [
      | inl c ↦ rw ((str_eq_iff text _).0 c) (omega arith, omega arith)
      | inr nc ↦ elim (Bool-cases (str_eq text (codes "255.255.0.0"))) [
        | inl d ↦ rw ((str_eq_iff text _).0 d) (omega arith, omega arith)
        | inr nd ↦ (let bad = rw (na, nb, nc, nd) at h in absurd (ground arith))
      ]
    ]
  ]
]

mask_back :
    (mask : ℕ) (text : Bytes) → decimal_libc.inet_ntop mask 16 ≡ some text → known text ≡ some mask
unfolding str_eq
mask_back mask text h = elim (Bool-cases (mask == 65535)) [
  | inl a ↦
      let e : codes "255.255.0.0" ≡ text = (let h1 = rw a at h in cc) in rw (← e) (ground arith)
  | inr na ↦ elim (Bool-cases (mask == 0)) [
    | inl b ↦
        let e : codes "0.0.0.0" ≡ text = (let h1 = rw (na, b) at h in cc) in rw (← e) (ground arith)
    | inr nb ↦ (let bad = rw (na, nb) at h in absurd (ground arith))
  ]
]

pub decimal-TakesAddresses : TakesAddresses decimal_libc
decimal-TakesAddresses = record {
  takes = known-IsQuad;
  mask_back = λ prefix text le h. mask_back (prefix_mask prefix) text h;
}
