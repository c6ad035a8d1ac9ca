-- ===== src/Stackchan/Speaker/Rate.antt =====
-- The sample rate that the amplifier is set to.
use gsoc2026_nuttx_wireguard.Base.{
  ℕ, zero, suc, ◌+◌, ◌≤◌, ◌<◌, ◌/◌, Bool, true, List, [], ◌∷◌, some, length, get_or, get_elem?, ltb,
  ◌==◌, ==_iff, u8, bit_or, ◌≡◌, refl, inl, inr, arith, Bool-cases,
}
use gsoc2026_nuttx_wireguard.Base.Below.{all_below, all_below_lem}
use gsoc2026_nuttx_wireguard.Config.{ok}
use gsoc2026_nuttx_wireguard.Stackchan.Bus.{
  Bus, Write, addr_aw88298, i2c_setbits, i2c_read, i2c_write, i2c_w8, i2c_transfer, try_transfer,
}
use gsoc2026_nuttx_wireguard.Stackchan.Speaker.{
  rate_tbl, rate_index, rate_units, amp_on, amp_registers, amp_write,
}

rate_index-shift : (r i : ℕ) (ts : List ℕ) → rate_index r (i + 1) ts ≡ suc (rate_index r i ts)
unfolding rate_index
rate_index-shift r i [] = omega arith
rate_index-shift r i (t ∷ []) = omega arith
rate_index-shift r i (t ∷ u ∷ ts) = elim (Bool-cases (ltb t r)) [
  | inl more ↦ rw more (rate_index-shift r (i + 1) (u ∷ ts))
  | inr enough ↦ rw enough (omega arith)
]

first_too :
    (r t k : ℕ) (ts : List ℕ)
    → t < r
    → ((j : ℕ) → j < k → get_or ts j 0 < r)
    → (j : ℕ) → j < suc k
    → get_or (t ∷ ts) j 0 < r
first_too r t k ts small below zero h = small
first_too r t k ts small below (suc j) h = below j (omega arith)

-- All entries before the index are too small, and the entry there is not, unless it is the last.
rate_index-first :
    (r t : ℕ) (ts : List ℕ)
    → let i = rate_index r 0 (t ∷ ts) in
      (i ≤ length ts)
      × ((j : ℕ) → j < i → get_or (t ∷ ts) j 0 < r)
      × (i < length ts → r ≤ get_or (t ∷ ts) i 0)
unfolding rate_index
rate_index-first r t [] = (omega arith, λ j h. absurd (omega arith), λ h. absurd (omega arith))
rate_index-first r t (u ∷ ts) = elim (Bool-cases (ltb t r)) [
  | inl more ↦
      let (inside, below, last) = rate_index-first r u ts in
      let next = rate_index-shift r 0 (u ∷ ts) in
      let small : t < r = ground arith in
      rw (more, next) (omega arith, first_too r t _ (u ∷ ts) small below, λ h. last (omega arith))
  | inr enough ↦ rw enough (omega arith, λ j h. absurd (omega arith), λ h. ground arith)
]

abbrev rate_right : ℕ → Bool
rate_right i = bit_or i 5312 == 5312 + i

all_rates : all_below 10 rate_right ≡ true
unfolding all_below
all_rates = refl

last_rate : (r i : ℕ) → i ≤ 9 → (i < 9 → r ≤ get_or rate_tbl i 0) → r ≤ 44 → r ≤ get_or rate_tbl i 0
last_rate r i inside last low = elim (Bool-cases (ltb i 9)) [
  | inl before ↦ last (ground arith)
  | inr end ↦ (let nine : i ≡ 9 = ground arith in rw nine low)
]

-- A bus on which every transfer works.
abbrev pub working : List Write → Bus
working written = record { opens = true; answers = []; written = written }

-- On a working bus `amp_on` succeeds, and the last register but one that it writes is 6, with the
-- number of an entry of the table in its low bits: every entry before it is below the rate in units of
-- 2205 Hz, and it is not, if the rate is within the table.
pub amp_on-rate :
    (written : List Write) (rate : ℕ)
    → let r = rate_units rate in
      let (after, ret) = amp_on (working written) rate in
      (i : ℕ) × (ret ≡ ok)
      × (get_elem? after.written 1
          ≡ some (record {
            addr = addr_aw88298;
            reg = 6;
            payload = u8 ((5312 + i) / 256) ∷ u8 (5312 + i) ∷ [];
          }))
      × (i ≤ 9)
      × ((j : ℕ) → j < i → get_or rate_tbl j 0 < r)
      × (r ≤ 44 → r ≤ get_or rate_tbl i 0)
unfolding amp_on amp_registers amp_write i2c_setbits i2c_read i2c_write i2c_w8 i2c_transfer
    try_transfer
amp_on-rate written rate =
    let r = rate_units rate in
    let i = rate_index r 0 rate_tbl in
    let (inside, below, last) =
      rate_index-first r 4 (5 ∷ 6 ∷ 8 ∷ 10 ∷ 11 ∷ 15 ∷ 20 ∷ 22 ∷ 44 ∷ []) in
    let whole : bit_or i 5312 ≡ 5312 + i =
      (==_iff _ _).0 (all_below_lem 10 rate_right all_rates i (omega arith)) in
    (i, refl, rw whole refl, inside, below, last_rate r i inside last)
