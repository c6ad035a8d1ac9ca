-- ===== src/Stackchan/Bus/Bits.antt =====
-- What a change of bits in a register writes.
use gsoc2026_nuttx_wireguard.Base.{
  ℕ, ◌^◌, ◌<◌, Bool, true, false, ◌&&◌, List, [], ◌∷◌, ◌==◌, if◌then◌else◌, bit, ◌≡◌, ◌≢◌, ◌⊎◌,
  refl, ap, ◌∙◌, arith, Bool-cases, inl, inr,
}
use gsoc2026_nuttx_wireguard.Base.Below.{all_below, all_below_lem}
use gsoc2026_nuttx_wireguard.Config.{Errno, eio, Ret, ok, err}
use gsoc2026_nuttx_wireguard.Stackchan.Bus.{
  Bus, Write, i2c_transfer, i2c_read, i2c_write, i2c_w8, i2c_setbits, try_transfer, i2c_retries,
  masked,
}

-- Bit `i` of a byte after pin `p` has been set or cleared.
abbrev expected : ℕ → ℕ → Bool → ℕ → ℕ
expected value p on i = if i == p then (if on then 1 else 0) else bit value i

abbrev bits_right : ℕ → ℕ → ℕ → Bool
bits_right value p i =
    (bit (masked value (2 ^ p) true) i == expected value p true i)
    && (bit (masked value (2 ^ p) false) i == expected value p false i)

all_right :
    all_below 8 (λ p. all_below 8 (λ i. all_below 256 (λ value. bits_right value p i))) ≡ true
unfolding all_below masked
all_right = refl

==_sound : (a b : ℕ) → (a == b) ≡ true → a ≡ b
==_sound a b h = ground arith

and_parts : (a b : Bool) → (a && b) ≡ true → (a ≡ true) × (b ≡ true)
and_parts true b h = (refl, h)
and_parts false b h = absurd (ground arith)

masked-bit :
    (value p i : ℕ) (on : Bool)
    → value < 256
    → p < 8
    → i < 8
    → bit (masked value (2 ^ p) on) i ≡ expected value p on i
masked-bit value p i on byte pin place =
    let at_pin = all_below_lem 8 _ all_right p pin in
    let at_place = all_below_lem 8 _ at_pin i place in
    both on (all_below_lem 256 (λ v. bits_right v p i) at_place value byte)
  where
    both :
        (on : Bool)
        → bits_right value p i ≡ true
        → bit (masked value (2 ^ p) on) i ≡ expected value p on i
    both true h = ==_sound _ _ ((and_parts _ _ h).0)
    both false h = ==_sound _ _ ((and_parts _ _ h).1)

Ret-cases : (r : Ret) → (r ≡ ok) ⊎ ((e : Errno) × (r ≡ err e))
Ret-cases ok = inl refl
Ret-cases (err e) = inr (e, refl)

-- Nothing is written, or the one write is.
abbrev pub Wrote : Bus → Write → Bus × Ret → Type 0
Wrote bus w (after, ret) =
    (ret ≢ ok → after.written ≡ bus.written) × (ret ≡ ok → after.written ≡ w ∷ bus.written)

i2c_w8-Wrote :
    (bus : Bus) (addr reg value : ℕ)
    → Wrote bus
        (record { addr = addr; reg = reg; payload = value ∷ [] })
        (i2c_w8 bus addr reg value)
unfolding i2c_w8 i2c_write i2c_transfer
i2c_w8-Wrote bus addr reg value =
    let tried = try_transfer i2c_retries eio bus.answers in
    elim (Bool-cases bus.opens) [
      | inr shut ↦ rw shut (λ bad. refl, λ good. absurd (ground arith))
      | inl there ↦ elim (Ret-cases (tried.1)) [
        | inl good ↦ rw (there, good, i2c_write) (λ bad. absurd (bad refl), λ fine. refl)
        | inr (e, bad) ↦ rw (there, bad, i2c_write) (λ worse. refl, λ fine. absurd (ground arith))
      ]
    ]

i2c_read-written : (bus : Bus) (addr reg : ℕ) → (i2c_read bus addr reg).0.written ≡ bus.written
unfolding i2c_read i2c_transfer
i2c_read-written bus addr reg = elim (Bool-cases bus.opens) [
  | inl there ↦ rw there refl
  | inr shut ↦ rw shut refl
]

-- `sc_i2c_setbits` on one pin of a register, where the value read is a byte: if the register cannot
-- be read, the call fails with that error, and nothing is written. Any other failure writes nothing
-- either, and success writes the register once; in what it writes only the bit of that pin differs
-- from the value read, and is as asked.
pub i2c_setbits-pin :
    (bus : Bus) (addr reg p : ℕ) (on : Bool)
    → p < 8
    → (i2c_read bus addr reg).2 < 256
    → let value = (i2c_read bus addr reg).2 in
      Wrote bus
        (record { addr = addr; reg = reg; payload = masked value (2 ^ p) on ∷ [] })
        (i2c_setbits bus addr reg (2 ^ p) on)
      × ((e : Errno)
          → (i2c_read bus addr reg).1 ≡ err e
          → let (after, ret) = i2c_setbits bus addr reg (2 ^ p) on in
            (ret ≡ err e) × (after.written ≡ bus.written))
      × ((i : ℕ)
          → i < 8
          → bit (masked value (2 ^ p) on) i
            ≡ (if i == p then (if on then 1 else 0) else bit value i))
i2c_setbits-pin bus addr reg p on pin byte =
    let read = i2c_read bus addr reg in
    let value = masked (read.2) (2 ^ p) on in
    let same = i2c_read-written bus addr reg in
    let w : Write = record { addr = addr; reg = reg; payload = value ∷ [] } in
    (
      elim (Ret-cases (read.1)) [
        | inl good ↦
            let (failing, writing) = i2c_w8-Wrote (read.0) addr reg value in
            unfold i2c_setbits in
            rw (good, i2c_setbits)
              (
                λ bad. failing bad ∙ same,
                λ fine. writing fine ∙ ap (λ (ws : List Write). w ∷ ws) same,
              )
        | inr (e, bad) ↦
            unfold i2c_setbits in
            rw (bad, i2c_setbits) (λ worse. same, λ fine. absurd (ground arith))
      ],
      λ e bad. unfold i2c_setbits in rw (bad, i2c_setbits) (refl, same),
      λ i place. masked-bit (read.2) p i on byte pin place,
    )
