-- ===== src/Base64/Alphabet.antt =====
-- A text that decodes has no byte outside the alphabet of base64.
use gsoc2026_nuttx_wireguard.Base.{
  ℕ, Bool, true, false, [], ◌∷◌, some, none, ◌==◌, ltb, ◌≡◌, inl, inr, refl, arith, Bytes, All,
  Visible, Bool-cases, Option-cases,
}
use gsoc2026_nuttx_wireguard.Base.Below.{all_below, all_below_lem}
use gsoc2026_nuttx_wireguard.Base64.{
  base64_lookup, char_index, Decoder, decode_char, decode_step, decode_loop, decoder_start,
  base64_decode,
}

abbrev is_absent : ℕ → Bool
is_absent c = elim (char_index c 0 base64_lookup) [ none ↦ true | some i ↦ false ]

all_absent : all_below 33 is_absent ≡ true
unfolding all_below char_index
all_absent = refl

char_index-Visible : (c i : ℕ) → char_index c 0 base64_lookup ≡ some i → Visible c
char_index-Visible c i found = elim (Bool-cases (ltb 32 c)) [
  | inl above ↦ ground arith
  | inr low ↦
      let absent = all_below_lem 33 is_absent all_absent c (ground arith) in
      let bad = rw (found, is_absent) at absent in cc
]

decode_char-Visible : (n c : ℕ) (p : ℕ × ℕ) → decode_char n c ≡ some p → Visible c
unfolding decode_char
decode_char-Visible n c p h = elim (Bool-cases (c == b'=')) [
  | inl pad ↦ ground arith
  | inr other ↦ elim (Option-cases (char_index c 0 base64_lookup)) [
    | inl absent ↦ (let bad = rw (other, absent, decode_char) at h in absurd (ground arith))
    | inr (i, found) ↦ char_index-Visible c i found
  ]
]

decode_step-Visible :
    (size : ℕ) (s next : Decoder) (c : ℕ) → decode_step size s c ≡ some next → Visible c
unfolding decode_step
decode_step-Visible size s next c h = elim (Option-cases (decode_char s.byte_count c)) [
  | inl bad ↦ (let h1 = rw (bad, decode_step) at h in absurd (ground arith))
  | inr (p, good) ↦ decode_char-Visible s.byte_count c p good
]

decode_loop-Visible :
    (size : ℕ) (s after : Decoder) (text : Bytes)
    → decode_loop size s text ≡ some after
    → All Visible text
unfolding decode_loop
decode_loop-Visible size s after [] h = tt
decode_loop-Visible size s after (c ∷ cs) h = elim (Option-cases (decode_step size s c)) [
  | inl bad ↦ (let h1 = rw (bad, decode_loop) at h in absurd (ground arith))
  | inr (next, step) ↦ (
    decode_step-Visible size s next c step,
    decode_loop-Visible size next after cs (rw (step, decode_loop) at h),
  )
]

-- Every byte of a text that `wireguard_base64_decode` takes is visible.
pub base64_decode-Visible :
    (text : Bytes) (size : ℕ) (bytes : Bytes)
    → base64_decode text size ≡ some bytes
    → All Visible text
unfolding base64_decode
base64_decode-Visible text size bytes h =
    elim (Option-cases (decode_loop size decoder_start text)) [
      | inl bad ↦ (let h1 = rw (bad, base64_decode) at h in absurd (ground arith))
      | inr (after, good) ↦ decode_loop-Visible size decoder_start after text good
    ]
