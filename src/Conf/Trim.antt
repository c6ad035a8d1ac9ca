-- ===== src/Conf/Trim.antt =====
-- A trimmed line has nothing left to trim.
use gsoc2026_nuttx_wireguard.Base.{
  false, [], ◌∷◌, ◌≡◌, inl, inr, refl, Bytes, Bool-cases, if◌then◌else◌,
}
use gsoc2026_nuttx_wireguard.Conf.{is_blank, is_end_blank, skip_blanks, cut_blanks, conf_trim}

-- Empty, or with a first byte that is not skipped.
abbrev Starts : Bytes → Type 0
Starts [] = Unit
Starts (c ∷ cs) = is_blank c ≡ false

skip_blanks-Starts : (s : Bytes) → Starts (skip_blanks s)
unfolding skip_blanks
skip_blanks-Starts [] = tt
skip_blanks-Starts (c ∷ cs) = elim (Bool-cases (is_blank c)) [
  | inl b ↦ rw b (skip_blanks-Starts cs)
  | inr b ↦ rw b b
]

Starts-skip_blanks : (s : Bytes) → Starts s → skip_blanks s ≡ s
unfolding skip_blanks
Starts-skip_blanks [] h = refl
Starts-skip_blanks (c ∷ cs) h = rw h refl

cut_blanks-Starts : (s : Bytes) → Starts s → Starts (cut_blanks s)
unfolding cut_blanks
cut_blanks-Starts [] h = tt
cut_blanks-Starts (c ∷ cs) h = elim_tail (cut_blanks cs)
  where
    elim_tail :
        (t : Bytes)
        → Starts (elim t [ [] ↦ if is_end_blank c then [] else c ∷ [] | x ∷ xs ↦ c ∷ (x ∷ xs) ])
    elim_tail [] = elim (Bool-cases (is_end_blank c)) [ inl b ↦ rw b tt | inr b ↦ rw b h ]
    elim_tail (x ∷ xs) = h

cut_blanks-idempotent : (s : Bytes) → cut_blanks (cut_blanks s) ≡ cut_blanks s
unfolding cut_blanks
cut_blanks-idempotent [] = refl
cut_blanks-idempotent (c ∷ cs) = elim_tail (cut_blanks cs) (cut_blanks-idempotent cs)
  where
    elim_tail :
        (t : Bytes)
        → cut_blanks t ≡ t
        → let cut : Bytes = elim t [
          | [] ↦ if is_end_blank c then [] else c ∷ []
          | x ∷ xs ↦ c ∷ (x ∷ xs)
        ] in
          cut_blanks cut ≡ cut
    elim_tail [] e = elim (Bool-cases (is_end_blank c)) [
      | inl b ↦ rw b refl
      | inr b ↦ rw (b, b) refl
    ]
    elim_tail (x ∷ xs) e = rw e refl

-- `wg_conf_trim` of a trimmed line is the line.
pub conf_trim-idempotent : (line : Bytes) → conf_trim (conf_trim line) ≡ conf_trim line
unfolding conf_trim
conf_trim-idempotent line =
    let cut = cut_blanks (skip_blanks line) in
    let starts : Starts cut = cut_blanks-Starts (skip_blanks line) (skip_blanks-Starts line) in
    rw (Starts-skip_blanks cut starts) (cut_blanks-idempotent (skip_blanks line))
