-- ===== src/Conf/Token.antt =====
-- Texts of visible bytes, which `wg_conf_trim` and the searches of <string.h> leave whole.
use gsoc2026_nuttx_wireguard.Base.{
  Visible, ℕ, true, false, [], ◌∷◌, ◌++◌, ◌≡◌, refl, arith, Bytes, All,
}
use gsoc2026_nuttx_wireguard.Conf.{is_blank, is_end_blank, skip_blanks, cut_blanks, conf_trim}

Visible-is_end_blank : (c : ℕ) → Visible c → is_end_blank c ≡ false
Visible-is_end_blank c v = ground arith

Visible-is_blank : (c : ℕ) → Visible c → is_blank c ≡ false
Visible-is_blank c v = ground arith

pub cut_blanks-Visible : (text : Bytes) → All Visible text → cut_blanks text ≡ text
unfolding cut_blanks
cut_blanks-Visible [] v = refl
cut_blanks-Visible (c ∷ []) (v, _) = rw (Visible-is_end_blank c v) refl
cut_blanks-Visible (c ∷ x ∷ xs) (v, vs) = rw (cut_blanks-Visible (x ∷ xs) vs) refl

cut_blank : (b : ℕ) → is_end_blank b ≡ true → cut_blanks (b ∷ []) ≡ []
unfolding cut_blanks
cut_blank b blank = rw blank refl

cut_last : (c : ℕ) (cs : Bytes) → Visible c → cut_blanks cs ≡ [] → cut_blanks (c ∷ cs) ≡ c ∷ []
unfolding cut_blanks
cut_last c cs v h = rw (h, cut_blanks) (rw (Visible-is_end_blank c v) refl)

-- A blank behind a visible text is cut.
pub cut_blanks-end :
    (text : Bytes) (b : ℕ)
    → is_end_blank b ≡ true
    → All Visible text
    → cut_blanks (text ++ (b ∷ [])) ≡ text
unfolding cut_blanks
cut_blanks-end [] b blank v = cut_blank b blank
cut_blanks-end (c ∷ []) b blank (v, _) = cut_last c (b ∷ []) v (cut_blank b blank)
cut_blanks-end (c ∷ x ∷ xs) b blank (v, vs) = rw (cut_blanks-end (x ∷ xs) b blank vs) refl

-- What stands before a byte that stays, stays.
pub cut_blanks-front :
    (front text : Bytes) (z : ℕ) (zs : Bytes)
    → cut_blanks text ≡ z ∷ zs
    → cut_blanks (front ++ text) ≡ front ++ (z ∷ zs)
unfolding cut_blanks
cut_blanks-front [] text z zs h = h
cut_blanks-front (c ∷ []) text z zs h = rw h refl
cut_blanks-front (c ∷ x ∷ xs) text z zs h = rw (cut_blanks-front (x ∷ xs) text z zs h) refl

pub skip_blanks-front : (c : ℕ) (cs : Bytes) → Visible c → skip_blanks (c ∷ cs) ≡ c ∷ cs
unfolding skip_blanks
skip_blanks-front c cs v = rw (Visible-is_blank c v) refl

-- A visible text between blanks, as the name and the value of a setting are cut out.
pub conf_trim_name :
    (c : ℕ) (cs : Bytes) → All Visible (c ∷ cs) → conf_trim ((c ∷ cs) ++ (32 ∷ [])) ≡ c ∷ cs
unfolding conf_trim
conf_trim_name c cs (v, vs) =
    rw (skip_blanks-front c (cs ++ (32 ∷ [])) v) (cut_blanks-end (c ∷ cs) 32 refl (v, vs))

pub conf_trim_value :
    (c : ℕ) (cs : Bytes) → All Visible (c ∷ cs) → conf_trim (32 ∷ (c ∷ cs)) ≡ c ∷ cs
unfolding conf_trim
conf_trim_value c cs (v, vs) =
    let skipped : skip_blanks (32 ∷ (c ∷ cs)) ≡ c ∷ cs =
      unfold skip_blanks in skip_blanks-front c cs v in
    rw skipped (cut_blanks-Visible (c ∷ cs) (v, vs))
