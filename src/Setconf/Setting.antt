-- ===== src/Setconf/Setting.antt =====
-- How `wg_setconf` reads the lines that `wg_writeconf` writes.
use gsoc2026_nuttx_wireguard.Base.{
  Visible, ℕ, zero, suc, ◌+◌, ◌≤◌, ◌<◌, false, ◌||◌, List, [], ◌∷◌, ◌++◌, some, length,
  length-append, ◌==◌, ◌≡◌, ◌≢◌, refl, sym, ap, ap₂, ◌∙◌, arith, Bytes, codes, All, All-append,
  All-weaken, NotByte, split_first, split_first_lem,
}
use mathlib.Core.List.{append_assoc}
use gsoc2026_nuttx_wireguard.Config.{Kconfig, Libc}
use gsoc2026_nuttx_wireguard.Conf.{conf_trim, cut_blanks}
use gsoc2026_nuttx_wireguard.Conf.Token.{
  cut_blanks-end, cut_blanks-front, skip_blanks-front, conf_trim_name, conf_trim_value,
}
use gsoc2026_nuttx_wireguard.Staged.{Staged}
use gsoc2026_nuttx_wireguard.Writeconf.{setting_line}
use gsoc2026_nuttx_wireguard.Setconf.{ConfPeer, fgets, c_string, apply_setting, conf_line}
use gsoc2026_nuttx_wireguard.Setconf.Lines.{join, file_lines}

-- A line: a body with no newline in it that leaves room for one, and the newline.
pub record IsLine (line : Bytes) : Type 0 where
  pub body : Bytes
  pub whole : line ≡ body ++ (10 ∷ [])
  pub single : All (NotByte 10) body
  pub fits : length body < 127

fgets_line :
    (room : ℕ) (body rest : Bytes)
    → All (NotByte 10) body
    → length body < room
    → fgets room (body ++ (10 ∷ rest)) ≡ (body ++ (10 ∷ []), rest)
unfolding fgets
fgets_line zero body rest n fits = absurd (omega arith)
fgets_line (suc room) [] rest n fits = refl
fgets_line (suc room) (c ∷ cs) rest (n, ns) fits =
    let other : (c == 10) ≡ false = ground arith in
    rw (other, fgets_line room cs rest ns (omega arith), fgets) refl

file_lines-step :
    (fuel c : ℕ) (cs line rest : Bytes)
    → fgets 127 (c ∷ cs) ≡ (line, rest)
    → file_lines (suc fuel) (c ∷ cs) ≡ line ∷ file_lines fuel rest
unfolding file_lines
file_lines-step fuel c cs line rest e = rw (e, file_lines) refl

file_lines-line :
    (fuel : ℕ) (body rest : Bytes)
    → All (NotByte 10) body
    → length body < 127
    → file_lines (suc fuel) (body ++ (10 ∷ rest)) ≡ (body ++ (10 ∷ [])) ∷ file_lines fuel rest
file_lines-line fuel [] rest n fits =
    file_lines-step fuel 10 rest _ _ (fgets_line 127 [] rest n fits)
file_lines-line fuel (c ∷ cs) rest n fits =
    file_lines-step fuel c (cs ++ (10 ∷ rest)) _ _ (fgets_line 127 (c ∷ cs) rest n fits)

front-line : (line rest : Bytes) (l : IsLine line) → line ++ rest ≡ l.body ++ (10 ∷ rest)
front-line line rest l = ap (λ t. t ++ rest) l.whole ∙ append_assoc l.body (10 ∷ []) rest

-- A file that is made of lines that fit is read as these lines.
pub file_lines-IsLine :
    (fuel : ℕ) (lines : List Bytes)
    → All IsLine lines
    → length (join lines) ≤ fuel
    → file_lines fuel (join lines) ≡ lines
file_lines-IsLine zero [] a enough = unfold file_lines in refl
file_lines-IsLine (suc fuel) [] a enough = unfold file_lines in refl
file_lines-IsLine zero (line ∷ lines) (l, ls) enough =
    let some_bytes = ap length (front-line line (join lines) l) in
    absurd (omega (arith, length-append {0} l.body (10 ∷ join lines)))
file_lines-IsLine (suc fuel) (line ∷ lines) (l, ls) enough =
    let some_bytes = ap length (front-line line (join lines) l) in
    let rest =
      file_lines-IsLine fuel lines ls (omega (arith, length-append {0} l.body (10 ∷ join lines))) in
    ap (file_lines (suc fuel)) (front-line line (join lines) l)
    ∙ file_lines-line fuel l.body (join lines) l.single l.fits
    ∙ ap₂ (λ (t : Bytes) (ts : List Bytes). t ∷ ts) (sym l.whole) rest

c_string-whole : (text : Bytes) → All (NotByte 0) text → c_string text ≡ text
unfolding c_string
c_string-whole [] n = refl
c_string-whole (c ∷ cs) (n, ns) =
    let other : (c == 0) ≡ false = ground arith in
    rw other (ap (λ (t : Bytes). c ∷ t) (c_string-whole cs ns))

-- A name of a setting: visible bytes without '=', the first of which begins no comment or section.
pub record IsName (name : Bytes) : Type 0 where
  pub first : ℕ
  pub others : Bytes
  pub whole : name ≡ first ∷ others
  pub visible : All Visible (first ∷ others)
  pub no_equals : All (NotByte b'=') (first ∷ others)
  pub setting : ((first == b'#' || first == b';') ≡ false) × ((first == b'[') ≡ false)

Visible-NotByte : (b : ℕ) → b ≤ 32 → (text : Bytes) → All Visible text → All (NotByte b) text
Visible-NotByte b le = All-weaken Visible (NotByte b) (λ c v. ground arith)

-- What `conf_line` does with a line that trims to a setting.
conf_line-parts :
    (libc : Libc) (kconfig : Kconfig) (staged : Staged) (acc : ConfPeer) (line : Bytes) (c : ℕ)
    (cs key value : Bytes)
    → conf_trim (c_string line) ≡ c ∷ cs
    → (c == b'#' || c == b';') ≡ false
    → (c == b'[') ≡ false
    → split_first b'=' (c ∷ cs) ≡ some (key, value)
    → conf_line libc kconfig staged acc line
      ≡ apply_setting libc kconfig staged acc (conf_trim key) (conf_trim value)
unfolding conf_line
conf_line-parts libc kconfig staged acc line c cs key value trimmed content inside parts =
    rw (trimmed, conf_line, content, inside, parts, conf_line) refl

module _ (c : ℕ) (cs : Bytes) (v : ℕ) (vs : Bytes) (name_visible : All Visible (c ∷ cs))
    (value_visible : All Visible (v ∷ vs)) where
  abbrev content : Bytes
  content = (c ∷ cs) ++ (32 ∷ b'=' ∷ 32 ∷ v ∷ vs)

  setting_line-no_nul : All (NotByte 0) (setting_line (c ∷ cs) (v ∷ vs))
  unfolding setting_line
  setting_line-no_nul =
      All-append (NotByte 0) (c ∷ cs) (codes " = " ++ ((v ∷ vs) ++ codes "\n"))
        (Visible-NotByte 0 (omega arith) (c ∷ cs) name_visible)
        (All-append (NotByte 0) (codes " = ") ((v ∷ vs) ++ codes "\n") (omega arith) (
          All-append (NotByte 0) (v ∷ vs) (codes "\n")
            (Visible-NotByte 0 (omega arith) (v ∷ vs) value_visible) (omega arith)))

  setting_line-trimmed : conf_trim (c_string (setting_line (c ∷ cs) (v ∷ vs))) ≡ content
  unfolding setting_line conf_trim
  setting_line-trimmed =
      let line = setting_line (c ∷ cs) (v ∷ vs) in
      let tail =
        cut_blanks-front (codes " = ") ((v ∷ vs) ++ codes "\n") v vs
          (cut_blanks-end (v ∷ vs) 10 refl value_visible) in
      ap conf_trim (c_string-whole line setting_line-no_nul)
      ∙ ap cut_blanks
          (skip_blanks-front c (cs ++ (codes " = " ++ ((v ∷ vs) ++ codes "\n"))) (name_visible.0))
      ∙ cut_blanks-front (c ∷ cs) (codes " = " ++ ((v ∷ vs) ++ codes "\n")) 32 (b'=' ∷ 32 ∷ v ∷ vs)
          tail

  content-parts :
      All (NotByte b'=') (c ∷ cs)
      → split_first b'=' content ≡ some ((c ∷ cs) ++ (32 ∷ []), 32 ∷ v ∷ vs)
  content-parts no_equals =
      ap (split_first b'=') (sym (append_assoc (c ∷ cs) (32 ∷ []) (b'=' ∷ 32 ∷ v ∷ vs)))
      ∙ split_first_lem b'=' ((c ∷ cs) ++ (32 ∷ [])) (32 ∷ v ∷ vs)
          (All-append (NotByte b'=') (c ∷ cs) (32 ∷ []) no_equals (omega arith))

-- A printed setting is read as its name and its value.
pub conf_line-setting :
    (libc : Libc) (kconfig : Kconfig) (staged : Staged) (acc : ConfPeer) (name value : Bytes)
    → IsName name
    → All Visible value
    → value ≢ []
    → conf_line libc kconfig staged acc (setting_line name value)
      ≡ apply_setting libc kconfig staged acc name value
conf_line-setting libc kconfig staged acc name [] n visible ne = absurd (ne refl)
conf_line-setting libc kconfig staged acc name (v ∷ vs) n visible ne =
    let c = n.first in
    let cs = n.others in
    rw (n.whole) (
      conf_line-parts libc kconfig staged acc (setting_line (c ∷ cs) (v ∷ vs)) c
        (cs ++ (32 ∷ b'=' ∷ 32 ∷ v ∷ vs)) ((c ∷ cs) ++ (32 ∷ [])) (32 ∷ v ∷ vs)
        (setting_line-trimmed c cs v vs n.visible visible) (n.setting.0) (n.setting.1)
        (content-parts c cs v vs n.visible visible n.no_equals)
      ∙ ap₂ (apply_setting libc kconfig staged acc) (conf_trim_name c cs n.visible)
          (conf_trim_value v vs visible))

-- A printed setting is one line, if it fits.
pub setting_line-IsLine :
    (name value : Bytes)
    → IsName name
    → All Visible value
    → length name + length value < 120
    → IsLine (setting_line name value)
unfolding setting_line
setting_line-IsLine name value n visible fits =
    let named : All Visible name = rw (n.whole) n.visible in
    record {
      body = name ++ (codes " = " ++ value);
      whole = sym (append_assoc name (codes " = " ++ value) (10 ∷ []));
      single = All-append (NotByte 10) name _ (Visible-NotByte 10 (omega arith) name named) (
          All-append (NotByte 10) (codes " = ") value (omega arith)
            (Visible-NotByte 10 (omega arith) value visible));
      fits = omega (arith, length-append {0} name (codes " = " ++ value));
    }

-- A name that is written out in the source.
pub IsName-codes :
    (c : ℕ) (cs : Bytes)
    → All Visible (c ∷ cs)
    → All (NotByte b'=') (c ∷ cs)
    → b'A' ≤ c
    → c ≤ b'Z'
    → IsName (c ∷ cs)
IsName-codes c cs visible no_equals low high = record {
  first = c;
  others = cs;
  whole = refl;
  visible = visible;
  no_equals = no_equals;
  setting = (ground arith, ground arith);
}
