-- ===== src/Conf.antt =====
-- The configuration file of netutils/wireguard/nuttx-wireguardif.c: `wg_mask_to_prefix`, which
-- `wg_showconf_peer` prints, and `wg_conf_trim`, which `wg_setconf` reads lines with.
pub mod Prefix
pub mod Trim
pub mod Token
use gsoc2026_nuttx_wireguard.Base.{
  ℕ, zero, suc, ◌+◌, ◌*◌, ◌/◌, ◌%◌, ◌^◌, Bool, true, false, not, ◌&&◌, ◌||◌, List, [], ◌∷◌, Option,
  none, some, leb, ◌==◌, if◌then◌else◌, u32, ntohl, Bytes,
}
use gsoc2026_nuttx_wireguard.Config.{Libc}

-- The loop that shifts the mask left while its top bit is set, for at most `left` more rounds.
unfoldable pub count_prefix : ℕ → ℕ → ℕ → ℕ
count_prefix zero prefix m = prefix
count_prefix (suc left) prefix m =
    let rest = count_prefix left (prefix + 1) (u32 (m * 2)) in
    if m / 2 ^ 31 % 2 == 1 then rest else prefix

-- `wg_mask_to_prefix`
unfoldable pub mask_to_prefix : Libc → Bytes → ℕ
mask_to_prefix libc mask = elim (libc.inet_pton mask) [
  | none ↦ 32
  | some addr ↦ count_prefix 32 0 (ntohl addr)
]

-- A byte that is skipped at the start of a line, and one that is cut at its end.
abbrev pub is_blank : ℕ → Bool
is_blank c = c == 32 || c == 9

abbrev pub is_end_blank : ℕ → Bool
is_end_blank c = is_blank c || (c == 13 || c == 10)

-- The loop over the leading blanks.
unfoldable pub skip_blanks : Bytes → Bytes
skip_blanks [] = []
skip_blanks (c ∷ cs) = let rest = skip_blanks cs in if is_blank c then rest else c ∷ cs

-- The loop back from the end, which leaves the text up to the last byte that is not blank.
unfoldable pub cut_blanks : Bytes → Bytes
cut_blanks [] = []
cut_blanks (c ∷ cs) = elim (cut_blanks cs) [
  | [] ↦ if is_end_blank c then [] else c ∷ []
  | x ∷ xs ↦ c ∷ (x ∷ xs)
]

-- `wg_conf_trim`
unfoldable pub conf_trim : Bytes → Bytes
conf_trim line = cut_blanks (skip_blanks line)
