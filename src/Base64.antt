-- ===== src/Base64.antt =====
-- `wireguard_base64_decode` and `wireguard_base64_encode` of netutils/wireguard/wireguard.c.
pub mod RoundTrip
pub mod Alphabet
use gsoc2026_nuttx_wireguard.Base.{
  ℕ, ◌+◌, ◌-◌, ◌*◌, ◌/◌, ◌%◌, ◌^◌, Bool, not, List, [], ◌∷◌, ◌++◌, Option, none, some, length,
  get_or, bit_or, ltb, ◌==◌, if◌then◌else◌, u32, Bytes, codes,
}

abbrev pub base64_lookup : Bytes
base64_lookup = codes "ABCDEFGHIJKLMNOPQRSTUVWXYZabcdefghijklmnopqrstuvwxyz0123456789+/"

-- `strchr`: the index of the first `c`, from index `i` on.
unfoldable pub char_index : ℕ → ℕ → Bytes → Option ℕ
char_index c i [] = none
char_index c i (x ∷ xs) = let rest = char_index c (i + 1) xs in if x == c then some i else rest

-- The locals of the decoder's loop; `out` is what it has written.
pub record Decoder : Type 0 where
  pub accum : ℕ
  pub char_count : ℕ
  pub byte_count : ℕ
  pub out : Bytes

-- The six bits of a character, with the new `byte_count`; `none` where the loop breaks.
unfoldable pub decode_char : ℕ → ℕ → Option (ℕ × ℕ)
decode_char byte_count c =
    if c == b'='
    then (if byte_count == 0 then none else some (0, byte_count - 1))
    else if not (byte_count == 3)
    then none
    else elim (char_index c 0 base64_lookup) [ none ↦ none | some i ↦ some (i % 64, byte_count) ]

-- The bytes of a block of four characters. The first is written whatever `byte_count` is.
unfoldable pub block_bytes : ℕ → ℕ → Bytes
block_bytes accum byte_count =
    accum / 2 ^ 16 % 256
    ∷ ((if ltb 1 byte_count then accum / 2 ^ 8 % 256 ∷ [] else [])
        ++ (if ltb 2 byte_count then accum % 256 ∷ [] else []))

-- One round on a character, with room for `size` bytes.
unfoldable pub decode_step : ℕ → Decoder → ℕ → Option Decoder
decode_step size s c = elim (decode_char s.byte_count c) [
  | none ↦ none
  | some (bits, byte_count) ↦
      let accum = bit_or (u32 (s.accum * 64)) bits in
      if not (s.char_count + 1 == 4)
      then some (record {
        accum = accum;
        char_count = s.char_count + 1;
        byte_count = byte_count;
        out = s.out;
      })
      else if ltb size (length s.out + byte_count)
      then none
      else some (record {
        accum = 0;
        char_count = 0;
        byte_count = byte_count;
        out = s.out ++ block_bytes accum byte_count;
      })
]

unfoldable pub decode_loop : ℕ → Decoder → Bytes → Option Decoder
decode_loop size s [] = some s
decode_loop size s (c ∷ cs) = elim (decode_step size s c) [
  | none ↦ none
  | some s' ↦ decode_loop size s' cs
]

abbrev pub decoder_start : Decoder
decoder_start = record { accum = 0; char_count = 0; byte_count = 3; out = [] }

-- `wireguard_base64_decode` into a buffer of `size` bytes: what it has written, if it succeeds.
unfoldable pub base64_decode : Bytes → ℕ → Option Bytes
base64_decode str size = elim (decode_loop size decoder_start str) [
  | none ↦ none
  | some s ↦ if s.char_count == 0 then some s.out else none
]

-- `base64_lookup[(tmp >> shift) & 0x3F]`
abbrev pub lookup : ℕ → ℕ
lookup bits = get_or base64_lookup (bits % 64) 0

-- The four characters of a block, the first at offset `at`; from `limit` on they are '='.
unfoldable pub encode_block : ℕ → ℕ → ℕ → ℕ → ℕ → Bytes
encode_block limit at byte1 byte2 byte3 =
    let tmp = bit_or (bit_or (byte1 * 2 ^ 16) (byte2 * 2 ^ 8)) byte3 in
    lookup (tmp / 2 ^ 18)
    ∷ lookup (tmp / 2 ^ 12)
    ∷ (if ltb (at + 2) limit then lookup (tmp / 2 ^ 6) else b'=')
    ∷ (if ltb (at + 3) limit then lookup tmp else b'=')
    ∷ []

-- The encoder's loop: three bytes at a time, and zeros past the end.
unfoldable pub encode_loop : ℕ → ℕ → Bytes → Bytes
encode_loop limit at [] = []
encode_loop limit at (a ∷ []) = encode_block limit at a 0 0
encode_loop limit at (a ∷ b ∷ []) = encode_block limit at a b 0
encode_loop limit at (a ∷ b ∷ c ∷ rest) =
    encode_block limit at a b c ++ encode_loop limit (at + 4) rest

abbrev pub padding : ℕ → ℕ
padding inlen = if ltb 2 (3 - inlen % 3) then 0 else 3 - inlen % 3

abbrev pub encoded_len : ℕ → ℕ
encoded_len inlen = 4 * ((inlen + 2) / 3)

-- `wireguard_base64_encode` into a buffer of `size` bytes, of which the text and a NUL take their
-- part.
unfoldable pub base64_encode : Bytes → ℕ → Option Bytes
base64_encode bytes size =
    let len = encoded_len (length bytes) in
    if ltb len size then some (encode_loop (len - padding (length bytes)) 0 bytes) else none
