-- ===== src/Base64/RoundTrip.antt =====
-- Decoding reads back what encoding wrote.
use gsoc2026_nuttx_wireguard.Base.{
  ℕ, zero, suc, ◌+◌, ◌-◌, ◌*◌, ◌/◌, ◌%◌, ◌^◌, ◌≤◌, ◌<◌, Bool, true, false, ◌&&◌, [], ◌∷◌, ◌++◌,
  none, some, length, length-append, get_or, bit_or, ltb, ◌==◌, if◌then◌else◌, u32, ◌≡◌, refl, sym,
  ap, ◌∙◌, subst, arith, Bytes, Option-cases, inl, inr,
}
use mathlib.Core.List.{append_assoc, append-nil}
use gsoc2026_nuttx_wireguard.Base.Bits.{bit_or-shifted}
use gsoc2026_nuttx_wireguard.Base.Below.{all_below, all_below_lem}
use gsoc2026_nuttx_wireguard.Base64.{
  base64_lookup, char_index, Decoder, decode_char, block_bytes, decode_step, decode_loop,
  base64_decode, lookup, encode_block, encode_loop, padding, encoded_len, base64_encode,
}

abbrev reads : ℕ → Bool
reads i = elim (decode_char 3 (get_or base64_lookup i 0)) [
  | none ↦ false
  | some (bits, byte_count) ↦ bits == i && byte_count == 3
]

all_read : all_below 64 reads ≡ true
unfolding all_below decode_char char_index
all_read = refl

-- Every character of the alphabet stands for its index.
decode_char-lookup : (x : ℕ) → decode_char 3 (lookup x) ≡ some (x % 64, 3)
decode_char-lookup x =
    let there = all_below_lem 64 reads all_read (x % 64) (omega arith) in
    elim (Option-cases (decode_char 3 (lookup x))) [
      | inl missing ↦ (let bad = rw (missing, reads) at there in cc)
      | inr ((bits, n), found) ↦
          let same = rw (found, reads) at there in
          let b : bits ≡ x % 64 = ground arith in
          let c : n ≡ 3 = ground arith in found ∙ rw (b, c) refl
    ]

abbrev state : ℕ → ℕ → ℕ → Bytes → Decoder
state accum char_count byte_count out = record {
  accum = accum;
  char_count = char_count;
  byte_count = byte_count;
  out = out;
}

shift_in :
    (accum bits : ℕ)
    → accum < 2 ^ 18
    → bits < 64
    → bit_or (u32 (accum * 64)) bits ≡ accum * 64 + bits
shift_in accum bits small few =
    let e : u32 (accum * 64) ≡ accum * 2 ^ 6 = omega arith in
    rw e (bit_or-shifted 6 accum bits (omega arith) ∙ omega arith)

decode_loop-step :
    (size c : ℕ) (s s' : Decoder) (cs : Bytes)
    → decode_step size s c ≡ some s'
    → decode_loop size s (c ∷ cs) ≡ decode_loop size s' cs
unfolding decode_loop
decode_loop-step size c s s' cs e = rw (e, decode_loop) refl

-- One of the first three characters of a block.
step_inside :
    (size accum accum' count byte_count c bits byte_count' : ℕ) (out cs : Bytes)
    → decode_char byte_count c ≡ some (bits, byte_count')
    → accum < 2 ^ 18
    → bits < 64
    → count < 3
    → accum' ≡ accum * 64 + bits
    → decode_loop size (state accum count byte_count out) (c ∷ cs)
      ≡ decode_loop size (state accum' (count + 1) byte_count' out) cs
step_inside size accum accum' count byte_count c bits byte_count' out cs read small few early e =
    let more : (count + 1 == 4) ≡ false = ground arith in
    decode_loop-step size c _ _ cs
      (unfold decode_step in rw (read, decode_step, more, shift_in accum bits small few, e) refl)

-- The last one.
step_last :
    (size accum t byte_count c bits byte_count' : ℕ) (out cs : Bytes)
    → decode_char byte_count c ≡ some (bits, byte_count')
    → accum < 2 ^ 18
    → bits < 64
    → t ≡ accum * 64 + bits
    → length out + byte_count' ≤ size
    → decode_loop size (state accum 3 byte_count out) (c ∷ cs)
      ≡ decode_loop size (state 0 0 byte_count' (out ++ block_bytes t byte_count')) cs
step_last size accum t byte_count c bits byte_count' out cs read small few e room =
    let fits : ltb size (length out + byte_count') ≡ false = ground arith in
    decode_loop-step size c _ _ cs
      (unfold decode_step in rw (read, decode_step, fits, shift_in accum bits small few, e) refl)

-- Four characters, the last two with what they do to `byte_count`.
decode_block :
    (size t x2 x3 bits2 bits3 n2 n3 : ℕ) (out rest : Bytes)
    → t < 2 ^ 24
    → decode_char 3 x2 ≡ some (bits2, n2)
    → decode_char n2 x3 ≡ some (bits3, n3)
    → bits2 < 64
    → bits3 < 64
    → t ≡ (t / 2 ^ 12 * 64 + bits2) * 64 + bits3
    → length out + n3 ≤ size
    → decode_loop size
        (state 0 0 3 out)
        (lookup (t / 2 ^ 18) ∷ lookup (t / 2 ^ 12) ∷ x2 ∷ x3 ∷ rest)
      ≡ decode_loop size (state 0 0 n3 (out ++ block_bytes t n3)) rest
decode_block size t x2 x3 bits2 bits3 n2 n3 out rest small read2 read3 few2 few3 whole room =
    step_inside size 0 (t / 2 ^ 18) 0 3 _ (t / 2 ^ 18 % 64) 3 out _
      (decode_char-lookup (t / 2 ^ 18)) (omega arith) (omega arith) (omega arith) (omega arith)
    ∙ step_inside size (t / 2 ^ 18) (t / 2 ^ 12) 1 3 _ (t / 2 ^ 12 % 64) 3 out _
        (decode_char-lookup (t / 2 ^ 12)) (omega arith) (omega arith) (omega arith) (omega arith)
    ∙ step_inside size (t / 2 ^ 12) (t / 2 ^ 12 * 64 + bits2) 2 3 x2 bits2 n2 out _ read2
        (omega arith) few2 (omega arith) refl
    ∙ step_last size (t / 2 ^ 12 * 64 + bits2) t n2 x3 bits3 n3 out rest read3 (omega arith) few3
        whole room

abbrev pub AllBytes : Bytes → Type 0
AllBytes [] = Unit
AllBytes (b ∷ bs) = (b < 256) × AllBytes bs

join_three :
    (a b c : ℕ)
    → b < 256
    → c < 256
    → bit_or (bit_or (a * 2 ^ 16) (b * 2 ^ 8)) c ≡ a * 2 ^ 16 + b * 2 ^ 8 + c
join_three a b c hb hc =
    let first = bit_or-shifted 16 a (b * 2 ^ 8) (omega arith) in
    let e : a * 2 ^ 16 + b * 2 ^ 8 ≡ (a * 2 ^ 8 + b) * 2 ^ 8 = omega arith in
    rw (first, e) (bit_or-shifted 8 (a * 2 ^ 8 + b) c (omega arith) ∙ omega arith)

-- What the decoder ends with when it read `bs` after `out`.
abbrev Decoded : ℕ → Bytes → Bytes → Bytes → Type 0
Decoded size out text bs =
    (s : Decoder) × (decode_loop size (state 0 0 3 out) text ≡ some s)
    × (s.char_count ≡ 0)
    × (s.out ≡ out ++ bs)

padded : (byte_count : ℕ) → 0 < byte_count → decode_char byte_count b'=' ≡ some (0, byte_count - 1)
unfolding decode_char
padded byte_count more = ground arith

unpadded : (n : ℕ) → padding (n + 3) ≡ padding n
unpadded n = let e : (n + 3) % 3 ≡ n % 3 = omega arith in rw e refl

padding-le : (n : ℕ) → padding n ≤ encoded_len n
padding-le zero = omega arith
padding-le (suc n) = ground arith

bytes_written :
    (a b c n : ℕ)
    → a < 256
    → b < 256
    → c < 256
    → block_bytes (a * 2 ^ 16 + b * 2 ^ 8 + c) n
      ≡ a ∷ ((if ltb 1 n then b ∷ [] else []) ++ (if ltb 2 n then c ∷ [] else []))
unfolding block_bytes
bytes_written a b c n ha hb hc =
    let t = a * 2 ^ 16 + b * 2 ^ 8 + c in
    let first : t / 2 ^ 16 % 256 ≡ a = omega arith in
    let second : t / 2 ^ 8 % 256 ≡ b = omega arith in
    let third : t % 256 ≡ c = omega arith in rw (first, second, third) refl

decode-encode_loop :
    (bs : Bytes) (size limit at : ℕ) (out : Bytes)
    → AllBytes bs
    → at + encoded_len (length bs) ≡ limit + padding (length bs)
    → length out + length bs ≤ size
    → Decoded size out (encode_loop limit at bs) bs
unfolding encode_loop encode_block block_bytes
decode-encode_loop [] size limit at out ok ends room =
    (state 0 0 3 out, unfold decode_loop in refl, refl, sym (append-nil out))
decode-encode_loop (a ∷ []) size limit at out (ha, ok) ends room =
    let third : ltb (at + 2) limit ≡ false = ground arith in
    let fourth : ltb (at + 3) limit ≡ false = ground arith in
    let t = a * 2 ^ 16 + 0 * 2 ^ 8 + 0 in
    let block =
      decode_block size t b'=' b'=' 0 0 2 1 out [] (omega arith) (padded 3 (omega arith))
        (padded 2 (omega arith)) (omega arith) (omega arith) (omega arith) room in
    (
      state 0 0 1 (out ++ block_bytes t 1),
      rw (third, fourth, join_three a 0 0 (omega arith) (omega arith))
          (block ∙ unfold decode_loop in refl),
      refl,
      ap (λ (bs : Bytes). out ++ bs) (bytes_written a 0 0 1 ha (omega arith) (omega arith)),
    )
decode-encode_loop (a ∷ b ∷ []) size limit at out (ha, (hb, ok)) ends room =
    let third : ltb (at + 2) limit ≡ true = ground arith in
    let fourth : ltb (at + 3) limit ≡ false = ground arith in
    let t = a * 2 ^ 16 + b * 2 ^ 8 + 0 in
    let block =
      decode_block size t (lookup (t / 2 ^ 6)) b'=' (t / 2 ^ 6 % 64) 0 3 2 out [] (omega arith)
        (decode_char-lookup (t / 2 ^ 6)) (padded 3 (omega arith)) (omega arith) (omega arith)
        (omega arith) room in
    (
      state 0 0 2 (out ++ block_bytes t 2),
      rw (third, fourth, join_three a b 0 hb (omega arith)) (block ∙ unfold decode_loop in refl),
      refl,
      ap (λ (bs : Bytes). out ++ bs) (bytes_written a b 0 2 ha hb (omega arith)),
    )
decode-encode_loop (a ∷ b ∷ c ∷ rest) size limit at out (ha, (hb, (hc, ok))) ends room =
    let n = length rest in
    let three : length (a ∷ b ∷ c ∷ rest) ≡ n + 3 = omega arith in
    let same = unpadded n in
    let more : encoded_len (n + 3) ≡ encoded_len n + 4 = omega arith in
    let ends' = rw three at ends in
    let third : ltb (at + 2) limit ≡ true = ground (arith, padding-le n) in
    let fourth : ltb (at + 3) limit ≡ true = ground (arith, padding-le n) in
    let t = a * 2 ^ 16 + b * 2 ^ 8 + c in
    let block =
      decode_block size t (lookup (t / 2 ^ 6)) (lookup t) (t / 2 ^ 6 % 64) (t % 64) 3 3 out
        (encode_loop limit (at + 4) rest) (omega arith) (decode_char-lookup (t / 2 ^ 6))
        (decode_char-lookup t) (omega arith) (omega arith) (omega arith) (omega arith) in
    let out' = out ++ block_bytes t 3 in
    let wrote = bytes_written a b c 3 ha hb hc in
    let longer : length out' ≡ length out + 3 =
      length-append out (block_bytes t 3) ∙ ap (λ (bs : Bytes). length out + length bs) wrote in
    let (s, read, count, whole) =
      decode-encode_loop rest size limit (at + 4) out' ok (omega arith) (omega arith) in
    (
      s,
      rw (third, fourth, join_three a b c hb hc) (block ∙ read),
      count,
      whole ∙ rw (wrote, append_assoc) refl,
    )

length-encode_loop :
    (limit at : ℕ) (bs : Bytes) → length (encode_loop limit at bs) ≡ encoded_len (length bs)
unfolding encode_loop encode_block
length-encode_loop limit at [] = refl
length-encode_loop limit at (a ∷ []) = refl
length-encode_loop limit at (a ∷ b ∷ []) = refl
length-encode_loop limit at (a ∷ b ∷ c ∷ rest) =
    let more = length-encode_loop limit (at + 4) rest in omega arith

pub length-base64_encode :
    (bytes text : Bytes) (size : ℕ)
    → base64_encode bytes size ≡ some text
    → length text ≡ encoded_len (length bytes)
unfolding base64_encode
length-base64_encode bytes text size h =
    let limit = encoded_len (length bytes) - padding (length bytes) in
    let whole = length-encode_loop limit 0 bytes in
    let e : encode_loop limit 0 bytes ≡ text = ground arith in
    subst (λ (t : Bytes). length t ≡ encoded_len (length bytes)) e whole

-- What `wireguard_base64_encode` writes, into a buffer with room for it, `wireguard_base64_decode`
-- reads back, into a buffer with room for the bytes.
pub base64_decode-base64_encode :
    (bytes : Bytes) (text_size size : ℕ)
    → AllBytes bytes
    → encoded_len (length bytes) < text_size
    → length bytes ≤ size
    → (text : Bytes) × (base64_encode bytes text_size ≡ some text)
      × (base64_decode text size ≡ some bytes)
base64_decode-base64_encode bytes text_size size ok fits room =
    let limit = encoded_len (length bytes) - padding (length bytes) in
    let enough = padding-le (length bytes) in
    let small : ltb (encoded_len (length bytes)) text_size ≡ true = ground arith in
    let (s, read, count, whole) =
      decode-encode_loop bytes size limit 0 [] ok (omega arith) (omega arith) in
    (
      encode_loop limit 0 bytes,
      unfold base64_encode in rw small refl,
      unfold base64_decode in rw (read, base64_decode, count, whole) refl,
    )
