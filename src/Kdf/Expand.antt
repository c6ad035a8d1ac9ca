-- ===== src/Kdf/Expand.antt =====
-- The key derivation against the extract-and-expand scheme of RFC 5869.
use gsoc2026_nuttx_wireguard.Base.{
  ℕ, zero, suc, ◌+◌, [], ◌∷◌, ◌++◌, length, take, drop, set, length-append, length-drop, length-set,
  take_front, take_all, set_front, singleton_lem, ◌≡◌, refl, ap, ◌∙◌, arith, Bytes,
}
use gsoc2026_nuttx_wireguard.Kdf.{hash_len, store, hmac, kdf1, kdf2, kdf3}

-- The array of a key derivation after a digest has been written to it.
store_lem :
    (digest buffer : Bytes)
    → length digest ≡ hash_len
    → length buffer ≡ hash_len + 1
    → (x : ℕ) × (store digest buffer ≡ digest ++ (x ∷ []))
unfolding store
store_lem digest buffer full room =
    let left : length (drop (length digest) buffer) ≡ 1 =
      length-drop (length digest) buffer ∙ omega arith in
    let (x, e) = singleton_lem (drop (length digest) buffer) left in
    (x, ap (λ (rest : Bytes). digest ++ rest) e)

-- What is taken from the array then: the digest, and, with a number behind it, the next input.
taken :
    (digest buffer : Bytes) (n : ℕ)
    → length digest ≡ hash_len
    → length buffer ≡ hash_len + 1
    → (take hash_len (store digest buffer) ≡ digest)
      × (take (hash_len + 1) (set (store digest buffer) hash_len n) ≡ digest ++ (n ∷ []))
      × (length (set (store digest buffer) hash_len n) ≡ hash_len + 1)
taken digest buffer n full room =
    let (x, e) = store_lem digest buffer full room in
    let marked = ap (λ (b : Bytes). set b hash_len n) e ∙ set_front hash_len digest x n full in
    let long : length (digest ++ (n ∷ [])) ≡ hash_len + 1 =
      length-append digest (n ∷ []) ∙ omega arith in
    (
      rw e (take_front hash_len digest (x ∷ []) full),
      rw marked (take_all (hash_len + 1) (digest ++ (n ∷ [])) (omega arith)),
      rw marked long,
    )

module _ (blake2s : ℕ → Bytes → Bytes → Bytes) where
  -- Block `n` of the expansion of `prk`: block 0 is empty, and each next one is the MAC of the one
  -- before with its number.
  unfoldable pub expand : Bytes → ℕ → Bytes
  expand prk zero = []
  expand prk (suc n) = hmac blake2s prk (expand prk n ++ (suc n ∷ []))

  module _ (stack : Bytes)
      (digest_length : (n : ℕ) (key msg : Bytes) → length (blake2s n key msg) ≡ n)
      (room : length stack ≡ hash_len + 1) where
    first_byte : (bytes : Bytes) → length bytes ≡ hash_len + 1 → take 1 (set bytes 0 1) ≡ 1 ∷ []
    first_byte [] h = absurd (omega arith)
    first_byte (b ∷ bs) h = refl

    length-hmac : (key text : Bytes) → length (hmac blake2s key text) ≡ hash_len
    unfolding hmac
    length-hmac key text = digest_length hash_len [] _

    -- `wireguard_kdf1`, `wireguard_kdf2` and `wireguard_kdf3` give the first one, two and three blocks
    -- of the expansion of the MAC of the input under the chaining key, whatever the array `output`
    -- held before.
    pub kdf3-expand :
        (chaining_key input : Bytes)
        → let block = expand (hmac blake2s chaining_key input) in
          (kdf1 blake2s stack chaining_key input ≡ block 1)
          × (kdf2 blake2s stack chaining_key input ≡ (block 1, block 2))
          × (kdf3 blake2s stack chaining_key input ≡ (block 1, block 2, block 3))
    unfolding kdf1 kdf2 kdf3 expand
    kdf3-expand chaining_key input =
        let prk = hmac blake2s chaining_key input in
        let output0 = set stack 0 1 in
        let long0 : length output0 ≡ hash_len + 1 = length-set stack 0 1 ∙ room in
        let first : take 1 output0 ≡ 1 ∷ [] = first_byte stack room in
        let block1 = hmac blake2s prk (1 ∷ []) in
        let (digest1, next1, long1) = taken block1 output0 2 (length-hmac prk _) long0 in
        let output2 = set (store block1 output0) hash_len 2 in
        let block2 = hmac blake2s prk (block1 ++ (2 ∷ [])) in
        let (digest2, next2, long2) = taken block2 output2 3 (length-hmac prk _) long1 in
        let output4 = set (store block2 output2) hash_len 3 in
        let block3 = hmac blake2s prk (block2 ++ (3 ∷ [])) in
        let (digest3, next3, long3) = taken block3 output4 4 (length-hmac prk _) long2 in
        (
          rw (first, digest1) refl,
          rw (first, digest1, next1, digest2) refl,
          rw (first, digest1, next1, digest2, next2, digest3) refl,
        )
