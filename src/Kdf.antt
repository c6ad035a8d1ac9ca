-- ===== src/Kdf.antt =====
-- The hashes of netutils/wireguard/wireguard.c that combine BLAKE2s: the MACs, the mixing of the
-- handshake hash, HMAC and the key derivation. BLAKE2s of crypto/ is a parameter: the length of the
-- digest, the key, and all that the updates feed it.
pub mod Expand
use Prim.Native.Nat.{bit_xor}
use gsoc2026_nuttx_wireguard.Base.{
  ℕ, ◌+◌, Bool, List, [], ◌∷◌, ◌++◌, Option, map, length, take, drop, replicate, set, ltb,
  if◌then◌else◌, Bytes, codes,
}
use gsoc2026_nuttx_wireguard.Device.{cookie_len, key_len}
use gsoc2026_nuttx_wireguard.Crypto.{Crypto}

-- WIREGUARD_HASH_LEN
abbrev pub hash_len : ℕ
hash_len = 32

-- WIREGUARD_BLAKE2S_BLOCK_SIZE
abbrev pub block_size : ℕ
block_size = 64

-- A digest written over the start of a buffer.
unfoldable pub store : Bytes → Bytes → Bytes
store digest buffer = digest ++ drop (length digest) buffer

module _ (blake2s : ℕ → Bytes → Bytes → Bytes) where
  -- `wireguard_init`: `construction_hash` and `identifier_hash`
  unfoldable pub init_hashes : Bytes × Bytes
  init_hashes =
      let construction = blake2s hash_len [] (codes "Noise_IKpsk2_25519_ChaChaPoly_BLAKE2s") in
      (
        construction,
        blake2s hash_len [] (construction ++ codes "WireGuard v1 zx2c4 Jason@zx2c4.com"),
      )

  -- `wireguard_mac`
  unfoldable pub mac : Bytes → Bytes → Bytes
  mac key message = blake2s cookie_len key message

  -- `wireguard_mac_key`
  unfoldable pub mac_key : Bytes → Bytes → Bytes
  mac_key public_key label = blake2s key_len [] (label ++ public_key)

  -- `wireguard_mix_hash`
  unfoldable pub mix_hash : Bytes → Bytes → Bytes
  mix_hash hash src = blake2s hash_len [] (hash ++ src)

  -- A key in its block, with every byte combined with `pad`.
  unfoldable pub padded_key : ℕ → Bytes → Bytes
  padded_key pad key =
      map (λ (b : ℕ). bit_xor b pad) (take block_size (key ++ replicate block_size 0))

  -- `wireguard_hmac`
  unfoldable pub hmac : Bytes → Bytes → Bytes
  hmac given text =
      let key = if ltb block_size (length given) then blake2s hash_len [] given else given in
      let digest = blake2s hash_len [] (padded_key 54 key ++ text) in
      blake2s hash_len [] (padded_key 92 key ++ digest)

  -- `wireguard_kdf1`, in the array `output`, which holds `stack` before it is written.
  unfoldable pub kdf1 : Bytes → Bytes → Bytes → Bytes
  kdf1 stack chaining_key input =
      let tau0 = hmac chaining_key input in
      let output0 = set stack 0 1 in
      let output1 = store (hmac tau0 (take 1 output0)) output0 in take hash_len output1

  -- `wireguard_kdf2`
  unfoldable pub kdf2 : Bytes → Bytes → Bytes → Bytes × Bytes
  kdf2 stack chaining_key input =
      let tau0 = hmac chaining_key input in
      let output0 = set stack 0 1 in
      let output1 = store (hmac tau0 (take 1 output0)) output0 in
      let output2 = set output1 hash_len 2 in
      let output3 = store (hmac tau0 (take (hash_len + 1) output2)) output2 in
      (take hash_len output1, take hash_len output3)

  -- `wireguard_kdf3`
  unfoldable pub kdf3 : Bytes → Bytes → Bytes → Bytes × Bytes × Bytes
  kdf3 stack chaining_key input =
      let tau0 = hmac chaining_key input in
      let output0 = set stack 0 1 in
      let output1 = store (hmac tau0 (take 1 output0)) output0 in
      let output2 = set output1 hash_len 2 in
      let output3 = store (hmac tau0 (take (hash_len + 1) output2)) output2 in
      let output4 = set output3 hash_len 3 in
      let output5 = store (hmac tau0 (take (hash_len + 1) output4)) output4 in
      (take hash_len output1, take hash_len output3, take hash_len output5)

-- The primitives of crypto/ that are used otherwise.
pub record Ciphers : Type 0 where
  pub aead_encrypt : Bytes → ℕ → Bytes → Bytes → Bytes
  pub aead_decrypt : Bytes → ℕ → Bytes → Bytes → Option Bytes
  pub xaead_encrypt : Bytes → Bytes → Bytes → Bytes → Bytes
  pub xaead_decrypt : Bytes → Bytes → Bytes → Bytes → Option Bytes
  pub x25519 : Bytes → Bytes → Bytes
  pub x25519_fails : Bytes → Bytes → Bool

-- What the protocol core works with.
abbrev pub core_crypto : (ℕ → Bytes → Bytes → Bytes) → Ciphers → Bytes → Crypto
core_crypto blake2s ciphers stack = record {
  aead_encrypt = ciphers.aead_encrypt;
  aead_decrypt = ciphers.aead_decrypt;
  xaead_encrypt = ciphers.xaead_encrypt;
  xaead_decrypt = ciphers.xaead_decrypt;
  mac = mac blake2s;
  mac_key = mac_key blake2s;
  mix_hash = mix_hash blake2s;
  kdf1 = kdf1 blake2s stack;
  kdf2 = kdf2 blake2s stack;
  kdf3 = kdf3 blake2s stack;
  x25519 = ciphers.x25519;
  x25519_fails = ciphers.x25519_fails;
  construction_hash = (init_hashes blake2s).0;
  identifier_hash = (init_hashes blake2s).1;
}
