-- ===== src/Crypto.antt =====
-- The primitives of netutils/wireguard/crypto/ and the functions of wireguard.c that only combine
-- them, as parameters: the copied cryptography is not modelled, and nothing is assumed of it here.
use gsoc2026_nuttx_wireguard.Base.{ℕ, Bool, Option, Bytes}

pub record Crypto : Type 0 where
  -- `wireguard_aead_encrypt` and `wireguard_aead_decrypt`: key, nonce, additional data, text
  pub aead_encrypt : Bytes → ℕ → Bytes → Bytes → Bytes
  pub aead_decrypt : Bytes → ℕ → Bytes → Bytes → Option Bytes
  -- `wireguard_xaead_encrypt` and `wireguard_xaead_decrypt`: key, nonce, additional data, text
  pub xaead_encrypt : Bytes → Bytes → Bytes → Bytes → Bytes
  pub xaead_decrypt : Bytes → Bytes → Bytes → Bytes → Option Bytes
  -- `wireguard_mac`: key, message
  pub mac : Bytes → Bytes → Bytes
  -- `wireguard_mac_key`: public key, label
  pub mac_key : Bytes → Bytes → Bytes
  -- `wireguard_mix_hash`: hash, message
  pub mix_hash : Bytes → Bytes → Bytes
  -- `wireguard_kdf1`, `wireguard_kdf2`, `wireguard_kdf3`: chaining key, input
  pub kdf1 : Bytes → Bytes → Bytes
  pub kdf2 : Bytes → Bytes → Bytes × Bytes
  pub kdf3 : Bytes → Bytes → Bytes × Bytes × Bytes
  -- `wireguard_x25519`: private key, public key; what it writes, and whether it returns non-zero
  pub x25519 : Bytes → Bytes → Bytes
  pub x25519_fails : Bytes → Bytes → Bool
  -- what `wireguard_init` puts into `construction_hash` and `identifier_hash`
  pub construction_hash : Bytes
  pub identifier_hash : Bytes
