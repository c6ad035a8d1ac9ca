-- ===== src/Message/Fields.antt =====
-- The little-endian fields are read as they were written.
use gsoc2026_nuttx_wireguard.Base.{ℕ, zero, suc, ◌/◌, ◌^◌, ◌<◌, ◌++◌, drop, ◌≡◌, refl, arith, Bytes}
use native.Mathlib.Nat.{pow-succ'}
use gsoc2026_nuttx_wireguard.Message.{to_little, of_little, u32_at, u64_at, transport_header}

pub of_little-to_little : (n v : ℕ) → v < 256 ^ n → of_little (to_little n v) ≡ v
unfolding of_little to_little
of_little-to_little zero v h = omega arith
of_little-to_little (suc n) v h =
    omega (arith, of_little-to_little n (v / 256) (omega (arith, pow-succ' 256 n)))

-- The receiver index, the counter and the encrypted part of a transport message are read back
-- from the places where the sender writes them.
pub transport_fields :
    (receiver counter : ℕ) (enc_packet : Bytes)
    → receiver < 2 ^ 32
    → counter < 2 ^ 64
    → let bs = transport_header receiver counter ++ enc_packet in
      (u32_at bs 4 ≡ receiver) × (u64_at bs 8 ≡ counter) × (drop 16 bs ≡ enc_packet)
unfolding transport_header u32_at u64_at to_little
transport_fields receiver counter enc_packet hr hc =
    (of_little-to_little 4 receiver hr, of_little-to_little 8 counter hc, refl)
