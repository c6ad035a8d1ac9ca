-- ===== src/Handshake/Parts.antt =====
-- Where the fields of the two handshake messages stand.
use gsoc2026_nuttx_wireguard.Base.{
  ℕ, ◌+◌, ◌^◌, ◌<◌, ◌++◌, length, take, take_front, drop_front, ◌≡◌, refl, sym, ap, ◌∙◌,
  length-append, arith, Bytes,
}
use mathlib.Core.List.{append_assoc}
use gsoc2026_nuttx_wireguard.Message.{slice, u32_at, to_little, type_word}
use gsoc2026_nuttx_wireguard.Message.Fields.{of_little-to_little}

pub slice_at :
    (n k : ℕ) (xs ys zs : Bytes) → length xs ≡ n → length ys ≡ k → slice (xs ++ (ys ++ zs)) n k ≡ ys
slice_at n k xs ys zs h1 h2 = rw (drop_front n xs (ys ++ zs) h1) (take_front k ys zs h2)

-- The field behind the first `n` bytes and `m` more.
slice_behind :
    (n m k : ℕ) (xs ys zs rest : Bytes)
    → length xs ≡ n
    → length ys ≡ m
    → length zs ≡ k
    → slice (xs ++ (ys ++ (zs ++ rest))) (n + m) k ≡ zs
slice_behind n m k xs ys zs rest h1 h2 h3 =
    rw (sym (append_assoc xs ys (zs ++ rest)))
      (slice_at (n + m) k (xs ++ ys) zs rest (length-append xs ys ∙ omega arith) h3)

-- An initiation with its MACs.
pub initiation_parts :
    (sender : ℕ) (e s t mac1 mac2 : Bytes)
    → sender < 2 ^ 32
    → length e ≡ 32
    → length s ≡ 48
    → length t ≡ 28
    → let msg = ((type_word 1 ++ (to_little 4 sender ++ (e ++ (s ++ t)))) ++ mac1) ++ mac2 in
      (u32_at msg 4 ≡ sender) × (slice msg 8 32 ≡ e) × (slice msg 40 48 ≡ s) × (slice msg 88 28 ≡ t)
unfolding u32_at to_little
initiation_parts sender e s t mac1 mac2 hs he hst ht =
    let rest = mac1 ++ mac2 in
    let whole : ((e ++ (s ++ t)) ++ mac1) ++ mac2 ≡ e ++ (s ++ (t ++ rest)) =
      rw (append_assoc, append_assoc, append_assoc) refl in
    (
      of_little-to_little 4 sender hs,
      ap (λ (m : Bytes). take 32 m) whole ∙ take_front 32 e _ he,
      ap (λ (m : Bytes). slice m 32 48) whole ∙ slice_at 32 48 e s _ he hst,
      ap (λ (m : Bytes). slice m 80 28) whole ∙ slice_behind 32 48 28 e s t rest he hst ht,
    )

-- A response with its MACs.
pub response_parts :
    (sender receiver : ℕ) (e t mac1 mac2 : Bytes)
    → sender < 2 ^ 32
    → length e ≡ 32
    → length t ≡ 16
    → let msg =
        ((type_word 2 ++ (to_little 4 sender ++ (to_little 4 receiver ++ (e ++ t)))) ++ mac1)
        ++ mac2 in
      (u32_at msg 4 ≡ sender) × (slice msg 12 32 ≡ e) × (slice msg 44 16 ≡ t)
unfolding u32_at to_little
response_parts sender receiver e t mac1 mac2 hs he ht =
    let rest = mac1 ++ mac2 in
    let whole : ((e ++ t) ++ mac1) ++ mac2 ≡ e ++ (t ++ rest) =
      rw (append_assoc, append_assoc) refl in
    (
      of_little-to_little 4 sender hs,
      ap (λ (m : Bytes). take 32 m) whole ∙ take_front 32 e _ he,
      ap (λ (m : Bytes). slice m 32 16) whole ∙ slice_at 32 16 e t rest he ht,
    )
