-- ===== src/Platform/Clock.antt =====
-- The readings of the platform are what the protocol core needs of them.
use gsoc2026_nuttx_wireguard.Base.{
  ℕ, zero, suc, ◌-◌, ◌<◌, ◌^◌, ◌≢◌, ◌≡◌, List, [], ◌∷◌, refl, length, take, arith, length-append,
  length-replicate, length-take, none, some, Option, Bytes,
}
use gsoc2026_nuttx_wireguard.Platform.{Timespec, sys_now, random_bytes, random_fill}

-- A reading of the clock is a `uint32_t`, and never the 0 that stands for "never".
pub sys_now-bounded : (ts : Timespec) → (sys_now ts ≢ 0) × (sys_now ts < 2 ^ 32)
unfolding sys_now
sys_now-bounded ts = ground arith

length-random_fill : (size : ℕ) (chunks : List Bytes) → length (random_fill size chunks) ≡ size
unfolding random_fill
length-random_fill size [] = length-replicate size 0
length-random_fill size ([] ∷ chunks) = length-replicate size 0
length-random_fill zero ((b ∷ bs) ∷ chunks) = refl
length-random_fill (suc n) ((b ∷ bs) ∷ chunks) =
    let chunk = take (suc n) (b ∷ bs) in
    let rest = length-random_fill (suc n - length chunk) chunks in
    let whole = length-append chunk (random_fill (suc n - length chunk) chunks) in
    let part = length-take (suc n) (b ∷ bs) in ground (arith, rest, whole, part)

-- Exactly the bytes asked for are written, however the reads of the entropy source come out.
pub length-random_bytes :
    (size : ℕ) (source : Option (List Bytes)) → length (random_bytes size source) ≡ size
unfolding random_bytes
length-random_bytes size none = length-replicate size 0
length-random_bytes size (some chunks) = length-random_fill size chunks
