-- ===== src/Lifecycle/Keys.antt =====
-- The key that `wg genkey` prints, as `wg set private-key` takes it.
use gsoc2026_nuttx_wireguard.Base.{
  ℕ, zero, suc, ◌-◌, ◌<◌, false, [], ◌∷◌, some, length, set, get_or, bit_and, bit_or, ◌≡◌, refl, ap,
  ◌∙◌, arith, Bytes, length-set, take_all, strlcpy,
}
use gsoc2026_nuttx_wireguard.Base.Bits.{bit_or-lt, bit_and-le}
use gsoc2026_nuttx_wireguard.Base64.{encoded_len}
use gsoc2026_nuttx_wireguard.Base64.RoundTrip.{
  AllBytes, base64_decode-base64_encode, length-base64_encode,
}
use gsoc2026_nuttx_wireguard.Device.{Readings, key_len}
use gsoc2026_nuttx_wireguard.Config.{ok, key_strlen}
use gsoc2026_nuttx_wireguard.Handshake.{clamp_private_key}
use gsoc2026_nuttx_wireguard.Staged.{Staged, decode_key, set_private_key}
use gsoc2026_nuttx_wireguard.Lifecycle.{genkey}

AllBytes-set : (bs : Bytes) (i v : ℕ) → AllBytes bs → v < 256 → AllBytes (set bs i v)
AllBytes-set [] i v all small = all
AllBytes-set (b ∷ bs) zero v (hb, all) small = (small, all)
AllBytes-set (b ∷ bs) (suc i) v (hb, all) small = (hb, AllBytes-set bs i v all small)

get_or-lt : (bs : Bytes) (i : ℕ) → AllBytes bs → get_or bs i 0 < 256
get_or-lt [] i all = omega arith
get_or-lt (b ∷ bs) zero (hb, all) = hb
get_or-lt (b ∷ bs) (suc i) (hb, all) = get_or-lt bs i all

-- Clamping keeps the bytes bytes, and their number.
clamp_private_key-AllBytes : (key : Bytes) → AllBytes key → AllBytes (clamp_private_key key)
unfolding clamp_private_key
clamp_private_key-AllBytes key all =
    let first = get_or key 0 0 in
    let key' = set key 0 (bit_and first 248) in
    let lt = get_or-lt key 0 all in
    let ok' =
      AllBytes-set key 0 (bit_and first 248) all
        (let le = bit_and-le first first 248 (omega arith) in omega arith) in
    let last = get_or key' 31 0 in
    let lt' = get_or-lt key' 31 ok' in
    let le' = bit_and-le last last 127 (omega arith) in
    AllBytes-set key' 31 (bit_or (bit_and last 127) 64) ok'
      (bit_or-lt 8 (bit_and last 127) 64 (omega arith) (omega arith))

length-clamp_private_key : (key : Bytes) → length (clamp_private_key key) ≡ length key
unfolding clamp_private_key
length-clamp_private_key key = length-set _ 31 _ ∙ length-set key 0 _

-- Given 32 random bytes, `wg genkey` prints a text that decodes to the clamped bytes, and while wg0
-- is down `wg set private-key` takes the text and stages it whole.
pub genkey-set_private_key :
    (r : Readings) (staged : Staged)
    → AllBytes (r.random 0)
    → length (r.random 0) ≡ key_len
    → (text : Bytes) × (genkey r key_strlen ≡ some text)
      × (decode_key text ≡ some (clamp_private_key (r.random 0)))
      × (set_private_key false staged text ≡ (record staged { private_key = text }, ok))
genkey-set_private_key r staged all long =
    let key = clamp_private_key (r.random 0) in
    let clamped = length-clamp_private_key (r.random 0) ∙ long in
    let (text, made, read) =
      base64_decode-base64_encode key (key_strlen - 1) key_len
        (clamp_private_key-AllBytes (r.random 0) all) (rw clamped (omega arith))
        (rw clamped (omega arith)) in
    let short : length text ≡ encoded_len key_len =
      length-base64_encode key text (key_strlen - 1) made ∙ ap encoded_len clamped in
    let decoded : decode_key text ≡ some key =
      unfold decode_key in rw (read, decode_key, clamped) refl in
    let kept : strlcpy text key_strlen ≡ text = take_all 47 text (omega arith) in
    (
      text,
      unfold genkey in made,
      decoded,
      unfold set_private_key in rw (decoded, set_private_key, kept) refl,
    )
