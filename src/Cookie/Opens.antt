-- ===== src/Cookie/Opens.antt =====
-- A cookie reply of `wireguard_create_cookie_reply`, read by the one that it is for.
use gsoc2026_nuttx_wireguard.Base.{
  ℕ, ◌+◌, ◌^◌, ◌<◌, true, false, [], ◌++◌, some, length, length-append, take_front, ◌≡◌, refl, sym,
  ap, ◌∙◌, arith, Bytes,
}
use mathlib.Core.List.{append-nil}
use gsoc2026_nuttx_wireguard.Device.{Peer, Device, Readings}
use gsoc2026_nuttx_wireguard.Crypto.{Crypto}
use gsoc2026_nuttx_wireguard.Message.{
  slice, u32_at, to_little, get_message_type, message_cookie_reply,
}
use gsoc2026_nuttx_wireguard.Message.Fields.{of_little-to_little}
use gsoc2026_nuttx_wireguard.Handshake.Parts.{slice_at}
use gsoc2026_nuttx_wireguard.Cookie.{generate_peer_cookie, create_cookie_reply, process_cookie}

-- What XChaCha20-Poly1305 and keyed BLAKE2s promise.
pub record SealsCookies (crypto : Crypto) : Type 0 where
  pub opens :
      (key nonce ad text : Bytes)
      → crypto.xaead_decrypt key nonce ad (crypto.xaead_encrypt key nonce ad text) ≡ some text
  pub tagged :
      (key nonce ad text : Bytes)
      → length (crypto.xaead_encrypt key nonce ad text) ≡ length text + 16
  pub mac_len : (key message : Bytes) → length (crypto.mac key message) ≡ 16

-- The peer whose last handshake message had the given mac1, of a device that knows the cookie key.
pub record Asked (device : Device) (mac1 : Bytes) (sender : Peer) : Type 0 where
  pub knows : sender.label_cookie_key ≡ device.label_cookie_key
  pub waits : sender.handshake_mac1_valid ≡ true
  pub same_mac1 : sender.handshake_mac1 ≡ mac1

-- The message is a cookie reply to the session `index`, and its receiver takes the cookie from it.
pub record Gives (crypto : Crypto) (sender : Peer) (index : ℕ) (cookie msg : Bytes) : Type 0 where
  pub kind : get_message_type msg ≡ message_cookie_reply
  pub receiver : u32_at msg 4 ≡ index
  pub taken :
      (r : Readings)
      → process_cookie crypto r sender msg
        ≡ some (record sender {
          cookie = cookie;
          cookie_millis = r.now 0;
          handshake_mac1_valid = false;
        })

pub generate_peer_cookie-keeps :
    (crypto : Crypto) (r : Readings) (device : Device) (source : Bytes)
    → let after = (generate_peer_cookie crypto r device source).0 in
      (after.peers ≡ device.peers) × (after.label_cookie_key ≡ device.label_cookie_key)
unfolding generate_peer_cookie
generate_peer_cookie-keeps crypto r device source = ground arith

generate_peer_cookie_lem :
    (crypto : Crypto) (r : Readings) (device : Device) (source : Bytes)
    → let (after, cookie) = generate_peer_cookie crypto r device source in
      cookie ≡ crypto.mac after.cookie_secret source
unfolding generate_peer_cookie
generate_peer_cookie_lem crypto r device source = refl

process_cookie-opened :
    (crypto : Crypto) (r : Readings) (sender : Peer) (msg cookie : Bytes)
    → sender.handshake_mac1_valid ≡ true
    → crypto.xaead_decrypt sender.label_cookie_key
        (slice msg 8 24)
        sender.handshake_mac1
        (slice msg 32 32)
      ≡ some cookie
    → process_cookie crypto r sender msg
      ≡ some
          (record sender { cookie = cookie; cookie_millis = r.now 0; handshake_mac1_valid = false })
unfolding process_cookie
process_cookie-opened crypto r sender msg cookie waits opened =
    rw (waits, opened, process_cookie) refl

-- The reply gives its receiver the cookie for the source address, made with the secret of the device.
pub create_cookie_reply-Gives :
    (crypto : Crypto) (r : Readings) (device : Device) (mac1 : Bytes) (index : ℕ) (source : Bytes)
    (sender : Peer)
    → SealsCookies crypto
    → Asked device mac1 sender
    → index < 2 ^ 32
    → length (r.random 1) ≡ 24
    → let (after, reply) = create_cookie_reply crypto r device mac1 index source in
      Gives crypto sender index (crypto.mac after.cookie_secret source) reply
unfolding create_cookie_reply to_little
create_cookie_reply-Gives crypto r device mac1 index source sender laws asked narrow nonce_len =
    let nonce = r.random 1 in
    let (after, cookie) = generate_peer_cookie crypto r device source in
    let made = generate_peer_cookie_lem crypto r device source in
    let key = device.label_cookie_key in
    let sealed = crypto.xaead_encrypt key nonce mac1 cookie in
    let sealed_len : length sealed ≡ 32 =
      laws.tagged key nonce mac1 cookie
      ∙ ap (λ n. n + 16) (ap length made ∙ laws.mac_len after.cookie_secret source) in
    let body_len : length (nonce ++ sealed) ≡ 56 =
      length-append nonce sealed ∙ omega (arith, nonce_len, sealed_len) in
    let reply = (create_cookie_reply crypto r device mac1 index source).1 in
    let first : slice reply 8 24 ≡ nonce = take_front 24 nonce sealed nonce_len in
    let whole : nonce ++ (sealed ++ []) ≡ nonce ++ sealed =
      ap (λ t. nonce ++ t) (append-nil sealed) in
    let second : slice reply 32 32 ≡ sealed =
      ap (λ (m : Bytes). slice m 24 32) (sym whole)
      ∙ slice_at 24 32 nonce sealed [] nonce_len sealed_len in
    let secret = crypto.mac after.cookie_secret source in
    let opened : crypto.xaead_decrypt sender.label_cookie_key (slice reply 8 24)
          sender.handshake_mac1 (slice reply 32 32)
        ≡ some secret =
      rw (asked.knows, asked.same_mac1, first, second)
        (laws.opens key nonce mac1 cookie ∙ ap (λ (c : Bytes). some c) made) in
    record {
      kind = unfold get_message_type in rw body_len refl;
      receiver = unfold u32_at in of_little-to_little 4 index narrow;
      taken = λ again. process_cookie-opened crypto again sender reply secret asked.waits opened;
    }
