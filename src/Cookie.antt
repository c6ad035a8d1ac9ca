-- ===== src/Cookie.antt =====
-- The MACs and cookies of netutils/wireguard/wireguard.c over abstract primitives: mac1 and mac2 at
-- the end of a handshake message, and the cookie that a responder under load asks for.
pub mod Opens
use gsoc2026_nuttx_wireguard.Base.{
  ℕ, ◌-◌, ◌*◌, Bool, false, not, ◌||◌, ◌++◌, Option, none, some, length, take, replicate, ◌==◌,
  if◌then◌else◌, Bytes, str_eq,
}
use gsoc2026_nuttx_wireguard.Device.{Peer, Device, Readings, cookie_secret_max_age, cookie_len}
use gsoc2026_nuttx_wireguard.Crypto.{Crypto}
use gsoc2026_nuttx_wireguard.Session.{expired}
use gsoc2026_nuttx_wireguard.Message.{to_little, slice, type_word, message_cookie_reply}

abbrev zeros : Bytes
zeros = replicate cookie_len 0

module _ (crypto : Crypto) where
  open crypto use {xaead_encrypt, xaead_decrypt, mac}

  -- `wireguard_check_mac1` over the message up to mac1, which ends it but for mac2.
  unfoldable pub check_mac1 : Device → Bytes → Bool
  check_mac1 device msg =
      let len = length msg - 2 * cookie_len in
      str_eq (mac device.label_mac1_key (take len msg)) (slice msg len cookie_len)

  -- `generate_peer_cookie`, with the device after a change of the cookie secret.
  unfoldable pub generate_peer_cookie : Readings → Device → Bytes → Device × Bytes
  generate_peer_cookie r device source =
      let device' : Device =
        if expired (r.now 0) device.cookie_secret_millis cookie_secret_max_age
        then record device { cookie_secret = r.random 0; cookie_secret_millis = r.now 1 }
        else device in
      (device', mac device'.cookie_secret source)

  -- `wireguard_check_mac2`, with the source address and port as bytes.
  unfoldable pub check_mac2 : Readings → Device → Bytes → Bytes → Device × Bool
  check_mac2 r device msg source =
      let (device', cookie) = generate_peer_cookie r device source in
      let len = length msg - cookie_len in
      (device', str_eq (mac cookie (take len msg)) (slice msg len cookie_len))

  unfoldable pub create_cookie_reply : Readings → Device → Bytes → ℕ → Bytes → Device × Bytes
  create_cookie_reply r device mac1 index source =
      let nonce = r.random 1 in
      let (device', cookie) = generate_peer_cookie r device source in
      (
        device',
        type_word message_cookie_reply
            ++ (to_little 4 index
                ++ (nonce ++ xaead_encrypt device.label_cookie_key nonce mac1 cookie)),
      )

  -- mac1 and mac2 at the end of a message.
  abbrev pub with_macs : Readings → Peer → Bytes → Bytes
  with_macs r peer msg =
      let with_mac1 = msg ++ mac peer.label_mac1_key msg in
      let mac2 =
        if peer.cookie_millis == 0 || expired (r.now 2) peer.cookie_millis cookie_secret_max_age
        then zeros
        else mac peer.cookie with_mac1 in
      with_mac1 ++ mac2

  -- `wireguard_process_cookie_message`: the peer with the cookie, if the message is authentic.
  unfoldable pub process_cookie : Readings → Peer → Bytes → Option Peer
  process_cookie r peer msg =
      if not peer.handshake_mac1_valid
      then none
      else elim (xaead_decrypt peer.label_cookie_key (slice msg 8 24) peer.handshake_mac1
          (slice msg 32 32)) [
            | none ↦ none
            | some cookie ↦ some (record peer {
              cookie = cookie;
              cookie_millis = r.now 0;
              handshake_mac1_valid = false;
            })
          ]
