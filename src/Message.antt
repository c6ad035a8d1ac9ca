-- ===== src/Message.antt =====
-- The messages of netutils/wireguard/wireguard.h as byte strings, with the little-endian fields,
-- and `wireguard_get_message_type` of wireguard.c.
pub mod Fields
use gsoc2026_nuttx_wireguard.Base.{
  ℕ, zero, suc, ◌+◌, ◌*◌, ◌/◌, ◌%◌, Bool, ◌&&◌, List, [], ◌∷◌, ◌++◌, length, get_or, take, drop,
  replicate, leb, ◌==◌, if◌then◌else◌, Bytes,
}
use gsoc2026_nuttx_wireguard.Device.{authtag_len}

abbrev pub message_invalid : ℕ
message_invalid = 0

abbrev pub message_handshake_initiation : ℕ
message_handshake_initiation = 1

abbrev pub message_handshake_response : ℕ
message_handshake_response = 2

abbrev pub message_cookie_reply : ℕ
message_cookie_reply = 3

abbrev pub message_transport_data : ℕ
message_transport_data = 4

-- The sizes of the packed structs.
abbrev pub initiation_len : ℕ
initiation_len = 148

abbrev pub response_len : ℕ
response_len = 92

abbrev pub cookie_reply_len : ℕ
cookie_reply_len = 64

abbrev pub transport_header_len : ℕ
transport_header_len = 16

-- `n` little-endian bytes of a number: `U32TO8_LITTLE` and `U64TO8_LITTLE`, and a store of a
-- `uint32_t` on the little-endian targets.
unfoldable pub to_little : ℕ → ℕ → Bytes
to_little zero v = []
to_little (suc n) v = v % 256 ∷ to_little n (v / 256)

-- The number that little-endian bytes stand for.
unfoldable pub of_little : Bytes → ℕ
of_little [] = 0
of_little (b ∷ bs) = b + 256 * of_little bs

-- `len` bytes from `offset` on; what is out of range reads as zero.
abbrev pub slice : Bytes → ℕ → ℕ → Bytes
slice bs offset len = take len (drop offset bs)

unfoldable pub u32_at : Bytes → ℕ → ℕ
u32_at bs offset = of_little (slice bs offset 4)

unfoldable pub u64_at : Bytes → ℕ → ℕ
u64_at bs offset = of_little (slice bs offset 8)

unfoldable pub get_message_type : Bytes → ℕ
get_message_type bs =
    let len = length bs in
    let type = get_or bs 0 0 in
    if leb 4 len && (get_or bs 1 0 == 0 && (get_or bs 2 0 == 0 && get_or bs 3 0 == 0))
    then (if type == message_handshake_initiation
        then (if len == initiation_len then message_handshake_initiation else message_invalid)
        else if type == message_handshake_response
        then (if len == response_len then message_handshake_response else message_invalid)
        else if type == message_cookie_reply
        then (if len == cookie_reply_len then message_cookie_reply else message_invalid)
        else if type == message_transport_data
        then (if leb (transport_header_len + authtag_len) len
            then message_transport_data
            else message_invalid)
        else message_invalid)
    else message_invalid

-- The first four bytes of every message.
abbrev pub type_word : ℕ → Bytes
type_word type = type ∷ 0 ∷ 0 ∷ 0 ∷ []

-- `struct message_transport_data` up to `enc_packet`
unfoldable pub transport_header : ℕ → ℕ → Bytes
transport_header receiver counter =
    type_word message_transport_data ++ (to_little 4 receiver ++ to_little 8 counter)
