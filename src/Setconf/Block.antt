-- ===== src/Setconf/Block.antt =====
-- How `wg_setconf` reads the lines of one peer.
use gsoc2026_nuttx_wireguard.Base.{
  All, Visible, Option-cases, Bool-cases, ℕ, true, false, [], ◌∷◌, ◌++◌, some, none, length, ◌==◌,
  if◌then◌else◌, ◌≡◌, ◌≢◌, inl, inr, refl, ◌∙◌, arith, Bytes, take_all, ltb,
}
use gsoc2026_nuttx_wireguard.Device.{key_len}
use gsoc2026_nuttx_wireguard.Base64.Alphabet.{base64_decode-Visible}
use gsoc2026_nuttx_wireguard.Base64.{base64_decode, decode_loop}
use gsoc2026_nuttx_wireguard.Config.{Kconfig, Libc, ℤ, pos}
use gsoc2026_nuttx_wireguard.Staged.{
  parse_endpoint, parse_allowed, StagedPeer, decode_key, apply_settings, fresh_peer,
}
use gsoc2026_nuttx_wireguard.Writeconf.{allowed_text, endpoint_text, keepalive_in_force}
use gsoc2026_nuttx_wireguard.Setconf.{ConfPeer, nonempty}
use gsoc2026_nuttx_wireguard.Setconf.Printable.{
  PrintsNumbers, IsPrintable, reread, parse_endpoint-endpoint_text, parse_allowed-allowed_text,
}

pub decode_key-ne : (text key : Bytes) → decode_key text ≡ some key → text ≢ []
unfolding decode_key base64_decode decode_loop
decode_key-ne text key decoded empty = let bad = rw empty at decoded in absurd (ground arith)

pub decode_key-Visible : (text key : Bytes) → decode_key text ≡ some key → All Visible text
unfolding decode_key
decode_key-Visible text key decoded = elim (Option-cases (base64_decode text key_len)) [
  | inl bad ↦ (let h = rw (bad, decode_key) at decoded in absurd (ground arith))
  | inr (bytes, good) ↦ base64_decode-Visible text key_len bytes good
]

pub nonempty_lem : (text : Bytes) → text ≢ [] → nonempty text ≡ some text
nonempty_lem [] ne = absurd (ne refl)
nonempty_lem (c ∷ cs) ne = refl

pub append-ne : (front : Bytes) (c : ℕ) (cs : Bytes) → front ++ (c ∷ cs) ≢ []
append-ne [] c cs e = absurd (ground arith)
append-ne (x ∷ xs) c cs e = absurd (ground arith)

pub nil_of : (text : Bytes) → ltb 0 (length text) ≡ false → text ≡ []
nil_of [] h = refl
nil_of (c ∷ cs) h = absurd (ground arith)

module _ (libc : Libc) (tmp : StagedPeer) (allowed : Bytes) (k : ℤ) (n : ℕ)
    (interval : k ≡ pos n) where
  apply_settings-allowed :
      (after : StagedPeer)
      → parse_allowed libc allowed tmp ≡ some after
      → apply_settings libc none (some allowed) k tmp ≡ some (record after { keepalive = pos n })
  unfolding apply_settings
  apply_settings-allowed after a = rw (a, apply_settings, interval) refl

  apply_settings-both :
      (endpoint : Bytes) (between after : StagedPeer)
      → parse_endpoint libc endpoint tmp ≡ some between
      → parse_allowed libc allowed between ≡ some after
      → apply_settings libc (some endpoint) (some allowed) k tmp
        ≡ some (record after { keepalive = pos n })
  unfolding apply_settings
  apply_settings-both endpoint between after e a =
      rw (e, apply_settings, a, apply_settings, interval) refl

module _ (libc : Libc) (kconfig : Kconfig) where
  -- The accumulator once the lines of a peer are read.
  abbrev pub acc_of : StagedPeer → ConfPeer
  acc_of cfg = record {
    pubkey = cfg.public_key;
    endpoint = if ltb 0 (length cfg.endpoint_ip) then endpoint_text libc kconfig cfg else [];
    allowed = allowed_text libc kconfig cfg;
    keepalive = keepalive_in_force libc kconfig cfg.keepalive;
    valid = true;
  }

  module _ (numbers : PrintsNumbers libc) where
    pub allowed_text-ne : (cfg : StagedPeer) → allowed_text libc kconfig cfg ≢ []
    unfolding allowed_text
    allowed_text-ne cfg e = append-ne cfg.allowed_ip _ _ e

    pub endpoint_text-ne : (cfg : StagedPeer) → endpoint_text libc kconfig cfg ≢ []
    unfolding endpoint_text
    endpoint_text-ne cfg e = append-ne cfg.endpoint_ip _ _ e

    pub apply_settings-acc_of :
        (cfg : StagedPeer)
        → IsPrintable libc kconfig cfg
        → let acc = acc_of cfg in
          apply_settings libc
            (nonempty acc.endpoint)
            (nonempty acc.allowed)
            acc.keepalive
            (fresh_peer libc kconfig cfg.public_key)
          ≡ some (reread libc kconfig cfg)
    unfolding fresh_peer
    apply_settings-acc_of cfg p =
        let fresh = fresh_peer libc kconfig cfg.public_key in
        let k = keepalive_in_force libc kconfig cfg.keepalive in
        let kept = take_all 47 cfg.public_key (let short = p.key_short in omega arith) in
        let allowed = allowed_text libc kconfig cfg in
        let some_allowed = nonempty_lem allowed (allowed_text-ne cfg) in
        elim (Bool-cases (ltb 0 (length cfg.endpoint_ip))) [
          | inl there ↦ elim p.endpoint [
            | inl missing ↦ (let bad = rw missing at there in cc)
            | inr (a, low, high) ↦
                let some_endpoint =
                  nonempty_lem (endpoint_text libc kconfig cfg) (endpoint_text-ne cfg) in
                let read = parse_endpoint-endpoint_text libc kconfig numbers cfg fresh a low high in
                let there' : (length cfg.endpoint_ip == 0) ≡ false = ground arith in
                rw (there, some_endpoint, some_allowed)
                  (apply_settings-both libc fresh allowed k p.interval p.keepalive
                      (endpoint_text libc kconfig cfg) _ _ read
                      (parse_allowed-allowed_text libc kconfig numbers cfg _ p)
                    ∙ rw (kept, there', p.keepalive) refl)
          ]
          | inr missing ↦
              let none_there = nil_of cfg.endpoint_ip missing in
              rw (missing, some_allowed)
                (apply_settings-allowed libc fresh allowed k p.interval p.keepalive _
                    (parse_allowed-allowed_text libc kconfig numbers cfg _ p)
                  ∙ rw (kept, p.keepalive, none_there) refl)
        ]
