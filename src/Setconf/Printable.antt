-- ===== src/Setconf/Printable.antt =====
-- The staged peers that survive being written to a configuration file.
use gsoc2026_nuttx_wireguard.Base.{
  Visible, ℕ, ◌^◌, ◌≤◌, ◌<◌, [], ◌∷◌, ◌++◌, some, length, length-append, ◌==◌, if◌then◌else◌, ◌≡◌,
  ◌≢◌, ◌⊎◌, refl, arith, Bytes, All, All-append, All-weaken, NotByte, split_first_lem,
  split_last_lem, take_all, ltb, false,
}
use gsoc2026_nuttx_wireguard.Config.{Kconfig, Libc, pos, inet_addrstrlen}
use gsoc2026_nuttx_wireguard.Conf.Prefix.{mask_to_prefix-prefix_mask}
use gsoc2026_nuttx_wireguard.Staged.{
  StagedPeer, prefix_mask, decode_key, parse_endpoint, parse_allowed, split_allowed,
}
use gsoc2026_nuttx_wireguard.Writeconf.{allowed_text, endpoint_text, keepalive_in_force}

abbrev pub IsDigit : ℕ → Type 0
IsDigit c = (48 ≤ c) × (c ≤ 57)

-- A digit or a dot.
abbrev pub IsAddressByte : ℕ → Type 0
IsAddressByte c = (46 ≤ c) × (c ≤ 57) × (c ≢ 47)

-- What `%d` and `atoi` do with the numbers of an `int` that are not negative: decimal digits, no more
-- of them than the number has, which are read as the number.
pub record PrintsNumbers (libc : Libc) : Type 0 where
  pub atoi_print : (n : ℕ) → n < 2 ^ 31 → libc.atoi (libc.print_int (pos n)) ≡ pos n
  pub digits : (n : ℕ) → n < 2 ^ 31 → All IsDigit (libc.print_int (pos n))
  pub starts : (n : ℕ) → n < 2 ^ 31 → libc.print_int (pos n) ≢ []
  pub fits : (k n : ℕ) → 0 < k → n < 10 ^ k → length (libc.print_int (pos n)) ≤ k

-- A text that `inet_pton` takes, of digits and dots, no longer than "255.255.255.255".
pub record IsAddress (libc : Libc) (text : Bytes) : Type 0 where
  pub addr : ℕ
  pub parsed : libc.inet_pton text ≡ some addr
  pub bytes : All IsAddressByte text
  pub short : length text ≤ 15

module _ (libc : Libc) (kconfig : Kconfig) where
  abbrev pub port_in_force : StagedPeer → ℕ
  port_in_force cfg =
      if cfg.endpoint_port == 0 then kconfig.peer_endpoint_port else cfg.endpoint_port

  -- A peer with a key that decodes, texts of addresses, a netmask that is the text of a prefix
  -- length, and numbers in range.
  pub record IsPrintable (cfg : StagedPeer) : Type 0 where
    pub key : Bytes
    pub decodes : decode_key cfg.public_key ≡ some key
    pub key_short : length cfg.public_key < 48
    pub allowed : IsAddress libc cfg.allowed_ip
    pub prefix : ℕ
    pub prefix_small : prefix ≤ 32
    pub mask_parsed : libc.inet_pton cfg.allowed_mask ≡ some (prefix_mask prefix)
    pub mask_printed : libc.inet_ntop (prefix_mask prefix) inet_addrstrlen ≡ some cfg.allowed_mask
    pub endpoint :
        (cfg.endpoint_ip ≡ [])
        ⊎ (IsAddress libc cfg.endpoint_ip × (0 < port_in_force cfg) × (port_in_force cfg < 65536))
    pub interval : ℕ
    pub keepalive : keepalive_in_force libc kconfig cfg.keepalive ≡ pos interval
    pub interval_small : interval < 2 ^ 31

  -- The peer that is read back: the values that are in force.
  abbrev pub reread : StagedPeer → StagedPeer
  reread cfg = record cfg {
    endpoint_port = if length cfg.endpoint_ip == 0 then 0 else port_in_force cfg;
    keepalive = keepalive_in_force libc kconfig cfg.keepalive;
  }

  module _ (numbers : PrintsNumbers libc) where
    digits-NotByte : (b n : ℕ) → n < 2 ^ 31 → 57 < b → All (NotByte b) (libc.print_int (pos n))
    digits-NotByte b n small above =
        All-weaken IsDigit (NotByte b) (λ c d. ground arith) (libc.print_int (pos n))
          (numbers.digits n small)

    -- "address:port" is read back.
    pub parse_endpoint-endpoint_text :
        (cfg tmp : StagedPeer)
        → IsAddress libc cfg.endpoint_ip
        → 0 < port_in_force cfg
        → port_in_force cfg < 65536
        → parse_endpoint libc (endpoint_text libc kconfig cfg) tmp
          ≡ some (record tmp { endpoint_ip = cfg.endpoint_ip; endpoint_port = port_in_force cfg })
    unfolding parse_endpoint endpoint_text
    parse_endpoint-endpoint_text cfg tmp a low high =
        let port = port_in_force cfg in
        let number = libc.print_int (pos port) in
        let five = numbers.fits 5 port (omega arith) (omega arith) in
        let whole = take_all 23 (cfg.endpoint_ip ++ (b':' ∷ number)) (
          let short = a.short in
          omega (arith, length-append {0} cfg.endpoint_ip (b':' ∷ number))) in
        let parts =
          split_last_lem b':' cfg.endpoint_ip number
            (digits-NotByte b':' port (omega arith) (omega arith)) in
        let read = numbers.atoi_print port (omega arith) in
        let kept = take_all 15 cfg.endpoint_ip a.short in
        let not_zero : (port == 0) ≡ false = ground arith in
        let not_above : ltb 65535 port ≡ false = ground arith in
        let parsed = a.parsed in
        rw
          (
            whole, parse_endpoint, parts, parse_endpoint, read, parse_endpoint, not_zero, not_above,
            parsed, parse_endpoint, kept,
          )
          refl

    -- "address/prefix" is read back, with the text of the netmask.
    pub parse_allowed-allowed_text :
        (cfg tmp : StagedPeer)
        → IsPrintable cfg
        → parse_allowed libc (allowed_text libc kconfig cfg) tmp
          ≡ some (record tmp { allowed_ip = cfg.allowed_ip; allowed_mask = cfg.allowed_mask })
    unfolding parse_allowed allowed_text
    parse_allowed-allowed_text cfg tmp p =
        let prefix = p.prefix in
        let small = p.prefix_small in
        let number = libc.print_int (pos prefix) in
        let same = mask_to_prefix-prefix_mask libc prefix cfg.allowed_mask small p.mask_parsed in
        let two = numbers.fits 2 prefix (omega arith) (omega arith) in
        let short = p.allowed.short in
        let whole =
          take_all 23 (cfg.allowed_ip ++ (b'/' ∷ number))
            (omega (arith, length-append {0} cfg.allowed_ip (b'/' ∷ number))) in
        let parts =
          split_first_lem b'/' cfg.allowed_ip number
            (All-weaken IsAddressByte (NotByte b'/') (λ c d. d.2) cfg.allowed_ip p.allowed.bytes) in
        let read = numbers.atoi_print prefix (omega arith) in
        let kept = take_all 15 cfg.allowed_ip short in
        let inside : ltb 32 prefix ≡ false = ground arith in
        let split : split_allowed libc (cfg.allowed_ip ++ (b'/' ∷ number))
            ≡ some (cfg.allowed_ip, prefix) =
          unfold split_allowed in rw (parts, split_allowed, read, inside, split_allowed) refl in
        let parsed = p.allowed.parsed in
        let printed = p.mask_printed in
        rw (same, whole, split, parse_allowed, parsed, parse_allowed, printed, parse_allowed, kept)
          refl

    pub print_int-Visible : (n : ℕ) → n < 2 ^ 31 → All Visible (libc.print_int (pos n))
    print_int-Visible n small =
        All-weaken IsDigit Visible (λ c d. omega arith) (libc.print_int (pos n))
          (numbers.digits n small)

    address-Visible : (text : Bytes) → IsAddress libc text → All Visible text
    address-Visible text a =
        All-weaken IsAddressByte Visible (λ c d. omega (arith, d.0)) text a.bytes

    pub allowed_text-Visible :
        (cfg : StagedPeer) → IsPrintable cfg → All Visible (allowed_text libc kconfig cfg)
    unfolding allowed_text
    allowed_text-Visible cfg p =
        let same =
          mask_to_prefix-prefix_mask libc p.prefix cfg.allowed_mask p.prefix_small p.mask_parsed in
        let small = p.prefix_small in
        rw same (
          All-append Visible cfg.allowed_ip (b'/' ∷ libc.print_int (pos p.prefix))
            (address-Visible cfg.allowed_ip p.allowed)
            (omega arith, print_int-Visible p.prefix (omega arith)))

    pub endpoint_text-Visible :
        (cfg : StagedPeer)
        → IsAddress libc cfg.endpoint_ip
        → port_in_force cfg < 65536
        → All Visible (endpoint_text libc kconfig cfg)
    unfolding endpoint_text
    endpoint_text-Visible cfg a high =
        All-append Visible cfg.endpoint_ip (b':' ∷ libc.print_int (pos (port_in_force cfg)))
          (address-Visible cfg.endpoint_ip a)
          (omega arith, print_int-Visible (port_in_force cfg) (omega arith))

    -- The lengths of the values: none is cut when it is read.
    pub length-allowed_text :
        (cfg : StagedPeer) → IsPrintable cfg → length (allowed_text libc kconfig cfg) ≤ 18
    unfolding allowed_text
    length-allowed_text cfg p =
        let same =
          mask_to_prefix-prefix_mask libc p.prefix cfg.allowed_mask p.prefix_small p.mask_parsed in
        let small = p.prefix_small in
        let short = p.allowed.short in
        let two = numbers.fits 2 p.prefix (omega arith) (omega arith) in
        rw same
          (omega (arith, length-append {0} cfg.allowed_ip (b'/' ∷ libc.print_int (pos p.prefix))))

    pub length-endpoint_text :
        (cfg : StagedPeer)
        → IsAddress libc cfg.endpoint_ip
        → port_in_force cfg < 65536
        → length (endpoint_text libc kconfig cfg) ≤ 21
    unfolding endpoint_text
    length-endpoint_text cfg a high =
        let short = a.short in
        let port = port_in_force cfg in
        let five = numbers.fits 5 port (omega arith) (omega arith) in
        omega (arith, length-append {0} cfg.endpoint_ip (b':' ∷ libc.print_int (pos port)))
