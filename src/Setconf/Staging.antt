-- ===== src/Setconf/Staging.antt =====
-- The settings that `wg_set_peer` takes can be written to a configuration file.
use gsoc2026_nuttx_wireguard.Base.{
  ℕ, ◌^◌, ◌≤◌, ◌<◌, false, Option, some, none, length, take_all, ◌==◌, if◌then◌else◌, ◌≡◌, inl, inr,
  refl, sym, ◌∙◌, subst, arith, Bytes, All, strlcpy, Option-cases,
}
use gsoc2026_nuttx_wireguard.Config.{Kconfig, Libc, ℤ, pos, negsuc, negative, inet_addrstrlen}
use gsoc2026_nuttx_wireguard.Staged.{
  StagedPeer, prefix_mask, parse_endpoint, parse_allowed, apply_settings,
}
use gsoc2026_nuttx_wireguard.Staged.Parsed.{parse_endpoint-inversion, parse_allowed-inversion}
use gsoc2026_nuttx_wireguard.Setconf.Printable.{IsAddressByte, IsAddress, IsPrintable}

-- What `inet_pton` and `inet_ntop` do: only digits and dots are taken, no more of them than a dotted
-- quad has, and the text of a netmask is read as the netmask.
pub record TakesAddresses (libc : Libc) : Type 0 where
  pub takes :
      (text : Bytes) (addr : ℕ)
      → libc.inet_pton text ≡ some addr
      → All IsAddressByte text × (length text ≤ 15)
  pub mask_back :
      (prefix : ℕ) (text : Bytes)
      → prefix ≤ 32
      → libc.inet_ntop (prefix_mask prefix) inet_addrstrlen ≡ some text
      → libc.inet_pton text ≡ some (prefix_mask prefix)

-- An `int` argument.
abbrev pub IsInt : ℤ → Type 0
IsInt (pos n) = n < 2 ^ 31
IsInt (negsuc n) = Unit

module _ (libc : Libc) (kconfig : Kconfig) (addresses : TakesAddresses libc) where
  -- The stored text of an address that is taken.
  stored-IsAddress :
      (address : Bytes) (addr : ℕ)
      → libc.inet_pton address ≡ some addr
      → IsAddress libc (strlcpy address inet_addrstrlen)
  stored-IsAddress address addr parsed =
      let (bytes, short) = addresses.takes address addr parsed in
      rw (take_all 15 address short)
        (record { addr = addr; parsed = parsed; bytes = bytes; short = short })

  pub parse_endpoint-IsPrintable :
      (text : Bytes) (tmp after : StagedPeer)
      → parse_endpoint libc text tmp ≡ some after
      → IsPrintable libc kconfig tmp
      → IsPrintable libc kconfig after
  parse_endpoint-IsPrintable text tmp after h p =
      let (address, addr, port, parsed, low, high, e) =
        parse_endpoint-inversion libc text tmp after h in
      let not_zero : (port == 0) ≡ false = ground arith in
      subst (IsPrintable libc kconfig) (sym e) (record {
        key = p.key;
        decodes = p.decodes;
        key_short = p.key_short;
        allowed = p.allowed;
        prefix = p.prefix;
        prefix_small = p.prefix_small;
        mask_parsed = p.mask_parsed;
        mask_printed = p.mask_printed;
        endpoint = inr (stored-IsAddress address addr parsed, rw not_zero low, rw not_zero high);
        interval = p.interval;
        keepalive = p.keepalive;
        interval_small = p.interval_small;
      })

  pub parse_allowed-IsPrintable :
      (text : Bytes) (tmp after : StagedPeer)
      → parse_allowed libc text tmp ≡ some after
      → IsPrintable libc kconfig tmp
      → IsPrintable libc kconfig after
  parse_allowed-IsPrintable text tmp after h p =
      let (address, addr, prefix, mask, parsed, le, printed, e) =
        parse_allowed-inversion libc text tmp after h in
      subst (IsPrintable libc kconfig) (sym e) (record {
        key = p.key;
        decodes = p.decodes;
        key_short = p.key_short;
        allowed = stored-IsAddress address addr parsed;
        prefix = prefix;
        prefix_small = le;
        mask_parsed = addresses.mask_back prefix mask le printed;
        mask_printed = printed;
        endpoint = p.endpoint;
        interval = p.interval;
        keepalive = p.keepalive;
        interval_small = p.interval_small;
      })

  keepalive-IsPrintable :
      (k : ℤ) (tmp : StagedPeer)
      → IsInt k
      → IsPrintable libc kconfig tmp
      → IsPrintable libc kconfig (if negative k then tmp else record tmp { keepalive = k })
  keepalive-IsPrintable (negsuc n) tmp small p = p
  keepalive-IsPrintable (pos n) tmp small p = record {
    key = p.key;
    decodes = p.decodes;
    key_short = p.key_short;
    allowed = p.allowed;
    prefix = p.prefix;
    prefix_small = p.prefix_small;
    mask_parsed = p.mask_parsed;
    mask_printed = p.mask_printed;
    endpoint = p.endpoint;
    interval = n;
    keepalive = refl;
    interval_small = small;
  }

  module _ (k : ℤ) (small : IsInt k) where
    ends :
        (t after : StagedPeer)
        → some (if negative k then t else record t { keepalive = k }) ≡ some after
        → IsPrintable libc kconfig t
        → IsPrintable libc kconfig after
    ends t after e p =
        let same : (if negative k then t else record t { keepalive = k }) ≡ after = cc in
        subst (IsPrintable libc kconfig) same (keepalive-IsPrintable k t small p)

  module _ (k : ℤ) (small : IsInt k) where
    allowed-IsPrintable :
        (allowed : Option Bytes) (tmp after : StagedPeer)
        → apply_settings libc none allowed k tmp ≡ some after
        → IsPrintable libc kconfig tmp
        → IsPrintable libc kconfig after
    unfolding apply_settings
    allowed-IsPrintable none tmp after h p = ends k small tmp after h p
    allowed-IsPrintable (some a) tmp after h p = elim (Option-cases (parse_allowed libc a tmp)) [
      | inl bad ↦ (let h1 = rw (bad, apply_settings) at h in absurd (ground arith))
      | inr (t, good) ↦
          let q = parse_allowed-IsPrintable a tmp t good p in
          ends k small t after (rw (good, apply_settings) at h) q
    ]

    -- The endpoint comes first, and the rest goes on from what it leaves.
    apply_settings-endpoint :
        (e : Bytes) (allowed : Option Bytes) (tmp t : StagedPeer)
        → parse_endpoint libc e tmp ≡ some t
        → apply_settings libc (some e) allowed k tmp ≡ apply_settings libc none allowed k t
    unfolding apply_settings
    apply_settings-endpoint e allowed tmp t good = rw (good, apply_settings) refl

    apply_settings-bad_endpoint :
        (e : Bytes) (allowed : Option Bytes) (tmp : StagedPeer)
        → parse_endpoint libc e tmp ≡ none
        → apply_settings libc (some e) allowed k tmp ≡ none
    unfolding apply_settings
    apply_settings-bad_endpoint e allowed tmp bad = rw (bad, apply_settings) refl

    pub apply_settings-IsPrintable :
        (endpoint allowed : Option Bytes) (tmp after : StagedPeer)
        → apply_settings libc endpoint allowed k tmp ≡ some after
        → IsPrintable libc kconfig tmp
        → IsPrintable libc kconfig after
    apply_settings-IsPrintable none allowed tmp after h p =
        allowed-IsPrintable allowed tmp after h p
    apply_settings-IsPrintable (some e) allowed tmp after h p =
        elim (Option-cases (parse_endpoint libc e tmp)) [
          | inl bad ↦
              (let no = apply_settings-bad_endpoint e allowed tmp bad in absurd (ground arith))
          | inr (t, good) ↦
              allowed-IsPrintable allowed t after
                (sym (apply_settings-endpoint e allowed tmp t good) ∙ h)
                (parse_endpoint-IsPrintable e tmp t good p)
        ]
