-- ===== src/Setconf/Kept.antt =====
-- What `wg_set_peer` stages can be written to a configuration file.
use gsoc2026_nuttx_wireguard.Base.{
  ℕ, ◌^◌, ◌≤◌, ◌<◌, Bool, true, false, [], ◌∷◌, Option, some, length, take_all, get_elem?, ◌≡◌, inl,
  inr, refl, arith, Bytes, All, All-append, All-set, All-get_elem?, strlcpy, leb, Bool-cases,
  Option-cases,
}
use gsoc2026_nuttx_wireguard.Config.{Kconfig, Libc, ℤ, inet_addrstrlen}
use gsoc2026_nuttx_wireguard.Staged.{
  Staged, prefix_mask, decode_key, apply_settings, fresh_peer, find_key, update_peer, append_peer,
  set_peer,
}
use gsoc2026_nuttx_wireguard.Setconf.Staging.{TakesAddresses, IsInt, apply_settings-IsPrintable}
use gsoc2026_nuttx_wireguard.Setconf.Printable.{IsAddress, IsPrintable}

module _ (libc : Libc) (kconfig : Kconfig) (addresses : TakesAddresses libc) where
  -- The allowed-ips and the interval that Kconfig gives to a new peer can be printed.
  pub record HasDefaults : Type 0 where
    pub allowed : IsAddress libc (strlcpy kconfig.peer_allowed_ip inet_addrstrlen)
    pub prefix : ℕ
    pub prefix_small : prefix ≤ 32
    pub mask_parsed :
        libc.inet_pton (strlcpy kconfig.peer_allowed_mask inet_addrstrlen)
        ≡ some (prefix_mask prefix)
    pub mask_printed :
        libc.inet_ntop (prefix_mask prefix) inet_addrstrlen
        ≡ some (strlcpy kconfig.peer_allowed_mask inet_addrstrlen)
    pub interval_small : kconfig.peer_keepalive < 2 ^ 31

  module _ (defaults : HasDefaults) where
    fresh_peer-IsPrintable :
        (pubkey key : Bytes)
        → decode_key pubkey ≡ some key
        → length pubkey < 48
        → IsPrintable libc kconfig (fresh_peer libc kconfig pubkey)
    unfolding fresh_peer
    fresh_peer-IsPrintable pubkey key decoded short =
        let kept = take_all 47 pubkey (omega arith) in
        record {
          key = key;
          decodes = rw kept decoded;
          key_short = rw kept short;
          allowed = defaults.allowed;
          prefix = defaults.prefix;
          prefix_small = defaults.prefix_small;
          mask_parsed = defaults.mask_parsed;
          mask_printed = defaults.mask_printed;
          endpoint = inl refl;
          interval = kconfig.peer_keepalive;
          keepalive = refl;
          interval_small = defaults.interval_small;
        }

    module _ (staged : Staged) (endpoint allowed : Option Bytes) (k : ℤ) (small : IsInt k)
        (all : All (IsPrintable libc kconfig) staged.peers) where
      update_peer-IsPrintable :
          (i : ℕ)
          → All
              (IsPrintable libc kconfig)
              (update_peer libc kconfig staged i endpoint allowed k).0.peers
      unfolding update_peer
      update_peer-IsPrintable i = elim (Option-cases (get_elem? staged.peers i)) [
        | inl missing ↦ rw (missing, update_peer) all
        | inr (cfg, at) ↦ elim (Option-cases (apply_settings libc endpoint allowed k cfg)) [
          | inl bad ↦ rw (at, update_peer, bad, update_peer) all
          | inr (tmp, good) ↦
              let old = All-get_elem? (IsPrintable libc kconfig) staged.peers i cfg at all in
              let new =
                apply_settings-IsPrintable libc kconfig addresses k small endpoint allowed cfg tmp
                  good old in
              rw (at, update_peer, good, update_peer)
                (All-set (IsPrintable libc kconfig) staged.peers i tmp new all)
        ]
      ]

      append_peer-IsPrintable :
          (pubkey key : Bytes)
          → decode_key pubkey ≡ some key
          → length pubkey < 48
          → All
              (IsPrintable libc kconfig)
              (append_peer libc kconfig staged pubkey endpoint allowed k).0.peers
      unfolding append_peer
      append_peer-IsPrintable pubkey key decoded short =
          elim (Bool-cases (leb kconfig.max_peers (length staged.peers))) [
            | inl full ↦ rw full all
            | inr free ↦
                elim (Option-cases
                  (apply_settings libc endpoint allowed k (fresh_peer libc kconfig pubkey))) [
                    | inl bad ↦ rw (free, bad, append_peer) all
                    | inr (tmp, good) ↦
                        let fresh = fresh_peer-IsPrintable pubkey key decoded short in
                        let new =
                          apply_settings-IsPrintable libc kconfig addresses k small endpoint allowed
                            _ tmp good fresh in
                        rw (free, good, append_peer)
                          (All-append (IsPrintable libc kconfig) staged.peers (tmp ∷ []) all
                            (new, tt))
                  ]
          ]

      -- Where every staged peer can be printed, and the defaults of Kconfig too, so can every
      -- peer after wg_set_peer, with a key text that fits its field, an interval that is an int
      -- and any other arguments, whatever it returns, given that inet_pton takes only texts of
      -- at most 15 digits and dots and reads back the netmasks of inet_ntop.
      pub set_peer-IsPrintable :
          (registered : Bool) (pubkey : Bytes)
          → length pubkey < 48
          → All
              (IsPrintable libc kconfig)
              (set_peer libc kconfig registered staged pubkey endpoint allowed k).0.peers
      unfolding set_peer
      set_peer-IsPrintable true pubkey short = all
      set_peer-IsPrintable false pubkey short = elim (Option-cases (decode_key pubkey)) [
        | inl bad ↦ rw (bad, set_peer) all
        | inr (key, good) ↦ elim (Option-cases (find_key pubkey 0 staged.peers)) [
          | inl missing ↦
              rw (good, set_peer, missing, set_peer) (append_peer-IsPrintable pubkey key good short)
          | inr (i, found) ↦ rw (good, set_peer, found, set_peer) (update_peer-IsPrintable i)
        ]
      ]
