-- ===== src/Setconf/Reading.antt =====
-- How `wg_setconf` reads the lines of one peer.
use gsoc2026_nuttx_wireguard.Base.{
  ◌≤◌, ◌<◌, true, false, List, [], ◌∷◌, ◌++◌, some, none, length, ◌≡◌, refl, arith, Bytes, codes,
  take_all, leb, str_case_eq,
}
use gsoc2026_nuttx_wireguard.Config.{Kconfig, Libc, ℤ, ok}
use gsoc2026_nuttx_wireguard.Conf.{conf_trim, skip_blanks, cut_blanks}
use gsoc2026_nuttx_wireguard.Staged.{
  StagedPeer, Staged, decode_key, find_key, append_peer, set_peer, set_private_key,
}
use gsoc2026_nuttx_wireguard.Setconf.{
  ConfPeer, empty_acc, Progress, flush_peer, apply_setting, conf_line, c_string,
}
use gsoc2026_nuttx_wireguard.Setconf.Lines.{conf_lines}
use gsoc2026_nuttx_wireguard.Setconf.Printable.{PrintsNumbers, IsPrintable, reread}
use gsoc2026_nuttx_wireguard.Setconf.Block.{acc_of, apply_settings-acc_of}

abbrev pub going : Staged → ConfPeer → Progress
going staged acc = record { staged = staged; acc = acc; ret = ok }

abbrev pub with_peers : Staged → List StagedPeer → Staged
with_peers staged peers = record staged { peers = peers }

module _ (libc : Libc) (kconfig : Kconfig) where
  -- One round of the loop without an error.
  pub conf_lines-step :
      (staged after : Staged) (acc next : ConfPeer) (line : Bytes) (lines : List Bytes)
      → conf_line libc kconfig staged acc line ≡ going after next
      → conf_lines libc kconfig staged acc (line ∷ lines) ≡ conf_lines libc kconfig after next lines
  unfolding conf_lines
  conf_lines-step staged after acc next line lines e = rw (e, conf_lines) refl

  -- A blank line does nothing, and the line of a section flushes the peer before it.
  pub conf_line-blank :
      (staged : Staged) (acc : ConfPeer)
      → conf_line libc kconfig staged acc (codes "\n") ≡ going staged acc
  unfolding conf_line c_string conf_trim skip_blanks cut_blanks
  conf_line-blank staged acc = refl

  pub conf_line-peer :
      (staged : Staged) (acc : ConfPeer)
      → conf_line libc kconfig staged acc (codes "[Peer]\n") ≡ flush_peer libc kconfig staged acc
  unfolding conf_line c_string conf_trim skip_blanks cut_blanks
  conf_line-peer staged acc = refl

  pub conf_line-interface :
      (staged : Staged) (acc : ConfPeer)
      → conf_line libc kconfig staged acc (codes "[Interface]\n")
        ≡ flush_peer libc kconfig staged acc
  unfolding conf_line c_string conf_trim skip_blanks cut_blanks
  conf_line-interface staged acc = refl

  pub flush_peer-empty :
      (staged : Staged) → flush_peer libc kconfig staged empty_acc ≡ going staged empty_acc
  unfolding flush_peer
  flush_peer-empty staged = refl

  module _ (staged : Staged) (acc : ConfPeer) (value : Bytes) where
    abbrev Sets : Bytes → ConfPeer → Type 0
    Sets name next = apply_setting libc kconfig staged acc name value ≡ going staged next

    pub apply_setting-public_key :
        length value < 48 → Sets (codes "PublicKey") (record acc { pubkey = value; valid = true })
    unfolding apply_setting str_case_eq
    apply_setting-public_key short = rw (take_all 47 value (omega arith)) refl

    pub apply_setting-allowed :
        length value ≤ 23 → Sets (codes "AllowedIPs") (record acc { allowed = value })
    unfolding apply_setting str_case_eq
    apply_setting-allowed short = rw (take_all 23 value (omega arith)) refl

    pub apply_setting-endpoint :
        length value ≤ 23 → Sets (codes "Endpoint") (record acc { endpoint = value })
    unfolding apply_setting str_case_eq
    apply_setting-endpoint short = rw (take_all 23 value (omega arith)) refl

    pub apply_setting-keepalive :
        (k : ℤ)
        → libc.atoi value ≡ k
        → Sets (codes "PersistentKeepalive") (record acc { keepalive = k })
    unfolding apply_setting str_case_eq
    apply_setting-keepalive k read = rw read refl

    pub apply_setting-port : Sets (codes "ListenPort") acc
    unfolding apply_setting str_case_eq
    apply_setting-port = refl

    pub apply_setting-private_key :
        (key : Bytes)
        → decode_key value ≡ some key
        → length value < 48
        → apply_setting libc kconfig staged acc (codes "PrivateKey") value
          ≡ going (record staged { private_key = value }) acc
    unfolding apply_setting str_case_eq set_private_key
    apply_setting-private_key key decoded short =
        let kept = take_all 47 value (omega arith) in rw (decoded, set_private_key, kept) refl

  module _ (numbers : PrintsNumbers libc) where
    -- Flushing a printed peer stages it as it was.
    pub flush_peer-acc_of :
        (staged : Staged) (cfg : StagedPeer)
        → IsPrintable libc kconfig cfg
        → find_key cfg.public_key 0 staged.peers ≡ none
        → length staged.peers < kconfig.max_peers
        → flush_peer libc kconfig staged (acc_of libc kconfig cfg)
          ≡ going (with_peers staged (staged.peers ++ (reread libc kconfig cfg ∷ []))) empty_acc
    unfolding flush_peer set_peer append_peer
    flush_peer-acc_of staged cfg p missing room =
        let decoded = p.decodes in
        let free : leb kconfig.max_peers (length staged.peers) ≡ false = ground arith in
        let settings = apply_settings-acc_of libc kconfig numbers cfg p in
        rw (decoded, set_peer, missing, set_peer, free, settings, append_peer) refl
