-- ===== src/Setconf/Written.antt =====
-- The lines that `wg_writeconf` writes fit the buffer of `wg_setconf`.
use gsoc2026_nuttx_wireguard.Base.{
  ◌<◌, List, [], ◌∷◌, length, inl, inr, refl, arith, codes, All, All-append, ltb, Bool-cases,
}
use gsoc2026_nuttx_wireguard.Config.{Kconfig, Libc, pos}
use gsoc2026_nuttx_wireguard.Staged.{StagedPeer}
use gsoc2026_nuttx_wireguard.Writeconf.{allowed_text, endpoint_text}
use gsoc2026_nuttx_wireguard.Setconf.Setting.{IsLine, setting_line-IsLine}
use gsoc2026_nuttx_wireguard.Setconf.Printable.{
  PrintsNumbers, IsAddress, port_in_force, IsPrintable, allowed_text-Visible, endpoint_text-Visible,
  length-allowed_text, length-endpoint_text, print_int-Visible,
}
use gsoc2026_nuttx_wireguard.Setconf.Block.{decode_key-Visible}
use gsoc2026_nuttx_wireguard.Setconf.Printed.{
  public_key-IsName, allowed-IsName, endpoint-IsName, keepalive-IsName, key_line, allowed_line,
  endpoint_line, keepalive_line, settings, peers_lines,
}

module _ (libc : Libc) (kconfig : Kconfig) (numbers : PrintsNumbers libc) where
  module _ (cfg : StagedPeer) (p : IsPrintable libc kconfig cfg) where
    key_line-IsLine : IsLine (key_line libc kconfig cfg)
    key_line-IsLine =
        let short = p.key_short in
        setting_line-IsLine (codes "PublicKey") cfg.public_key public_key-IsName
          (decode_key-Visible cfg.public_key p.key p.decodes) (omega arith)

    allowed_line-IsLine : IsLine (allowed_line libc kconfig cfg)
    allowed_line-IsLine =
        let short = length-allowed_text libc kconfig numbers cfg p in
        setting_line-IsLine (codes "AllowedIPs") (allowed_text libc kconfig cfg) allowed-IsName
          (allowed_text-Visible libc kconfig numbers cfg p) (omega arith)

    endpoint_line-IsLine :
        IsAddress libc cfg.endpoint_ip
        → port_in_force libc kconfig cfg < 65536
        → IsLine (endpoint_line libc kconfig cfg)
    endpoint_line-IsLine a high =
        let short = length-endpoint_text libc kconfig numbers cfg a high in
        setting_line-IsLine (codes "Endpoint") (endpoint_text libc kconfig cfg) endpoint-IsName
          (endpoint_text-Visible libc kconfig numbers cfg a high) (omega arith)

    keepalive_line-IsLine : IsLine (keepalive_line libc kconfig cfg)
    keepalive_line-IsLine =
        let small = p.interval_small in
        let short = numbers.fits 10 p.interval (omega arith) (omega arith) in
        rw (p.keepalive) (
          setting_line-IsLine (codes "PersistentKeepalive") (libc.print_int (pos p.interval))
            keepalive-IsName (print_int-Visible libc kconfig numbers p.interval small)
            (omega arith))

    settings-IsLine : All IsLine (settings libc kconfig cfg)
    settings-IsLine = elim (Bool-cases (ltb 0 (length cfg.endpoint_ip))) [
      | inl there ↦ elim p.endpoint [
        | inl missing ↦ (let bad = rw missing at there in cc)
        | inr (a, low, high) ↦ rw there (
          key_line-IsLine,
          (allowed_line-IsLine, (endpoint_line-IsLine a high, (keepalive_line-IsLine, tt))),
        )
      ]
      | inr missing ↦
          rw missing (key_line-IsLine, (allowed_line-IsLine, (keepalive_line-IsLine, tt)))
    ]

  blank-IsLine : IsLine (codes "\n")
  blank-IsLine = record { body = []; whole = refl; single = tt; fits = omega arith }

  -- The line of a section.
  section-IsLine : IsLine (codes "[Peer]\n")
  section-IsLine = record {
    body = codes "[Peer]";
    whole = refl;
    single = omega arith;
    fits = omega arith;
  }

  pub interface-IsLine : IsLine (codes "[Interface]\n")
  interface-IsLine = record {
    body = codes "[Interface]";
    whole = refl;
    single = omega arith;
    fits = omega arith;
  }

  -- Every line of printable peers fits.
  pub peers_lines-IsLine :
      (cfgs : List StagedPeer)
      → All (IsPrintable libc kconfig) cfgs
      → All IsLine (peers_lines libc kconfig cfgs)
  peers_lines-IsLine [] a = tt
  peers_lines-IsLine (cfg ∷ cfgs) (p, ps) =
      let rest =
        All-append IsLine (settings libc kconfig cfg) (peers_lines libc kconfig cfgs)
          (settings-IsLine cfg p) (peers_lines-IsLine cfgs ps) in
      (blank-IsLine, (section-IsLine, rest))
