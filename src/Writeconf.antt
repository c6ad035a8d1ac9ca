-- ===== src/Writeconf.antt =====
-- `wg_showconf_peer`, `wg_writeconf`, `wg_showconf` and `wg_saveconf` of
-- netutils/wireguard/nuttx-wireguardif.c: the configuration in the notation of wg(8). A stream is
-- the bytes that are written to it.
use gsoc2026_nuttx_wireguard.Base.{
  List, [], ◌∷◌, ◌++◌, Option, none, some, length, ltb, ◌==◌, if◌then◌else◌, Bytes, codes,
}
use gsoc2026_nuttx_wireguard.Config.{Kconfig, Libc, ℤ, pos, negsuc, Errno, Ret, ok, err, enodata}
use gsoc2026_nuttx_wireguard.Staged.{StagedPeer, Staged, kconfig_peer}
use gsoc2026_nuttx_wireguard.Conf.{mask_to_prefix}
use gsoc2026_nuttx_wireguard.Lifecycle.{cfg_str}

-- One setting: `fprintf(out, "<name> = <value>\n")`.
unfoldable pub setting_line : Bytes → Bytes → Bytes
setting_line name value = name ++ (codes " = " ++ (value ++ codes "\n"))

module _ (libc : Libc) (kconfig : Kconfig) where
  open libc use {print_int}

  -- The value of an AllowedIPs line.
  unfoldable pub allowed_text : StagedPeer → Bytes
  allowed_text cfg =
      cfg.allowed_ip ++ (codes "/" ++ print_int (pos (mask_to_prefix libc cfg.allowed_mask)))

  unfoldable pub endpoint_text : StagedPeer → Bytes
  endpoint_text cfg =
      let port = if cfg.endpoint_port == 0 then kconfig.peer_endpoint_port else cfg.endpoint_port in
      cfg.endpoint_ip ++ (codes ":" ++ print_int (pos port))

  -- The interval that is in force: an unset one is that of Kconfig.
  abbrev pub keepalive_in_force : ℤ → ℤ
  keepalive_in_force (pos n) = pos n
  keepalive_in_force (negsuc n) = pos kconfig.peer_keepalive

  -- `wg_showconf_peer`
  unfoldable pub showconf_peer : StagedPeer → Bytes
  showconf_peer cfg =
      codes "\n[Peer]\n"
      ++ (setting_line (codes "PublicKey") cfg.public_key
          ++ (setting_line (codes "AllowedIPs") (allowed_text cfg)
              ++ ((if ltb 0 (length cfg.endpoint_ip)
                    then setting_line (codes "Endpoint") (endpoint_text cfg)
                    else [])
                  ++ setting_line (codes "PersistentKeepalive")
                      (print_int (keepalive_in_force cfg.keepalive)))))

  unfoldable pub showconf_peers : List StagedPeer → Bytes
  showconf_peers [] = []
  showconf_peers (cfg ∷ cfgs) = showconf_peer cfg ++ showconf_peers cfgs

  -- `wg_writeconf`: what it writes, or `none` where it returns -ENODATA, having written nothing.
  unfoldable pub writeconf : Staged → Option Bytes
  writeconf staged =
      let key = cfg_str staged.private_key kconfig.private_key in
      let peers =
        if ltb 0 (length staged.peers)
        then showconf_peers staged.peers
        else if length kconfig.peer_public_key == 0
        then []
        else showconf_peer (kconfig_peer kconfig) in
      if length key == 0
      then none
      else some (
          codes "[Interface]\n"
          ++ (setting_line (codes "PrivateKey") key
              ++ (setting_line (codes "ListenPort") (print_int (pos kconfig.listen_port))
                  ++ peers)))

  -- `wg_showconf`: what goes to the standard output, and the result.
  unfoldable pub showconf : Staged → Bytes × Ret
  showconf staged = elim (writeconf staged) [ none ↦ ([], err enodata) | some text ↦ (text, ok) ]

  -- `wg_saveconf`, with the contents of the file, `none` where it is not there. Opening it for
  -- writing empties it. The results of `fprintf` are not looked at, so `reaches` says what of the text
  -- is in the file after `fclose`, whether or not that fails.
  unfoldable pub saveconf :
      Option Errno → (Bytes → Bytes) → Option Errno → Staged → Option Bytes → Option Bytes × Ret
  saveconf open_fails reaches close_fails staged file = elim open_fails [
    | some e ↦ (file, err e)
    | none ↦ elim (writeconf staged) [
      | none ↦ (some [], err enodata)
      | some text ↦ elim close_fails [
        | none ↦ (some (reaches text), ok)
        | some e ↦ (some (reaches text), err e)
      ]
    ]
  ]
