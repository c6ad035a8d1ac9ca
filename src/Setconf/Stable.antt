-- ===== src/Setconf/Stable.antt =====
-- Saving, loading and saving again.
use gsoc2026_nuttx_wireguard.Base.{
  true, false, List, [], ◌∷◌, ◌++◌, some, length, ◌==◌, ◌≡◌, ◌≢◌, inl, inr, refl, sym, ap, ap₂, ◌∙◌,
  arith, Bytes, codes, map, ltb, Bool-cases,
}
use gsoc2026_nuttx_wireguard.Config.{Kconfig, Libc, ℤ, pos, negsuc}
use gsoc2026_nuttx_wireguard.Staged.{StagedPeer, Staged}
use gsoc2026_nuttx_wireguard.Lifecycle.{cfg_str}
use gsoc2026_nuttx_wireguard.Writeconf.{
  setting_line, allowed_text, endpoint_text, keepalive_in_force, writeconf,
}
use gsoc2026_nuttx_wireguard.Setconf.{readable, setconf}
use gsoc2026_nuttx_wireguard.Setconf.Lines.{join}
use gsoc2026_nuttx_wireguard.Setconf.Block.{decode_key-ne}
use gsoc2026_nuttx_wireguard.Setconf.Printable.{PrintsNumbers, port_in_force, reread}
use gsoc2026_nuttx_wireguard.Setconf.Printed.{settings, peers_lines}
use gsoc2026_nuttx_wireguard.Setconf.RoundTrip.{
  written_peers, key_in_force, IsSavable, restored, file, writeconf_lem, setconf-writeconf,
}

module _ (libc : Libc) (kconfig : Kconfig) where
  -- A value that is in force stays in force.
  keepalive-stable :
      (k : ℤ)
      → keepalive_in_force libc kconfig (keepalive_in_force libc kconfig k)
        ≡ keepalive_in_force libc kconfig k
  keepalive-stable (pos n) = refl
  keepalive-stable (negsuc n) = refl

  port-stable :
      (cfg : StagedPeer)
      → ltb 0 (length cfg.endpoint_ip) ≡ true
      → port_in_force libc kconfig (reread libc kconfig cfg) ≡ port_in_force libc kconfig cfg
  port-stable cfg there = ground arith

  settings-reread :
      (cfg : StagedPeer)
      → settings libc kconfig (reread libc kconfig cfg) ≡ settings libc kconfig cfg
  unfolding endpoint_text allowed_text
  settings-reread cfg = elim (Bool-cases (ltb 0 (length cfg.endpoint_ip))) [
    | inl there ↦
        let port = port-stable cfg there in rw (there, port, keepalive-stable cfg.keepalive) refl
    | inr missing ↦ rw (missing, keepalive-stable cfg.keepalive) refl
  ]

  peers_lines-reread :
      (cfgs : List StagedPeer)
      → peers_lines libc kconfig (map (reread libc kconfig) cfgs) ≡ peers_lines libc kconfig cfgs
  peers_lines-reread [] = refl
  peers_lines-reread (cfg ∷ cfgs) =
      ap₂ (λ (l m : List Bytes). codes "\n" ∷ codes "[Peer]\n" ∷ (l ++ m)) (settings-reread cfg)
        (peers_lines-reread cfgs)

  written_peers-restored :
      (ps : List StagedPeer)
      → let qs = map (reread libc kconfig) (written_peers libc kconfig ps) in
        written_peers libc kconfig qs ≡ qs
  written_peers-restored [] = elim (Bool-cases (length kconfig.peer_public_key == 0)) [
    | inl empty ↦ rw empty (rw empty refl)
    | inr full ↦ rw full refl
  ]
  written_peers-restored (cfg ∷ cfgs) = refl

  cfg_str-stable : (text other : Bytes) → cfg_str (cfg_str text other) other ≡ cfg_str text other
  cfg_str-stable [] [] = refl
  cfg_str-stable [] (c ∷ cs) = refl
  cfg_str-stable (c ∷ cs) other = refl

  file-restored :
      (staged : Staged)
      → file libc kconfig (restored libc kconfig staged) ≡ file libc kconfig staged
  file-restored staged =
      let peers =
        ap (peers_lines libc kconfig) (written_peers-restored staged.peers)
        ∙ peers_lines-reread (written_peers libc kconfig staged.peers) in
      ap₂
        (λ (key : Bytes) (lines : List Bytes).
          codes "[Interface]\n"
          ∷ setting_line (codes "PrivateKey") key
          ∷ setting_line (codes "ListenPort") (libc.print_int (pos kconfig.listen_port))
          ∷ lines)
        (cfg_str-stable staged.private_key kconfig.private_key) peers

  -- Given that atoi reads back the numbers that printf prints, where a configuration that can be
  -- saved is saved, loaded over any other one and saved again, the two files are the same.
  pub writeconf-setconf-writeconf :
      PrintsNumbers libc
      → (before staged : Staged) → IsSavable libc kconfig staged
      → (text : Bytes) × (writeconf libc kconfig staged ≡ some text)
        × (writeconf libc kconfig (setconf libc kconfig false before (readable text)).0 ≡ some text)
  writeconf-setconf-writeconf numbers before staged w =
      let (text, written, read) = setconf-writeconf libc kconfig numbers before staged w in
      let ne = decode_key-ne (key_in_force libc kconfig staged) w.key w.decodes in
      let again = restored libc kconfig staged in
      let same = cfg_str-stable staged.private_key kconfig.private_key in
      let ne' : key_in_force libc kconfig again ≢ [] = rw same ne in
      (
        text,
        written,
        rw read (
            writeconf_lem libc kconfig again ne'
            ∙ ap (λ (lines : List Bytes). some (join lines)) (file-restored staged)
            ∙ sym (writeconf_lem libc kconfig staged ne)
            ∙ written),
      )
