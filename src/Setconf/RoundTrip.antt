-- ===== src/Setconf/RoundTrip.antt =====
-- `wg_setconf` reads back what `wg_writeconf` writes.
use gsoc2026_nuttx_wireguard.Base.{
  ℕ, ◌+◌, ◌≤◌, ◌<◌, true, false, List, [], ◌∷◌, some, length, ◌==◌, if◌then◌else◌, ◌≡◌, ◌≢◌, inl,
  inr, refl, sym, ap, ◌∙◌, arith, Bytes, codes, All, map, ltb, Bool-cases,
}
use mathlib.Core.List.{append-nil}
use gsoc2026_nuttx_wireguard.Config.{Kconfig, Libc, pos, ok}
use gsoc2026_nuttx_wireguard.Staged.{StagedPeer, Staged, decode_key, kconfig_peer, find_key}
use gsoc2026_nuttx_wireguard.Staged.Unique.{Unique}
use gsoc2026_nuttx_wireguard.Lifecycle.{cfg_str}
use gsoc2026_nuttx_wireguard.Writeconf.{setting_line, showconf_peer, showconf_peers, writeconf}
use gsoc2026_nuttx_wireguard.Setconf.{readable, empty_acc, load_text, setconf}
use gsoc2026_nuttx_wireguard.Setconf.Lines.{join, conf_lines, conf_loop_lem}
use gsoc2026_nuttx_wireguard.Setconf.Setting.{IsLine, file_lines-IsLine, setting_line-IsLine}
use gsoc2026_nuttx_wireguard.Setconf.Printable.{
  PrintsNumbers, IsPrintable, reread, print_int-Visible,
}
use gsoc2026_nuttx_wireguard.Setconf.Block.{decode_key-Visible, decode_key-ne}
use gsoc2026_nuttx_wireguard.Setconf.Reading.{
  going, with_peers, conf_lines-step, conf_line-interface, flush_peer-empty, apply_setting-port,
  apply_setting-private_key,
}
use gsoc2026_nuttx_wireguard.Setconf.Printed.{
  private_key-IsName, listen_port-IsName, peers_lines, join-peers_lines, conf_lines-setting,
}
use gsoc2026_nuttx_wireguard.Setconf.Restaged.{
  close, conf_lines-nil, conf_lines-block, close-peers_lines,
}
use gsoc2026_nuttx_wireguard.Setconf.Written.{interface-IsLine, peers_lines-IsLine}

length-ne : (text : Bytes) → text ≢ [] → (length text == 0) ≡ false
length-ne [] ne = absurd (ne refl)
length-ne (c ∷ cs) ne = ground arith

module _ (libc : Libc) (kconfig : Kconfig) where
  -- The peers of the file: those that are staged, or that of Kconfig where there is none.
  abbrev pub written_peers : List StagedPeer → List StagedPeer
  written_peers [] = if length kconfig.peer_public_key == 0 then [] else kconfig_peer kconfig ∷ []
  written_peers (cfg ∷ cfgs) = cfg ∷ cfgs

  abbrev pub key_in_force : Staged → Bytes
  key_in_force staged = cfg_str staged.private_key kconfig.private_key

  -- A configuration with a private key that decodes, and printable peers with distinct keys that fit
  -- the array.
  pub record IsSavable (staged : Staged) : Type 0 where
    pub key : Bytes
    pub decodes : decode_key (key_in_force staged) ≡ some key
    pub key_short : length (key_in_force staged) < 48
    pub port : kconfig.listen_port < 65536
    pub printable : All (IsPrintable libc kconfig) (written_peers staged.peers)
    pub unique : Unique (written_peers staged.peers)
    pub bounded : length (written_peers staged.peers) ≤ kconfig.max_peers

  -- The configuration that is read back: the values that are in force.
  abbrev pub restored : Staged → Staged
  restored staged = record {
    private_key = key_in_force staged;
    peers = map (reread libc kconfig) (written_peers staged.peers);
  }

  -- `reread` keeps the keys, and so their order and distinctness.
  find_key-reread :
      (key : Bytes) (i : ℕ) (ps : List StagedPeer)
      → find_key key i (map (reread libc kconfig) ps) ≡ find_key key i ps
  unfolding find_key
  find_key-reread key i [] = refl
  find_key-reread key i (p ∷ ps) = rw (find_key-reread key (i + 1) ps) refl

  Unique-reread : (ps : List StagedPeer) → Unique ps → Unique (map (reread libc kconfig) ps)
  Unique-reread [] u = tt
  Unique-reread (p ∷ ps) (missing, u) =
      (find_key-reread p.public_key 0 ps ∙ missing, Unique-reread ps u)

  -- The lines of a whole file.
  abbrev pub file : Staged → List Bytes
  file staged =
      codes "[Interface]\n"
      ∷ setting_line (codes "PrivateKey") (key_in_force staged)
      ∷ setting_line (codes "ListenPort") (libc.print_int (pos kconfig.listen_port))
      ∷ peers_lines libc kconfig (written_peers staged.peers)

  join-written :
      (ps : List StagedPeer)
      → (if ltb 0 (length ps)
          then showconf_peers libc kconfig ps
          else if length kconfig.peer_public_key == 0
          then []
          else showconf_peer libc kconfig (kconfig_peer kconfig))
        ≡ join (peers_lines libc kconfig (written_peers ps))
  join-written [] = elim (Bool-cases (length kconfig.peer_public_key == 0)) [
    | inl empty ↦ rw empty refl
    | inr full ↦ rw full (
        sym (
          join-peers_lines libc kconfig (kconfig_peer kconfig ∷ [])
          ∙ unfold showconf_peers in
            append-nil (showconf_peer libc kconfig (kconfig_peer kconfig))))
  ]
  join-written (cfg ∷ cfgs) =
      let there : ltb 0 (length (cfg ∷ cfgs)) ≡ true = ground arith in
      rw there (sym (join-peers_lines libc kconfig (cfg ∷ cfgs)))

  pub writeconf_lem :
      (staged : Staged)
      → key_in_force staged ≢ []
      → writeconf libc kconfig staged ≡ some (join (file staged))
  unfolding writeconf
  writeconf_lem staged ne =
      let there : (length (key_in_force staged) == 0) ≡ false =
        length-ne (key_in_force staged) ne in
      rw (there, join-written staged.peers) refl

  module _ (numbers : PrintsNumbers libc) where
    -- The peers of a file, from the first section on.
    close-file :
        (staged : Staged) (cfgs : List StagedPeer)
        → All (IsPrintable libc kconfig) cfgs
        → Unique cfgs
        → length cfgs ≤ kconfig.max_peers
        → close libc kconfig (
            conf_lines libc kconfig
              (with_peers staged [])
              empty_acc
              (peers_lines libc kconfig cfgs))
          ≡ going (with_peers staged (map (reread libc kconfig) cfgs)) empty_acc
    close-file staged [] a u room =
        let start = with_peers staged [] in
        ap (close libc kconfig) (conf_lines-nil libc kconfig start empty_acc)
        ∙ flush_peer-empty libc kconfig start
    close-file staged (c ∷ cs) (p, ps) u room =
        let start = with_peers staged [] in
        ap (close libc kconfig) (
          conf_lines-block libc kconfig numbers start start empty_acc c
            (peers_lines libc kconfig cs) (flush_peer-empty libc kconfig start) p)
        ∙ close-peers_lines libc kconfig numbers start c cs (p, ps) (Unique-reread (c ∷ cs) u)
            (omega arith)

    conf_lines-file :
        (before staged : Staged)
        → IsSavable staged
        → conf_lines libc kconfig (with_peers before []) empty_acc (file staged)
          ≡ conf_lines libc kconfig
              (with_peers (record before { private_key = key_in_force staged }) [])
              empty_acc
              (peers_lines libc kconfig (written_peers staged.peers))
    conf_lines-file before staged w =
        let start = with_peers before [] in
        let keyed = record start { private_key = key_in_force staged } in
        let key = key_in_force staged in
        let port = libc.print_int (pos kconfig.listen_port) in
        let in_range = w.port in
        conf_lines-step libc kconfig start start empty_acc empty_acc (codes "[Interface]\n") _
          (conf_line-interface libc kconfig start empty_acc ∙ flush_peer-empty libc kconfig start)
        ∙ conf_lines-setting libc kconfig start keyed empty_acc empty_acc (codes "PrivateKey") key _
            private_key-IsName (decode_key-Visible key w.key w.decodes)
            (decode_key-ne key w.key w.decodes)
            (apply_setting-private_key libc kconfig start empty_acc key w.key w.decodes w.key_short)
        ∙ conf_lines-setting libc kconfig keyed keyed empty_acc empty_acc (codes "ListenPort") port
            _ listen_port-IsName
            (print_int-Visible libc kconfig numbers kconfig.listen_port (omega arith))
            (numbers.starts kconfig.listen_port (omega arith))
            (apply_setting-port libc kconfig keyed empty_acc port)

    file-IsLine : (staged : Staged) → IsSavable staged → All IsLine (file staged)
    file-IsLine staged w =
        let key = key_in_force staged in
        let short = w.key_short in
        let in_range = w.port in
        let five = numbers.fits 5 kconfig.listen_port (omega arith) (omega arith) in
        let key_fits =
          setting_line-IsLine (codes "PrivateKey") key private_key-IsName
            (decode_key-Visible key w.key w.decodes) (omega arith) in
        let port_fits =
          setting_line-IsLine (codes "ListenPort") (libc.print_int (pos kconfig.listen_port))
            listen_port-IsName
            (print_int-Visible libc kconfig numbers kconfig.listen_port (omega arith))
            (omega arith) in
        let peers_fit =
          peers_lines-IsLine libc kconfig numbers (written_peers staged.peers) w.printable in
        (interface-IsLine libc kconfig numbers, (key_fits, (port_fits, peers_fit)))

    setconf_lem :
        (before : Staged) (lines : List Bytes) (after : Staged)
        → All IsLine lines
        → close libc kconfig (conf_lines libc kconfig (with_peers before []) empty_acc lines)
          ≡ going after empty_acc
        → setconf libc kconfig false before (readable (join lines)) ≡ (after, ok)
    unfolding setconf load_text
    setconf_lem before lines after fit closed =
        let read = file_lines-IsLine (length (join lines)) lines fit (omega arith) in
        let loop =
          conf_loop_lem libc kconfig (length (join lines)) (with_peers before []) empty_acc
            (join lines) in
        rw (loop, read) (rw closed refl)

    -- Given that atoi reads back the numbers that printf prints, a configuration that can be
    -- saved, written by wg_writeconf and read back by wg_setconf over any other one while wg0 is
    -- down, is staged again, with the values that are in force.
    pub setconf-writeconf :
        (before staged : Staged)
        → IsSavable staged
        → (text : Bytes) × (writeconf libc kconfig staged ≡ some text)
          × (setconf libc kconfig false before (readable text) ≡ (restored staged, ok))
    setconf-writeconf before staged w =
        let keyed = record before { private_key = key_in_force staged } in
        (
          join (file staged),
          writeconf_lem staged (decode_key-ne (key_in_force staged) w.key w.decodes),
          setconf_lem before (file staged) (restored staged) (file-IsLine staged w) (
              ap (close libc kconfig) (conf_lines-file before staged w)
              ∙ close-file keyed (written_peers staged.peers) w.printable w.unique w.bounded),
        )
