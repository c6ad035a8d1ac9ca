-- ===== src/Setconf/Restaged.antt =====
-- The peers that `wg_setconf` stages from the lines of `wg_writeconf`.
use gsoc2026_nuttx_wireguard.Base.{
  ℕ, ◌+◌, ◌≤◌, false, List, [], ◌∷◌, ◌++◌, none, length, length-append, if◌then◌else◌, ◌≡◌, inl,
  inr, refl, sym, ap, ◌∙◌, arith, Bytes, codes, All, map, str_eq, Bool-cases, subst,
}
use mathlib.Core.List.{append_assoc}
use gsoc2026_nuttx_wireguard.Config.{Kconfig, Libc, is_ok}
use gsoc2026_nuttx_wireguard.Staged.{StagedPeer, Staged, find_key}
use gsoc2026_nuttx_wireguard.Staged.Unique.{Unique, str_ne-sym, find_key-shift}
use gsoc2026_nuttx_wireguard.Setconf.{ConfPeer, Progress, flush_peer, empty_acc}
use gsoc2026_nuttx_wireguard.Setconf.Lines.{conf_lines}
use gsoc2026_nuttx_wireguard.Setconf.Printable.{PrintsNumbers, IsPrintable, reread}
use gsoc2026_nuttx_wireguard.Setconf.Block.{acc_of}
use gsoc2026_nuttx_wireguard.Setconf.Reading.{
  going, with_peers, conf_lines-step, conf_line-blank, conf_line-peer, flush_peer-acc_of,
}
use gsoc2026_nuttx_wireguard.Setconf.Printed.{settings, peers_lines, conf_lines-settings}

find_key-other :
    (key : Bytes) (i : ℕ) (before after : List StagedPeer) (p : StagedPeer)
    → find_key key i (before ++ (p ∷ after)) ≡ none
    → str_eq p.public_key key ≡ false
unfolding find_key
find_key-other key i [] after p missing = elim (Bool-cases (str_eq p.public_key key)) [
  | inl e ↦ absurd (ground arith)
  | inr ne ↦ ne
]
find_key-other key i (q ∷ before) after p missing = elim (Bool-cases (str_eq q.public_key key)) [
  | inl e ↦ absurd (ground arith)
  | inr ne ↦ find_key-other key (i + 1) before after p (rw ne at missing)
]

-- A key is not among the entries before it.
Unique-before :
    (before after : List StagedPeer) (p : StagedPeer)
    → Unique (before ++ (p ∷ after))
    → find_key p.public_key 0 before ≡ none
unfolding find_key
Unique-before [] after p u = refl
Unique-before (q ∷ before) after p (first, u) =
    let other = str_ne-sym _ _ (find_key-other q.public_key 0 before after p first) in
    rw other (find_key-shift p.public_key 0 1 before (Unique-before before after p u))

module _ (libc : Libc) (kconfig : Kconfig) where
  -- The flush after the last line.
  abbrev pub close : Progress → Progress
  close p = if is_ok p.ret then flush_peer libc kconfig p.staged p.acc else p

  pub conf_lines-nil :
      (staged : Staged) (acc : ConfPeer) → conf_lines libc kconfig staged acc [] ≡ going staged acc
  unfolding conf_lines
  conf_lines-nil staged acc = refl

  module _ (numbers : PrintsNumbers libc) where
    -- The lines of a peer, where the one before it is flushed without an error.
    pub conf_lines-block :
        (staged after : Staged) (acc : ConfPeer) (cfg : StagedPeer) (rest : List Bytes)
        → flush_peer libc kconfig staged acc ≡ going after empty_acc
        → IsPrintable libc kconfig cfg
        → conf_lines libc kconfig staged acc
            (codes "\n" ∷ codes "[Peer]\n" ∷ (settings libc kconfig cfg ++ rest))
          ≡ conf_lines libc kconfig after (acc_of libc kconfig cfg) rest
    conf_lines-block staged after acc cfg rest flushed p =
        conf_lines-step libc kconfig staged staged acc acc (codes "\n") _
          (conf_line-blank libc kconfig staged acc)
        ∙ conf_lines-step libc kconfig staged after acc empty_acc (codes "[Peer]\n") _
            (conf_line-peer libc kconfig staged acc ∙ flushed)
        ∙ conf_lines-settings libc kconfig numbers after cfg rest p

    -- The lines of the later peers, while the settings of `cfg` wait in the accumulator.
    pub close-peers_lines :
        (staged : Staged) (cfg : StagedPeer) (cfgs : List StagedPeer)
        → All (IsPrintable libc kconfig) (cfg ∷ cfgs)
        → Unique (staged.peers ++ map (reread libc kconfig) (cfg ∷ cfgs))
        → length staged.peers + length (cfg ∷ cfgs) ≤ kconfig.max_peers
        → close (
            conf_lines libc kconfig staged
              (acc_of libc kconfig cfg)
              (peers_lines libc kconfig cfgs))
          ≡ going
              (with_peers staged (staged.peers ++ map (reread libc kconfig) (cfg ∷ cfgs)))
              empty_acc
    close-peers_lines staged cfg [] (p, _) u room =
        let missing = Unique-before staged.peers [] (reread libc kconfig cfg) u in
        ap close (conf_lines-nil staged (acc_of libc kconfig cfg))
        ∙ flush_peer-acc_of libc kconfig numbers staged cfg p missing (omega arith)
    close-peers_lines staged cfg (c ∷ cs) (p, ps) u room =
        let this = reread libc kconfig cfg in
        let others = map (reread libc kconfig) (c ∷ cs) in
        let missing = Unique-before staged.peers others this u in
        let flushed = flush_peer-acc_of libc kconfig numbers staged cfg p missing (omega arith) in
        let after = with_peers staged (staged.peers ++ (this ∷ [])) in
        let regroup = append_assoc staged.peers (this ∷ []) others in
        ap close (
          conf_lines-block staged after (acc_of libc kconfig cfg) c (peers_lines libc kconfig cs)
            flushed (ps.0))
        ∙ close-peers_lines after c cs ps (subst Unique (sym regroup) u)
            (omega (arith, length-append {0} staged.peers (this ∷ [])))
        ∙ ap (λ (l : List StagedPeer). going (with_peers staged l) empty_acc) regroup
