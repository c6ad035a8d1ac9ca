-- ===== src/Setconf/Printed.antt =====
-- The lines that `wg_writeconf` writes, and what `wg_setconf` makes of the settings of one peer.
use gsoc2026_nuttx_wireguard.Base.{
  Visible, ◌<◌, true, List, [], ◌∷◌, ◌++◌, length, if◌then◌else◌, ◌≡◌, ◌≢◌, inl, inr, refl, sym, ap,
  ap₂, ◌∙◌, arith, Bytes, codes, All, ltb, Bool-cases,
}
use mathlib.Core.List.{append_assoc, append-nil}
use gsoc2026_nuttx_wireguard.Config.{Kconfig, Libc}
use gsoc2026_nuttx_wireguard.Staged.{StagedPeer, Staged}
use gsoc2026_nuttx_wireguard.Writeconf.{
  setting_line, allowed_text, endpoint_text, keepalive_in_force, showconf_peer, showconf_peers,
}
use gsoc2026_nuttx_wireguard.Setconf.{ConfPeer, empty_acc, apply_setting}
use gsoc2026_nuttx_wireguard.Setconf.Lines.{join, conf_lines}
use gsoc2026_nuttx_wireguard.Setconf.Setting.{IsName, IsName-codes, conf_line-setting}
use gsoc2026_nuttx_wireguard.Setconf.Printable.{
  PrintsNumbers, IsAddress, port_in_force, IsPrintable, allowed_text-Visible, endpoint_text-Visible,
  length-allowed_text, length-endpoint_text, print_int-Visible,
}
use gsoc2026_nuttx_wireguard.Setconf.Block.{
  acc_of, decode_key-ne, decode_key-Visible, allowed_text-ne, endpoint_text-ne,
}
use gsoc2026_nuttx_wireguard.Setconf.Reading.{
  going, conf_lines-step, apply_setting-public_key, apply_setting-allowed, apply_setting-endpoint,
  apply_setting-keepalive,
}

pub private_key-IsName : IsName (codes "PrivateKey")
private_key-IsName = IsName-codes _ _ (omega arith) (omega arith) (omega arith) (omega arith)

pub listen_port-IsName : IsName (codes "ListenPort")
listen_port-IsName = IsName-codes _ _ (omega arith) (omega arith) (omega arith) (omega arith)

pub public_key-IsName : IsName (codes "PublicKey")
public_key-IsName = IsName-codes _ _ (omega arith) (omega arith) (omega arith) (omega arith)

pub allowed-IsName : IsName (codes "AllowedIPs")
allowed-IsName = IsName-codes _ _ (omega arith) (omega arith) (omega arith) (omega arith)

pub endpoint-IsName : IsName (codes "Endpoint")
endpoint-IsName = IsName-codes _ _ (omega arith) (omega arith) (omega arith) (omega arith)

pub keepalive-IsName : IsName (codes "PersistentKeepalive")
keepalive-IsName = IsName-codes _ _ (omega arith) (omega arith) (omega arith) (omega arith)

module _ (libc : Libc) (kconfig : Kconfig) where
  abbrev pub key_line : StagedPeer → Bytes
  key_line cfg = setting_line (codes "PublicKey") cfg.public_key

  abbrev pub allowed_line : StagedPeer → Bytes
  allowed_line cfg = setting_line (codes "AllowedIPs") (allowed_text libc kconfig cfg)

  abbrev pub endpoint_line : StagedPeer → Bytes
  endpoint_line cfg = setting_line (codes "Endpoint") (endpoint_text libc kconfig cfg)

  abbrev pub keepalive_line : StagedPeer → Bytes
  keepalive_line cfg =
      setting_line (codes "PersistentKeepalive")
        (libc.print_int (keepalive_in_force libc kconfig cfg.keepalive))

  -- The lines of the settings of a peer, without and with an endpoint.
  abbrev pub settings : StagedPeer → List Bytes
  settings cfg =
      key_line cfg
      ∷ allowed_line cfg
      ∷ (if ltb 0 (length cfg.endpoint_ip)
          then endpoint_line cfg ∷ keepalive_line cfg ∷ []
          else keepalive_line cfg ∷ [])

  abbrev pub peers_lines : List StagedPeer → List Bytes
  peers_lines [] = []
  peers_lines (cfg ∷ cfgs) = codes "\n" ∷ codes "[Peer]\n" ∷ (settings cfg ++ peers_lines cfgs)

  join-append : (xs ys : List Bytes) → join (xs ++ ys) ≡ join xs ++ join ys
  join-append [] ys = refl
  join-append (x ∷ xs) ys =
      ap (λ t. x ++ t) (join-append xs ys) ∙ sym (append_assoc x (join xs) (join ys))

  join-settings :
      (cfg : StagedPeer)
      → codes "\n" ++ (codes "[Peer]\n" ++ join (settings cfg)) ≡ showconf_peer libc kconfig cfg
  unfolding showconf_peer
  join-settings cfg = elim (Bool-cases (ltb 0 (length cfg.endpoint_ip))) [
    | inl there ↦ rw there (simp append-nil)
    | inr missing ↦ rw missing (simp append-nil)
  ]

  -- The text of the peers is made of these lines.
  pub join-peers_lines :
      (cfgs : List StagedPeer) → join (peers_lines cfgs) ≡ showconf_peers libc kconfig cfgs
  unfolding showconf_peers
  join-peers_lines [] = refl
  join-peers_lines (cfg ∷ cfgs) =
      ap (λ (t : Bytes). codes "\n[Peer]\n" ++ t) (join-append (settings cfg) (peers_lines cfgs))
      ∙ ap₂ (λ (t u : Bytes). t ++ u) (join-settings cfg) (join-peers_lines cfgs)

  -- A printed setting that is applied without an error.
  pub conf_lines-setting :
      (staged after : Staged) (acc next : ConfPeer) (name value : Bytes) (lines : List Bytes)
      → IsName name
      → All Visible value
      → value ≢ []
      → apply_setting libc kconfig staged acc name value ≡ going after next
      → conf_lines libc kconfig staged acc (setting_line name value ∷ lines)
        ≡ conf_lines libc kconfig after next lines
  conf_lines-setting staged after acc next name value lines n visible ne applied =
      conf_lines-step libc kconfig staged after acc next (setting_line name value) lines
        (conf_line-setting libc kconfig staged acc name value n visible ne ∙ applied)

  module _ (numbers : PrintsNumbers libc) where
    module _ (staged : Staged) (cfg : StagedPeer) (rest : List Bytes)
        (p : IsPrintable libc kconfig cfg) where
      abbrev Runs : ConfPeer → List Bytes → Type 0
      Runs acc lines =
          conf_lines libc kconfig staged acc lines
          ≡ conf_lines libc kconfig staged (acc_of libc kconfig cfg) rest

      abbrev number : Bytes
      number = libc.print_int (keepalive_in_force libc kconfig cfg.keepalive)

      reads_keepalive :
          (acc : ConfPeer)
          → record acc { keepalive = keepalive_in_force libc kconfig cfg.keepalive }
            ≡ acc_of libc kconfig cfg
          → Runs acc (keepalive_line cfg ∷ rest)
      reads_keepalive acc same =
          let n = p.interval in
          let small = p.interval_small in
          let printed = ap libc.print_int p.keepalive in
          let visible : All Visible number =
            rw printed (print_int-Visible libc kconfig numbers n small) in
          let ne : number ≢ [] = rw printed (numbers.starts n small) in
          let read : libc.atoi number ≡ keepalive_in_force libc kconfig cfg.keepalive =
            ap libc.atoi printed ∙ numbers.atoi_print n small ∙ sym p.keepalive in
          conf_lines-setting staged staged acc _ (codes "PersistentKeepalive") number rest
            keepalive-IsName visible ne
            (apply_setting-keepalive libc kconfig staged acc number _ read)
          ∙ ap (λ (a : ConfPeer). conf_lines libc kconfig staged a rest) same

      reads_allowed :
          (acc : ConfPeer) (lines : List Bytes)
          → Runs (record acc { allowed = allowed_text libc kconfig cfg }) lines
          → Runs acc (allowed_line cfg ∷ lines)
      reads_allowed acc lines =
          let text = allowed_text libc kconfig cfg in
          let short = length-allowed_text libc kconfig numbers cfg p in
          let step =
            conf_lines-setting staged staged acc _ (codes "AllowedIPs") text lines allowed-IsName
              (allowed_text-Visible libc kconfig numbers cfg p)
              (allowed_text-ne libc kconfig numbers cfg)
              (apply_setting-allowed libc kconfig staged acc text (omega arith)) in
          λ later. step ∙ later

      reads_key :
          (lines : List Bytes)
          → Runs (record empty_acc { pubkey = cfg.public_key; valid = true }) lines
          → Runs empty_acc (key_line cfg ∷ lines)
      reads_key lines later =
          conf_lines-setting staged staged empty_acc _ (codes "PublicKey") cfg.public_key lines
            public_key-IsName (decode_key-Visible cfg.public_key p.key p.decodes)
            (decode_key-ne cfg.public_key p.key p.decodes)
            (apply_setting-public_key libc kconfig staged empty_acc cfg.public_key p.key_short)
          ∙ later

      reads_endpoint :
          (acc : ConfPeer) (lines : List Bytes)
          → IsAddress libc cfg.endpoint_ip
          → port_in_force libc kconfig cfg < 65536
          → Runs (record acc { endpoint = endpoint_text libc kconfig cfg }) lines
          → Runs acc (endpoint_line cfg ∷ lines)
      reads_endpoint acc lines a high later =
          let text = endpoint_text libc kconfig cfg in
          let short = length-endpoint_text libc kconfig numbers cfg a high in
          conf_lines-setting staged staged acc _ (codes "Endpoint") text lines endpoint-IsName
            (endpoint_text-Visible libc kconfig numbers cfg a high)
            (endpoint_text-ne libc kconfig numbers cfg)
            (apply_setting-endpoint libc kconfig staged acc text (omega arith))
          ∙ later

      -- The settings of a peer fill the accumulator.
      pub conf_lines-settings : Runs empty_acc (settings cfg ++ rest)
      conf_lines-settings = elim (Bool-cases (ltb 0 (length cfg.endpoint_ip))) [
        | inl there ↦ elim p.endpoint [
          | inl missing ↦ (let bad = rw missing at there in cc)
          | inr (a, low, high) ↦
              let lines : settings cfg ++ rest
                  ≡ key_line cfg
                    ∷ allowed_line cfg
                    ∷ endpoint_line cfg
                    ∷ keepalive_line cfg
                    ∷ rest =
                rw there refl in
              ap (conf_lines libc kconfig staged empty_acc) lines
              ∙ reads_key _ (
                  reads_allowed _ _ (reads_endpoint _ _ a high (reads_keepalive _ (rw there refl))))
        ]
        | inr missing ↦
            let lines : settings cfg ++ rest
                ≡ key_line cfg ∷ allowed_line cfg ∷ keepalive_line cfg ∷ rest =
              rw missing refl in
            ap (conf_lines libc kconfig staged empty_acc) lines
            ∙ reads_key _ (reads_allowed _ _ (reads_keepalive _ (rw missing refl)))
      ]
