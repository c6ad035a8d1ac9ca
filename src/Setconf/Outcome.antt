-- ===== src/Setconf/Outcome.antt =====
-- What a configuration file can do to the staged configuration.
use gsoc2026_nuttx_wireguard.Base.{
  ◌<◌, Bool, true, false, ◌||◌, List, [], ◌∷◌, length, length-take, ◌==◌, ◌≡◌, ◌≢◌, ◌⊎◌, inl, inr,
  refl, arith, Bytes, split_first, Bool-cases, Option-cases,
}
use gsoc2026_nuttx_wireguard.Config.{Kconfig, Libc, ok, err, ebusy, is_ok}
use gsoc2026_nuttx_wireguard.Staged.{Staged, set_private_key}
use gsoc2026_nuttx_wireguard.Staged.Unique.{IsStaged, set_peer-IsStaged}
use gsoc2026_nuttx_wireguard.Conf.{conf_trim}
use gsoc2026_nuttx_wireguard.Setconf.{
  ConfPeer, empty_acc, c_string, nonempty, Progress, File, readable, unreadable, flush_peer,
  apply_setting, conf_line, load_text, setconf,
}
use gsoc2026_nuttx_wireguard.Setconf.Lines.{file_lines, conf_lines, conf_loop_lem}

module _ (libc : Libc) (kconfig : Kconfig) where
  -- The staged list is well formed, and the key text of the accumulator fits its field.
  pub record IsProgress (p : Progress) : Type 0 where
    pub list : IsStaged kconfig p.staged
    pub key : length p.acc.pubkey < 48

  flush_peer-IsProgress :
      (staged : Staged) (acc : ConfPeer)
      → IsStaged kconfig staged
      → length acc.pubkey < 48
      → IsProgress (flush_peer libc kconfig staged acc)
  unfolding flush_peer
  flush_peer-IsProgress staged acc w short =
      let kept =
        set_peer-IsStaged libc kconfig staged acc.pubkey false (nonempty acc.endpoint)
          (nonempty acc.allowed) acc.keepalive short w in
      elim (Bool-cases acc.valid) [
        | inl full ↦ rw full (record { list = kept; key = omega arith })
        | inr empty ↦ rw empty (record { list = w; key = omega arith })
      ]

  set_private_key-peers :
      (staged : Staged) (v : Bytes) → (set_private_key false staged v).0.peers ≡ staged.peers
  unfolding set_private_key
  set_private_key-peers staged v = ground arith

  same_list :
      (staged after : Staged)
      → after.peers ≡ staged.peers
      → IsStaged kconfig staged
      → IsStaged kconfig after
  same_list staged after same w = record {
    bounded = rw same (w.bounded);
    unique = rw same (w.unique);
  }

  apply_setting_lem :
      (staged : Staged) (acc : ConfPeer) (k v : Bytes)
      → length acc.pubkey < 48
      → let p = apply_setting libc kconfig staged acc k v in
        (p.staged.peers ≡ staged.peers) × (length p.acc.pubkey < 48)
  unfolding apply_setting
  apply_setting_lem staged acc k v short =
      ground (arith, set_private_key-peers staged v, length-take 47 v)

  conf_line-IsProgress :
      (staged : Staged) (acc : ConfPeer) (line : Bytes)
      → IsStaged kconfig staged
      → length acc.pubkey < 48
      → IsProgress (conf_line libc kconfig staged acc line)
  conf_line-IsProgress staged acc line w short = by_text (conf_trim (c_string line)) refl
    where
      same : IsProgress (record { staged = staged; acc = acc; ret = ok })
      same = record { list = w; key = short }

      by_text :
          (k : Bytes)
          → conf_trim (c_string line) ≡ k
          → IsProgress (conf_line libc kconfig staged acc line)
      by_text [] e = unfold conf_line in rw (e, conf_line) same
      by_text (c ∷ cs) e = elim (Bool-cases (c == b'#' || c == b';')) [
        | inl comment ↦ unfold conf_line in rw (e, conf_line, comment) same
        | inr content ↦ elim (Bool-cases (c == b'[')) [
          | inl section ↦
              unfold conf_line in
              rw (e, conf_line, content, section) (flush_peer-IsProgress staged acc w short)
          | inr inside ↦ elim (Option-cases (split_first b'=' (c ∷ cs))) [
            | inl odd ↦ unfold conf_line in rw (e, conf_line, content, inside, odd, conf_line) same
            | inr ((key, value), parts) ↦
                let (peers, fits) =
                  apply_setting_lem staged acc (conf_trim key) (conf_trim value) short in
                unfold conf_line in
                rw (e, conf_line, content, inside, parts, conf_line)
                  (record { list = same_list staged _ peers w; key = fits })
          ]
        ]
      ]

  conf_lines-IsProgress :
      (staged : Staged) (acc : ConfPeer) (lines : List Bytes)
      → IsStaged kconfig staged
      → length acc.pubkey < 48
      → IsProgress (conf_lines libc kconfig staged acc lines)
  unfolding conf_lines
  conf_lines-IsProgress staged acc [] w short = record { list = w; key = short }
  conf_lines-IsProgress staged acc (line ∷ lines) w short =
      let p = conf_line-IsProgress staged acc line w short in
      let next = conf_line libc kconfig staged acc line in
      elim (Bool-cases (is_ok next.ret)) [
        | inl good ↦ rw good (conf_lines-IsProgress next.staged next.acc lines p.list p.key)
        | inr bad ↦ rw bad p
      ]

  no_peers-IsStaged : (staged : Staged) → IsStaged kconfig (record staged { peers = [] })
  no_peers-IsStaged staged = record { bounded = omega arith; unique = tt }

  load_text-Outcome :
      (staged : Staged) (text : Bytes)
      → let (after, ret) = load_text libc kconfig staged text in
        IsStaged kconfig after × (ret ≢ ok → after.peers ≡ [])
  unfolding load_text
  load_text-Outcome staged text =
      let cleared : Staged = record staged { peers = [] } in
      let lines = file_lines (length text) text in
      let p = conf_lines libc kconfig cleared empty_acc lines in
      let read =
        conf_lines-IsProgress cleared empty_acc lines (no_peers-IsStaged staged) (omega arith) in
      let flushed = flush_peer-IsProgress p.staged p.acc read.list read.key in
      rw (conf_loop_lem libc kconfig (length text) cleared empty_acc text)
        (elim (Bool-cases (is_ok p.ret)) [
          | inl good ↦ elim (Bool-cases (is_ok (flush_peer libc kconfig p.staged p.acc).ret)) [
            | inl whole ↦ rw (good, whole) (flushed.list, λ e. absurd (e refl))
            | inr refused ↦
                rw (good, refused)
                  (no_peers-IsStaged ((flush_peer libc kconfig p.staged p.acc).staged), λ e. refl)
          ]
          | inr bad ↦ rw (bad, bad) (no_peers-IsStaged (p.staged), λ e. refl)
        ])

  -- Whatever a configuration file holds, `wg_setconf` leaves a staged list within the array with
  -- distinct keys; if it fails, no peer is staged, unless wg0 is up or the file does not open, when
  -- nothing changes.
  pub setconf-Outcome :
      (registered : Bool) (staged : Staged) (file : File)
      → IsStaged kconfig staged
      → let (after, ret) = setconf libc kconfig registered staged file in
        IsStaged kconfig after
        × (ret ≢ ok → (after.peers ≡ []) ⊎ (after ≡ staged))
        × (registered ≡ true → (after ≡ staged) × (ret ≡ err ebusy))
  unfolding setconf
  setconf-Outcome true staged (readable text) w = (w, λ e. inr refl, λ e. (refl, refl))
  setconf-Outcome true staged (unreadable e) w = (w, λ f. inr refl, λ f. (refl, refl))
  setconf-Outcome false staged (unreadable e) w = (w, λ f. inr refl, λ f. cc)
  setconf-Outcome false staged (readable text) w =
      let (list, dropped) = load_text-Outcome staged text in (list, λ e. inl (dropped e), λ f. cc)
