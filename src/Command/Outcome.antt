-- ===== src/Command/Outcome.antt =====
-- What the command `wg` leaves behind, and its exit code.
use gsoc2026_nuttx_wireguard.Base.{
  ℕ, Bool, true, false, not, List, [], ◌∷◌, Option, none, some, ◌==◌, ◌≡◌, ◌≢◌, refl, Bytes, codes,
  str_eq, inl, inr, arith, Option-cases, if_lem, str_eq_refl, str_eq_iff,
}
use gsoc2026_nuttx_wireguard.Crypto.{Crypto}
use gsoc2026_nuttx_wireguard.Config.{Kconfig, Libc, Errno, Ret, ok, err, is_ok}
use gsoc2026_nuttx_wireguard.Enroll.{Labels}
use gsoc2026_nuttx_wireguard.Staged.{
  Staged, set_private_key, set_peer, remove_peer, decode_key, find_key,
}
use gsoc2026_nuttx_wireguard.Staged.Peers.{SetPeer, set_peer-SetPeer}
use gsoc2026_nuttx_wireguard.Setconf.{File, readable, unreadable, setconf}
use gsoc2026_nuttx_wireguard.Writeconf.{saveconf, showconf, writeconf}
use gsoc2026_nuttx_wireguard.Lifecycle.Bringup.{initialize-registered}
use gsoc2026_nuttx_wireguard.Command.{
  System, Run, do_set, set_peer_args, run_pubkey, run_showconf, run_saveconf, run_setconf, run_set,
  run_down, run_up, main, peer_settings, no_settings, exit_code, is_remove, contents, stdin_key,
  print, print_key,
}

-- The staged configuration is as it was, or the exit code is 0.
abbrev Careful : Staged → Staged × ℕ → Type 0
Careful staged (after, code) = code ≢ 0 → after ≡ staged

set_private_key-Careful :
    (up : Bool) (staged : Staged) (key : Bytes)
    → let (after, ret) = set_private_key up staged key in Careful staged (after, exit_code ret)
unfolding set_private_key
set_private_key-Careful true staged key = λ bad. refl
set_private_key-Careful false staged key = elim (Option-cases (decode_key key)) [
  | inl wrong ↦ rw (wrong, set_private_key) (λ bad. refl)
  | inr (k, right) ↦ rw (right, set_private_key) (λ bad. absurd (bad refl))
]

remove_peer-Careful :
    (up : Bool) (staged : Staged) (key : Bytes)
    → let (after, ret) = remove_peer up staged key in Careful staged (after, exit_code ret)
unfolding remove_peer
remove_peer-Careful true staged key = λ bad. refl
remove_peer-Careful false staged key = elim (Option-cases (find_key key 0 staged.peers)) [
  | inl wrong ↦ rw (wrong, remove_peer) (λ bad. refl)
  | inr (k, right) ↦ rw (right, remove_peer) (λ bad. absurd (bad refl))
]

module _ (libc : Libc) (kconfig : Kconfig) where
  SetPeer-Careful :
      (staged : Staged) (key : Bytes) (p : Staged × Ret)
      → SetPeer libc kconfig staged key p
      → Careful staged (p.0, exit_code p.1)
  SetPeer-Careful staged key (after, ok) done bad = absurd (bad refl)
  SetPeer-Careful staged key (after, err e) same bad = same

  set_peer_args-Careful :
      (up : Bool) (staged : Staged) (key : Bytes) (options : List Bytes)
      → Careful staged (set_peer_args libc kconfig up staged key options)
  unfolding set_peer_args
  set_peer_args-Careful up staged key options =
      elim (Option-cases (peer_settings libc no_settings options)) [
        | inl bad ↦ rw (bad, set_peer_args) (λ code. refl)
        | inr (s, good) ↦
            rw (good, set_peer_args)
              (SetPeer-Careful staged key _
                (set_peer-SetPeer libc kconfig staged key s.endpoint s.allowed s.keepalive up))
      ]

  -- `wg set` with any arguments either exits with 0 or leaves the staged configuration as it was.
  pub do_set-Careful :
      (up : Bool) (staged : Staged) (args : List Bytes)
      → (do_set libc kconfig up staged args).1 ≢ 0
      → (do_set libc kconfig up staged args).0 ≡ staged
  unfolding do_set
  do_set-Careful up staged [] = λ bad. refl
  do_set-Careful up staged (setting ∷ []) = λ bad. refl
  do_set-Careful up staged (setting ∷ value ∷ options) =
      if_lem (Careful staged) (str_eq setting (codes "private-key"))
        (set_private_key-Careful up staged value)
        (if_lem (Careful staged) (not (str_eq setting (codes "peer"))) (λ bad. refl)
          (if_lem (Careful staged) (is_remove options) (remove_peer-Careful up staged value)
            (set_peer_args-Careful up staged value options)))

  -- A saving that succeeds.
  saveconf_lem :
      (open_fails : Option Errno) (reaches : Bytes → Bytes) (close_fails : Option Errno)
      (staged : Staged) (file : Option Bytes)
      → let (after, ret) = saveconf libc kconfig open_fails reaches close_fails staged file in
        exit_code ret ≡ 0
        → (text : Bytes) × (writeconf libc kconfig staged ≡ some text)
          × (after ≡ some (reaches text))
          × (ret ≡ ok)
  unfolding saveconf
  saveconf_lem (some e) reaches close_fails staged file h = absurd (ground arith)
  saveconf_lem none reaches close_fails staged file h =
      elim (Option-cases (writeconf libc kconfig staged)) [
        | inl empty ↦ let h1 = rw (empty, saveconf) at h in absurd (ground arith)
        | inr (text, full) ↦ elim (Option-cases close_fails) [
          | inl closed ↦
              (text, full, rw (full, saveconf, closed) refl, rw (full, saveconf, closed) refl)
          | inr (e, torn) ↦ let h1 = rw (full, saveconf, torn) at h in absurd (ground arith)
        ]
      ]

  showconf_lem :
      (staged : Staged) (text : Bytes)
      → writeconf libc kconfig staged ≡ some text
      → showconf libc kconfig staged ≡ (text, ok)
  unfolding showconf
  showconf_lem staged text full = rw (full, showconf) refl

  set_peer_args-up :
      (staged : Staged) (key : Bytes) (options : List Bytes)
      → (set_peer_args libc kconfig true staged key options).0 ≡ staged
  unfolding set_peer_args set_peer
  set_peer_args-up staged key options =
      elim (Option-cases (peer_settings libc no_settings options)) [
        | inl bad ↦ rw (bad, set_peer_args) refl
        | inr (s, good) ↦ rw (good, set_peer_args) refl
      ]

  abbrev Unchanged : Staged → Staged × ℕ → Type 0
  Unchanged staged p = p.0 ≡ staged

  do_set-up :
      (staged : Staged) (args : List Bytes)
      → Unchanged staged (do_set libc kconfig true staged args)
  unfolding do_set set_private_key remove_peer
  do_set-up staged [] = refl
  do_set-up staged (setting ∷ []) = refl
  do_set-up staged (setting ∷ value ∷ options) =
      if_lem (Unchanged staged) (str_eq setting (codes "private-key")) refl (
        if_lem (Unchanged staged) (not (str_eq setting (codes "peer"))) refl (
          if_lem (Unchanged staged) (is_remove options) refl
            (set_peer_args-up staged value options)))

  setconf-up : (staged : Staged) (file : File) → (setconf libc kconfig true staged file).0 ≡ staged
  unfolding setconf
  setconf-up staged (readable text) = refl
  setconf-up staged (unreadable e) = refl

module _ (crypto : Crypto) (labels : Labels) (libc : Libc) (kconfig : Kconfig) (run : Run)
    (sys : System) where
  abbrev Stays : System × ℕ → Type 0
  Stays (after, code) = after.staged ≡ sys.staged

  print_key-Stays : (key : Option Bytes) → Stays (print_key sys key)
  print_key-Stays none = refl
  print_key-Stays (some key) = refl

  run_pubkey-Stays : (args : List Bytes) → Stays (run_pubkey crypto run sys args)
  unfolding run_pubkey
  run_pubkey-Stays [] = elim (Option-cases (stdin_key run.stdin)) [
    | inl nothing ↦ rw (nothing, run_pubkey) refl
    | inr ([], blank) ↦ rw (blank, run_pubkey) refl
    | inr (c ∷ cs, key) ↦ rw (key, run_pubkey) (print_key-Stays _)
  ]
  run_pubkey-Stays ([] ∷ rest) = refl
  run_pubkey-Stays ((c ∷ cs) ∷ rest) = print_key-Stays _

  run_up-Stays : Stays (run_up crypto labels libc kconfig run sys)
  unfolding run_up
  run_up-Stays = if_lem Stays (sys.wg0.registered) refl (if_lem Stays (is_ok _) refl refl)

  run_down-Stays : Stays (run_down kconfig run sys)
  unfolding run_down
  run_down-Stays = if_lem (λ (after : System). after.staged ≡ sys.staged) (is_ok _) refl refl

  run_saveconf-Stays : (path : Bytes) → Stays (run_saveconf libc kconfig run sys path)
  unfolding run_saveconf
  run_saveconf-Stays path =
      if_lem (λ (after : System). after.staged ≡ sys.staged) (is_ok _) refl refl

  -- While wg0 is up, no `wg` command changes the staged configuration.
  pub main-staged :
      (args : List Bytes)
      → sys.wg0.registered ≡ true
      → (main crypto labels libc kconfig run sys args).0.staged ≡ sys.staged
  unfolding main
  main-staged [] up = run_up-Stays
  main-staged (command ∷ rest) up = if_lem Stays (str_eq command (codes "show")) refl (
      if_lem Stays (str_eq command (codes "genkey")) (print_key-Stays _) (
        if_lem Stays (str_eq command (codes "pubkey")) (run_pubkey-Stays rest) (
          if_lem Stays (str_eq command (codes "showconf")) (unfold run_showconf in refl) (
            if_lem Stays (str_eq command (codes "saveconf")) (run_saveconf-Stays _) (
              if_lem Stays (str_eq command (codes "setconf"))
                (unfold run_setconf in rw up (setconf-up libc kconfig sys.staged _))
                (if_lem Stays (str_eq command (codes "set"))
                  (unfold run_set in rw up (do_set-up libc kconfig sys.staged rest))
                  (if_lem Stays (str_eq command (codes "down")) run_down-Stays
                    (if_lem Stays (str_eq command (codes "up")) run_up-Stays refl))))))))

  -- `wg` without arguments exits with 0 exactly if wg0 is registered afterwards.
  pub main-up :
      let (after, code) = main crypto labels libc kconfig run sys [] in
      after.wg0.registered ≡ (code == 0)
  unfolding main run_up
  main-up =
      let brought =
        initialize-registered crypto labels libc kconfig run.answers run.readings sys.staged
          sys.wg0 in
      ground arith

  -- If `wg saveconf` with a file exits with 0, there is a text that `wg showconf` prints, which exits
  -- with 0 too; the file holds what of that text its writes brought there, which the exit code does
  -- not say to be all of it; and no other file has changed.
  pub saveconf-showconf :
      (path : Bytes)
      → (main crypto labels libc kconfig run sys (codes "saveconf" ∷ path ∷ [])).1 ≡ 0
      → let after = (main crypto labels libc kconfig run sys (codes "saveconf" ∷ path ∷ [])).0 in
        (text : Bytes) × (after.files path ≡ readable (run.reaches text))
        × (main crypto labels libc kconfig run sys (codes "showconf" ∷ []) ≡ (print sys text, 0))
        × ((other : Bytes) → other ≢ path → after.files other ≡ sys.files other)
  unfolding main str_eq run_saveconf run_showconf
  saveconf-showconf path h =
      let (text, written, kept, fine) =
        saveconf_lem libc kconfig run.open_fails run.reaches run.close_fails sys.staged
          (contents (sys.files path)) h in
      (
        text,
        rw (fine, kept, str_eq_refl) refl,
        rw (showconf_lem libc kconfig sys.staged text written) refl,
        λ other ne.
            let differ : str_eq other path ≡ false = ground (arith, str_eq_iff other path) in
            rw (fine, differ) refl,
      )
