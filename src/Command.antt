-- ===== src/Command.antt =====
-- netutils/wireguard/wg_main.c: the command `wg`. An argument vector is the list of the arguments
-- after the name of the program; what goes to stderr is left out.
pub mod Outcome
pub mod Saved
use gsoc2026_nuttx_wireguard.Base.{
  ℕ, ◌+◌, ◌-◌, Bool, false, ◌||◌, List, [], ◌∷◌, ◌++◌, Option, none, some, ◌==◌, if◌then◌else◌,
  Bytes, codes, str_eq, not,
}
use gsoc2026_nuttx_wireguard.Device.{Netdev, Readings}
use gsoc2026_nuttx_wireguard.Crypto.{Crypto}
use gsoc2026_nuttx_wireguard.Config.{
  Kconfig, Libc, ℤ, pos, negsuc, Errno, Ret, ok, err, is_ok, key_strlen,
}
use gsoc2026_nuttx_wireguard.Enroll.{Labels}
use gsoc2026_nuttx_wireguard.Staged.{Staged, set_private_key, set_peer, remove_peer}
use gsoc2026_nuttx_wireguard.Setconf.{File, readable, unreadable, fgets, c_string, setconf}
use gsoc2026_nuttx_wireguard.Writeconf.{showconf, saveconf}
use gsoc2026_nuttx_wireguard.Lifecycle.{Answers, initialize, down, genkey, pubkey}
use gsoc2026_nuttx_wireguard.Show.{show}

-- What the command works on: the staged configuration, wg0, the files by their names, and what has
-- been printed.
pub record System : Type 0 where
  pub staged : Staged
  pub wg0 : Netdev
  pub files : Bytes → File
  pub printed : Bytes

-- What the operating system does in one run: the answers to `wg_initialize`, the clock and the
-- random bytes, how `wg_down` and `wg_saveconf` fare, and what stdin holds.
pub record Run : Type 0 where
  pub answers : Answers
  pub readings : Readings
  pub seen : ℕ → Bool
  pub open_fails : Option Errno
  pub reaches : Bytes → Bytes
  pub close_fails : Option Errno
  pub stdin : Bytes

-- The exit code where the command fails on every error.
abbrev pub exit_code : Ret → ℕ
exit_code ok = 0
exit_code (err e) = 1

abbrev pub print : System → Bytes → System
print sys text = record sys { printed = sys.printed ++ text }

-- The values of "wg set peer <public-key> ..."
pub record Settings : Type 0 where
  pub endpoint : Option Bytes
  pub allowed : Option Bytes
  pub keepalive : ℤ

abbrev pub no_settings : Settings
no_settings = record { endpoint = none; allowed = none; keepalive = negsuc 0 }

-- The text up to the first CR or LF.
unfoldable pub cut_newline : Bytes → Bytes
cut_newline [] = []
cut_newline (c ∷ cs) = let rest = cut_newline cs in if c == 13 || c == 10 then [] else c ∷ rest

-- The key that `wg pubkey` reads where no argument gives it.
unfoldable pub stdin_key : Bytes → Option Bytes
stdin_key [] = none
stdin_key (c ∷ cs) = some (cut_newline (c_string (fgets (key_strlen + 2 - 1) (c ∷ cs)).0))

-- The file of "wg saveconf" and "wg setconf".
abbrev pub path_arg : Kconfig → List Bytes → Bytes
path_arg kconfig [] = kconfig.config_path
path_arg kconfig (path ∷ rest) = path

abbrev pub contents : File → Option Bytes
contents (readable text) = some text
contents (unreadable e) = none

abbrev pub rewritten : File → Option Bytes → File
rewritten file none = file
rewritten file (some text) = readable text

abbrev pub is_remove : List Bytes → Bool
is_remove [] = false
is_remove (option ∷ []) = str_eq option (codes "remove")
is_remove (option ∷ value ∷ rest) = false

-- A key is printed with a newline; without one the command fails.
abbrev pub print_key : System → Option Bytes → System × ℕ
print_key sys none = (sys, 1)
print_key sys (some key) = (print sys (key ++ codes "\n"), 0)

unfoldable pub run_pubkey : Crypto → Run → System → List Bytes → System × ℕ
run_pubkey crypto run sys [] = elim (stdin_key run.stdin) [
  | none ↦ (sys, 1)
  | some src ↦ elim src [
    | [] ↦ (sys, 1)
    | c ∷ cs ↦ print_key sys (pubkey crypto (c ∷ cs) key_strlen)
  ]
]
run_pubkey crypto run sys ([] ∷ rest) = (sys, 1)
run_pubkey crypto run sys ((c ∷ cs) ∷ rest) = print_key sys (pubkey crypto (c ∷ cs) key_strlen)

unfoldable pub run_down : Kconfig → Run → System → System × ℕ
run_down kconfig run sys =
    let (after, ret) = down kconfig run.answers.ifdown_runs run.seen sys.wg0 in
    let gone : System = record sys { wg0 = after } in
    (if is_ok ret then print gone (codes "wg0 is down\n") else gone, exit_code ret)

module _ (libc : Libc) where
  -- The loop over the settings of a peer; `none` for an unknown name and for a missing value.
  unfoldable pub peer_settings : Settings → List Bytes → Option Settings
  peer_settings s [] = some s
  peer_settings s (name ∷ []) = none
  peer_settings s (name ∷ value ∷ rest) =
      if str_eq name (codes "endpoint")
      then peer_settings (record s { endpoint = some value }) rest
      else if str_eq name (codes "allowed-ips")
      then peer_settings (record s { allowed = some value }) rest
      else if str_eq name (codes "persistent-keepalive")
      then peer_settings (record s { keepalive = libc.atoi value }) rest
      else none

  module _ (kconfig : Kconfig) where
    -- "wg set peer <public-key> ..." without "remove".
    unfoldable pub set_peer_args : Bool → Staged → Bytes → List Bytes → Staged × ℕ
    set_peer_args up staged key options = elim (peer_settings no_settings options) [
      | none ↦ (staged, 1)
      | some s ↦
          let (after, ret) = set_peer libc kconfig up staged key s.endpoint s.allowed s.keepalive in
          (after, exit_code ret)
    ]

    -- `wg_do_set`, on the arguments after "set".
    unfoldable pub do_set : Bool → Staged → List Bytes → Staged × ℕ
    do_set up staged [] = (staged, 1)
    do_set up staged (setting ∷ []) = (staged, 1)
    do_set up staged (setting ∷ value ∷ options) =
        let (keyed, keyed_ret) = set_private_key up staged value in
        let (removed, removed_ret) = remove_peer up staged value in
        if str_eq setting (codes "private-key")
        then (keyed, exit_code keyed_ret)
        else if not (str_eq setting (codes "peer"))
        then (staged, 1)
        else if is_remove options
        then (removed, exit_code removed_ret)
        else set_peer_args up staged value options

    unfoldable pub run_showconf : System → System × ℕ
    run_showconf sys =
        let (text, ret) = showconf libc kconfig sys.staged in (print sys text, exit_code ret)

    unfoldable pub run_saveconf : Run → System → Bytes → System × ℕ
    run_saveconf run sys path =
        let (file, ret) =
          saveconf libc kconfig run.open_fails run.reaches run.close_fails sys.staged
            (contents (sys.files path)) in
        let saved : System = record sys {
          files =
              λ name. if str_eq name path then rewritten (sys.files path) file else sys.files name;
        } in
        (
          if is_ok ret then print saved (codes "saved to " ++ (path ++ codes "\n")) else saved,
          exit_code ret,
        )

    unfoldable pub run_setconf : System → Bytes → System × ℕ
    run_setconf sys path =
        let (after, ret) = setconf libc kconfig (sys.wg0.registered) sys.staged (sys.files path) in
        (record sys { staged = after }, exit_code ret)

    unfoldable pub run_set : System → List Bytes → System × ℕ
    run_set sys args =
        let (after, code) = do_set (sys.wg0.registered) sys.staged args in
        (record sys { staged = after }, code)

module _ (crypto : Crypto) (labels : Labels) (libc : Libc) (kconfig : Kconfig) where
  unfoldable pub run_up : Run → System → System × ℕ
  run_up run sys =
      let (after, ret) =
        initialize crypto labels libc kconfig run.answers run.readings sys.staged sys.wg0 in
      let brought : System = record sys { wg0 = after } in
      if sys.wg0.registered
      then (print sys (codes "wg0 is already up\n"), 0)
      else if is_ok ret
      then (
        print brought (
            codes "wg0 is up (listen port "
            ++ (libc.print_int (pos kconfig.listen_port) ++ codes ")\n")),
        0,
      )
      else (brought, 1)

  -- `main`: what it leaves, and the exit code.
  unfoldable pub main : Run → System → List Bytes → System × ℕ
  main run sys [] = run_up run sys
  main run sys (command ∷ rest) =
      if str_eq command (codes "show")
      then (print sys (show libc kconfig run.readings.now sys.wg0), 0)
      else if str_eq command (codes "genkey")
      then print_key sys (genkey run.readings key_strlen)
      else if str_eq command (codes "pubkey")
      then run_pubkey crypto run sys rest
      else if str_eq command (codes "showconf")
      then run_showconf libc kconfig sys
      else if str_eq command (codes "saveconf")
      then run_saveconf libc kconfig run sys (path_arg kconfig rest)
      else if str_eq command (codes "setconf")
      then run_setconf libc kconfig sys (path_arg kconfig rest)
      else if str_eq command (codes "set")
      then run_set libc kconfig sys rest
      else if str_eq command (codes "down")
      then run_down kconfig run sys
      else if str_eq command (codes "up")
      then run_up run sys
      else (sys, 1)
