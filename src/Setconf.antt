-- ===== src/Setconf.antt =====
-- `wg_conf_flush_peer` and `wg_setconf` of netutils/wireguard/nuttx-wireguardif.c: a configuration
-- file is read line by line into the staged configuration.
pub mod Lines
pub mod Outcome
pub mod Setting
pub mod Printable
pub mod Block
pub mod Reading
pub mod Printed
pub mod Restaged
pub mod Written
pub mod Stable
pub mod Staging
pub mod Kept
pub mod RoundTrip
use gsoc2026_nuttx_wireguard.Base.{
  ℕ, zero, suc, Bool, true, false, ◌||◌, List, [], ◌∷◌, Option, none, some, length, ◌==◌, ◌+◌, ◌-◌,
  if◌then◌else◌, Bytes, codes, strlcpy, split_first, str_case_eq,
}
use gsoc2026_nuttx_wireguard.Config.{
  Kconfig, Libc, ℤ, negsuc, Errno, Ret, ok, err, ebusy, is_ok, key_strlen, inet_addrstrlen,
}
use gsoc2026_nuttx_wireguard.Staged.{Staged, set_private_key, set_peer}
use gsoc2026_nuttx_wireguard.Conf.{conf_trim}

-- `struct wg_conf_peer_s`
pub record ConfPeer : Type 0 where
  pub pubkey : Bytes
  pub endpoint : Bytes
  pub allowed : Bytes
  pub keepalive : ℤ
  pub valid : Bool

-- The accumulator after `memset`, with the interval at -1.
abbrev pub empty_acc : ConfPeer
empty_acc = record { pubkey = []; endpoint = []; allowed = []; keepalive = negsuc 0; valid = false }

-- sizeof(line)
abbrev pub line_size : ℕ
line_size = 128

-- What `fgets` of the C library does with room for `room` characters: the line, with its newline if
-- it is there, and what is left of the file.
unfoldable pub fgets : ℕ → Bytes → Bytes × Bytes
fgets zero file = ([], file)
fgets (suc room) [] = ([], [])
fgets (suc room) (c ∷ cs) =
    let (line, rest) = fgets room cs in if c == 10 then (c ∷ [], cs) else (c ∷ line, rest)

-- The line as a C string, which ends at a NUL.
unfoldable pub c_string : Bytes → Bytes
c_string [] = []
c_string (c ∷ cs) = let rest = c_string cs in if c == 0 then [] else c ∷ rest

-- `text[0] != '\0' ? text : NULL`
abbrev pub nonempty : Bytes → Option Bytes
nonempty [] = none
nonempty (c ∷ cs) = some (c ∷ cs)

-- What `wg_setconf` works on: the staged configuration, the accumulator and `ret`.
pub record Progress : Type 0 where
  pub staged : Staged
  pub acc : ConfPeer
  pub ret : Ret

pub data File : Type 0 where
  readable : Bytes → File
  unreadable : Errno → File

module _ (libc : Libc) (kconfig : Kconfig) where
  -- `wg_conf_flush_peer`
  unfoldable pub flush_peer : Staged → ConfPeer → Progress
  flush_peer staged acc =
      let (after, ret) =
        set_peer libc kconfig false staged acc.pubkey (nonempty acc.endpoint) (nonempty acc.allowed)
          acc.keepalive in
      if acc.valid
      then record { staged = after; acc = empty_acc; ret = ret }
      else record { staged = staged; acc = empty_acc; ret = ok }

  -- A setting, by its name.
  unfoldable pub apply_setting : Staged → ConfPeer → Bytes → Bytes → Progress
  apply_setting staged acc k v =
      let keep : ConfPeer → Progress = λ a. record { staged = staged; acc = a; ret = ok } in
      if str_case_eq k (codes "PrivateKey")
      then (let (after, ret) = set_private_key false staged v in
          record { staged = after; acc = acc; ret = ret })
      else if str_case_eq k (codes "PublicKey")
      then keep (record acc { pubkey = strlcpy v key_strlen; valid = true })
      else if str_case_eq k (codes "Endpoint")
      then keep (record acc { endpoint = strlcpy v (inet_addrstrlen + 8) })
      else if str_case_eq k (codes "AllowedIPs")
      then keep (record acc { allowed = strlcpy v (inet_addrstrlen + 8) })
      else if str_case_eq k (codes "PersistentKeepalive")
      then keep (record acc { keepalive = libc.atoi v })
      else keep acc

  -- The body of the loop, on the line that `fgets` has read.
  unfoldable pub conf_line : Staged → ConfPeer → Bytes → Progress
  conf_line staged acc line =
      let k = conf_trim (c_string line) in
      elim k [
        | [] ↦ record { staged = staged; acc = acc; ret = ok }
        | c ∷ cs ↦
            if c == b'#' || c == b';'
            then record { staged = staged; acc = acc; ret = ok }
            else if c == b'['
            then flush_peer staged acc
            else elim (split_first b'=' (c ∷ cs)) [
              | none ↦ record { staged = staged; acc = acc; ret = ok }
              | some (key, value) ↦ apply_setting staged acc (conf_trim key) (conf_trim value)
            ]
      ]

  -- The loop on what is left of the file: a line is read and used, until the file ends or there is
  -- an error.
  unfoldable pub conf_loop : ℕ → Staged → ConfPeer → Bytes → Progress
  conf_loop zero staged acc file = record { staged = staged; acc = acc; ret = ok }
  conf_loop (suc fuel) staged acc [] = record { staged = staged; acc = acc; ret = ok }
  conf_loop (suc fuel) staged acc (c ∷ cs) =
      let (line, file) = fgets (line_size - 1) (c ∷ cs) in
      let p = conf_line staged acc line in
      let rest = conf_loop fuel p.staged p.acc file in if is_ok p.ret then rest else p

  -- From the opened file on: the list is replaced, the last peer is flushed, and an error drops
  -- all peers.
  unfoldable pub load_text : Staged → Bytes → Staged × Ret
  load_text staged text =
      let p = conf_loop (length text) (record staged { peers = [] }) empty_acc text in
      let q = if is_ok p.ret then flush_peer p.staged p.acc else p in
      if is_ok q.ret then (q.staged, ok) else (record (q.staged) { peers = [] }, q.ret)

  -- `wg_setconf`
  unfoldable pub setconf : Bool → Staged → File → Staged × Ret
  setconf registered staged (readable text) =
      if registered then (staged, err ebusy) else load_text staged text
  setconf registered staged (unreadable e) = (staged, err (if registered then ebusy else e))
