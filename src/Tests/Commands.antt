-- ===== src/Tests/Commands.antt =====
-- Witnesses for the keys in base64, the configuration file and the command `wg`.
use gsoc2026_nuttx_wireguard.Base.{
  ℕ, zero, suc, true, false, [], ◌∷◌, ◌++◌, none, some, ◌≡◌, ◌≢◌, ◌⊎◌, ◌<◌, refl, arith, Bytes,
  codes, leb, replicate, str_eq, take,
}
use gsoc2026_nuttx_wireguard.Base64.{base64_encode, base64_decode}
use gsoc2026_nuttx_wireguard.Base64.RoundTrip.{AllBytes, base64_decode-base64_encode}
use gsoc2026_nuttx_wireguard.Config.{ok, err, ebusy, os_errno, key_strlen}
use gsoc2026_nuttx_wireguard.Handshake.{clamp_private_key}
use gsoc2026_nuttx_wireguard.Staged.{decode_key, set_private_key, remove_peer}
use gsoc2026_nuttx_wireguard.Staged.Unique.{IsStaged}
use gsoc2026_nuttx_wireguard.Setconf.{readable, unreadable, setconf}
use gsoc2026_nuttx_wireguard.Setconf.Outcome.{setconf-Outcome}
use gsoc2026_nuttx_wireguard.Lifecycle.{genkey}
use gsoc2026_nuttx_wireguard.Writeconf.{saveconf, writeconf}
use gsoc2026_nuttx_wireguard.Lifecycle.Keys.{genkey-set_private_key}
use gsoc2026_nuttx_wireguard.Command.{System, Run, do_set, main, print, run_saveconf}
use gsoc2026_nuttx_wireguard.Command.Outcome.{do_set-Careful, main-staged, saveconf-showconf}
use gsoc2026_nuttx_wireguard.Tests.{
  toy_crypto, readings, netdev, libc, kconfig, staged, labels, peer_text,
}
use gsoc2026_nuttx_wireguard.Tests.Setup.{staged-IsStaged, all_well}

base64_decode-base64_encode_example :
    (text : Bytes) × (base64_encode (72 ∷ 105 ∷ []) 5 ≡ some text)
    × (base64_decode text 2 ≡ some (72 ∷ 105 ∷ []))
base64_decode-base64_encode_example =
    base64_decode-base64_encode (72 ∷ 105 ∷ []) 5 2 (omega arith, (omega arith, tt)) (omega arith)
      (omega arith)

AllBytes-replicate : (n b : ℕ) → b < 256 → AllBytes (replicate n b)
AllBytes-replicate zero b small = tt
AllBytes-replicate (suc n) b small = (small, AllBytes-replicate n b small)

genkey-set_private_key_example :
    (text : Bytes) × (genkey readings key_strlen ≡ some text)
    × (decode_key text ≡ some (clamp_private_key (readings.random 0)))
    × (set_private_key false staged text ≡ (record staged { private_key = text }, ok))
genkey-set_private_key_example =
    genkey-set_private_key readings staged (AllBytes-replicate 32 5 (omega arith)) refl

-- A file with a line that is longer than the buffer.
abbrev long_file : Bytes
long_file = codes "[Peer]\n" ++ (replicate 130 65 ++ codes "\nEndpoint = x")

setconf-Outcome_example :
    let (after, ret) = setconf libc kconfig false staged (readable long_file) in
    IsStaged kconfig after
    × (ret ≢ ok → (after.peers ≡ []) ⊎ (after ≡ staged))
    × (false ≡ true → (after ≡ staged) × (ret ≡ err ebusy))
setconf-Outcome_example =
    setconf-Outcome libc kconfig false staged (readable long_file) staged-IsStaged

abbrev sys : System
sys = record {
  staged = staged;
  wg0 = netdev;
  files = λ name. unreadable (os_errno 2);
  printed = [];
}

abbrev run : Run
run = record {
  answers = all_well;
  readings = readings;
  seen = λ look. leb 3 look;
  open_fails = none;
  reaches = λ text. take 10 text;
  close_fails = none;
  stdin = [];
}

do_set-Careful_example :
    (do_set libc kconfig true staged (codes "peer" ∷ peer_text ∷ codes "remove" ∷ [])).0 ≡ staged
unfolding do_set str_eq remove_peer
do_set-Careful_example =
    do_set-Careful libc kconfig true staged (codes "peer" ∷ peer_text ∷ codes "remove" ∷ [])
      (λ e. omega arith)

main-staged_example :
    (main toy_crypto labels libc kconfig run sys (codes "setconf" ∷ [])).0.staged ≡ staged
main-staged_example = main-staged toy_crypto labels libc kconfig run sys (codes "setconf" ∷ []) refl

saveconf-showconf_example :
    let (after, code) =
      main toy_crypto labels libc kconfig run sys (codes "saveconf" ∷ codes "/a" ∷ []) in
    (text : Bytes) × (after.files (codes "/a") ≡ readable (take 10 text))
    × (main toy_crypto labels libc kconfig run sys (codes "showconf" ∷ []) ≡ (print sys text, 0))
    × ((other : Bytes) → other ≢ codes "/a" → after.files other ≡ sys.files other)
unfolding main str_eq run_saveconf saveconf writeconf
saveconf-showconf_example =
    saveconf-showconf toy_crypto labels libc kconfig run sys (codes "/a") refl
