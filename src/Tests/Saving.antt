-- ===== src/Tests/Saving.antt =====
-- Witnesses for saving and loading a configuration.
use gsoc2026_nuttx_wireguard.Base.{
  ◌∷◌, leb, false, [], none, some, ◌≡◌, inr, refl, arith, Bytes, All, replicate, ntohl, str_eq,
  codes,
}
use gsoc2026_nuttx_wireguard.Base64.{
  base64_decode, decode_loop, decode_step, decode_char, char_index, block_bytes,
}
use gsoc2026_nuttx_wireguard.Config.{pos, ok, os_errno}
use gsoc2026_nuttx_wireguard.Staged.{Staged, decode_key, prefix_mask, set_peer, find_key}
use gsoc2026_nuttx_wireguard.Writeconf.{writeconf}
use gsoc2026_nuttx_wireguard.Setconf.{readable, unreadable, setconf}
use gsoc2026_nuttx_wireguard.Setconf.Printable.{IsAddress, IsPrintable}
use gsoc2026_nuttx_wireguard.Setconf.RoundTrip.{IsSavable, restored, setconf-writeconf}
use gsoc2026_nuttx_wireguard.Setconf.Stable.{writeconf-setconf-writeconf}
use gsoc2026_nuttx_wireguard.Setconf.Kept.{HasDefaults, set_peer-IsPrintable}
use gsoc2026_nuttx_wireguard.Command.{System, Run, main}
use gsoc2026_nuttx_wireguard.Command.Saved.{saveconf-setconf}
use gsoc2026_nuttx_wireguard.Tests.Setup.{all_well}
use gsoc2026_nuttx_wireguard.Tests.{
  toy_crypto, labels, readings, netdev, kconfig, staged, staged_peer, private_text, peer_text,
  other_text,
}
use gsoc2026_nuttx_wireguard.Tests.Decimal.{
  decimal_libc, decimal-PrintsNumbers, decimal-TakesAddresses,
}

peer_key : decode_key peer_text ≡ some (replicate 32 2)
unfolding decode_key base64_decode decode_loop decode_step decode_char char_index block_bytes
peer_key = refl

private_key : decode_key private_text ≡ some (replicate 32 1)
unfolding decode_key base64_decode decode_loop decode_step decode_char char_index block_bytes
private_key = refl

endpoint-IsAddress : IsAddress decimal_libc (codes "192.0.2.1")
unfolding str_eq
endpoint-IsAddress = record {
  addr = 16908480;
  parsed = refl;
  bytes = omega arith;
  short = omega arith;
}

allowed-IsAddress : IsAddress decimal_libc (codes "10.0.0.0")
unfolding str_eq
allowed-IsAddress = record { addr = 10; parsed = refl; bytes = omega arith; short = omega arith }

any-IsAddress : IsAddress decimal_libc (codes "0.0.0.0")
unfolding str_eq
any-IsAddress = record { addr = 0; parsed = refl; bytes = omega arith; short = omega arith }

staged_peer-IsPrintable : IsPrintable decimal_libc kconfig staged_peer
unfolding str_eq prefix_mask ntohl
staged_peer-IsPrintable = record {
  key = replicate 32 2;
  decodes = peer_key;
  key_short = omega arith;
  allowed = allowed-IsAddress;
  prefix = 16;
  prefix_small = omega arith;
  mask_parsed = refl;
  mask_printed = refl;
  endpoint = inr (endpoint-IsAddress, omega arith, omega arith);
  interval = 25;
  keepalive = refl;
  interval_small = omega arith;
}

staged-IsSavable : IsSavable decimal_libc kconfig staged
unfolding find_key
staged-IsSavable = record {
  key = replicate 32 1;
  decodes = private_key;
  key_short = omega arith;
  port = omega arith;
  printable = (staged_peer-IsPrintable, tt);
  unique = (refl, tt);
  bounded = omega arith;
}

abbrev nothing : Staged
nothing = record { private_key = []; peers = [] }

setconf-writeconf_example :
    (text : Bytes) × (writeconf decimal_libc kconfig staged ≡ some text)
    × (setconf decimal_libc kconfig false nothing (readable text)
        ≡ (restored decimal_libc kconfig staged, ok))
setconf-writeconf_example =
    setconf-writeconf decimal_libc kconfig decimal-PrintsNumbers nothing staged staged-IsSavable

writeconf-setconf-writeconf_example :
    (text : Bytes) × (writeconf decimal_libc kconfig staged ≡ some text)
    × (writeconf decimal_libc kconfig (setconf decimal_libc kconfig false nothing (readable text)).0
        ≡ some text)
writeconf-setconf-writeconf_example =
    writeconf-setconf-writeconf decimal_libc kconfig decimal-PrintsNumbers nothing staged
      staged-IsSavable

defaults : HasDefaults decimal_libc kconfig decimal-TakesAddresses
unfolding str_eq prefix_mask ntohl
defaults = record {
  allowed = any-IsAddress;
  prefix = 0;
  prefix_small = omega arith;
  mask_parsed = refl;
  mask_printed = refl;
  interval_small = omega arith;
}

set_peer-IsPrintable_example :
    All
      (IsPrintable decimal_libc kconfig)
      (set_peer decimal_libc kconfig false staged other_text
        (some (codes "192.0.2.1:51820"))
        none
        (pos 25)).0.peers
set_peer-IsPrintable_example =
    set_peer-IsPrintable decimal_libc kconfig decimal-TakesAddresses defaults staged
      (some (codes "192.0.2.1:51820")) none (pos 25) (omega arith) (staged_peer-IsPrintable, tt)
      false other_text (omega arith)

abbrev saving_sys : System
saving_sys = record {
  staged = staged;
  wg0 = record netdev { registered = false };
  files = λ name. unreadable (os_errno 2);
  printed = [];
}

abbrev saving_run : Run
saving_run = record {
  answers = all_well;
  readings = readings;
  seen = λ look. leb 3 look;
  open_fails = none;
  reaches = λ text. text;
  close_fails = none;
  stdin = [];
}

saveconf-setconf_example :
    let (saved, code) =
      main toy_crypto labels decimal_libc kconfig saving_run saving_sys
        (codes "saveconf" ∷ codes "/a" ∷ []) in
    (code ≡ 0)
    × (main toy_crypto labels decimal_libc kconfig saving_run
          (record saved { staged = nothing })
          (codes "setconf" ∷ codes "/a" ∷ [])
        ≡ (record saved { staged = restored decimal_libc kconfig staged }, 0))
saveconf-setconf_example =
    saveconf-setconf toy_crypto labels decimal_libc kconfig saving_run saving_sys (codes "/a")
      nothing decimal-PrintsNumbers staged-IsSavable refl (λ text. refl) refl refl
