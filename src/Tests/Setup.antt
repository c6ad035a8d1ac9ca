-- ===== src/Tests/Setup.antt =====
-- Witnesses for the configuration and the life of wg0.
use gsoc2026_nuttx_wireguard.Base.{true, false, none, some, ◌≡◌, refl, arith, codes, leb, replicate}
use gsoc2026_nuttx_wireguard.Config.{ok, err, Errno, is_ok, pos}
use gsoc2026_nuttx_wireguard.Staged.{find_key, set_peer, remove_peer}
use gsoc2026_nuttx_wireguard.Staged.Peers.{SetPeer, set_peer-SetPeer}
use gsoc2026_nuttx_wireguard.Staged.Unique.{IsStaged, set_peer-IsStaged}
use gsoc2026_nuttx_wireguard.Staged.Remove.{remove_peer-gone}
use gsoc2026_nuttx_wireguard.Lifecycle.{Answers, down, initialize}
use gsoc2026_nuttx_wireguard.Lifecycle.Bringup.{
  DownOutcome, down-wipes, initialize-registered, initialize-entropy,
}
use gsoc2026_nuttx_wireguard.Tests.{
  toy_crypto, readings, netdev, libc, kconfig, staged, labels, peer_text, other_text,
}

pub staged-IsStaged : IsStaged kconfig staged
unfolding find_key
staged-IsStaged = record { bounded = omega arith; unique = (refl, tt) }

set_peer-SetPeer_example :
    SetPeer libc kconfig staged
      (other_text)
      (set_peer libc kconfig false staged (other_text) none (some (codes "10.0.0.0/16")) (pos 25))
set_peer-SetPeer_example =
    set_peer-SetPeer libc kconfig staged (other_text) none (some (codes "10.0.0.0/16")) (pos 25)
      false

set_peer-IsStaged_example :
    IsStaged kconfig (set_peer libc kconfig false staged (other_text) none none (pos 25)).0
set_peer-IsStaged_example =
    set_peer-IsStaged libc kconfig staged (other_text) false none none (pos 25) (omega arith)
      staged-IsStaged

remove_peer-gone_example :
    let (after, ret) = remove_peer false staged (peer_text) in
    IsStaged kconfig after
    × (ret ≡ ok → find_key (peer_text) 0 after.peers ≡ none)
    × ((e : Errno) → ret ≡ err e → after ≡ staged)
remove_peer-gone_example = remove_peer-gone kconfig false staged (peer_text) staged-IsStaged

down-wipes_example :
    DownOutcome kconfig true
      (λ look. leb 3 look)
      netdev
      (down kconfig true (λ look. leb 3 look) netdev)
down-wipes_example = down-wipes kconfig true (λ look. leb 3 look) netdev (λ k set. ground arith)

abbrev pub all_well : Answers
all_well = record {
  socket = none;
  bind = none;
  register = none;
  task = none;
  ifup_runs = true;
  ifdown_runs = true;
}

initialize-registered_example :
    let (after, ret) =
      initialize toy_crypto labels libc kconfig all_well readings staged
        (record netdev { registered = false }) in
    after.registered ≡ is_ok ret
initialize-registered_example =
    initialize-registered toy_crypto labels libc kconfig all_well readings staged
      (record netdev { registered = false })

initialize-entropy_example :
    let (after, ret) =
      initialize toy_crypto labels libc kconfig all_well
        (record readings { random = λ place. replicate 32 0 })
        staged
        (record netdev { registered = false }) in
    (after ≡ record netdev { registered = false }) × (is_ok ret ≡ false)
initialize-entropy_example =
    initialize-entropy toy_crypto labels libc kconfig all_well
      (record readings { random = λ place. replicate 32 0 }) staged
      (record netdev { registered = false }) refl refl
