-- ===== src/Conf/Prefix.antt =====
-- A prefix length survives the way through a netmask text and back.
use gsoc2026_nuttx_wireguard.Base.{
  ℕ, ◌≤◌, Bool, true, some, ◌==◌, ==_iff, ◌≡◌, refl, arith, Bytes, ntohl,
}
use gsoc2026_nuttx_wireguard.Base.Below.{all_below, all_below_lem}
use gsoc2026_nuttx_wireguard.Config.{Libc}
use gsoc2026_nuttx_wireguard.Staged.{prefix_mask}
use gsoc2026_nuttx_wireguard.Conf.{count_prefix, mask_to_prefix}

abbrev survives : ℕ → Bool
survives prefix = count_prefix 32 0 (ntohl (prefix_mask prefix)) == prefix

all_survive : all_below 33 survives ≡ true
unfolding all_below count_prefix ntohl prefix_mask
all_survive = refl

-- The netmask that `wg_set_peer` makes of a prefix length up to 32, printed and read back, is the
-- same prefix length for `wg_mask_to_prefix`.
pub mask_to_prefix-prefix_mask :
    (libc : Libc) (prefix : ℕ) (text : Bytes)
    → prefix ≤ 32
    → libc.inet_pton text ≡ some (prefix_mask prefix)
    → mask_to_prefix libc text ≡ prefix
unfolding mask_to_prefix
mask_to_prefix-prefix_mask libc prefix text le parsed =
    rw (parsed, mask_to_prefix)
      ((==_iff _ prefix).0 (all_below_lem 33 survives all_survive prefix (omega arith)))
