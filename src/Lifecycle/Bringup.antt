-- ===== src/Lifecycle/Bringup.antt =====
-- What `wg_initialize` and `wg_down` leave behind.
use gsoc2026_nuttx_wireguard.Base.{
  ℕ, zero, suc, ◌+◌, ◌≤◌, Bool, true, false, ◌≡◌, ◌⊎◌, length, ◌==◌, refl, inl, inr, arith, subst,
  sym, Bool-cases, Option-cases,
}
use gsoc2026_nuttx_wireguard.Device.{Netdev, Readings, zero_device}
use gsoc2026_nuttx_wireguard.Crypto.{Crypto}
use gsoc2026_nuttx_wireguard.Config.{Kconfig, Libc, Ret, ok, err, is_ok, enodev, etimedout}
use gsoc2026_nuttx_wireguard.Staged.{Staged, decode_key}
use gsoc2026_nuttx_wireguard.Enroll.{Labels, device_init}
use gsoc2026_nuttx_wireguard.Interface.{ifdown}
use gsoc2026_nuttx_wireguard.Lifecycle.{
  Answers, zero_netdev, wait_done, down_looks, down, bring_up, initialize, all_zero, cfg_str,
}

-- The look that ends the wait of `wg_down` is among those it may take.
wait_done-bounded : (left : ℕ) (seen : ℕ → Bool) (i : ℕ) → wait_done left seen i ≤ i + left
unfolding wait_done
wait_done-bounded zero seen i = omega arith
wait_done-bounded (suc left) seen i = elim (Bool-cases (seen i)) [
  | inl set ↦ rw set (omega arith)
  | inr unset ↦ (let rest = wait_done-bounded left seen (i + 1) in rw unset (omega arith))
]

-- For a flag that stays set: if the last look does not see it, no look did.
wait_done-missed :
    (left : ℕ) (seen : ℕ → Bool) (i : ℕ)
    → ((k : ℕ) → seen k ≡ true → seen (suc k) ≡ true)
    → seen (wait_done left seen i) ≡ false
    → (k : ℕ) → i ≤ k
    → k ≤ i + left
    → seen k ≡ false
unfolding wait_done
wait_done-missed zero seen i stays missed k low high = let e : k ≡ i = omega arith in rw e missed
wait_done-missed (suc left) seen i stays missed k low high = elim (Bool-cases (seen i)) [
  | inl set ↦
      let next : seen (i + 1) ≡ true = subst (λ n. seen n ≡ true) (omega arith) (stays i set) in
      let last : seen (i + 1) ≡ false = rw set at missed in absurd (ground arith)
  | inr unset ↦ elim (Bool-cases (i == k)) [
    | inl here ↦ (let e : k ≡ i = ground arith in rw e unset)
    | inr later ↦
        wait_done-missed left seen (i + 1) stays (rw unset at missed) k (ground arith) (omega arith)
  ]
]

-- The device is off the network stack and zeroed, and its task has seen the request to end.
pub record IsGone (kconfig : Kconfig) (ifdown_runs : Bool) (after : Netdev) : Type 0 where
  pub zeroed : after.wg ≡ zero_device kconfig.max_peers kconfig.replay_words kconfig.max_src_ips
  pub free : after.registered ≡ false
  pub unknown : after.netdev_known ≡ false
  pub closed : after.psock_open ≡ false
  pub stopped : after.running ≡ false
  pub down : ifdown_runs ≡ true → (after.bifup ≡ false) × (after.carrier ≡ false)

IsGone-down :
    (kconfig : Kconfig) (ifdown_runs : Bool) (seen : ℕ → Bool) (priv : Netdev)
    → priv.registered ≡ true
    → seen (wait_done down_looks seen 0) ≡ true
    → let (after, ret) = down kconfig ifdown_runs seen priv in
      (ret ≡ ok) × IsGone kconfig ifdown_runs after
unfolding down ifdown
IsGone-down kconfig true seen priv there over = (
  rw (there, over) refl,
  record {
    zeroed = rw (there, over) refl;
    free = rw (there, over) refl;
    unknown = rw (there, over) refl;
    closed = rw (there, over) refl;
    stopped = rw (there, over) refl;
    down = λ runs. rw (there, over) (refl, refl);
  },
)
IsGone-down kconfig false seen priv there over = (
  rw (there, over) refl,
  record {
    zeroed = rw (there, over) refl;
    free = rw (there, over) refl;
    unknown = rw (there, over) refl;
    closed = rw (there, over) refl;
    stopped = rw (there, over) refl;
    down = λ runs. absurd (ground arith);
  },
)

-- `wg_down` succeeds exactly as said below, or fails in one of its two ways.
abbrev pub DownOutcome : Kconfig → Bool → (ℕ → Bool) → Netdev → Netdev × Ret → Type 0
DownOutcome kconfig ifdown_runs seen priv (after, ret) =
    ((ret ≡ ok)
      × (priv.registered ≡ true)
      × ((k : ℕ) × (k ≤ down_looks) × (seen k ≡ true))
      × IsGone kconfig ifdown_runs after)
    ⊎ ((ret ≡ err enodev) × (priv.registered ≡ false) × (after ≡ priv))
    ⊎ ((ret ≡ err etimedout)
        × (priv.registered ≡ true)
        × ((k : ℕ) → k ≤ down_looks → seen k ≡ false)
        × (after ≡ record priv { running = true }))

-- For a flag of the task that stays set once it is set, `wg_down` does one of three things. It
-- succeeds, where wg0 was registered and a look at the flag saw it set; then the device is zeroed,
-- wg0 is neither registered nor known to the network stack, its socket is closed, it is not running,
-- and, where `netdev_ifdown` calls back, it is down and without carrier. Or wg0 was not registered,
-- and then nothing changes. Or none of the looks saw the flag, and then nothing changes but that wg0
-- is running again.
pub down-wipes :
    (kconfig : Kconfig) (ifdown_runs : Bool) (seen : ℕ → Bool) (priv : Netdev)
    → ((k : ℕ) → seen k ≡ true → seen (suc k) ≡ true)
    → DownOutcome kconfig ifdown_runs seen priv (down kconfig ifdown_runs seen priv)
down-wipes kconfig ifdown_runs seen priv stays =
    let run = down kconfig ifdown_runs seen priv in
    let Ends : Netdev × Ret → Type 0 = DownOutcome kconfig ifdown_runs seen priv in
    elim (Bool-cases priv.registered) [
      | inr gone ↦
          let e : run ≡ (priv, err enodev) = unfold down in rw gone refl in
          subst Ends (sym e) (inr (inl (refl, gone, refl)))
      | inl there ↦ elim (Bool-cases (seen (wait_done down_looks seen 0))) [
        | inr busy ↦
            let missed = wait_done-missed down_looks seen 0 stays busy in
            let e : run ≡ (record priv { running = true }, err etimedout) =
              unfold down in rw (there, busy) refl in
            subst Ends (sym e) (inr (inr (refl, there, λ k few. missed k (omega arith) few, refl)))
        | inl over ↦
            let few = wait_done-bounded down_looks seen 0 in
            let (fine, gone) = IsGone-down kconfig ifdown_runs seen priv there over in
            inl (fine, there, (wait_done down_looks seen 0, few, over), gone)
      ]
    ]

module _ (crypto : Crypto) (labels : Labels) (libc : Libc) (kconfig : Kconfig) (answers : Answers)
    (r : Readings) (staged : Staged) (priv : Netdev) where
  bring_up-registered :
      (zeroed : Netdev)
      → zeroed.registered ≡ false
      → let (after, ret) = bring_up crypto labels libc kconfig answers staged zeroed in
        after.registered ≡ is_ok ret
  unfolding bring_up
  bring_up-registered zeroed h = ground arith

  -- After `wg_initialize`, wg0 is registered exactly if the result is OK: a failure at any step
  -- leaves it unregistered.
  pub initialize-registered :
      let (after, ret) = initialize crypto labels libc kconfig answers r staged priv in
      after.registered ≡ is_ok ret
  initialize-registered =
      let keystr = cfg_str staged.private_key kconfig.private_key in
      elim (Bool-cases priv.registered) [
        | inl up ↦ unfold initialize in rw up refl
        | inr off ↦ elim (Bool-cases (length keystr == 0)) [
          | inl nokey ↦ unfold initialize in rw (off, nokey) refl
          | inr keyed ↦ elim (Option-cases (decode_key keystr)) [
            | inl bad ↦ unfold initialize in rw (off, keyed, bad, initialize) off
            | inr (key, good) ↦ elim (Bool-cases (all_zero (r.random 0))) [
              | inl poor ↦ unfold initialize in rw (off, keyed, good, initialize, poor) off
              | inr rich ↦
                  let zeroed = zero_netdev kconfig priv in
                  let made = device_init crypto labels r (zeroed.wg) key in
                  elim (Bool-cases (made.1)) [
                    | inr weak ↦
                        unfold initialize in
                        rw (off, keyed, good, initialize, rich, weak) (unfold zero_netdev in refl)
                    | inl strong ↦
                        unfold initialize in
                        rw (off, keyed, good, initialize, rich, strong)
                          (bring_up-registered (record zeroed { wg = made.0 })
                            (unfold zero_netdev in refl))
                  ]
            ]
          ]
        ]
      ]

  -- If the probe of the entropy source gives only zeros, wg0 does not come up, and nothing changes.
  pub initialize-entropy :
      priv.registered ≡ false
      → all_zero (r.random 0) ≡ true
      → let (after, ret) = initialize crypto labels libc kconfig answers r staged priv in
        (after ≡ priv) × (is_ok ret ≡ false)
  initialize-entropy off poor =
      let keystr = cfg_str staged.private_key kconfig.private_key in
      elim (Bool-cases (length keystr == 0)) [
        | inl nokey ↦ unfold initialize in simp (off, nokey) (refl, refl)
        | inr keyed ↦ elim (Option-cases (decode_key keystr)) [
          | inl bad ↦ unfold initialize in rw (keyed, bad, initialize, off) (refl, refl)
          | inr (key, good) ↦
              unfold initialize in rw (keyed, good, initialize, poor, off) (refl, refl)
        ]
      ]
