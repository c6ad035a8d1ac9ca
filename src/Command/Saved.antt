-- ===== src/Command/Saved.antt =====
-- `wg saveconf` and `wg setconf` with the same file.
use gsoc2026_nuttx_wireguard.Base.{
  false, [], ◌∷◌, Option, none, some, ◌≡◌, refl, Bytes, codes, str_eq, str_eq_refl,
}
use gsoc2026_nuttx_wireguard.Crypto.{Crypto}
use gsoc2026_nuttx_wireguard.Enroll.{Labels}
use gsoc2026_nuttx_wireguard.Config.{Kconfig, Libc, ok}
use gsoc2026_nuttx_wireguard.Staged.{Staged}
use gsoc2026_nuttx_wireguard.Writeconf.{writeconf, saveconf}
use gsoc2026_nuttx_wireguard.Setconf.Printable.{PrintsNumbers}
use gsoc2026_nuttx_wireguard.Setconf.RoundTrip.{IsSavable, restored, setconf-writeconf}
use gsoc2026_nuttx_wireguard.Command.{System, Run, main, run_saveconf, run_setconf}

saveconf-fine :
    (libc : Libc) (kconfig : Kconfig) (staged : Staged) (file : Option Bytes) (text : Bytes)
    (reaches : Bytes → Bytes)
    → reaches text ≡ text
    → writeconf libc kconfig staged ≡ some text
    → saveconf libc kconfig none reaches none staged file ≡ (some text, ok)
unfolding saveconf
saveconf-fine libc kconfig staged file text reaches whole full = rw (full, saveconf, whole) refl

module _ (crypto : Crypto) (labels : Labels) (libc : Libc) (kconfig : Kconfig) (run : Run)
    (sys : System) where
  -- Given that atoi reads back the numbers that printf prints, where the file can be opened and
  -- closed and all that is written reaches it, and the configuration can be saved, wg saveconf
  -- exits with 0, and then, while wg0 is down and whatever is staged by then, wg setconf with
  -- that file exits with 0 and stages the configuration again, with the values that are in force;
  -- nothing else changes.
  pub saveconf-setconf :
      (path : Bytes) (other : Staged)
      → PrintsNumbers libc
      → IsSavable libc kconfig sys.staged
      → run.open_fails ≡ none
      → ((text : Bytes) → run.reaches text ≡ text)
      → run.close_fails ≡ none
      → sys.wg0.registered ≡ false
      → let (saved, code) =
          main crypto labels libc kconfig run sys (codes "saveconf" ∷ path ∷ []) in
        (code ≡ 0)
        × (main crypto labels libc kconfig run
              (record saved { staged = other })
              (codes "setconf" ∷ path ∷ [])
            ≡ (record saved { staged = restored libc kconfig sys.staged }, 0))
  unfolding main str_eq run_saveconf run_setconf
  saveconf-setconf path other numbers w opens arrives closes down =
      let (text, written, read) = setconf-writeconf libc kconfig numbers other sys.staged w in
      let fine : (file : Option Bytes)
          → saveconf libc kconfig run.open_fails run.reaches run.close_fails sys.staged file
            ≡ (some text, ok) =
        λ file.
          rw (opens, closes)
            (saveconf-fine libc kconfig sys.staged file text run.reaches (arrives text) written) in
      (rw (fine _) refl, rw (fine _, str_eq_refl, down, read) refl)
