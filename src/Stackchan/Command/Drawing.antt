-- ===== src/Stackchan/Command/Drawing.antt =====
-- Which commands draw while the task draws too.
use gsoc2026_nuttx_wireguard.Base.{
  ℕ, Bool, true, false, not, List, [], ◌∷◌, Option, none, some, ◌≡◌, refl, arith, if_lem, Bytes,
  codes, str_eq, Bool-cases, inl, inr,
}
use gsoc2026_nuttx_wireguard.Config.{Libc}
use gsoc2026_nuttx_wireguard.Stackchan.Bus.{Bus}
use gsoc2026_nuttx_wireguard.Stackchan.Speaker.{Player, say}
use gsoc2026_nuttx_wireguard.Stackchan.Command.{
  Globals, Rig, Done, run_start, run_status, run_face, run_say, run_led, run_py32, run_servo,
  mouth_fills, is_set, rate_of, stackchan_main,
}

-- While the task runs, `say` leaves the mouth to it.
say-silent :
    (player : Player) (opens : Bool) (expr : ℕ) (bus : Bus) (rate : ℕ)
    → (say player opens true expr bus rate).1 ≡ []
unfolding say
say-silent player opens expr bus rate = ground arith

module _ (libc : Libc) (rig : Rig) (g : Globals) (pid : ℕ) (runs : g.demo_pid ≡ some pid) where
  -- A command draws nothing, leaves the pid of the task, and, unless it is the one that stops the
  -- task, whether the task is to go on.
  abbrev pub LeavesTask : Bool → Done → Type 0
  LeavesTask stops d =
      (d.drawn ≡ [])
      × (d.globals.demo_pid ≡ some pid)
      × (stops ≡ false → d.globals.running ≡ g.running)

  module _ (stops : Bool) where
    abbrev Leaves : Done → Type 0
    Leaves = LeavesTask stops

    run_say-LeavesTask : (args : List Bytes) → Leaves (run_say rig g args)
    unfolding run_say mouth_fills
    run_say-LeavesTask [] = (refl, runs, λ on. refl)
    run_say-LeavesTask (source ∷ rest) =
        let silent =
          say-silent rig.player (not (is_set rig.spi.refuses)) g.expr rig.bus (rate_of rig rest) in
        rw (runs, silent, mouth_fills) (refl, refl, λ on. refl)

    run_led-LeavesTask : (args : List Bytes) → Leaves (run_led libc rig g args)
    unfolding run_led
    run_led-LeavesTask [] = (refl, runs, λ on. refl)
    run_led-LeavesTask (r ∷ []) = (refl, runs, λ on. refl)
    run_led-LeavesTask (r ∷ gr ∷ []) = (refl, runs, λ on. refl)
    run_led-LeavesTask (r ∷ gr ∷ b ∷ []) = (refl, runs, λ on. refl)
    run_led-LeavesTask (r ∷ gr ∷ b ∷ x ∷ xs) = (refl, runs, λ on. refl)

    run_face-LeavesTask : (expr : Option ℕ) → Leaves (run_face rig g expr)
    unfolding run_face
    run_face-LeavesTask none = (refl, runs, λ on. refl)
    run_face-LeavesTask (some expr) = rw (runs, run_face) (refl, runs, λ on. refl)

  -- While the task runs, no command but `blink` draws, none starts a second task or forgets the pid
  -- of the first, and only `stop` changes whether the task is to go on.
  pub stackchan_main-LeavesTask :
      (command : Bytes) (args : List Bytes)
      → str_eq command (codes "blink") ≡ false
      → LeavesTask (str_eq command (codes "stop")) (stackchan_main libc rig g (command ∷ args))
  unfolding stackchan_main
  stackchan_main-LeavesTask command args other =
      let stops = str_eq command (codes "stop") in
      let P : Done → Type 0 = LeavesTask stops in
      if_lem P (str_eq command (codes "start"))
        (unfold run_start in rw (runs, run_start) (refl, runs, λ on. refl))
        (elim (Bool-cases stops) [
          | inl stopped ↦ rw stopped (refl, runs, λ on. absurd (ground arith))
          | inr goes_on ↦ rw goes_on (
              if_lem (LeavesTask false) (str_eq command (codes "status"))
                (unfold run_status in rw (runs, run_status) (refl, runs, λ on. refl))
                (if_lem (LeavesTask false) (not rig.allocated) (refl, runs, λ on. refl)
                  (if_lem (LeavesTask false) (str_eq command (codes "py32"))
                    (unfold run_py32 in (refl, runs, λ on. refl))
                    (if_lem (LeavesTask false) (str_eq command (codes "face"))
                      (run_face-LeavesTask false _)
                      (if_lem (LeavesTask false) (str_eq command (codes "say"))
                        (run_say-LeavesTask false args)
                        (rw other (
                          if_lem (LeavesTask false) (str_eq command (codes "led"))
                            (run_led-LeavesTask false args)
                            (if_lem (LeavesTask false) (str_eq command (codes "servo"))
                              (unfold run_servo in (refl, runs, λ on. refl))
                              (refl, runs, λ on. refl)))))))))
        ])
