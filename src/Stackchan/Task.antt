-- ===== src/Stackchan/Task.antt =====
-- `demo_task` of demo/stackchan/stackchan_main.c: the task that moves the face and the head.
pub mod Lively
use gsoc2026_nuttx_wireguard.Base.{
  ℕ, ◌+◌, ◌%◌, Bool, true, false, not, ◌||◌, List, [], ◌∷◌, ◌++◌, leb, if◌then◌else◌,
}
use gsoc2026_nuttx_wireguard.Config.{ℤ, pos, is_ok}
use gsoc2026_nuttx_wireguard.Stackchan.Bus.{Bus, py32_wait, servo_power, led_set}
use gsoc2026_nuttx_wireguard.Stackchan.Servo.{servo_pan, servo_tilt}
use gsoc2026_nuttx_wireguard.Stackchan.Display.{expr_surprised}
use gsoc2026_nuttx_wireguard.Stackchan.Screen.{Spi, face_draw}

-- What the task does to the face and to the servos, by the function that it calls:
-- `face_mouth`, `face_expr`, `face_blink`, `servo_goto` and `servo_torque`.
pub data Action : Type 0 where
  draws_mouth : ℕ → Action
  draws_face : ℕ → Action
  blinks : ℕ → Action
  moves : ℕ → ℤ → ℕ → Action
  torques : ℕ → Bool → Action

-- What a round of the loop reads: the flags of the other commands, the expression, and the four
-- numbers of `rand`.
pub record Reads : Type 0 where
  pub talking : Bool
  pub redraw : Bool
  pub expr : ℕ
  pub blink_rand : ℕ
  pub pan_rand : ℕ
  pub tilt_rand : ℕ
  pub look_rand : ℕ

-- The locals of the loop, with the bus.
pub record Demo : Type 0 where
  pub tick : ℕ
  pub next_blink : ℕ
  pub next_look : ℕ
  pub talk_open : Bool
  pub servo_ok : Bool
  pub bus : Bus

-- The mouth: it opens and closes while there is talk, and is closed after that.
unfoldable pub run_mouth : Reads → Demo → Demo × List Action
run_mouth r s =
    if r.talking
    then (
      record s { talk_open = not s.talk_open },
      draws_mouth (if not s.talk_open then expr_surprised else r.expr) ∷ [],
    )
    else if s.talk_open
    then (record s { talk_open = false }, draws_mouth r.expr ∷ [])
    else (s, [])

abbrev pub run_redraw : Reads → List Action
run_redraw r = if r.redraw then draws_face r.expr ∷ [] else []

unfoldable pub run_blink : Reads → Demo → Demo × List Action
run_blink r s =
    if leb s.next_blink s.tick
    then (record s { next_blink = s.tick + 30 + r.blink_rand % 20 }, blinks r.expr ∷ [])
    else (s, [])

-- The power of the servos, tried again if it failed before.
unfoldable pub powered : Demo → Demo
powered s =
    let (bus, ret) = servo_power s.bus true in
    if s.servo_ok then s else record s { servo_ok = is_ok ret; bus = bus }

unfoldable pub run_look : Reads → Demo → Demo × List Action
run_look r s =
    let p = powered s in
    if not (leb s.next_look s.tick)
    then (s, [])
    else if p.servo_ok
    then (
      record p { next_look = s.tick + 20 + r.look_rand % 20 },
      moves servo_pan (pos (400 + r.pan_rand % 121)) 600
          ∷ moves servo_tilt (pos (630 + r.tilt_rand % 61)) 600
          ∷ [],
    )
    else (record p { next_look = s.tick + 100 }, [])

-- A round of the loop.
unfoldable pub run_tick : Reads → Demo → Demo × List Action
run_tick r s =
    let (s1, mouth) = run_mouth r s in
    let (s2, blink) = run_blink r s1 in
    let (s3, look) = run_look r s2 in
    (record s3 { tick = s3.tick + 1 }, mouth ++ (run_redraw r ++ (blink ++ look)))

-- The loop, while it is not stopped.
unfoldable pub run_ticks : List Reads → Demo → Demo × List Action
run_ticks [] s = (s, [])
run_ticks (r ∷ rs) s =
    let (s1, now) = run_tick r s in let (s2, later) = run_ticks rs s1 in (s2, now ++ later)

-- What stands before the loop.
unfoldable pub demo_start : Spi → Bus → ℕ → Demo
demo_start spi bus expr =
    let (bus1, sent, drawn) = face_draw spi bus expr in
    let (bus2, awake) = py32_wait 10 bus1 in
    let (bus3, lit) = led_set bus2 0 0 24 in
    let (bus4, ret) = servo_power bus3 true in
    record {
      tick = 0;
      next_blink = 30;
      next_look = 12;
      talk_open = false;
      servo_ok = is_ok ret;
      bus = bus4;
    }

-- `demo_task`, with the rounds until it is stopped: the bus and what it did. `allocated` is whether it
-- gets its memory; with none it ends at once.
unfoldable pub demo_task : Bool → Spi → Bus → ℕ → List Reads → Bus × List Action × ℕ
demo_task allocated spi bus expr rounds =
    let (s, done) = run_ticks rounds (demo_start spi bus expr) in
    let (bus1, dark) = led_set s.bus 0 0 0 in
    if not allocated then (bus, [], 1) else (
      bus1,
      done
          ++ (moves servo_pan (pos 460) 600
              ∷ moves servo_tilt (pos 650) 600
              ∷ torques servo_pan false
              ∷ torques servo_tilt false
              ∷ []),
      0,
    )
