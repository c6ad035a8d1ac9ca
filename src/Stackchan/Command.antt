-- ===== src/Stackchan/Command.antt =====
-- `cmd_servo` and `main` of demo/stackchan/stackchan_main.c: the command `stackchan`, with the
-- loudspeaker configured. An argument vector is the list of the arguments after the name of the
-- program.
pub mod Drawing
use gsoc2026_nuttx_wireguard.Base.{
  ℕ, ◌+◌, ◌-◌, ◌*◌, ◌%◌, Bool, true, false, not, ◌&&◌, ◌||◌, List, [], ◌∷◌, ◌++◌, Option, none,
  some, length, leb, ◌==◌, if◌then◌else◌, u8, u32, Bytes, codes, str_eq,
}
use gsoc2026_nuttx_wireguard.Config.{Libc, ℤ, pos, negsuc, Errno, Ret, ok, err, enodev}
use gsoc2026_nuttx_wireguard.Stackchan.Bus.{
  Bus, i2c_read, servo_power, led_set, addr_py32, py32_version,
}
use gsoc2026_nuttx_wireguard.Stackchan.Servo.{
  Line, Outcome, servo_pan, servo_tilt, servo_ping, servo_pos, servo_goto, servo_torque,
}
use gsoc2026_nuttx_wireguard.Stackchan.Display.{Transfer, face_blink, face_mouth, expr_parse}
use gsoc2026_nuttx_wireguard.Stackchan.Screen.{Spi, face_draw, fills}
use gsoc2026_nuttx_wireguard.Stackchan.Speaker.{Player, say}

-- The globals that the task and the commands share; no pid is -1.
pub record Globals : Type 0 where
  pub running : Bool
  pub demo_pid : Option ℕ
  pub expr : ℕ
  pub redraw : Bool

-- What a command meets: the devices, whether there is memory, the pid or the failure of
-- `task_create`, and `strtoul`. Each exchange with a servo has a line of its own.
pub record Rig : Type 0 where
  pub bus : Bus
  pub spi : Spi
  pub line : ℕ → Line
  pub allocated : Bool
  pub created : Option ℕ
  pub player : Player
  pub strtoul : Bytes → ℕ

-- What is printed: the usage, the texts, and the numbers in them.
pub data Said : Type 0 where
  usage : Said
  reported : Bytes → Ret → Said
  answered : Bytes → Outcome → Said
  positions : Outcome × ℕ → Outcome × ℕ → Said
  version : Ret → ℕ → Said
  told : Bytes → Said
  told_pid : Bytes → ℕ → Said

-- What is left behind by a command: `drawn` are the sequences for the display.
pub record Done : Type 0 where
  pub globals : Globals
  pub bus : Bus
  pub drawn : List (List Transfer)
  pub said : List Said
  pub code : ℕ

-- An `int` as a `uint8_t` argument.
unfoldable pub to_u8 : ℤ → ℕ
to_u8 (pos n) = u8 n
to_u8 (negsuc n) = 255 - u8 n

-- `servo move`, on its arguments.
unfoldable pub servo_move : Libc → Rig → List Bytes → Bus × List Said × ℕ
servo_move libc rig (pan ∷ tilt ∷ []) = (
  rig.bus,
  answered (codes "pan") (servo_goto (rig.line 0) servo_pan (libc.atoi pan) 500)
      ∷ answered (codes "tilt") (servo_goto (rig.line 1) servo_tilt (libc.atoi tilt) 500)
      ∷ [],
  0,
)
servo_move libc rig other = (rig.bus, usage ∷ [], 1)

-- `cmd_servo`, on the arguments after "servo": the bus, what is printed and the exit code.
unfoldable pub cmd_servo : Libc → Rig → List Bytes → Bus × List Said × ℕ
cmd_servo libc rig [] = (rig.bus, usage ∷ [], 1)
cmd_servo libc rig (action ∷ args) =
    let (bus1, ret) = servo_power rig.bus true in
    if str_eq action (codes "on")
    then (bus1, reported (codes "VM_EN on") ret ∷ [], 0)
    else if str_eq action (codes "off")
    then (
      rig.bus,
      answered (codes "pan torque off") (servo_torque (rig.line 0) servo_pan false)
          ∷ answered (codes "tilt torque off") (servo_torque (rig.line 1) servo_tilt false)
          ∷ [],
      0,
    )
    else if str_eq action (codes "ping")
    then (
      rig.bus,
      answered (codes "servo 1") (servo_ping (rig.line 0) servo_pan)
          ∷ answered (codes "servo 2") (servo_ping (rig.line 1) servo_tilt)
          ∷ [],
      0,
    )
    else if str_eq action (codes "pos")
    then (
      rig.bus,
      positions (servo_pos (rig.line 0) servo_pan) (servo_pos (rig.line 1) servo_tilt) ∷ [],
      0,
    )
    else if str_eq action (codes "move")
    then servo_move libc rig args
    else (rig.bus, usage ∷ [], 1)

-- A command that draws nothing and leaves the bus.
abbrev pub quiet : Rig → Globals → List Said → ℕ → Done
quiet rig g said code = record { globals = g; bus = rig.bus; drawn = []; said = said; code = code }

unfoldable pub run_start : Rig → Globals → Done
run_start rig g = elim g.demo_pid [
  | some pid ↦ quiet rig g (told_pid (codes "already running") pid ∷ []) 0
  | none ↦ elim rig.created [
    | none ↦ quiet rig (record g { running = false }) (told (codes "task_create failed") ∷ []) 1
    | some pid ↦
        quiet rig (record g { running = true; demo_pid = some pid })
          (told_pid (codes "started") pid ∷ []) 0
  ]
]

unfoldable pub run_status : Rig → Globals → Done
run_status rig g = elim g.demo_pid [
  | some pid ↦ quiet rig g (told (codes "demo running") ∷ []) 0
  | none ↦ quiet rig g (told (codes "demo stopped") ∷ []) 0
]

-- `face` with an expression: while the task runs it is the task that draws.
unfoldable pub run_face : Rig → Globals → Option ℕ → Done
run_face rig g none = quiet rig g (usage ∷ []) 1
run_face rig g (some expr) =
    let (bus, drawn, ret) = face_draw rig.spi rig.bus expr in
    elim g.demo_pid [
      | some pid ↦ quiet rig (record g { expr = expr; redraw = true }) (told (codes "face") ∷ []) 0
      | none ↦ record {
        globals = record g { expr = expr };
        bus = bus;
        drawn = drawn;
        said = reported (codes "face") ret ∷ [];
        code = 0;
      }
    ]

abbrev pub chosen_expr : Globals → List Bytes → Option ℕ
chosen_expr g [] = some g.expr
chosen_expr g (name ∷ rest) = expr_parse name

-- The mouths that `say` draws.
unfoldable pub mouth_fills : Spi → List ℕ → List (List Transfer)
mouth_fills spi [] = []
mouth_fills spi (expr ∷ exprs) = fills spi (face_mouth expr) ++ mouth_fills spi exprs

abbrev pub is_set {ℓ} : {A : Type ℓ} → Option A → Bool
is_set none = false
is_set (some a) = true

abbrev pub rate_of : Rig → List Bytes → ℕ
rate_of rig [] = 16000
rate_of rig (text ∷ others) = u32 (rig.strtoul text)

unfoldable pub run_say : Rig → Globals → List Bytes → Done
run_say rig g [] = quiet rig g (usage ∷ []) 1
run_say rig g (source ∷ rest) =
    let (bus, exprs, ret) =
      say rig.player (not (is_set (rig.spi.refuses))) (is_set g.demo_pid) g.expr rig.bus
        (rate_of rig rest) in
    record {
      globals = g;
      bus = bus;
      drawn = mouth_fills rig.spi exprs;
      said = reported (codes "say") ret ∷ [];
      code = 0;
    }

unfoldable pub blink_once : Rig → Globals → Done
blink_once rig g = elim (rig.spi.refuses) [
  | some e ↦ quiet rig g (reported (codes "blink") (err e) ∷ []) 0
  | none ↦ record {
    globals = g;
    bus = rig.bus;
    drawn = fills rig.spi (face_blink g.expr);
    said = reported (codes "blink") ok ∷ [];
    code = 0;
  }
]

unfoldable pub run_led : Libc → Rig → Globals → List Bytes → Done
run_led libc rig g (red ∷ green ∷ blue ∷ []) =
    let (bus, ret) =
      led_set rig.bus (to_u8 (libc.atoi red)) (to_u8 (libc.atoi green)) (to_u8 (libc.atoi blue)) in
    record { globals = g; bus = bus; drawn = []; said = reported (codes "led") ret ∷ []; code = 0 }
run_led libc rig g other = quiet rig g (usage ∷ []) 1

unfoldable pub run_py32 : Rig → Globals → Done
run_py32 rig g =
    let (bus, ret, ver) = i2c_read rig.bus addr_py32 py32_version in
    record { globals = g; bus = bus; drawn = []; said = version ret ver ∷ []; code = 0 }

unfoldable pub run_servo : Libc → Rig → Globals → List Bytes → Done
run_servo libc rig g args =
    let (bus, said, code) = cmd_servo libc rig args in
    record { globals = g; bus = bus; drawn = []; said = said; code = code }

-- `main`
unfoldable pub stackchan_main : Libc → Rig → Globals → List Bytes → Done
stackchan_main libc rig g [] = quiet rig g (usage ∷ []) 1
stackchan_main libc rig g (command ∷ args) =
    if str_eq command (codes "start")
    then run_start rig g
    else if str_eq command (codes "stop")
    then quiet rig (record g { running = false }) (told (codes "stopping") ∷ []) 0
    else if str_eq command (codes "status")
    then run_status rig g
    else if not rig.allocated
    then quiet rig g [] 1
    else if str_eq command (codes "py32")
    then run_py32 rig g
    else if str_eq command (codes "face")
    then run_face rig g (chosen_expr g args)
    else if str_eq command (codes "say")
    then run_say rig g args
    else if str_eq command (codes "blink")
    then blink_once rig g
    else if str_eq command (codes "led")
    then run_led libc rig g args
    else if str_eq command (codes "servo")
    then run_servo libc rig g args
    else quiet rig g (usage ∷ []) 1
