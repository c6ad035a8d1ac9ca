-- ===== src/Tests/Demo.antt =====
-- Witnesses for the StackChan demonstration.
use gsoc2026_nuttx_wireguard.Base.{
  ℕ, ◌+◌, ◌-◌, ◌*◌, ◌^◌, ◌≤◌, ◌<◌, true, false, [], ◌∷◌, none, some, length, get_or, drop, bit,
  ◌==◌, if◌then◌else◌, ◌≡◌, refl, arith, codes, str_eq, replicate, All,
}
use gsoc2026_nuttx_wireguard.Stackchan.Screen.{Spi}
use gsoc2026_nuttx_wireguard.Stackchan.Speaker.Rate.{working}
use gsoc2026_nuttx_wireguard.Stackchan.Task.{Reads, run_ticks, demo_start}
use gsoc2026_nuttx_wireguard.Stackchan.Task.Lively.{InRange, has_blink, run_ticks-Lively}
use gsoc2026_nuttx_wireguard.Stackchan.Command.{Globals, Rig, stackchan_main}
use gsoc2026_nuttx_wireguard.Stackchan.Command.Drawing.{LeavesTask, stackchan_main-LeavesTask}
use gsoc2026_nuttx_wireguard.Tests.{libc}
use gsoc2026_nuttx_wireguard.Config.{pos, negsuc, eio, Errno, err}
use gsoc2026_nuttx_wireguard.Stackchan.Bus.{
  Bus, masked, i2c_setbits, i2c_read, i2c_transfer, try_transfer,
}
use gsoc2026_nuttx_wireguard.Stackchan.Bus.Bits.{Wrote, i2c_setbits-pin}
use gsoc2026_nuttx_wireguard.Stackchan.Servo.{limit, byte_sum, packet, goto_args}
use gsoc2026_nuttx_wireguard.Stackchan.Servo.Range.{commanded, servo_goto-bounded}
use gsoc2026_nuttx_wireguard.Stackchan.Display.{
  Rect, rect, fill_sequence, trans_size, face_expr, face_blink,
}
use gsoc2026_nuttx_wireguard.Stackchan.Display.Window.{
  AllShort, words, all_on_display, fill_sequence-fits,
}

servo_goto-bounded_example :
    let pkt = packet 2 3 (goto_args 2 (negsuc 99) 500) in
    ((limit 2).0 ≤ commanded pkt)
    × (commanded pkt ≤ (limit 2).1)
    × ((n : ℕ) → negsuc 99 ≡ pos n → (limit 2).0 ≤ n → n ≤ (limit 2).1 → commanded pkt ≡ n)
    × (get_or pkt 3 0 ≡ length pkt - 4)
    × (byte_sum 0 (drop 2 pkt) ≡ 255)
servo_goto-bounded_example = servo_goto-bounded 2 (negsuc 99) 500

fill_sequence-fits_example :
    let whole : Rect = rect (pos 0) (pos 0) (pos 320) (pos 240) 0 in
    (length (fill_sequence whole) ≤ trans_size)
    × AllShort (fill_sequence whole)
    × (words (fill_sequence whole) ≡ 1 + 2 * (320 * 240))
    × (all_on_display (face_expr 3) ≡ true)
    × (all_on_display (face_blink 3) ≡ true)
fill_sequence-fits_example =
    fill_sequence-fits (rect (pos 0) (pos 0) (pos 320) (pos 240) 0) 3 (omega arith) (omega arith)
      (omega arith)

-- A bus on which the first try fails and the second one reads 6.
abbrev bus : Bus
bus = record { opens = true; answers = (some eio, []) ∷ (none, 6 ∷ []) ∷ []; written = [] }

i2c_setbits-pin_example :
    Wrote bus
      (record { addr = 111; reg = 5; payload = masked 6 (2 ^ 0) true ∷ [] })
      (i2c_setbits bus 111 5 (2 ^ 0) true)
    × ((e : Errno)
        → (i2c_read bus 111 5).1 ≡ err e
        → let (after, ret) = i2c_setbits bus 111 5 (2 ^ 0) true in
          (ret ≡ err e) × (after.written ≡ bus.written))
    × ((i : ℕ)
        → i < 8
        → bit (masked 6 (2 ^ 0) true) i ≡ (if i == 0 then (if true then 1 else 0) else bit 6 i))
unfolding i2c_read i2c_transfer try_transfer
i2c_setbits-pin_example = i2c_setbits-pin bus 111 5 0 true (omega arith) (omega arith)

abbrev spi : Spi
spi = record { refuses = none; fails = λ sequence. none }

abbrev calm : Reads
calm = record {
  talking = false;
  redraw = false;
  expr = 1;
  blink_rand = 7;
  pan_rand = 130;
  tilt_rand = 61;
  look_rand = 5;
}

run_ticks-Lively_example :
    let s = (run_ticks (replicate 40 calm) (demo_start spi (working []) 1)).0 in
    All InRange (run_ticks (replicate 49 calm) s).1
    × (49 ≤ length (replicate 49 calm) → has_blink (run_ticks (replicate 49 calm) s).1 ≡ true)
run_ticks-Lively_example =
    run_ticks-Lively spi (working []) 1 (replicate 40 calm) (replicate 49 calm)

abbrev globals : Globals
globals = record { running = true; demo_pid = some 12; expr = 1; redraw = false }

abbrev rig : Rig
rig = record {
  bus = working [];
  spi = spi;
  line = λ exchange. record { opens = true; takes = λ bytes. true; rounds = [] };
  allocated = true;
  created = some 13;
  player = record { made = true; play = none; looks = true ∷ true ∷ [] };
  strtoul = λ text. 44100;
}

stackchan_main-LeavesTask_example :
    LeavesTask libc rig globals 12 refl
      (str_eq (codes "say") (codes "stop"))
      (stackchan_main libc rig globals (codes "say" ∷ codes "/a.wav" ∷ []))
stackchan_main-LeavesTask_example =
    stackchan_main-LeavesTask libc rig globals 12 refl (codes "say") (codes "/a.wav" ∷ [])
      (unfold str_eq in refl)
