-- ===== src/Stackchan/Servo.antt =====
-- The servos of demo/stackchan/stackchan_main.c, in the Feetech SCS protocol over a serial line.
pub mod Range
use gsoc2026_nuttx_wireguard.Base.{
  ℕ, zero, suc, ◌+◌, ◌-◌, ◌*◌, ◌/◌, ◌%◌, Bool, true, false, not, ◌||◌, List, [], ◌∷◌, ◌++◌, Option,
  none, some, length, get_or, take, drop, ltb, leb, ◌==◌, if◌then◌else◌, u8, bit_or, Bytes,
}
use gsoc2026_nuttx_wireguard.Config.{ℤ, pos, negsuc, Errno, einval, eio, etimedout, eproto}

-- sizeof(pkt) and sizeof(rx)
abbrev pub packet_size : ℕ
packet_size = 16

abbrev pub servo_reply_ms : ℕ
servo_reply_ms = 25

abbrev pub servo_pan : ℕ
servo_pan = 1

abbrev pub servo_tilt : ℕ
servo_tilt = 2

-- `g_limit`
unfoldable pub limit : ℕ → ℕ × ℕ
limit id = if id == servo_pan then (51, 869) else if id == servo_tilt then (620, 900) else (0, 0)

-- What the serial line does in one exchange: whether it can be opened, whether it takes the whole
-- packet, and for each round of the loop the time that has passed and the bytes that have come,
-- none if `poll` or `read` gives nothing.
pub record Line : Type 0 where
  pub opens : Bool
  pub takes : Bytes → Bool
  pub rounds : List (ℕ × Bytes)

pub data Outcome : Type 0 where
  replied : Bytes → Outcome
  failed : Errno → Outcome
  waiting : Outcome

-- The sum of bytes in a `uint8_t`.
unfoldable pub byte_sum : ℕ → Bytes → ℕ
byte_sum sum [] = sum
byte_sum sum (b ∷ bs) = byte_sum (u8 (sum + b)) bs

-- An instruction packet, with the inverted sum at its end.
unfoldable pub packet : ℕ → ℕ → Bytes → Bytes
packet id inst args =
    let body : Bytes = id ∷ u8 (length args + 2) ∷ inst ∷ args in
    255 ∷ 255 ∷ (body ++ ((255 - byte_sum 0 body) ∷ []))

-- The loop that collects `want` bytes; `waiting` where the rounds run out.
unfoldable pub collect : ℕ → Bytes → List (ℕ × Bytes) → Outcome
collect want got [] = if ltb (length got) want then waiting else replied got
collect want got ((elapsed, chunk) ∷ rounds) =
    let rest = collect want (got ++ take (want - length got) chunk) rounds in
    if not (ltb (length got) want)
    then replied got
    else if leb servo_reply_ms elapsed
    then failed etimedout
    else rest

-- The status packet: its parameters, if it is from the servo.
unfoldable pub status : ℕ → ℕ → Bytes → Outcome
status id nparams rx =
    if not (get_or rx 0 0 == 255) || (not (get_or rx 1 0 == 255) || not (get_or rx 2 0 == id))
    then failed eproto
    else replied (take nparams (drop 5 rx))

-- `servo_xfer`
unfoldable pub servo_xfer : Line → ℕ → ℕ → Bytes → ℕ → Outcome
servo_xfer line id inst args nparams =
    if ltb packet_size (length args + 6) || (ltb packet_size (6 + nparams) || not line.opens)
    then failed einval
    else if not (line.takes (packet id inst args))
    then failed eio
    else elim (collect (6 + nparams) [] line.rounds) [
      | replied rx ↦ status id nparams rx
      | failed e ↦ failed e
      | waiting ↦ waiting
    ]

-- `servo_ping`
unfoldable pub servo_ping : Line → ℕ → Outcome
servo_ping line id = servo_xfer line id 1 [] 0

-- `servo_pos`: the position of a reply.
unfoldable pub servo_pos : Line → ℕ → Outcome × ℕ
servo_pos line id =
    let out = servo_xfer line id 2 (56 ∷ 2 ∷ []) 2 in
    (
      out,
      elim out [
        | replied p ↦ bit_or (get_or p 0 0 * 256) (get_or p 1 0)
        | failed e ↦ 0
        | waiting ↦ 0
      ],
    )

-- A position brought into the range of the servo.
unfoldable pub bounded_position : ℕ → ℤ → ℕ
bounded_position id (negsuc n) = (limit id).0
bounded_position id (pos n) =
    let (low, high) = limit id in if ltb n low then low else if ltb high n then high else n

-- The arguments of `servo_goto`: the block at 0x2a with the position, the time and no speed.
unfoldable pub goto_args : ℕ → ℤ → ℕ → Bytes
goto_args id position ms =
    let p = bounded_position id position in
    42 ∷ u8 (p / 256) ∷ u8 p ∷ u8 (ms / 256) ∷ u8 ms ∷ 0 ∷ 0 ∷ []

-- `servo_goto`
unfoldable pub servo_goto : Line → ℕ → ℤ → ℕ → Outcome
servo_goto line id position ms = servo_xfer line id 3 (goto_args id position ms) 0

-- `servo_torque`
unfoldable pub servo_torque : Line → ℕ → Bool → Outcome
servo_torque line id on = servo_xfer line id 3 (40 ∷ (if on then 1 else 0) ∷ []) 0
