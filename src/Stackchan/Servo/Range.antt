-- ===== src/Stackchan/Servo/Range.antt =====
-- What the servos are told.
use gsoc2026_nuttx_wireguard.Base.{
  ℕ, ◌+◌, ◌-◌, ◌*◌, ◌/◌, ◌≤◌, ◌<◌, [], ◌∷◌, ◌++◌, length, get_or, drop, false, ltb, ◌==◌,
  Bool-cases, u8, ◌≡◌, inl, inr, refl, ◌∙◌, arith, Bytes,
}
use gsoc2026_nuttx_wireguard.Config.{ℤ, pos, negsuc}
use gsoc2026_nuttx_wireguard.Stackchan.Servo.{
  limit, byte_sum, packet, bounded_position, goto_args, servo_pan, servo_tilt,
}

-- The sum of the parts is the sum of the whole.
byte_sum-append :
    (sum : ℕ) (xs ys : Bytes) → byte_sum sum (xs ++ ys) ≡ byte_sum (byte_sum sum xs) ys
unfolding byte_sum
byte_sum-append sum [] ys = refl
byte_sum-append sum (x ∷ xs) ys = byte_sum-append (u8 (sum + x)) xs ys

byte_sum-lt : (sum : ℕ) (xs : Bytes) → sum < 256 → byte_sum sum xs < 256
unfolding byte_sum
byte_sum-lt sum [] small = small
byte_sum-lt sum (x ∷ xs) small = byte_sum-lt (u8 (sum + x)) xs (omega arith)

-- All bytes of a packet after the two 0xff sum up to 0xff.
packet-sums : (id inst : ℕ) (args : Bytes) → byte_sum 0 (drop 2 (packet id inst args)) ≡ 255
unfolding packet
packet-sums id inst args =
    let body : Bytes = id ∷ u8 (length args + 2) ∷ inst ∷ args in
    let sum = byte_sum 0 body in
    let small = byte_sum-lt 0 body (omega arith) in
    let last : byte_sum sum ((255 - sum) ∷ []) ≡ 255 = unfold byte_sum in omega arith in
    byte_sum-append 0 body ((255 - sum) ∷ []) ∙ last

-- The position that a packet with a goal asks for.
abbrev pub commanded : Bytes → ℕ
commanded pkt = get_or pkt 6 0 * 256 + get_or pkt 7 0

abbrev Within : ℕ × ℕ → ℕ → Type 0
Within (low, high) n = (low ≤ n) × (n ≤ high)

bounded_position-Within :
    (id : ℕ) (position : ℤ)
    → (limit id).0 ≤ (limit id).1
    → Within (limit id) (bounded_position id position)
unfolding bounded_position
bounded_position-Within id (negsuc n) range = (omega arith, range)
bounded_position-Within id (pos n) range =
    let low = (limit id).0 in
    let high = (limit id).1 in
    elim (Bool-cases (ltb n low)) [
      | inl under ↦ rw under (omega arith, range)
      | inr enough ↦ elim (Bool-cases (ltb high n)) [
        | inl over ↦ rw (enough, over) (range, omega arith)
        | inr fits ↦ rw (enough, fits) (ground arith, ground arith)
      ]
    ]

inside : (id n : ℕ) → (limit id).0 ≤ n → n ≤ (limit id).1 → bounded_position id (pos n) ≡ n
unfolding bounded_position
inside id n low high =
    let enough : ltb n (limit id).0 ≡ false = ground arith in
    let fits : ltb (limit id).1 n ≡ false = ground arith in rw (enough, fits) refl

limit-small : (id : ℕ) → ((limit id).0 ≤ (limit id).1) × ((limit id).1 < 65536)
unfolding limit
limit-small id = elim (Bool-cases (id == servo_pan)) [
  | inl pan ↦ rw pan (omega arith, omega arith)
  | inr other ↦ elim (Bool-cases (id == servo_tilt)) [
    | inl tilt ↦ rw (other, tilt) (omega arith, omega arith)
    | inr neither ↦ rw (other, neither) (omega arith, omega arith)
  ]
]

-- Whatever position is asked of a servo, the packet that `servo_goto` sends asks for one within the
-- limits of the servo, and for that very position if it is within them; its length byte counts the
-- bytes that follow it, and its bytes after the two 0xff sum up to 0xff.
pub servo_goto-bounded :
    (id : ℕ) (position : ℤ) (ms : ℕ)
    → let pkt = packet id 3 (goto_args id position ms) in
      ((limit id).0 ≤ commanded pkt)
      × (commanded pkt ≤ (limit id).1)
      × ((n : ℕ) → position ≡ pos n → (limit id).0 ≤ n → n ≤ (limit id).1 → commanded pkt ≡ n)
      × (get_or pkt 3 0 ≡ length pkt - 4)
      × (byte_sum 0 (drop 2 pkt) ≡ 255)
unfolding packet goto_args
servo_goto-bounded id position ms =
    let p = bounded_position id position in
    let (ordered, small) = limit-small id in
    let (above, below) = bounded_position-Within id position ordered in
    let same : u8 (p / 256) * 256 + u8 p ≡ p = omega arith in
    (
      rw same above,
      rw same below,
      λ n e low high. rw same (rw e (inside id n low high)),
      refl,
      packet-sums id 3 (goto_args id position ms),
    )
