-- ===== src/Stackchan/Task/Lively.antt =====
-- What the task keeps doing while it runs.
use gsoc2026_nuttx_wireguard.Base.{
  ℕ, ◌+◌, ◌-◌, ◌≤◌, ◌<◌, Bool, true, false, ◌||◌, List, [], ◌∷◌, ◌++◌, length, leb, ◌≡◌, ◌⊎◌, refl,
  arith, inl, inr, Bool-cases, if_lem, not, All, All-append,
}
use gsoc2026_nuttx_wireguard.Config.{pos, negsuc}
use gsoc2026_nuttx_wireguard.Stackchan.Bus.{Bus}
use gsoc2026_nuttx_wireguard.Stackchan.Servo.{limit}
use gsoc2026_nuttx_wireguard.Stackchan.Screen.{Spi}
use gsoc2026_nuttx_wireguard.Stackchan.Task.{
  Action, draws_mouth, draws_face, blinks, moves, torques, Reads, Demo, run_mouth, run_redraw,
  run_blink, powered, run_look, run_tick, run_ticks, demo_start,
}

-- The next blink and the next look are near.
pub record IsNear (s : Demo) : Type 0 where
  pub blink : s.next_blink ≤ s.tick + 48
  pub look : s.next_look ≤ s.tick + 99

abbrev SameTimes : Demo → Demo → Type 0
SameTimes s t = (t.tick ≡ s.tick) × (t.next_blink ≡ s.next_blink) × (t.next_look ≡ s.next_look)

run_mouth-SameTimes : (r : Reads) (s : Demo) → SameTimes s (run_mouth r s).0
unfolding run_mouth
run_mouth-SameTimes r s = ground arith

powered-SameTimes : (s : Demo) → SameTimes s (powered s)
unfolding powered
powered-SameTimes s = ground arith

run_blink_lem :
    (r : Reads) (s : Demo)
    → let t = (run_blink r s).0 in
      (t.tick ≡ s.tick)
      × (t.next_look ≡ s.next_look)
      × ((t.next_blink ≡ s.next_blink) ⊎ (t.next_blink ≤ s.tick + 49))
      × (leb s.next_blink s.tick ≡ false → t.next_blink ≡ s.next_blink)
unfolding run_blink
run_blink_lem r s = elim (Bool-cases (leb s.next_blink s.tick)) [
  | inl due ↦ rw due (refl, refl, inr (omega arith), λ h. cc)
  | inr early ↦ rw early (refl, refl, inl refl, λ h. refl)
]

run_look_lem :
    (r : Reads) (s : Demo)
    → let t = (run_look r s).0 in
      (t.tick ≡ s.tick)
      × (t.next_blink ≡ s.next_blink)
      × ((t.next_look ≡ s.next_look) ⊎ (t.next_look ≤ s.tick + 100))
unfolding run_look
run_look_lem r s =
    let (tick, blink, look) = powered-SameTimes s in
    elim (Bool-cases (leb s.next_look s.tick)) [
      | inr early ↦ rw early (refl, refl, inl refl)
      | inl due ↦ elim (Bool-cases (powered s).servo_ok) [
        | inl on ↦ rw (due, on) (tick, blink, inr (omega arith))
        | inr off ↦ rw (due, off) (tick, blink, inr (omega arith))
      ]
    ]

-- A round counts one tick, and leaves the next blink and the next look near.
run_tick_lem :
    (r : Reads) (s : Demo)
    → let t = (run_tick r s).0 in
      (t.tick ≡ s.tick + 1)
      × (IsNear s → IsNear t)
      × (leb s.next_blink s.tick ≡ false → t.next_blink ≡ s.next_blink)
unfolding run_tick
run_tick_lem r s =
    let s1 = (run_mouth r s).0 in
    let s2 = (run_blink r s1).0 in
    let (tick1, blink1, look1) = run_mouth-SameTimes r s in
    let (tick2, look2, blink2, kept2) = run_blink_lem r s1 in
    let (tick3, blink3, look3) = run_look_lem r s2 in
    (omega arith, λ n. record { blink = ground arith; look = ground arith }, λ early. ground arith)

-- An action that keeps the servos within their limits.
abbrev pub InRange : Action → Type 0
InRange (moves id (pos n) ms) = ((limit id).0 ≤ n) × (n ≤ (limit id).1)
InRange (moves id (negsuc n) ms) = ⊥
InRange (draws_mouth e) = Unit
InRange (draws_face e) = Unit
InRange (blinks e) = Unit
InRange (torques id on) = Unit

abbrev Keeps : Demo × List Action → Type 0
Keeps (s, actions) = All InRange actions

run_mouth-InRange : (r : Reads) (s : Demo) → All InRange (run_mouth r s).1
unfolding run_mouth
run_mouth-InRange r s = if_lem Keeps r.talking (tt, tt) (if_lem Keeps s.talk_open (tt, tt) tt)

run_look-InRange : (r : Reads) (s : Demo) → All InRange (run_look r s).1
unfolding run_look limit
run_look-InRange r s = if_lem Keeps (not (leb s.next_look s.tick)) tt (
    if_lem Keeps (powered s).servo_ok ((omega arith, omega arith), ((omega arith, omega arith), tt))
      tt)

run_redraw-InRange : (r : Reads) → All InRange (run_redraw r)
run_redraw-InRange r = if_lem (All InRange) r.redraw (tt, tt) tt

run_blink-InRange : (r : Reads) (s : Demo) → All InRange (run_blink r s).1
unfolding run_blink
run_blink-InRange r s = if_lem Keeps (leb s.next_blink s.tick) (tt, tt) tt

run_tick-InRange : (r : Reads) (s : Demo) → All InRange (run_tick r s).1
unfolding run_tick
run_tick-InRange r s =
    let s1 = (run_mouth r s).0 in
    let s2 = (run_blink r s1).0 in
    All-append InRange (run_mouth r s).1 _ (run_mouth-InRange r s) (
      All-append InRange (run_redraw r) _ (run_redraw-InRange r) (
        All-append InRange (run_blink r s1).1 (run_look r s2).1 (run_blink-InRange r s1)
          (run_look-InRange r s2)))

run_ticks-InRange : (rs : List Reads) (s : Demo) → All InRange (run_ticks rs s).1
unfolding run_ticks
run_ticks-InRange [] s = tt
run_ticks-InRange (r ∷ rs) s =
    All-append InRange (run_tick r s).1 _ (run_tick-InRange r s)
      (run_ticks-InRange rs (run_tick r s).0)

run_ticks-IsNear : (rs : List Reads) (s : Demo) → IsNear s → IsNear (run_ticks rs s).0
unfolding run_ticks
run_ticks-IsNear [] s n = n
run_ticks-IsNear (r ∷ rs) s n =
    let (counted, near, kept) = run_tick_lem r s in run_ticks-IsNear rs (run_tick r s).0 (near n)

-- Whether there is a blink among the actions.
abbrev pub has_blink : List Action → Bool
has_blink [] = false
has_blink (blinks e ∷ rest) = true
has_blink (draws_mouth e ∷ rest) = has_blink rest
has_blink (draws_face e ∷ rest) = has_blink rest
has_blink (moves id position ms ∷ rest) = has_blink rest
has_blink (torques id on ∷ rest) = has_blink rest

has_blink-append : (xs ys : List Action) → has_blink (xs ++ ys) ≡ (has_blink xs || has_blink ys)
has_blink-append [] ys = refl
has_blink-append (blinks e ∷ xs) ys = refl
has_blink-append (draws_mouth e ∷ xs) ys = has_blink-append xs ys
has_blink-append (draws_face e ∷ xs) ys = has_blink-append xs ys
has_blink-append (moves id position ms ∷ xs) ys = has_blink-append xs ys
has_blink-append (torques id on ∷ xs) ys = has_blink-append xs ys

due-blinks :
    (r : Reads) (s : Demo) → leb s.next_blink s.tick ≡ true → has_blink (run_tick r s).1 ≡ true
unfolding run_tick
due-blinks r s due =
    let s1 = (run_mouth r s).0 in
    let s2 = (run_blink r s1).0 in
    let (tick, blink, look) = run_mouth-SameTimes r s in
    let now : has_blink (run_blink r s1).1 ≡ true =
      unfold run_blink in rw (blink, tick, due) refl in
    ground (
      arith,
      has_blink-append (run_mouth r s).1
          (run_redraw r ++ ((run_blink r s1).1 ++ (run_look r s2).1)),
      has_blink-append (run_redraw r) ((run_blink r s1).1 ++ (run_look r s2).1),
      has_blink-append (run_blink r s1).1 (run_look r s2).1,
    )

-- A blink that is `ahead` rounds ahead comes in any longer run.
run_ticks-blinks :
    (rs : List Reads) (s : Demo) (ahead : ℕ)
    → s.next_blink ≤ s.tick + ahead
    → ahead < length rs
    → has_blink (run_ticks rs s).1 ≡ true
unfolding run_ticks
run_ticks-blinks [] s ahead near long = absurd (omega arith)
run_ticks-blinks (r ∷ rs) s ahead near long =
    let s1 = (run_tick r s).0 in
    let (counted, keeps, kept) = run_tick_lem r s in
    let both = has_blink-append (run_tick r s).1 (run_ticks rs s1).1 in
    elim (Bool-cases (leb s.next_blink s.tick)) [
      | inl due ↦ (let now = due-blinks r s due in ground arith)
      | inr early ↦
          let later : s.tick < s.next_blink = ground arith in
          let same = kept early in
          let soon = run_ticks-blinks rs s1 (ahead - 1) (omega arith) (omega arith) in ground arith
    ]

-- However the task starts and whatever the rounds of its loop read, every position that it asks of a
-- servo is within the limits of that servo, and among any 49 rounds in a row there is a blink.
pub run_ticks-Lively :
    (spi : Spi) (bus : Bus) (expr : ℕ) (before next : List Reads)
    → let s = (run_ticks before (demo_start spi bus expr)).0 in
      All InRange (run_ticks next s).1 × (49 ≤ length next → has_blink (run_ticks next s).1 ≡ true)
unfolding demo_start
run_ticks-Lively spi bus expr before next =
    let start = demo_start spi bus expr in
    let s = (run_ticks before start).0 in
    let near = run_ticks-IsNear before start (record { blink = omega arith; look = omega arith }) in
    (run_ticks-InRange next s, λ long. run_ticks-blinks next s 48 near.blink (omega arith))
