-- ===== src/Replay.antt =====
-- `wireguard_check_replay` of netutils/wireguard/wireguard.c, the sliding window over the counters
-- of received packets that local patch 2 of PATCHES.md widens to an array of 64-bit words.
mod Shift
pub mod Window
pub mod Check
pub mod Stream
use gsoc2026_nuttx_wireguard.Base.{
  ℕ, zero, suc, ◌+◌, ◌-◌, ◌*◌, ◌/◌, ◌%◌, ◌^◌, Bool, true, false, not, ◌&&◌, List, length, get_or,
  set, replicate, bit_and, bit_or, ltb, leb, ◌==◌, if◌then◌else◌, u64,
}
use gsoc2026_nuttx_wireguard.Device.{Keypair}

-- What the shift loop stores into word `i`.
pub shifted_word : ℕ → ℕ → List ℕ → ℕ → ℕ
shifted_word word_shift bit_shift bm i =
    if leb word_shift i
    then (let v = u64 (get_or bm (i - word_shift) 0 * 2 ^ bit_shift) in
        if not (bit_shift == 0) && ltb word_shift i
        then bit_or v (get_or bm (i - word_shift - 1) 0 / 2 ^ (64 - bit_shift))
        else v)
    else 0

-- The loop with `n` rounds left: it is at word `n - 1` and goes down to word 0, in place.
pub shift_loop : ℕ → ℕ → ℕ → List ℕ → List ℕ
shift_loop zero word_shift bit_shift bm = bm
shift_loop (suc i) word_shift bit_shift bm =
    shift_loop i word_shift bit_shift (set bm i (shifted_word word_shift bit_shift bm i))

unfoldable pub check_replay : Keypair → ℕ → Keypair × Bool
check_replay keypair seq0 =
    let bm = keypair.replay_bitmap in
    let window = length bm * 64 in
    let seq = u64 (seq0 + 1) in
    if seq == 0
    then (keypair, false)
    else if ltb keypair.replay_counter seq
    then (let diff = seq - keypair.replay_counter in
        let bm' =
          if ltb diff window
          then (let moved = shift_loop (length bm) (diff / 64) (diff % 64) bm in
              set moved 0 (bit_or (get_or moved 0 0) 1))
          else set (replicate (length bm) 0) 0 1 in
        (record keypair { replay_bitmap = bm'; replay_counter = seq }, true))
    else (let diff = keypair.replay_counter - seq in
        let word = get_or bm (diff / 64) 0 in
        let mask = 2 ^ (diff % 64) in
        if ltb diff window
        then (if bit_and word mask == 0
            then (record keypair { replay_bitmap = set bm (diff / 64) (bit_or word mask) }, true)
            else (keypair, false))
        else (keypair, false))
