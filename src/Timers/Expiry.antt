-- ===== src/Timers/Expiry.antt =====
-- What the first tests of `wg_run_timers` leave of a peer's sessions.
use gsoc2026_nuttx_wireguard.Base.{◌<◌, true, false, ◌≡◌, arith}
use gsoc2026_nuttx_wireguard.Device.{Peer, Readings, reject_after_time, reject_after_messages}
use gsoc2026_nuttx_wireguard.Session.{expired, keypair_destroy}
use gsoc2026_nuttx_wireguard.Timers.{expire_keypairs}

-- After the tests, a valid current keypair is younger than the limit and has sent fewer messages
-- than the limit.
pub expire_keypairs-young :
    (r : Readings) (peer : Peer)
    → let after = expire_keypairs r peer in
      after.curr_keypair.valid ≡ true
      → (expired (r.now 1) after.curr_keypair.keypair_millis reject_after_time ≡ false)
        × (after.curr_keypair.sending_counter < reject_after_messages)
unfolding expire_keypairs keypair_destroy
expire_keypairs-young r peer = ground arith
