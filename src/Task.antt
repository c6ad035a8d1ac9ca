-- ===== src/Task.antt =====
-- `wg_rx_task` of netutils/wireguard/nuttx-wireguardif.c: the task that empties the socket and runs
-- the timers, once for each wakeup, until it is asked to stop.
pub mod Idle
use gsoc2026_nuttx_wireguard.Base.{
  ℕ, Bool, true, false, List, [], ◌∷◌, length, take, ◌==◌, if◌then◌else◌,
}
use gsoc2026_nuttx_wireguard.Device.{Datagram, Netdev, Readings, max_packet}
use gsoc2026_nuttx_wireguard.Transport.{Os}
use gsoc2026_nuttx_wireguard.Receive.{process_udp_packet}
use gsoc2026_nuttx_wireguard.Timers.{run_timers}

-- One round of the loop: whether `wg_down` has cleared `running` by its start, the datagrams that
-- wait at the socket, each from the address in it, and the readings of the timers.
pub record Wakeup : Type 0 where
  pub stopped : Bool
  pub queue : List (Readings × Datagram)
  pub timers : ℕ → Readings

module _ (os : Os) (threshold : ℕ) where
  -- The inner loop: a datagram is cut to the buffer, and an empty one ends the loop, with the rest
  -- left at the socket.
  unfoldable pub drain : Netdev → List (Readings × Datagram) → Netdev
  drain priv [] = priv
  drain priv ((r, d) ∷ queue) =
      let after =
        process_udp_packet os threshold r priv (take max_packet d.payload) d.to_ip d.to_port in
      let rest = drain after queue in if length d.payload == 0 then priv else rest

  -- The task over a run of wakeups.
  unfoldable pub rx_task : Netdev → List Wakeup → Netdev
  rx_task priv [] = priv
  rx_task priv (w ∷ wakeups) =
      let rest = rx_task (run_timers os w.timers (drain priv w.queue)) wakeups in
      if w.stopped then record priv { running = false; rxtask_done = true } else rest
