-- ===== src/Task/Idle.antt =====
-- The task of an interface that is down.
use gsoc2026_nuttx_wireguard.Base.{
  false, List, [], ◌∷◌, length, take, ◌==◌, ◌≡◌, refl, inl, inr, Bool-cases, ℕ,
}
use gsoc2026_nuttx_wireguard.Device.{Datagram, Netdev, Readings, max_packet}
use gsoc2026_nuttx_wireguard.Message.{get_message_type, message_handshake_initiation}
use gsoc2026_nuttx_wireguard.Transport.{Os}
use gsoc2026_nuttx_wireguard.Interface.{ifdown}
use gsoc2026_nuttx_wireguard.Interface.Down.{ifdown-deaf, ifdown-quiet}
use gsoc2026_nuttx_wireguard.Task.{Wakeup, drain, rx_task}

-- No datagram of the queue is a handshake initiation.
abbrev pub NoInitiation : List (Readings × Datagram) → Type 0
NoInitiation [] = Unit
NoInitiation ((r, d) ∷ queue) =
    ((get_message_type (take max_packet d.payload) == message_handshake_initiation) ≡ false)
    × NoInitiation queue

abbrev pub AllQuiet : List Wakeup → Type 0
AllQuiet [] = Unit
AllQuiet (w ∷ wakeups) = NoInitiation w.queue × AllQuiet wakeups

module _ (os : Os) (threshold : ℕ) (priv : Netdev) where
  drain-ifdown :
      (queue : List (Readings × Datagram))
      → NoInitiation queue
      → drain os threshold (ifdown priv) queue ≡ ifdown priv
  unfolding drain
  drain-ifdown [] quiet = refl
  drain-ifdown ((r, d) ∷ queue) (other, quiet) = elim (Bool-cases (length d.payload == 0)) [
    | inl empty ↦ rw empty refl
    | inr full ↦
        rw
          (
            full,
            ifdown-deaf os r priv threshold (take max_packet d.payload) d.to_ip d.to_port other,
          )
          (drain-ifdown queue quiet)
  ]

  -- From `wg_ifdown` on, the task delivers nothing, sends nothing and changes no peer over any run of
  -- wakeups in which no handshake initiation arrives.
  pub rx_task-ifdown :
      (wakeups : List Wakeup)
      → AllQuiet wakeups
      → let after = rx_task os threshold (ifdown priv) wakeups in
        (after.sent ≡ priv.sent) × (after.injected ≡ priv.injected) × (after.wg ≡ (ifdown priv).wg)
  unfolding rx_task
  rx_task-ifdown [] quiet = unfold ifdown in (refl, refl, refl)
  rx_task-ifdown (w ∷ wakeups) (first, quiet) = elim (Bool-cases w.stopped) [
    | inl over ↦ rw over (unfold ifdown in (refl, refl, refl))
    | inr going ↦
        rw (going, drain-ifdown w.queue first, ifdown-quiet os w.timers priv)
          (rx_task-ifdown wakeups quiet)
  ]
