-- ===== src/Show.antt =====
-- `wg_show` of netutils/wireguard/nuttx-wireguardif.c: the lines that it prints, as bytes.
use gsoc2026_nuttx_wireguard.Base.{
  ℕ, ◌+◌, ◌-◌, ◌/◌, List, [], ◌∷◌, ◌++◌, Option, none, some, get_or, ltb, if◌then◌else◌, Bytes,
  codes, sub32,
}
use gsoc2026_nuttx_wireguard.Device.{Keypair, Peer, Netdev}
use gsoc2026_nuttx_wireguard.Config.{Kconfig, Libc, pos, inet_addrstrlen}
use gsoc2026_nuttx_wireguard.Base64.{base64_encode}

-- sizeof(keybuf)
abbrev keybuf_size : ℕ
keybuf_size = 64

-- A public key as it is printed.
unfoldable pub key_text : Bytes → Bytes
key_text key = elim (base64_encode key (keybuf_size - 1)) [
  | none ↦ codes "(unknown)"
  | some text ↦ text
]

-- The keypair whose age is printed.
unfoldable pub shown_keypair : Peer → Option Keypair
shown_keypair peer =
    if peer.curr_keypair.valid
    then some peer.curr_keypair
    else if peer.prev_keypair.valid
    then some peer.prev_keypair
    else none

module _ (libc : Libc) where
  open libc use {inet_ntop, print_int}

  abbrev number : ℕ → Bytes
  number n = print_int (pos n)

  -- The endpoint line. An IPv4 address always fits the buffer.
  unfoldable pub show_endpoint : Peer → Bytes
  show_endpoint peer =
      if ltb 0 peer.port
      then codes "  endpoint: "
        ++ (get_text (inet_ntop peer.ip inet_addrstrlen)
            ++ (codes ":" ++ (number peer.port ++ codes "\n")))
      else []
    where
      get_text : Option Bytes → Bytes
      get_text none = []
      get_text (some text) = text

  unfoldable pub show_handshake : ℕ → Peer → Bytes
  show_handshake now peer = elim (shown_keypair peer) [
    | none ↦ codes "  latest handshake: (never)\n"
    | some keypair ↦
        codes "  latest handshake: "
        ++ (number (sub32 now keypair.keypair_millis / 1000) ++ codes " seconds ago\n")
  ]

  -- One round of the loop, on a peer with its byte counts.
  unfoldable pub show_peer : ℕ → ℕ → ℕ → Peer → Bytes
  show_peer now rx tx peer =
      if peer.valid
      then codes "peer: "
        ++ (key_text peer.public_key
            ++ (codes "\n"
                ++ (show_endpoint peer
                    ++ (show_handshake now peer
                        ++ (codes "  transfer: "
                            ++ (number rx
                                ++ (codes " B received, " ++ (number tx ++ codes " B sent\n"))))))))
      else []

  -- The loop, from peer `x` on; `now x` is the clock when it is at peer `x`.
  unfoldable pub show_peers : Netdev → (ℕ → ℕ) → ℕ → List Peer → Bytes
  show_peers priv now x [] = []
  show_peers priv now x (peer ∷ peers) =
      show_peer (now x) (get_or priv.peer_rx_bytes x 0) (get_or priv.peer_tx_bytes x 0) peer
      ++ show_peers priv now (x + 1) peers

  -- `wg_show`
  unfoldable pub show : Kconfig → (ℕ → ℕ) → Netdev → Bytes
  show kconfig now priv =
      if priv.registered
      then codes "interface: wg0\n"
        ++ (codes "  public key: "
            ++ (key_text (priv.wg.public_key)
                ++ (codes "\n  listening port: "
                    ++ (number kconfig.listen_port
                        ++ (codes "\n" ++ show_peers priv now 0 (priv.wg.peers))))))
      else codes "wg0 is not up (run \"wg\" first)\n"
