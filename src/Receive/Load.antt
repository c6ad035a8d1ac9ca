-- ===== src/Receive/Load.antt =====
-- What a handshake initiation costs when too many of them arrive.
use gsoc2026_nuttx_wireguard.Base.{
  ℕ, ◌+◌, ◌^◌, ◌≤◌, ◌<◌, true, false, List, [], ◌∷◌, length, ltb, leb, ◌≡◌, refl, ◌∙◌, ap, sym,
  arith, sub32, u32, Bytes,
}
use gsoc2026_nuttx_wireguard.Device.{Peer, Datagram, Netdev, Readings, later, cookie_len}
use gsoc2026_nuttx_wireguard.Message.{slice, u32_at, initiation_len}
use gsoc2026_nuttx_wireguard.Cookie.Opens.{
  SealsCookies, Asked, Gives, generate_peer_cookie-keeps, create_cookie_reply-Gives,
}
use gsoc2026_nuttx_wireguard.Cookie.{check_mac1, check_mac2, create_cookie_reply}
use gsoc2026_nuttx_wireguard.Transport.{Os}
use gsoc2026_nuttx_wireguard.Receive.{
  source_addr_port, under_load, send_cookie_reply, process_initiation_packet,
}

-- The initiations that a run of readings of the clock counts, and the last answer.
unfoldable pub run_load : ℕ → Netdev → List ℕ → Netdev
run_load threshold priv [] = priv
run_load threshold priv (now ∷ nows) = run_load threshold (under_load threshold now priv).0 nows

-- All readings fall into the second that begins at `start`.
abbrev pub Within : ℕ → List ℕ → Type 0
Within start [] = Unit
Within start (now ∷ nows) = (sub32 now start < 1000) × Within start nows

run_load-count :
    (threshold : ℕ) (nows : List ℕ) (priv : Netdev)
    → Within priv.init_window_start nows
    → priv.init_count + length nows < 2 ^ 32
    → let after = run_load threshold priv nows in
      (after.init_window_start ≡ priv.init_window_start)
      × (after.init_count ≡ priv.init_count + length nows)
unfolding run_load
run_load-count threshold [] priv w small = (refl, ground arith)
run_load-count threshold (now ∷ nows) priv (first, rest) small =
    let old : leb 1000 (sub32 now priv.init_window_start) ≡ false = ground arith in
    let priv1 : Netdev = record priv { init_count = priv.init_count + 1 } in
    let fits : u32 (priv.init_count + 1) ≡ priv.init_count + 1 = ground arith in
    let (same, count) = run_load-count threshold nows priv1 rest (ground arith) in
    let e : (under_load threshold now priv).0 ≡ priv1 = unfold under_load in rw (old, fits) refl in
    let e2 : run_load threshold priv (now ∷ nows) ≡ run_load threshold priv1 nows =
      unfold run_load in ap (λ p. run_load threshold p nows) e in
    rw e2 (same, ground (arith, count))

-- Within one second, counted from the initiation that began it, `wg_under_load` answers yes from
-- the one after CONFIG_NET_WIREGUARD_LOAD_THRESHOLD on, and not before.
pub under_load-threshold :
    (threshold start now : ℕ) (nows : List ℕ) (priv : Netdev)
    → 1000 ≤ sub32 start priv.init_window_start
    → Within start nows
    → sub32 now start < 1000
    → length nows + 2 < 2 ^ 32
    → (under_load threshold now (run_load threshold (under_load threshold start priv).0 nows)).1
      ≡ ltb threshold (length nows + 2)
unfolding under_load
under_load-threshold threshold start now nows priv fresh within inside small =
    let priv1 : Netdev = (under_load threshold start priv).0 in
    let late : leb 1000 (sub32 start priv.init_window_start) ≡ true = ground arith in
    let s : priv1.init_window_start ≡ start = rw late refl in
    let c : priv1.init_count ≡ 1 = rw late refl in
    let (same, count) = run_load-count threshold nows priv1 (rw s within) (rw c (omega arith)) in
    let e : leb 1000 (sub32 now (run_load threshold priv1 nows).init_window_start) ≡ false =
      rw (same, s) (ground arith) in
    let f : (run_load threshold priv1 nows).init_count ≡ length nows + 1 =
      count ∙ rw c (omega arith) in
    rw (e, f) (ground arith)

under_load_keeps :
    (threshold now : ℕ) (priv : Netdev)
    → let after = (under_load threshold now priv).0 in
      (after.wg ≡ priv.wg) × (after.sent ≡ priv.sent) × (after.injected ≡ priv.injected)
unfolding under_load
under_load_keeps threshold now priv = ground arith

-- A cookie reply that is sent is the one that `wireguard_create_cookie_reply` makes.
send_cookie_reply_lem :
    (os : Os) (r : Readings) (priv : Netdev) (mac1 : Bytes) (index addr port : ℕ)
    → let after = send_cookie_reply os r priv mac1 index addr port in
      let (device, reply) =
        create_cookie_reply os.crypto r priv.wg mac1 index (source_addr_port addr port) in
      (after.wg ≡ device)
      × (after.wg.peers ≡ priv.wg.peers)
      × (after.injected ≡ priv.injected)
      × (after.sent ≡ record { to_ip = addr; to_port = port; payload = reply } ∷ priv.sent)
unfolding send_cookie_reply create_cookie_reply
send_cookie_reply_lem os r priv mac1 index addr port = (
  refl,
  (generate_peer_cookie-keeps os.crypto r (priv.wg) (source_addr_port addr port)).0,
  refl,
  refl,
)

module _ (os : Os) (threshold : ℕ) (r : Readings) (priv : Netdev) (msg : Bytes)
    (addr port : ℕ) where
  -- Given that what is sealed opens again and has the lengths of the primitives: under load, an
  -- initiation with a right mac1 whose mac2 does not show our cookie changes no peer, and nothing is
  -- delivered. It is answered with one datagram, to where it came from, which is a cookie reply for
  -- the sender index of the initiation; the sender, which remembers its mac1, opens it and has then
  -- the cookie that our secret makes of its address and port.
  pub loaded-cookie_reply :
      (sender : Peer)
      → SealsCookies os.crypto
      → Asked priv.wg (slice msg 116 cookie_len) sender
      → u32_at msg 4 < 2 ^ 32
      → length (r.random 4) ≡ 24
      → length msg ≡ initiation_len
      → check_mac1 os.crypto (priv.wg) msg ≡ true
      → (under_load threshold (r.now 0) priv).1 ≡ true
      → (check_mac2 os.crypto (later 1 r) (priv.wg) msg (source_addr_port addr port)).1 ≡ false
      → let after = process_initiation_packet os threshold r priv msg addr port in
        (after.wg.peers ≡ priv.wg.peers)
        × (after.injected ≡ priv.injected)
        × ((reply : Datagram) × (after.sent ≡ reply ∷ priv.sent)
            × (reply.to_ip ≡ addr)
            × (reply.to_port ≡ port)
            × Gives os.crypto sender
                (u32_at msg 4)
                (os.crypto.mac after.wg.cookie_secret (source_addr_port addr port))
                reply.payload)
  loaded-cookie_reply sender laws asked narrow nonce len mac1 loaded mac2 =
      let source = source_addr_port addr port in
      let first = under_load threshold (r.now 0) priv in
      let second = check_mac2 os.crypto (later 1 r) (priv.wg) msg source in
      let kept = under_load_keeps threshold (r.now 0) priv in
      let priv2 : Netdev = record (first.0) { wg = second.0 } in
      let e : process_initiation_packet os threshold r priv msg addr port
          ≡ send_cookie_reply os (later 3 r) priv2 (slice msg 116 cookie_len) (u32_at msg 4) addr
              port =
        unfold process_initiation_packet in rw (len, mac1, loaded, kept.0, mac2) refl in
      let once = generate_peer_cookie-keeps os.crypto (later 1 r) (priv.wg) source in
      let peers : second.0.peers ≡ priv.wg.peers = unfold check_mac2 in once.0 in
      let key : second.0.label_cookie_key ≡ priv.wg.label_cookie_key =
        unfold check_mac2 in once.1 in
      let (w, p, i, s) =
        send_cookie_reply_lem os (later 3 r) priv2 (slice msg 116 cookie_len) (u32_at msg 4) addr
          port in
      let asked2 : Asked (second.0) (slice msg 116 cookie_len) sender = record {
        knows = asked.knows ∙ sym key;
        waits = asked.waits;
        same_mac1 = asked.same_mac1;
      } in
      let gives =
        create_cookie_reply-Gives os.crypto (later 3 r) (second.0) (slice msg 116 cookie_len)
          (u32_at msg 4) source sender laws asked2 narrow nonce in
      let made =
        create_cookie_reply os.crypto (later 3 r) (second.0) (slice msg 116 cookie_len)
          (u32_at msg 4) source in
      let reply : Datagram = record { to_ip = addr; to_port = port; payload = made.1 } in
      rw e (
        p ∙ peers,
        i ∙ kept.2,
        (reply, s ∙ ap (λ log. reply ∷ log) (kept.1), refl, refl, rw w gives),
      )
