-- ===== src/Staged/Parsed.antt =====
-- What the texts of `wg set peer` hold where `wg_set_peer` takes them.
use gsoc2026_nuttx_wireguard.Base.{
  ℕ, ◌≤◌, ◌<◌, ◌||◌, some, take, ◌==◌, ◌≡◌, ◌⊎◌, inl, inr, refl, arith, Bytes, strlcpy, split_last,
  split_first, ltb, Bool-cases, Option-cases,
}
use gsoc2026_nuttx_wireguard.Config.{Libc, ℤ, pos, negsuc, inet_addrstrlen}
use gsoc2026_nuttx_wireguard.Staged.{
  StagedPeer, prefix_mask, parse_endpoint, parse_prefix, split_allowed, parse_allowed,
}

ℤ-cases : (k : ℤ) → ((n : ℕ) × (k ≡ pos n)) ⊎ ((n : ℕ) × (k ≡ negsuc n))
ℤ-cases (pos n) = inl (n, refl)
ℤ-cases (negsuc n) = inr (n, refl)

module _ (libc : Libc) where
  -- What is read from an endpoint that is taken.
  pub parse_endpoint-inversion :
      (text : Bytes) (tmp after : StagedPeer)
      → parse_endpoint libc text tmp ≡ some after
      → (address : Bytes) × (addr : ℕ) × (port : ℕ) × (libc.inet_pton address ≡ some addr)
        × (0 < port)
        × (port < 65536)
        × (after
            ≡ record tmp { endpoint_ip = strlcpy address inet_addrstrlen; endpoint_port = port })
  unfolding parse_endpoint
  parse_endpoint-inversion text tmp after h = elim (Option-cases (split_last b':' (take 23 text))) [
    | inl none_there ↦ (let bad = rw (none_there, parse_endpoint) at h in absurd (ground arith))
    | inr ((address, number), parts) ↦
        let h1 = rw (parts, parse_endpoint) at h in
        elim (ℤ-cases (libc.atoi number)) [
          | inr (n, below) ↦ (let bad = rw (below, parse_endpoint) at h1 in absurd (ground arith))
          | inl (port, read) ↦
              let h2 = rw (read, parse_endpoint) at h1 in
              elim (Bool-cases (port == 0 || ltb 65535 port)) [
                | inl out ↦ (let bad = rw out at h2 in absurd (ground arith))
                | inr inside ↦
                    let h3 = rw inside at h2 in
                    elim (Option-cases (libc.inet_pton address)) [
                      | inl odd ↦
                          (let bad = rw (odd, parse_endpoint) at h3 in absurd (ground arith))
                      | inr (addr, parsed) ↦
                          let h4 = rw (parsed, parse_endpoint) at h3 in
                          (address, addr, port, parsed, ground arith, ground arith, ground arith)
                    ]
              ]
        ]
  ]

  parse_prefix-le : (k : ℤ) (prefix : ℕ) → parse_prefix libc k ≡ some prefix → prefix ≤ 32
  parse_prefix-le (pos n) prefix h = ground arith
  parse_prefix-le (negsuc n) prefix h = absurd (ground arith)

  split_allowed-le :
      (text address : Bytes) (prefix : ℕ)
      → split_allowed libc text ≡ some (address, prefix)
      → prefix ≤ 32
  unfolding split_allowed
  split_allowed-le text address prefix h = elim (Option-cases (split_first b'/' text)) [
    | inl bare ↦ (let h1 = rw (bare, split_allowed) at h in ground arith)
    | inr ((front, number), parts) ↦
        let h1 = rw (parts, split_allowed) at h in
        elim (Option-cases (parse_prefix libc (libc.atoi number))) [
          | inl bad ↦ (let h2 = rw (bad, split_allowed) at h1 in absurd (ground arith))
          | inr (n, good) ↦
              let h2 = rw (good, split_allowed) at h1 in
              let le = parse_prefix-le (libc.atoi number) n good in ground arith
        ]
  ]

  -- What is read from an allowed-ips argument that is taken.
  pub parse_allowed-inversion :
      (text : Bytes) (tmp after : StagedPeer)
      → parse_allowed libc text tmp ≡ some after
      → (address : Bytes) × (addr : ℕ) × (prefix : ℕ) × (mask : Bytes) × (libc.inet_pton address
          ≡ some addr)
        × (prefix ≤ 32)
        × (libc.inet_ntop (prefix_mask prefix) inet_addrstrlen ≡ some mask)
        × (after ≡ record tmp { allowed_ip = strlcpy address inet_addrstrlen; allowed_mask = mask })
  unfolding parse_allowed
  parse_allowed-inversion text tmp after h =
      elim (Option-cases (split_allowed libc (take 23 text))) [
        | inl bad ↦ (let h1 = rw (bad, parse_allowed) at h in absurd (ground arith))
        | inr ((address, prefix), parts) ↦
            let h1 = rw (parts, parse_allowed) at h in
            let le = split_allowed-le (take 23 text) address prefix parts in
            elim (Option-cases (libc.inet_pton address)) [
              | inl odd ↦ (let h2 = rw (odd, parse_allowed) at h1 in absurd (ground arith))
              | inr (addr, parsed) ↦
                  let h2 = rw (parsed, parse_allowed) at h1 in
                  elim (Option-cases (libc.inet_ntop (prefix_mask prefix) inet_addrstrlen)) [
                    | inl none_there ↦
                        (let h3 = rw (none_there, parse_allowed) at h2 in absurd (ground arith))
                    | inr (mask, printed) ↦
                        let h3 = rw (printed, parse_allowed) at h2 in
                        (address, addr, prefix, mask, parsed, le, printed, ground arith)
                  ]
            ]
      ]
