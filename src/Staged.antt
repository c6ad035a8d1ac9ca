-- ===== src/Staged.antt =====
-- The configuration staged by `wg set` while wg0 is down: `struct wg_staged_s`, `wg_decode_key`,
-- `wg_set_private_key`, `wg_set_peer` and `wg_remove_peer` of
-- netutils/wireguard/nuttx-wireguardif.c. The first `npeers` entries of the array are the list.
pub mod Peers
pub mod Unique
pub mod Remove
pub mod Parsed
use gsoc2026_nuttx_wireguard.Base.{
  ℕ, zero, suc, ◌+◌, ◌-◌, ◌*◌, ◌^◌, Bool, true, false, not, ◌&&◌, ◌||◌, List, [], ◌∷◌, ◌++◌, Option,
  none, some, length, get_elem?, set, ltb, leb, ◌==◌, if◌then◌else◌, u32, ntohl, Bytes, str_eq,
  strlcpy, split_first, split_last,
}
use gsoc2026_nuttx_wireguard.Device.{key_len}
use gsoc2026_nuttx_wireguard.Base64.{base64_decode}
use gsoc2026_nuttx_wireguard.Config.{
  Kconfig, Libc, ℤ, pos, negsuc, negative, Ret, ok, err, einval, ebusy, enospc, enoent, key_strlen,
  inet_addrstrlen,
}

-- `struct wg_staged_peer_s`
pub record StagedPeer : Type 0 where
  pub public_key : Bytes
  pub endpoint_ip : Bytes
  pub allowed_ip : Bytes
  pub allowed_mask : Bytes
  pub endpoint_port : ℕ
  pub keepalive : ℤ

-- `struct wg_staged_s`
pub record Staged : Type 0 where
  pub private_key : Bytes
  pub peers : List StagedPeer

-- The peer that Kconfig describes, as `wg_configure_peer` and `wg_writeconf` build it.
abbrev pub kconfig_peer : Kconfig → StagedPeer
kconfig_peer kconfig = record {
  public_key = strlcpy kconfig.peer_public_key key_strlen;
  endpoint_ip = strlcpy kconfig.peer_endpoint_ip inet_addrstrlen;
  allowed_ip = strlcpy kconfig.peer_allowed_ip inet_addrstrlen;
  allowed_mask = strlcpy kconfig.peer_allowed_mask inet_addrstrlen;
  endpoint_port = kconfig.peer_endpoint_port;
  keepalive = pos kconfig.peer_keepalive;
}

-- The loops that look for a peer by its key, from index `i` on.
unfoldable pub find_key : Bytes → ℕ → List StagedPeer → Option ℕ
find_key key i [] = none
find_key key i (p ∷ ps) = if str_eq p.public_key key then some i else find_key key (i + 1) ps

-- `memmove` over entry `i`, with one entry less.
unfoldable pub remove_at : ℕ → List StagedPeer → List StagedPeer
remove_at i [] = []
remove_at zero (p ∷ ps) = ps
remove_at (suc i) (p ∷ ps) = p ∷ remove_at i ps

-- The netmask of a prefix length, in network order.
unfoldable pub prefix_mask : ℕ → ℕ
prefix_mask prefix = if prefix == 0 then 0 else ntohl (u32 ((2 ^ 32 - 1) * 2 ^ (32 - prefix)))

-- `wg_decode_key` for a key of 32 bytes.
unfoldable pub decode_key : Bytes → Option Bytes
decode_key b64 = elim (base64_decode b64 key_len) [
  | none ↦ none
  | some key ↦ if length key == key_len then some key else none
]

-- `registered` is whether wg0 is up.
unfoldable pub set_private_key : Bool → Staged → Bytes → Staged × Ret
set_private_key registered staged b64 =
    if registered then (staged, err ebusy) else elim (decode_key b64) [
      | none ↦ (staged, err einval)
      | some key ↦ (record staged { private_key = strlcpy b64 key_strlen }, ok)
    ]

module _ (libc : Libc) where
  open libc use {inet_pton, inet_ntop, atoi}

  -- "address:port" into the local copy of the peer; `none` is the return of -EINVAL.
  unfoldable pub parse_endpoint : Bytes → StagedPeer → Option StagedPeer
  parse_endpoint endpoint tmp = elim (split_last b':' (strlcpy endpoint (inet_addrstrlen + 8))) [
    | none ↦ none
    | some (address, number) ↦ elim (atoi number) [
      | negsuc n ↦ none
      | pos port ↦ if port == 0 || ltb 65535 port then none else elim (inet_pton address) [
        | none ↦ none
        | some addr ↦
            some
              (record tmp { endpoint_ip = strlcpy address inet_addrstrlen; endpoint_port = port })
      ]
    ]
  ]

  abbrev pub parse_prefix : ℤ → Option ℕ
  parse_prefix (negsuc n) = none
  parse_prefix (pos n) = if ltb 32 n then none else some n

  -- The address of an allowed-ips argument and its prefix length, 32 where none is given.
  unfoldable pub split_allowed : Bytes → Option (Bytes × ℕ)
  split_allowed scratch = elim (split_first b'/' scratch) [
    | none ↦ some (scratch, 32)
    | some (address, number) ↦ elim (parse_prefix (atoi number)) [
      | none ↦ none
      | some prefix ↦ some (address, prefix)
    ]
  ]

  -- "address/prefix" into the local copy of the peer.
  unfoldable pub parse_allowed : Bytes → StagedPeer → Option StagedPeer
  parse_allowed allowed tmp = elim (split_allowed (strlcpy allowed (inet_addrstrlen + 8))) [
    | none ↦ none
    | some (address, prefix) ↦ elim (inet_pton address) [
      | none ↦ none
      | some addr ↦ elim (inet_ntop (prefix_mask prefix) inet_addrstrlen) [
        | none ↦ none
        | some mask ↦
            some (record tmp { allowed_ip = strlcpy address inet_addrstrlen; allowed_mask = mask })
      ]
    ]
  ]

  -- The three optional settings in turn; NULL is `none`.
  unfoldable pub apply_settings : Option Bytes → Option Bytes → ℤ → StagedPeer → Option StagedPeer
  apply_settings endpoint allowed keepalive tmp =
      let with_endpoint : Option StagedPeer = elim endpoint [
        | none ↦ some tmp
        | some e ↦ parse_endpoint e tmp
      ] in
      let with_allowed : Option StagedPeer = elim with_endpoint [
        | none ↦ none
        | some t ↦ elim allowed [ none ↦ some t | some a ↦ parse_allowed a t ]
      ] in
      elim with_allowed [
        | none ↦ none
        | some t ↦ some (if negative keepalive then t else record t { keepalive = keepalive })
      ]

  module _ (kconfig : Kconfig) where
    -- What a peer that is not yet staged starts from.
    unfoldable pub fresh_peer : Bytes → StagedPeer
    fresh_peer pubkey = record {
      public_key = strlcpy pubkey key_strlen;
      endpoint_ip = [];
      allowed_ip = strlcpy kconfig.peer_allowed_ip inet_addrstrlen;
      allowed_mask = strlcpy kconfig.peer_allowed_mask inet_addrstrlen;
      endpoint_port = 0;
      keepalive = negsuc 0;
    }

    unfoldable pub update_peer : Staged → ℕ → Option Bytes → Option Bytes → ℤ → Staged × Ret
    update_peer staged i endpoint allowed keepalive = elim (get_elem? staged.peers i) [
      | none ↦ (staged, err einval)
      | some cfg ↦ elim (apply_settings endpoint allowed keepalive cfg) [
        | none ↦ (staged, err einval)
        | some tmp ↦ (record staged { peers = set staged.peers i tmp }, ok)
      ]
    ]

    unfoldable pub append_peer : Staged → Bytes → Option Bytes → Option Bytes → ℤ → Staged × Ret
    append_peer staged pubkey endpoint allowed keepalive =
        if leb kconfig.max_peers (length staged.peers)
        then (staged, err enospc)
        else elim (apply_settings endpoint allowed keepalive (fresh_peer pubkey)) [
          | none ↦ (staged, err einval)
          | some tmp ↦ (record staged { peers = staged.peers ++ (tmp ∷ []) }, ok)
        ]

    -- `wg_set_peer`
    unfoldable pub set_peer : Bool → Staged → Bytes → Option Bytes → Option Bytes → ℤ → Staged × Ret
    set_peer registered staged pubkey endpoint allowed keepalive =
        if registered then (staged, err ebusy) else elim (decode_key pubkey) [
          | none ↦ (staged, err einval)
          | some key ↦ elim (find_key pubkey 0 staged.peers) [
            | some i ↦ update_peer staged i endpoint allowed keepalive
            | none ↦ append_peer staged pubkey endpoint allowed keepalive
          ]
        ]

-- `wg_remove_peer`
unfoldable pub remove_peer : Bool → Staged → Bytes → Staged × Ret
remove_peer registered staged pubkey =
    if registered then (staged, err ebusy) else elim (find_key pubkey 0 staged.peers) [
      | none ↦ (staged, err enoent)
      | some i ↦ (record staged { peers = remove_at i staged.peers }, ok)
    ]
