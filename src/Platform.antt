-- ===== src/Platform.antt =====
-- netutils/wireguard/nuttx-platform.c: the clocks and the random bytes that the protocol core
-- asks for. `clock_gettime` and `read` are parameters, by what they return.
pub mod Clock
use gsoc2026_nuttx_wireguard.Base.{
  ℕ, zero, suc, ◌+◌, ◌-◌, ◌*◌, ◌/◌, ◌^◌, Bool, false, List, [], ◌∷◌, ◌++◌, Option, none, some,
  length, take, replicate, ltb, ◌==◌, if◌then◌else◌, u8, u32, u64, Bytes,
}

-- `struct timespec`
pub record Timespec : Type 0 where
  pub tv_sec : ℕ
  pub tv_nsec : ℕ

-- `wireguard_sys_now`: 0 means "never" in the core, so a reading of 0 is 1.
unfoldable pub sys_now : Timespec → ℕ
sys_now ts =
    let ms = u32 (u64 (ts.tv_sec * 1000) + ts.tv_nsec / 1000000) in if ms == 0 then 1 else ms

-- The loop of `wireguard_random_bytes`: the chunks that successive calls of `read` return, an
-- empty chunk or the end of the list for a call that returns no byte. `size` bytes are missing;
-- `read` never returns more than it is asked for.
unfoldable pub random_fill : ℕ → List Bytes → Bytes
random_fill size [] = replicate size 0
random_fill size ([] ∷ chunks) = replicate size 0
random_fill size ((b ∷ bs) ∷ chunks) =
    let chunk = take size (b ∷ bs) in
    let rest = random_fill (size - length chunk) chunks in if ltb 0 size then chunk ++ rest else []

-- `wireguard_random_bytes`, with `none` if /dev/urandom does not open.
unfoldable pub random_bytes : ℕ → Option (List Bytes) → Bytes
random_bytes size none = replicate size 0
random_bytes size (some chunks) = random_fill size chunks

-- The low `n` bytes of a number, big-endian: `n` rounds of a shift and a cast.
unfoldable pub to_big : ℕ → ℕ → Bytes
to_big zero x = []
to_big (suc n) x = u8 (x / 2 ^ (8 * n)) ∷ to_big n x

-- WG_TAI64_UNIX_EPOCH
abbrev pub tai64_unix_epoch : ℕ
tai64_unix_epoch = 4611686018427387914

-- `wireguard_tai64n_now`
unfoldable pub tai64n_now : Timespec → Bytes
tai64n_now ts = to_big 8 (u64 (ts.tv_sec + tai64_unix_epoch)) ++ to_big 4 (u32 ts.tv_nsec)

-- `wireguard_is_under_load`
abbrev pub is_under_load : Bool
is_under_load = false
