-- ===== src/DataPlane/SynCookie/Cookie.antt =====
-- eshield-ebpf/src/syn_cookie.rs: which secret signs a cookie, and which cookies an ACK may return.
use e_shield.Base.{
  ℕ, ◌-◌, ◌*◌, ◌/◌, ◌%◌, Bool, false, Option, none, some, List, ◌||◌, ◌==◌, if◌then◌else◌, u16_mod,
  u32_mod, u64_mod, bit_or,
}
use e_shield.Common.Entries.{CookieSecret}
use e_shield.Pure.Cookie.{build_cookie_runtime}

abbrev pub bucket_duration_s : ℕ
bucket_duration_s = 60

abbrev pub bucket_of : ℕ → ℕ
bucket_of now_ns = now_ns / 1_000_000_000 / bucket_duration_s

-- The addresses and ports of a connection: the former as they lie in memory, the latter decoded.
pub record Flow : Type 0 where
  pub saddr : ℕ
  pub daddr : ℕ
  pub sport : ℕ
  pub dport : ℕ

-- The secret of a time bucket, if it is the current or the previous one.
unfoldable pub secret_for : CookieSecret → ℕ → Option (List ℕ)
secret_for secret bucket =
    if bucket == secret.bucket_index
    then some secret.current
    else if bucket == secret.bucket_index - 1
    then some secret.previous
    else none

-- The call of `build_cookie_runtime`, with its two packed arguments.
unfoldable pub flow_cookie : Flow → ℕ → List ℕ → ℕ → ℕ
flow_cookie flow bucket secret mss_idx =
    build_cookie_runtime (bit_or flow.saddr (flow.daddr * u32_mod % u64_mod))
      (bit_or (bit_or flow.sport (flow.dport * u16_mod)) (bucket * u32_mod % u64_mod)) secret
      mss_idx

-- What a challenge sends: outside the two buckets the current secret signs.
unfoldable pub challenge_cookie : Flow → CookieSecret → ℕ → ℕ → ℕ
challenge_cookie flow secret now_ns mss_idx =
    let bucket : ℕ = bucket_of now_ns in
    flow_cookie flow bucket
      (elim (secret_for secret bucket) [ none ↦ secret.current | some bytes ↦ bytes ]) mss_idx

-- One round of the loop of `handle_ack`; a bucket with no secret is skipped.
abbrev pub bucket_accepts : Flow → CookieSecret → ℕ → ℕ → Bool
bucket_accepts flow secret expected bucket = elim (secret_for secret bucket) [
  | none ↦ false
  | some bytes ↦ flow_cookie flow bucket bytes (expected / 0x4000_0000) == expected
]

-- The loop over `VALID_BUCKETS` = 2 buckets.
unfoldable pub accepts : Flow → CookieSecret → ℕ → ℕ → Bool
accepts flow secret now_ns expected =
    bucket_accepts flow secret expected (bucket_of now_ns)
    || bucket_accepts flow secret expected (bucket_of now_ns - 1)
