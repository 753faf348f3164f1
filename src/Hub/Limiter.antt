-- ===== src/Hub/Limiter.antt =====
-- eshield-hub/src/limiter.rs: one token bucket per node. A node's name is any type of keys.
pub mod Refill
pub mod Rate
use e_shield.Base.{
  ℕ, ◌-◌, ◌*◌, ◌/◌, ◌%◌, Bool, true, false, ◌&&◌, Option, none, some, [], ltb, if◌then◌else◌, min,
  u64_mod, saturating_add64,
}
use e_shield.Base.Dicts.{Key, Dict, find, insert}

abbrev pub ns_per_s : ℕ
ns_per_s = 1_000_000_000

-- The pair of atomics under a node's name.
pub record Bucket : Type 0 where
  pub tokens : ℕ
  pub last : ℕ

pub record RateLimiter {ℓ} (K : Type ℓ) : Type ℓ where
  pub buckets : Dict K Bucket
  pub rate_per_s : ℕ
  pub burst : ℕ

unfoldable pub refill : ℕ → ℕ → ℕ → Bucket → Bucket
refill rate_per_s burst now_ns b =
    let elapsed_ns = now_ns - b.last in
    let added = (elapsed_ns * rate_per_s / ns_per_s) % u64_mod in
    if ltb 0 elapsed_ns && ltb 0 added
    then record { tokens = min (saturating_add64 b.tokens added) burst; last = now_ns }
    else b

-- `fetch_update`, and whether it took a token.
unfoldable pub take_token : Bucket → Bucket × Bool
take_token b = if ltb 0 b.tokens then (record b { tokens = b.tokens - 1 }, true) else (b, false)

-- `or_insert_with`.
unfoldable pub bucket_or_full : ℕ → ℕ → Option Bucket → Bucket
bucket_or_full burst now_ns none = record { tokens = burst; last = now_ns }
bucket_or_full burst now_ns (some b) = b

module _ {ℓ} {K : Type ℓ} ⦃key : Key K⦄ where
  unfoldable pub new : ℕ → ℕ → RateLimiter K
  new rate_per_s burst = record { buckets = []; rate_per_s = rate_per_s; burst = burst }

  -- The bucket that a request of the node at the given time finds, filled up.
  unfoldable pub refilled : RateLimiter K → K → ℕ → Bucket
  unfolding refill bucket_or_full
  refilled l node_name now_ns =
      refill l.rate_per_s l.burst now_ns (bucket_or_full l.burst now_ns (find node_name l.buckets))

  unfoldable pub check : RateLimiter K → K → ℕ → RateLimiter K × Bool
  unfolding refilled take_token
  check l node_name now_ns =
      let taken = take_token (refilled l node_name now_ns) in
      (record l { buckets = insert node_name taken.0 l.buckets }, taken.1)
