-- ===== src/Hub/Limiter/Refill.antt =====
-- eshield-hub/src/limiter.rs: which requests get a token, and what one request does to the buckets.
use e_shield.Base.{
  ℕ, ◌-◌, ◌*◌, ◌/◌, ◌+◌, ◌≤◌, ◌<◌, ◌≡◌, ◌↔◌, ◌⊎◌, true, false, some, arith, u64_mod,
}
use native.Mathlib.Nat.{div-mul-le_self}
use e_shield.Base.Dicts.{Key, find, is_same, find-insert_self, find-insert_other}
use e_shield.Hub.Limiter.{
  RateLimiter, Bucket, ns_per_s, refill, take_token, bucket_or_full, refilled, check,
}

module _ {ℓ} {K : Type ℓ} ⦃key : Key K⦄ where
  -- For a node with a bucket, with a positive burst, and where the tokens to add fit 64 bits, a
  -- request is let through exactly if the bucket holds a token or the time since its last refill is
  -- worth one: the elapsed nanoseconds times the rate reach a second. So a node that waits long
  -- enough is always served again.
  check_iff :
      (l : RateLimiter K) (k : K) (now : ℕ) (b : Bucket)
      → find k l.buckets ≡ some b
      → 0 < l.burst
      → (now - b.last) * l.rate_per_s / ns_per_s < u64_mod
      → ((check l k now).1 ≡ true) ↔ ((0 < b.tokens) ⊎ (ns_per_s ≤ (now - b.last) * l.rate_per_s))
  unfolding check refilled refill bucket_or_full take_token
  check_iff l k now b e hb h = rw e (ground (arith, idle))
    where
      idle : now - b.last ≡ 0 → (now - b.last) * l.rate_per_s ≡ 0
      idle z = rw z (omega arith)

  -- A request of one node leaves the bucket of every other as it is.
  pub check_others :
      (l : RateLimiter K) (j k : K) (now : ℕ)
      → is_same k j ≡ false
      → find k (check l j now).0.buckets ≡ find k l.buckets
  unfolding check
  check_others l j k now h = find-insert_other k j _ l.buckets h

  pub check_own :
      (l : RateLimiter K) (k : K) (now : ℕ)
      → find k (check l k now).0.buckets ≡ some (take_token (refilled l k now)).0
  unfolding check
  check_own l k now = find-insert_self k _ l.buckets

-- The time from `a` to `c` has the worth of the time to `b` and of the time from there.
pub worth_split : (r a b : ℕ) → a ≤ b → r * b ≡ r * a + (b - a) * r
worth_split r a b h = go (b - a) (omega arith)
  where
    go : (d : ℕ) → b ≡ a + d → r * b ≡ r * a + d * r
    go d e = rw e (omega arith)

-- What a refill adds is paid for by the time it lets pass: in billionths of a token, at most the
-- rate for each nanosecond that the bucket's clock moves on.
pub refill-le :
    (r burst now : ℕ) (b : Bucket)
    → b.last ≤ now
    → let after = refill r burst now b in
      (after.tokens * ns_per_s + r * b.last ≤ b.tokens * ns_per_s + r * after.last)
      × (b.last ≤ after.last)
      × (after.last ≤ now)
unfolding refill
refill-le r burst now b h =
    ground (arith, div-mul-le_self ((now - b.last) * r) ns_per_s, worth_split r b.last now h)
