-- ===== src/Hub/Limiter/Rate.antt =====
-- eshield-hub/src/limiter.rs: the rate that a node is held to over any run of requests.
use e_shield.Base.{
  ℕ, ◌-◌, ◌*◌, ◌+◌, ◌≤◌, ◌≡◌, Bool-cases, inl, inr, false, none, some, List, [], ◌∷◌, ◌&&◌, arith,
  if◌then◌else◌, refl, ◌∙◌, ap,
}
use native.Mathlib.Nat.{mul-le-mul_left, mul-le-mul_right, le_trans}
use e_shield.Base.Dicts.{Key, find, is_same}
use e_shield.Hub.Limiter.{
  RateLimiter, Bucket, ns_per_s, refill, take_token, bucket_or_full, refilled, check,
}
use e_shield.Hub.Limiter.Refill.{check_own, check_others, refill-le, worth_split}

module _ {ℓ} {K : Type ℓ} where
  -- Requests at times that never run back, the first not before `from`, the last not after `end`.
  abbrev pub InOrder : ℕ → List (K × ℕ) → ℕ → Type 0
  InOrder from [] end = from ≤ end
  InOrder from (q ∷ qs) end = (from ≤ q.1) × InOrder q.1 qs end

  InOrder-le : (from : ℕ) (qs : List (K × ℕ)) (end : ℕ) → InOrder from qs end → from ≤ end
  InOrder-le from [] end h = h
  InOrder-le from (q ∷ qs) end h = omega (arith, InOrder-le q.1 qs end h.1)

take_token_pays :
    (b : Bucket)
    → ((if (take_token b).1 then 1 else 0) + (take_token b).0.tokens ≡ b.tokens)
      × ((take_token b).0.last ≡ b.last)
unfolding take_token
take_token_pays b = ground arith

-- One request of the node, before requests that are paid for.
one_paid :
    (r burst now end rest : ℕ) (b : Bucket)
    → b.last ≤ now
    → let taken = take_token (refill r burst now b) in
      rest * ns_per_s + r * taken.0.last ≤ taken.0.tokens * ns_per_s + r * end
      → ((if taken.1 then 1 else 0) + rest) * ns_per_s + r * b.last ≤ b.tokens * ns_per_s + r * end
one_paid r burst now end rest b h paid =
    ground (arith, refill-le r burst now b h, take_token_pays (refill r burst now b), paid)

module _ {ℓ} {K : Type ℓ} ⦃key : Key K⦄ where
  -- How many of the requests are let through that come from the node `k`.
  unfoldable pub accepted : RateLimiter K → K → List (K × ℕ) → ℕ
  accepted l k [] = 0
  accepted l k (q ∷ qs) =
      (if is_same k q.0 && (check l q.0 q.1).1 then 1 else 0) + accepted (check l q.0 q.1).0 k qs

  accepted_other :
      (l : RateLimiter K) (k : K) (q : K × ℕ) (qs : List (K × ℕ))
      → is_same k q.0 ≡ false
      → accepted l k (q ∷ qs) ≡ accepted (check l q.0 q.1).0 k qs
  unfolding accepted
  accepted_other l k q qs h = rw h (omega arith)

  accepted_own :
      (l : RateLimiter K) (k : K) (now : ℕ) (qs : List (K × ℕ))
      → accepted l k ((k, now) ∷ qs)
        ≡ (if (take_token (refilled l k now)).1 then 1 else 0) + accepted (check l k now).0 k qs
  unfolding accepted check
  accepted_own l k now qs = ground (arith, key.beq_iff k k)

  -- Where a request finds the bucket `b`, what it and paid requests after it get is paid for.
  own_paid :
      (k j : K) (now end : ℕ) (qs : List (K × ℕ)) (l : RateLimiter K) (b : Bucket)
      → k ≡ j
      → refilled l k now ≡ refill l.rate_per_s l.burst now b
      → b.last ≤ now
      → ((after : Bucket)
          → find k (check l k now).0.buckets ≡ some after
          → after.last ≤ now
          → accepted (check l k now).0 k qs * ns_per_s + l.rate_per_s * after.last
            ≤ after.tokens * ns_per_s + l.rate_per_s * end)
      → accepted l k ((j, now) ∷ qs) * ns_per_s + l.rate_per_s * b.last
        ≤ b.tokens * ns_per_s + l.rate_per_s * end
  own_paid k j now end qs l b same here h rest =
      rw (← same, accepted_own l k now qs, here)
        (one_paid l.rate_per_s l.burst now end (accepted (check l k now).0 k qs) b h
          (rest after (check_own l k now ∙ ap (λ x. some (take_token x).0) here) time))
    where
      after : Bucket
      after = (take_token (refill l.rate_per_s l.burst now b)).0

      time : after.last ≤ now
      time = ground (
        arith,
        refill-le l.rate_per_s l.burst now b h,
        take_token_pays (refill l.rate_per_s l.burst now b),
      )

  -- What a node with a bucket gets is paid for by its tokens and by the time that passes.
  accepted_paid :
      (k : K) (qs : List (K × ℕ)) (l : RateLimiter K) (b : Bucket) (from end : ℕ)
      → find k l.buckets ≡ some b
      → b.last ≤ from
      → InOrder from qs end
      → accepted l k qs * ns_per_s + l.rate_per_s * b.last
        ≤ b.tokens * ns_per_s + l.rate_per_s * end
  unfolding accepted check refilled bucket_or_full
  accepted_paid k [] l b from end e h o =
      let grows : l.rate_per_s * b.last ≤ l.rate_per_s * end =
        mul-le-mul_left l.rate_per_s (le_trans h o) in
      omega (arith, grows)
  accepted_paid k ((j, now) ∷ qs) l b from end e h (late, o) = elim (Bool-cases (is_same k j)) [
    | inl same ↦
        own_paid k j now end qs l b ((key.beq_iff k j).0 same) (rw e refl) (le_trans h late)
          λ after kept time. accepted_paid k qs (check l k now).0 after now end kept time o
    | inr other ↦ rw (accepted_other l k (j, now) qs other) (
        accepted_paid k qs (check l j now).0 b now end (check_others l j k now other ∙ e)
          (le_trans h late) o)
  ]

  -- From a limiter that does not know the node, over any requests of any nodes at times that never
  -- run back, the node is let through at most the burst and the rate times the elapsed seconds.
  pub accepted-le :
      (k : K) (qs : List (K × ℕ)) (l : RateLimiter K) (from end : ℕ)
      → find k l.buckets ≡ none
      → InOrder from qs end
      → accepted l k qs * ns_per_s ≤ l.burst * ns_per_s + (end - from) * l.rate_per_s
  unfolding accepted check refilled bucket_or_full refill
  accepted-le k [] l from end e o = omega arith
  accepted-le k ((j, now) ∷ qs) l from end e (late, o) = elim (Bool-cases (is_same k j)) [
    | inl same ↦
        let paid =
          own_paid k j now end qs l (record { tokens = l.burst; last = now })
            ((key.beq_iff k j).0 same) (rw e (ground arith)) (omega arith)
            λ after kept time. accepted_paid k qs (check l k now).0 after now end kept time o in
        omega (arith, paid, worth_split l.rate_per_s now end (InOrder-le now qs end o), shorter)
    | inr other ↦ rw (accepted_other l k (j, now) qs other) (
        le_trans (accepted-le k qs (check l j now).0 now end (check_others l j k now other ∙ e) o)
          (omega (arith, shorter)))
  ]
    where
      shorter : (end - now) * l.rate_per_s ≤ (end - from) * l.rate_per_s
      shorter = mul-le-mul_right l.rate_per_s (omega arith)
