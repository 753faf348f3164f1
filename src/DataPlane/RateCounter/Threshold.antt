-- ===== src/DataPlane/RateCounter/Threshold.antt =====
-- eshield-ebpf/src/rate_counter.rs: the threshold that trust and danger lower, without wrapping.
use e_shield.Base.{
  ℕ, ◌*◌, ◌/◌, ◌≤◌, ◌<◌, ◌≡◌, ◌∙◌, ap, arith, u64_mod, u64_max, wrapping_mul64, ltb, if◌then◌else◌,
}
use native.Mathlib.Nat.{mul-le-mul_left}
use e_shield.DataPlane.RateCounter.{modulate_threshold, ms_to_ns}

-- One factor of the modulation.
abbrev lowered : ℕ → ℕ → ℕ
lowered x factor =
    if ltb (u64_max / 1000) x
    then wrapping_mul64 (x / 1000) factor
    else wrapping_mul64 x factor / 1000

lowered_lem :
    (x factor : ℕ)
    → x < u64_mod
    → factor ≤ 1000
    → (lowered x factor ≤ x) × (x ≤ u64_max / 1000 → lowered x factor ≡ x * factor / 1000)
lowered_lem x factor h hf =
    let whole : x * factor ≤ x * 1000 = mul-le-mul_left x hf in
    let parts : x / 1000 * factor ≤ x / 1000 * 1000 = mul-le-mul_left (x / 1000) hf in ground arith

-- A 64-bit threshold modulated by factors of at most 1000 per mille is never raised, and below
-- u64::MAX / 1000 it is the exact product, rounded down after each factor: nothing wraps.
modulate_threshold-le :
    (base trust danger : ℕ)
    → base < u64_mod
    → trust ≤ 1000
    → danger ≤ 1000
    → (modulate_threshold base trust danger ≤ base)
      × (base ≤ u64_max / 1000
          → modulate_threshold base trust danger ≡ base * trust / 1000 * danger / 1000)
unfolding modulate_threshold
modulate_threshold-le base trust danger h ht hd =
    let low : ℕ = lowered base trust in
    let first = lowered_lem base trust h ht in
    let second = lowered_lem low danger (omega (arith, first)) hd in
    (
      omega (arith, first, second),
      λ small. second.1 (omega (arith, first)) ∙ ap (λ x. x * danger / 1000) (first.1 small),
    )

-- Milliseconds become nanoseconds exactly, or the largest number of nanoseconds where the product
-- does not fit: the order of intervals stays, and only 0 ms gives 0 ns.
ms_to_ns_lem :
    (a b : ℕ)
    → a ≤ b
    → (ms_to_ns a ≤ ms_to_ns b)
      × (b ≤ u64_max / 1_000_000 → ms_to_ns b ≡ b * 1_000_000)
      × (ms_to_ns a ≡ 0 → a ≡ 0)
unfolding ms_to_ns
ms_to_ns_lem a b h = ground arith
