-- ===== src/DataPlane/RateCounter/Advance.antt =====
-- eshield-ebpf/src/rate_counter.rs: the clock of a rate counter, and what a paced source reaches.
use e_shield.Base.{
  ℕ, ◌+◌, ◌-◌, ◌*◌, ◌/◌, ◌≤◌, ◌<◌, ◌≡◌, some, List, [], ◌∷◌, arith, u64_mod, wrapping_mul64,
}
use native.Mathlib.Nat.{mod-lt, div-add-mod', div_self, div-mul-le_self, mul-le-mul_right}
use e_shield.Common.Entries.{RateCounter}
use e_shield.Common.Config.{RateLimitConfig}
use e_shield.Pure.Decay.{decay_counter, decay_loop}
use e_shield.Pure.Decay.Bounds.{decay_counter_antitone, div_mono}
use e_shield.DataPlane.RateCounter.{advance}

-- For a packet at a 64-bit time not before the counter's clock, a positive tick and a decay factor
-- of at most one, the clock never runs back, never passes the packet's time, and lags behind it by
-- less than one tick, so that no whole tick is lost; the packet leaves a positive count, at most 1
-- above the old one.
advance_clock :
    (e : RateCounter) (now tick : ℕ) (cfg : RateLimitConfig)
    → e.last_decay_ns ≤ now
    → now < u64_mod
    → 0 < tick
    → cfg.decay_num ≤ cfg.decay_den
    → let after = advance (some e) now tick cfg in
      (e.last_decay_ns ≤ after.last_decay_ns)
      × (after.last_decay_ns ≤ now)
      × (now - after.last_decay_ns < tick)
      × (0 < after.counter)
      × (after.counter ≤ e.counter + 1)
unfolding advance
advance_clock e now tick cfg h hn ht hd =
    let elapsed : ℕ = now - e.last_decay_ns in
    let whole : elapsed / tick * tick ≤ elapsed = div-mul-le_self elapsed tick in
    let rest : elapsed - elapsed / tick * tick < tick =
      omega (arith, div-add-mod' elapsed tick, mod-lt elapsed ht) in
    let decayed =
      decay_counter_antitone e.counter 0 elapsed tick cfg.decay_num cfg.decay_den hd
        (omega arith) in
    ground (arith, whole, rest, decayed)

-- The counter after packets at the given times.
abbrev pub after_packets : RateLimitConfig → ℕ → RateCounter → List ℕ → RateCounter
after_packets cfg tick e [] = e
after_packets cfg tick e (t ∷ times) = after_packets cfg tick (advance (some e) t tick cfg) times

-- Each packet comes a tick or more after the one before it.
abbrev pub Paced : ℕ → ℕ → List ℕ → Type 0
Paced tick before [] = Unit
Paced tick before (t ∷ times) = (before + tick ≤ t) × (t < u64_mod) × Paced tick t times

-- What a packet that comes a tick or more after the clock leaves of a count of at most `bound`.
advance-le :
    (e : RateCounter) (t tick bound : ℕ) (cfg : RateLimitConfig)
    → e.last_decay_ns + tick ≤ t
    → 0 < tick
    → 0 < cfg.decay_den
    → cfg.decay_num ≤ cfg.decay_den
    → bound * cfg.decay_num / cfg.decay_den + 1 ≤ bound
    → e.counter ≤ bound
    → (advance (some e) t tick cfg).counter ≤ bound
unfolding advance decay_counter decay_loop
advance-le e t tick bound cfg late ht hden hd hb h =
    let longer =
      decay_counter_antitone e.counter tick (t - e.last_decay_ns) tick cfg.decay_num cfg.decay_den
        hd (omega arith) in
    let product : e.counter * cfg.decay_num ≤ bound * cfg.decay_num =
      mul-le-mul_right cfg.decay_num h in
    let once =
      div_mono (wrapping_mul64 e.counter cfg.decay_num) (bound * cfg.decay_num) cfg.decay_den
        (omega arith) in
    let single : tick / tick ≡ 1 = div_self ht in ground (arith, longer, once, single)

-- A source that sends at most one packet per tick never exceeds a bound that one round of decay
-- and one packet keep (8 is one, with the default factor 7/8), if its count is within the bound at
-- first and the factor is at most one.
pub after_packets-le :
    (times : List ℕ) (e : RateCounter) (before tick bound : ℕ) (cfg : RateLimitConfig)
    → Paced tick before times
    → e.last_decay_ns ≤ before
    → 0 < tick
    → 0 < cfg.decay_den
    → cfg.decay_num ≤ cfg.decay_den
    → bound * cfg.decay_num / cfg.decay_den + 1 ≤ bound
    → e.counter ≤ bound
    → (after_packets cfg tick e times).counter ≤ bound
after_packets-le [] e before tick bound cfg paced clock ht hden hd hb h = h
after_packets-le (t ∷ times) e before tick bound cfg paced clock ht hden hd hb h =
    let moved = advance_clock e t tick cfg (omega (arith, paced)) paced.1 ht hd in
    after_packets-le times (advance (some e) t tick cfg) t tick bound cfg paced.2 moved.1 ht hden hd
      hb (advance-le e t tick bound cfg (omega (arith, paced)) ht hden hd hb h)
