-- ===== src/DataPlane/RateCounter.antt =====
-- eshield-ebpf/src/rate_counter.rs: the decaying packet counters, and the threshold that trust and
-- danger modulate.
pub mod Threshold
pub mod Advance
use e_shield.Base.{
  ℕ, ◌+◌, ◌-◌, ◌*◌, ◌/◌, ◌%◌, min, Option, none, some, ltb, ◌==◌, ◌!=◌, if◌then◌else◌, u64_max,
  saturating_add64, wrapping_add64, wrapping_mul64, swap16,
}
use e_shield.Common.Ip.{IpKey}
use e_shield.Common.Entries.{RateCounter, RateLimitPortKey}
use e_shield.Common.Config.{RuntimeConfig, RateLimitConfig}
use e_shield.Pure.Decay.{decay_counter}
use e_shield.DataPlane.Kernel.{Kernel}
use e_shield.DataPlane.State.{State}
use e_shield.DataPlane.Trust.{trust_factor, danger_factor}

pub record RateUpdate : Type 0 where
  pub counter : ℕ
  pub threshold : ℕ
  pub block_duration_s : ℕ

-- Milliseconds as nanoseconds, saturating: the guard before each `wrapping_mul(1_000_000)`.
unfoldable pub ms_to_ns : ℕ → ℕ
ms_to_ns ms = if ltb (u64_max / 1_000_000) ms then u64_max else wrapping_mul64 ms 1_000_000

unfoldable pub modulate_threshold : ℕ → ℕ → ℕ → ℕ
modulate_threshold base trust_f danger_f =
    let safe_max : ℕ = u64_max / 1000 in
    let step1 : ℕ =
      if ltb safe_max base
      then wrapping_mul64 (base / 1000) trust_f
      else wrapping_mul64 base trust_f / 1000 in
    if ltb safe_max step1
    then wrapping_mul64 (step1 / 1000) danger_f
    else wrapping_mul64 step1 danger_f / 1000

-- The counter written for a packet at `now_ns`: a first packet counts 1, a later one adds 1 to the
-- decayed count, and the clock moves on by whole ticks only.
unfoldable pub advance : Option RateCounter → ℕ → ℕ → RateLimitConfig → RateCounter
advance none now_ns tick_ns cfg = record { counter = 1; last_decay_ns = now_ns }
advance (some entry) now_ns tick_ns cfg =
    let elapsed_ns : ℕ = now_ns - entry.last_decay_ns in
    let decayed : ℕ = decay_counter entry.counter elapsed_ns tick_ns cfg.decay_num cfg.decay_den in
    let ticks : ℕ = elapsed_ns / tick_ns in
    record {
      counter = saturating_add64 decayed 1;
      last_decay_ns =
          min (wrapping_add64 entry.last_decay_ns (wrapping_mul64 ticks tick_ns)) now_ns;
    }

module _ {κ : Kernel} where
  unfoldable pub effective_threshold : IpKey → RuntimeConfig → RateLimitConfig → State κ → ℕ
  effective_threshold src runtime cfg s =
      if runtime.trust_enabled != 0
      then modulate_threshold cfg.threshold (trust_factor src s)
          (danger_factor runtime.danger_level)
      else cfg.threshold

  -- The tail of both functions, after the counter is stored; `none` stands for `return false`.
  abbrev pub report :
      IpKey → RateLimitConfig → ℕ → Option RuntimeConfig → State κ → Option RateUpdate
  report src cfg counter none s = none
  report src cfg counter (some runtime) s = some (record {
    counter = counter;
    threshold = effective_threshold src runtime cfg s;
    block_duration_s = cfg.block_duration_s;
  })

  abbrev pub count_source : IpKey → ℕ → RateLimitConfig → State κ → Option RateUpdate × State κ
  count_source src now_ns cfg s =
      let updated : RateCounter =
        advance (κ.rate_map.get s.rate_map src) now_ns (ms_to_ns cfg.tick_ms) cfg in
      let s' : State κ = record s { rate_map = κ.rate_map.insert s.rate_map src updated } in
      if ms_to_ns cfg.tick_ms == 0
      then (none, s)
      else (report src cfg updated.counter s.config s', s')

  unfoldable pub update_rate_counter : IpKey → ℕ → State κ → Option RateUpdate × State κ
  update_rate_counter src now_ns s = elim s.rate_limit_cfg [
    | none ↦ (none, s)
    | some cfg ↦ count_source src now_ns cfg s
  ]

  abbrev pub count_source_port :
      IpKey → ℕ → ℕ → RateLimitConfig → State κ → Option RateUpdate × State κ
  count_source_port src dport now_ns cfg s =
      let key : RateLimitPortKey = record { ip = src; dport = swap16 dport } in
      let updated : RateCounter =
        advance (κ.rate_map_port.get s.rate_map_port key) now_ns (ms_to_ns cfg.tick_ms) cfg in
      let s' : State κ = record s {
        rate_map_port = κ.rate_map_port.insert s.rate_map_port key updated;
      } in
      if ms_to_ns cfg.tick_ms == 0
      then (none, s)
      else (report src cfg updated.counter s.config s', s')

  unfoldable pub update_rate_counter_port : IpKey → ℕ → ℕ → State κ → Option RateUpdate × State κ
  update_rate_counter_port src dport now_ns s = elim s.rate_limit_cfg [
    | none ↦ (none, s)
    | some cfg ↦ count_source_port src dport now_ns cfg s
  ]
