-- ===== src/Node/Control/Patch/Limited.antt =====
-- eshield/src/control.rs: the numbers of the data plane's limiters, RATE_LIMIT_CFG and
-- PORT_RATE_LIMIT_CFG.
use e_shield.Base.{ℕ, ◌<◌, ◌≡◌, ◌&&◌, Bool, true, Option, none, some, arith, ltb}
use e_shield.Base.Results.{ok, ◌>>◌, >>-eq-ok}
use e_shield.Common.Config as Common
use e_shield.Node.Config.Sections.{Config}
use e_shield.Node.Control.Runtime.{
  Plane, RateLimitParams, init_rate_limit_map, init_port_rate_map, new, reload, set_danger_level,
}
use e_shield.Node.Control.Patch.{
  RuntimeConfigPatch, if_given, validate_rate_limit, validate_port_rate_limit, params_cfg,
  port_params_cfg, written, apply_patch, validate_numbers, validate_action, validate_words,
  validate_runtime_patch,
}

-- The thresholds, the ticks and the decay's denominator are positive.
pub record Limited (p : Plane) : Type 0 where
  threshold : 0 < p.rate_limit_cfg.threshold
  tick_ms : 0 < p.rate_limit_cfg.tick_ms
  decay_den : 0 < p.rate_limit_cfg.decay_den
  port_threshold : 0 < p.port_rate_limit_cfg.threshold
  port_tick_ms : 0 < p.port_rate_limit_cfg.tick_ms

-- A section that a patch brings is switched on.
abbrev pub is_on : Option RateLimitParams → Bool
is_on none = true
is_on (some rl) = rl.enabled

-- A configuration has positive numbers, also for a limiter that it switches off.
abbrev pub has_limits : {F : Type 0} → Config F → Bool
has_limits config =
    ltb 0 config.rate_limit.threshold
    && ltb 0 config.rate_limit.tick_ms
    && ltb 0 config.rate_limit.decay_den
    && ltb 0 config.port_rate_limit.threshold
    && ltb 0 config.port_rate_limit.tick_ms

rate_positive :
    (given : Option RateLimitParams) (old : Common.RateLimitConfig)
    → if_given given validate_rate_limit ≡ ok tt
    → is_on given ≡ true
    → (0 < old.threshold) × (0 < old.tick_ms) × (0 < old.decay_den)
    → let c = written params_cfg given old in
      (0 < c.threshold) × (0 < c.tick_ms) × (0 < c.decay_den)
rate_positive none old h on l = l
rate_positive (some rl) old h on l = ground (arith, on)

port_rate_positive :
    (given : Option RateLimitParams) (old : Common.RateLimitConfig)
    → if_given given validate_port_rate_limit ≡ ok tt
    → is_on given ≡ true
    → (0 < old.threshold) × (0 < old.tick_ms)
    → let c = written port_params_cfg given old in (0 < c.threshold) × (0 < c.tick_ms)
port_rate_positive none old h on l = l
port_rate_positive (some prl) old h on l = ground (arith, on)

numbers-Limited :
    (patch : RuntimeConfigPatch) (p : Plane)
    → validate_numbers patch ≡ ok tt
    → is_on patch.rate_limit ≡ true
    → is_on patch.port_rate_limit ≡ true
    → Limited p
    → Limited (apply_patch patch p)
unfolding validate_numbers apply_patch
numbers-Limited patch p h on port_on l =
    let (first, later) = >>-eq-ok (if_given patch.rate_limit validate_rate_limit) _ h in
    let (second, rest) =
      >>-eq-ok (if_given patch.port_rate_limit validate_port_rate_limit) _ later in
    let (a, b, c) =
      rate_positive patch.rate_limit p.rate_limit_cfg first on
        (l.threshold, l.tick_ms, l.decay_den) in
    let (d, e) =
      port_rate_positive patch.port_rate_limit p.port_rate_limit_cfg second port_on
        (l.port_threshold, l.port_tick_ms) in
    record { threshold = a; tick_ms = b; decay_den = c; port_threshold = d; port_tick_ms = e }

pub patch-Limited :
    (patch : RuntimeConfigPatch) (p : Plane)
    → validate_runtime_patch patch ≡ ok tt
    → is_on patch.rate_limit ≡ true
    → is_on patch.port_rate_limit ≡ true
    → Limited p
    → Limited (apply_patch patch p)
unfolding validate_runtime_patch
patch-Limited patch p h on port_on l =
    numbers-Limited patch p
      (>>-eq-ok (validate_numbers patch) (validate_action patch >> validate_words patch) h).0 on
      port_on l

pub danger-Limited : (level : ℕ) (p : Plane) → Limited p → Limited (set_danger_level level p)
unfolding set_danger_level
danger-Limited level p l = record {
  threshold = l.threshold;
  tick_ms = l.tick_ms;
  decay_den = l.decay_den;
  port_threshold = l.port_threshold;
  port_tick_ms = l.port_tick_ms;
}

module _ {F : Type 0} where
  pub new-Limited : (config : Config F) → has_limits config ≡ true → Limited (new config)
  unfolding new init_rate_limit_map init_port_rate_map
  new-Limited config h = record {
    threshold = ground arith;
    tick_ms = ground arith;
    decay_den = ground arith;
    port_threshold = ground arith;
    port_tick_ms = ground arith;
  }

  pub reload-Limited :
      (config : Config F) (p : Plane) → has_limits config ≡ true → Limited (reload config p)
  unfolding reload init_rate_limit_map init_port_rate_map
  reload-Limited config p h = record {
    threshold = ground arith;
    tick_ms = ground arith;
    decay_den = ground arith;
    port_threshold = ground arith;
    port_tick_ms = ground arith;
  }
