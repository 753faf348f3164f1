-- ===== src/Node/Config/Validate/Accepted.antt =====
-- eshield/src/config.rs: what the data plane finds when a configuration has passed the check.
use e_shield.Base.{◌≤◌, ◌<◌, ◌≡◌, refl, true, length, arith}
use e_shield.Base.Results.{Result, ok, err, ◌>>◌}
use e_shield.Common.Config.{max_l7_patterns}
use e_shield.Node.Config.Sections.{Config}
use e_shield.Node.Config.PortAcl.{validate_port_acl_items}
use e_shield.Node.Config.PortAcl.Compiles.{Compile, validate_port_acl_items_iff}
use e_shield.Node.Config.Validate.{Host, passes, validate_texts, validate_numbers, validate}
use e_shield.Node.Config.Validate.Lists.{validate_l7_patterns}
use e_shield.Node.Control.Runtime.{init_config_map, init_rate_limit_map, new}

passed : {E : Type 0} (r : Result (Unit {0}) E) → passes r ≡ true → r ≡ ok tt
passed (ok u) h = refl
passed (err e) h = absurd (ground arith)

first_two :
    {E : Type 0} (a b k : Result (Unit {0}) E) → (a >> (b >> k)) ≡ ok tt → (a ≡ ok tt) × (b ≡ ok tt)
first_two (ok u) (ok v) k h = (refl, refl)
first_two (ok u) (err e) k h = absurd (cc)
first_two (err e) b k h = absurd (cc)

-- The tables and limits of a running data plane are those that the file means.
pub record Ready {F : Type 0} (host : Host F) (c : Config F) : Type 0 where
  pub rules_compile : Compile host.to_lowercase c.port_acl
  pub rules_counted : (new c).config.port_acl_count ≡ length c.port_acl
  pub patterns_counted : (new c).config.l7_pattern_count ≡ length c.l7_scan.patterns
  pub limit_set :
      (new c).config.rate_limit_enabled ≡ 1
      → (0 < (new c).rate_limit_cfg.threshold)
        × (0 < (new c).rate_limit_cfg.tick_ms)
        × (0 < (new c).rate_limit_cfg.decay_den)

module _ {F : Type 0} (host : Host F) where
  texts_port_acl :
      (c : Config F)
      → validate_texts host c ≡ ok tt
      → passes (validate_port_acl_items host.to_lowercase c.port_acl) ≡ true
  unfolding validate_texts
  texts_port_acl c h = ground arith

  numbers_limit :
      (c : Config F)
      → validate_numbers host c ≡ ok tt
      → c.rate_limit.enabled ≡ true
      → (0 < c.rate_limit.threshold) × (0 < c.rate_limit.tick_ms) × (0 < c.rate_limit.decay_den)
  unfolding validate_numbers
  numbers_limit c h e = ground arith

  numbers_patterns :
      (c : Config F) → validate_numbers host c ≡ ok tt → length c.l7_scan.patterns ≤ max_l7_patterns
  unfolding validate_numbers validate_l7_patterns
  numbers_patterns c h = ground arith

  parts :
      (c : Config F)
      → validate host c ≡ ok tt
      → (validate_texts host c ≡ ok tt) × (validate_numbers host c ≡ ok tt)
  unfolding validate
  parts c h = first_two (validate_texts host c) (validate_numbers host c) _ h

  -- A configuration that passes the check starts the data plane with all of its port rules and
  -- signatures: every rule compiles, and the counts in CONFIG are the lengths of the lists. Where the
  -- rate limit is on, its threshold, its tick and the denominator of its decay are positive.
  pub validate-Ready : (c : Config F) → validate host c ≡ ok tt → Ready host c
  unfolding new init_config_map init_rate_limit_map
  validate-Ready c h =
      let (texts, numbers) = parts c h in
      let rules =
        (validate_port_acl_items_iff host.to_lowercase c.port_acl).0 (
          passed (validate_port_acl_items host.to_lowercase c.port_acl) (texts_port_acl c texts)) in
      record {
        rules_compile = rules.1;
        rules_counted = omega (arith, rules.0);
        patterns_counted = omega (arith, numbers_patterns c numbers);
        limit_set = λ on. numbers_limit c numbers (ground arith);
      }
