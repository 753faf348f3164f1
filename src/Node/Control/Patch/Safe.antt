-- ===== src/Node/Control/Patch/Safe.antt =====
-- eshield/src/control.rs: what the data plane can rely on, whatever the settings go through.
use e_shield.Base.{
  ℕ, ◌≤◌, ◌<◌, ◌≡◌, refl, ◌&&◌, ◌⊎◌, inl, inr, Bool-cases, true, false, Option, none, some, List,
  [], ◌∷◌, arith, leb,
}
use e_shield.Base.Results.{Result, ok, err, ◌>>◌, ensure, >>-eq-ok}
use e_shield.Base.Text.{Text}
use e_shield.Node.Config.Sections.{Config}
use e_shield.Node.Control.Runtime.{
  Plane, RateLimitParams, from_config, init_config_map, new, reload, set_danger_level, geoip_action,
  fragment_policy_to_u8,
}
use e_shield.Node.Control.Patch.{
  RuntimeConfigPatch, PatchError, params_cfg, write_config, apply_patch, patched_snapshot,
  patch_runtime, validate_numbers, validate_action, validate_words, validate_runtime_patch,
  given_or, if_given, bad_geoip_action, lowered_or,
}
use e_shield.Node.Control.Patch.Limited.{
  Limited, is_on, has_limits, patch-Limited, new-Limited, reload-Limited, danger-Limited,
}
use e_shield.Node.Control.Patch.Changes.{
  Change, patches, reloads, measures_danger, no_change, after, change, run, is_looked_at,
  are_looked_at,
}

-- The divisors and limits that the data plane divides by and compares with, and the codes that it
-- tells apart.
pub record IsSafe (p : Plane) : Type 0 where
  pub add_divisor : 0 < p.config.trust_add_divisor
  pub sub_divisor : 0 < p.config.trust_sub_divisor
  pub threshold : 0 < p.config.conn_track_threshold
  pub window : 0 < p.config.conn_track_window_ms
  pub geoip : p.runtime.geoip_default_action ≤ 1
  geoip_shown : p.config.geoip_default_action ≤ 1
  fragments : p.config.fragment_policy ≤ 2
  pub danger : p.config.danger_level ≤ 2

geoip_given :
    (given : Option ℕ) (old : ℕ) (e : PatchError)
    → if_given given (λ action. ensure (leb action 1) e) ≡ ok tt
    → old ≤ 1
    → given_or given old ≤ 1
geoip_given none old e h b = b
geoip_given (some a) old e h b = ground arith

geoip_checked :
    (patch : RuntimeConfigPatch) (old : ℕ)
    → validate_runtime_patch patch ≡ ok tt
    → old ≤ 1
    → given_or patch.geoip_default_action old ≤ 1
unfolding validate_runtime_patch
geoip_checked patch old h b =
    let coded =
      >>-eq-ok (validate_numbers patch) (validate_action patch >> validate_words patch) h in
    let action = >>-eq-ok (validate_action patch) (validate_words patch) coded.1 in
    geoip_given patch.geoip_default_action old bad_geoip_action action.0 b

policy-le : (policy : Text) → fragment_policy_to_u8 policy ≤ 2
unfolding fragment_policy_to_u8
policy-le policy = ground arith

patch-IsSafe :
    (patch : RuntimeConfigPatch) (p : Plane)
    → validate_runtime_patch patch ≡ ok tt
    → IsSafe p
    → IsSafe (apply_patch patch p)
unfolding apply_patch write_config patched_snapshot
patch-IsSafe patch p h s = record {
  add_divisor = omega arith;
  sub_divisor = omega arith;
  threshold = omega arith;
  window = omega arith;
  geoip = geoip_checked patch p.runtime.geoip_default_action h s.geoip;
  geoip_shown = geoip_checked patch p.runtime.geoip_default_action h s.geoip;
  fragments = policy-le (lowered_or patch.fragment_policy p.runtime.fragment_policy);
  danger = s.danger;
}

patch_runtime-IsSafe :
    (patch : RuntimeConfigPatch) (p : Plane) → IsSafe p → IsSafe (after p (patch_runtime patch p))
unfolding patch_runtime
patch_runtime-IsSafe patch p s = go (validate_runtime_patch patch) refl
  where
    go :
        (checked : Result (Unit {0}) PatchError)
        → validate_runtime_patch patch ≡ checked
        → IsSafe (after p (checked >> ok (apply_patch patch p)))
    go (ok tt) e = patch-IsSafe patch p e s
    go (err x) e = s

action-le : (action : Text) → geoip_action action ≤ 1
action-le action = ground arith

danger-IsSafe : (level : ℕ) (p : Plane) → IsSafe p → IsSafe (set_danger_level level p)
unfolding set_danger_level
danger-IsSafe level p s = record {
  add_divisor = s.add_divisor;
  sub_divisor = s.sub_divisor;
  threshold = s.threshold;
  window = s.window;
  geoip = s.geoip;
  geoip_shown = s.geoip_shown;
  fragments = s.fragments;
  danger = omega arith;
}

patch_runtime-Limited :
    (patch : RuntimeConfigPatch) (p : Plane)
    → is_on patch.rate_limit ≡ true
    → is_on patch.port_rate_limit ≡ true
    → Limited p
    → Limited (after p (patch_runtime patch p))
unfolding patch_runtime
patch_runtime-Limited patch p on port_on l = go (validate_runtime_patch patch) refl
  where
    go :
        (checked : Result (Unit {0}) PatchError)
        → validate_runtime_patch patch ≡ checked
        → Limited (after p (checked >> ok (apply_patch patch p)))
    go (ok tt) e = patch-Limited patch p e on port_on l
    go (err x) e = l

module _ {F : Type 0} where
  change-Limited :
      (p : Plane) (c : Change F) → is_looked_at c ≡ true → Limited p → Limited (change p c)
  change-Limited p (patches patch) h l =
      patch_runtime-Limited patch p (ground arith) (ground arith) l
  change-Limited p (reloads config) h l = reload-Limited config p h
  change-Limited p (measures_danger level) h l = danger-Limited level p l

  run-Limited :
      (p : Plane) (changes : List (Change F))
      → are_looked_at changes ≡ true
      → Limited p
      → Limited (run p changes)
  unfolding run
  run-Limited p [] h l = l
  run-Limited p (c ∷ changes) h l =
      run-Limited (change p c) changes (ground arith) (change-Limited p c (ground arith) l)

  new-IsSafe : (config : Config F) → IsSafe (new config)
  unfolding new from_config init_config_map
  new-IsSafe config = record {
    add_divisor = omega arith;
    sub_divisor = omega arith;
    threshold = omega arith;
    window = omega arith;
    geoip = action-le config.geoip.default_action;
    geoip_shown = action-le config.geoip.default_action;
    fragments = policy-le config.xdp.fragment_policy;
    danger = omega arith;
  }

  reload-IsSafe : (config : Config F) (p : Plane) → IsSafe (reload config p)
  unfolding new reload from_config init_config_map
  reload-IsSafe config p =
      let s = new-IsSafe config in
      record {
        add_divisor = s.add_divisor;
        sub_divisor = s.sub_divisor;
        threshold = s.threshold;
        window = s.window;
        geoip = action-le config.geoip.default_action;
        geoip_shown = s.geoip_shown;
        fragments = s.fragments;
        danger = s.danger;
      }

  change-IsSafe : (p : Plane) (c : Change F) → IsSafe p → IsSafe (change p c)
  change-IsSafe p (patches patch) s = patch_runtime-IsSafe patch p s
  change-IsSafe p (reloads config) s = reload-IsSafe config p
  change-IsSafe p (measures_danger level) s = danger-IsSafe level p s

  -- From the start with any configuration and through any patches, reloads and measurements, CONFIG
  -- has positive divisors of the trust score, a positive threshold and window of the connection
  -- tracking, a default action of 0 or 1, and a fragment policy and a danger level of at most 2. The
  -- limiters' thresholds, ticks and decay denominator, in RATE_LIMIT_CFG and PORT_RATE_LIMIT_CFG, are
  -- positive too, unless a patch brought parameters of a limiter that is switched off, or a
  -- configuration had a zero among them.
  pub run-IsSafe :
      (config : Config F) (changes : List (Change F))
      → let p = run (new config) changes in
        IsSafe p × (Limited p ⊎ ((has_limits config && are_looked_at changes) ≡ false))
  unfolding run
  run-IsSafe config changes = (
    go (new config) changes (new-IsSafe config),
    elim (Bool-cases (has_limits config && are_looked_at changes)) [
      | inl h ↦
          inl (run-Limited (new config) changes (ground arith) (new-Limited config (ground arith)))
      | inr h ↦ inr h
    ],
  )
    where
      go : (p : Plane) (changes : List (Change F)) → IsSafe p → IsSafe (run p changes)
      go p [] s = s
      go p (c ∷ changes) s = go (change p c) changes (change-IsSafe p c s)

-- Parameters that are switched off are not looked at, and a switch is turned on without a look at the
-- parameters: any numbers whatever, a threshold of 0 among them, reach the data plane's limiter and
-- are switched on by two patches that are both accepted.
switch_skips_check :
    (rl : RateLimitParams) (p : Plane)
    → rl.enabled ≡ false
    → let q = after p (patch_runtime (record no_change { rate_limit = some rl }) p) in
      let r = after q (patch_runtime (record no_change { rate_limit_enabled = some true }) q) in
      (r.rate_limit_cfg ≡ params_cfg rl) × (r.config.rate_limit_enabled ≡ 1)
unfolding patch_runtime validate_runtime_patch apply_patch patched_snapshot write_config
switch_skips_check rl p h = rw h (refl, refl)
