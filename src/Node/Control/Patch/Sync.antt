-- ===== src/Node/Control/Patch/Sync.antt =====
-- eshield/src/control.rs: the three holders of the settings agree.
use e_shield.Base.{ℕ, true, false, ◌≡◌, refl, ◌↔◌, Bool, Option, none, some, arith, sym}
use e_shield.Base.Dicts.{same_list}
use e_shield.Base.Text.{bytes}
use e_shield.Base.Results.{Result, ok, err, ◌>>◌}
use e_shield.Node.Config.Sections.{Config}
use e_shield.Node.Control.Runtime.{
  Plane, u8_from, ignores_case_soft, from_config, init_config_map, init_rate_limit_map,
  init_port_rate_map, new, reload,
}
use e_shield.Node.Control.Patch.{
  RuntimeConfigPatch, PatchError, switched, given_or, write_config, apply_patch, patched_snapshot,
  patch_runtime, validate_runtime_patch,
}
use e_shield.Node.Control.Patch.Shown.{
  IsSwitch, Shows, Limits, LimitsPort, u8_from-IsSwitch, fragment_policy_to_u8-IsPolicy,
  write_config-Shows, switched-Limits, written-Limits, written-LimitsPort,
}

-- The data plane and the adaptive engine run with what the snapshot shows.
pub record InSync (p : Plane) : Type 0 where
  config_shown : Shows p.runtime p.config
  danger_shown : p.config.danger_level ≡ p.runtime.danger_level
  rate_shown : Limits p.runtime.rate_limit p.rate_limit_cfg
  port_rate_shown : LimitsPort p.runtime.port_rate_limit p.port_rate_limit_cfg
  adaptive_shown : p.adaptive_engine ≡ p.runtime.adaptive

given_shown {ℓ} :
    {A : Type ℓ} (given : Option A) (engine shown : A)
    → engine ≡ shown
    → given_or given engine ≡ given_or given shown
given_shown none engine shown h = h
given_shown (some a) engine shown h = refl

patched-InSync : (patch : RuntimeConfigPatch) (p : Plane) → InSync p → InSync (apply_patch patch p)
unfolding apply_patch write_config patched_snapshot
patched-InSync patch p s = record {
  config_shown = write_config-Shows (patched_snapshot patch p.runtime) p.config;
  danger_shown = s.danger_shown;
  rate_shown =
      written-Limits patch.rate_limit (switched patch.rate_limit_enabled p.runtime.rate_limit)
        p.rate_limit_cfg
        (switched-Limits patch.rate_limit_enabled p.runtime.rate_limit p.rate_limit_cfg
          s.rate_shown);
  port_rate_shown =
      written-LimitsPort patch.port_rate_limit p.runtime.port_rate_limit p.port_rate_limit_cfg
        s.port_rate_shown;
  adaptive_shown = given_shown patch.adaptive p.adaptive_engine p.runtime.adaptive s.adaptive_shown;
}

-- A patch that is accepted keeps the data plane and the adaptive engine at what the snapshot shows,
-- and leaves the danger level and the counts of the two rule tables as they are.
pub patch_runtime-InSync :
    (patch : RuntimeConfigPatch) (p q : Plane)
    → InSync p
    → patch_runtime patch p ≡ ok q
    → InSync q
      × (q.config.danger_level ≡ p.config.danger_level)
      × (q.config.port_acl_count ≡ p.config.port_acl_count)
      × (q.config.l7_pattern_count ≡ p.config.l7_pattern_count)
unfolding patch_runtime apply_patch write_config
patch_runtime-InSync patch p q s h = go (validate_runtime_patch patch) h
  where
    go :
        (checked : Result (Unit {0}) PatchError)
        → (checked >> ok (apply_patch patch p)) ≡ ok q
        → InSync q
          × (q.config.danger_level ≡ p.config.danger_level)
          × (q.config.port_acl_count ≡ p.config.port_acl_count)
          × (q.config.l7_pattern_count ≡ p.config.l7_pattern_count)
    go (ok u) h =
        (let e : apply_patch patch p ≡ q = cc in
          rw (← e) (patched-InSync patch p s, refl, refl, refl))
    go (err e) h = absurd (cc)

switch_same : (a b : Bool) → IsSwitch a (u8_from b) → b ≡ a
switch_same true b h = ground arith
switch_same false b h = ground arith

module _ {F : Type 0} where
  -- What a start writes, beside a snapshot with any danger level.
  start-Shows :
      (config : Config F) (level : ℕ)
      → ignores_case_soft config.rate_limit.block_mode
        ≡ same_list config.rate_limit.block_mode (bytes "soft")
      → Shows (record (from_config config) { danger_level = level }) (init_config_map config)
  unfolding from_config init_config_map
  start-Shows config level h = record {
    rate_limit_enabled = u8_from-IsSwitch _;
    syn_proxy_enabled = u8_from-IsSwitch _;
    l7_scan_enabled = u8_from-IsSwitch _;
    udp_flood_enabled = u8_from-IsSwitch _;
    icmp_flood_enabled = u8_from-IsSwitch _;
    geoip_enabled = u8_from-IsSwitch _;
    tcp_reset_on_drop = u8_from-IsSwitch _;
    trust_enabled = u8_from-IsSwitch _;
    conn_track_enabled = u8_from-IsSwitch _;
    packet_log_enabled = u8_from-IsSwitch _;
    project_enabled = u8_from-IsSwitch _;
    port_rate_limit_enabled = u8_from-IsSwitch _;
    rate_limit_dport_grouping = u8_from-IsSwitch _;
    rate_limit_soft =
        rw h (u8_from-IsSwitch (same_list config.rate_limit.block_mode (bytes "soft")));
    geoip_default_action = refl;
    packet_log_sample_rate = refl;
    conn_track_threshold = omega arith;
    conn_track_window_ms = omega arith;
    trust_add_divisor = omega arith;
    trust_sub_divisor = omega arith;
    fragment_policy = fragment_policy_to_u8-IsPolicy config.xdp.fragment_policy;
  }

  -- After the start with a configuration the three agree exactly if a block mode that means "soft" is
  -- spelled in lower case; in any other spelling the next patch, whatever it changes, makes blocks
  -- hard.
  pub new-InSync_iff :
      (config : Config F)
      → InSync (new config) ↔ (
          ignores_case_soft config.rate_limit.block_mode
          ≡ same_list config.rate_limit.block_mode (bytes "soft"))
  unfolding new from_config init_config_map init_rate_limit_map init_port_rate_map write_config
  new-InSync_iff config = (
    (λ s. switch_same _ _ s.config_shown.rate_limit_soft),
    λ h. record {
      config_shown = start-Shows config 0 h;
      danger_shown = refl;
      rate_shown = record {
        threshold = refl;
        tick_ms = refl;
        decay_num = refl;
        decay_den = refl;
        block_duration_s = refl;
      };
      port_rate_shown = (refl, refl, refl, refl, refl);
      adaptive_shown = refl;
    },
  )

  -- After a reload the snapshot, the data plane and the adaptive engine agree exactly if the danger
  -- level was 0 and a block mode that means "soft" is spelled in lower case: the reload keeps the level
  -- in the snapshot and writes 0 into the data plane, and it takes the mode in any case for the data
  -- plane but copies it as it is spelled.
  pub reload-InSync_iff :
      (config : Config F) (p : Plane)
      → InSync (reload config p) ↔ (
          (p.runtime.danger_level ≡ 0)
          × (ignores_case_soft config.rate_limit.block_mode
              ≡ same_list config.rate_limit.block_mode (bytes "soft")))
  unfolding reload from_config init_config_map init_rate_limit_map init_port_rate_map write_config
  reload-InSync_iff config p = (
    (λ s. (sym s.danger_shown, switch_same _ _ s.config_shown.rate_limit_soft)),
    λ h. record {
      config_shown = start-Shows config p.runtime.danger_level h.1;
      danger_shown = sym h.0;
      rate_shown = record {
        threshold = refl;
        tick_ms = refl;
        decay_num = refl;
        decay_den = refl;
        block_duration_s = refl;
      };
      port_rate_shown = (refl, refl, refl, refl, refl);
      adaptive_shown = refl;
    },
  )
