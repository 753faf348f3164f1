-- ===== src/Node/Control/Runtime.antt =====
-- eshield/src/control.rs: the settings that a node runs with, in the three places that hold them: the
-- snapshot of the control plane, the maps of the data plane, and the engine of the adaptive blocks.
-- Fields of the snapshot that only the console shows are left out.
use e_shield.Base.{ℕ, Bool, true, false, not, max, min, ◌%◌, if◌then◌else◌, length}
use e_shield.Base.Dicts.{same_list}
use e_shield.Base.Text.{Text, bytes, to_ascii_lowercase}
use e_shield.Common.Config.{RuntimeConfig, max_port_acl, max_l7_patterns}
use e_shield.Common.Config as Common
use e_shield.Node.Config.Sections.{Config, AdaptiveConfig}
use e_shield.Node.Config.Validate.Lists.{is_list_empty}

pub record RateLimitParams : Type 0 where
  pub enabled : Bool
  pub threshold : ℕ
  pub tick_ms : ℕ
  pub decay_num : ℕ
  pub decay_den : ℕ
  pub block_duration_s : ℕ
  pub dport_grouping : Bool

pub record RuntimeConfigSnapshot : Type 0 where
  pub rate_limit_enabled : Bool
  pub syn_proxy_enabled : Bool
  pub l7_scan_enabled : Bool
  pub udp_flood_enabled : Bool
  pub icmp_flood_enabled : Bool
  pub geoip_enabled : Bool
  pub tcp_reset_on_drop : Bool
  pub trust_enabled : Bool
  pub conn_track_enabled : Bool
  pub conn_track_threshold : ℕ
  pub conn_track_window_ms : ℕ
  pub trust_add_divisor : ℕ
  pub trust_sub_divisor : ℕ
  pub geoip_default_action : ℕ
  pub danger_level : ℕ
  pub rate_limit : RateLimitParams
  pub port_rate_limit : RateLimitParams
  pub adaptive : AdaptiveConfig
  pub packet_log_enabled : Bool
  pub packet_log_sample_rate : ℕ
  pub protection_projects_enabled : Bool
  pub fragment_policy : Text
  pub rate_limit_block_mode : Text

-- The first slots of CONFIG, RATE_LIMIT_CFG and PORT_RATE_LIMIT_CFG, which the loaded program has.
pub record Plane : Type 0 where
  pub runtime : RuntimeConfigSnapshot
  pub config : RuntimeConfig
  pub rate_limit_cfg : Common.RateLimitConfig
  pub port_rate_limit_cfg : Common.RateLimitConfig
  pub adaptive_engine : AdaptiveConfig

-- `u8::from(bool)`.
abbrev pub u8_from : Bool → ℕ
u8_from true = 1
u8_from false = 0

unfoldable pub fragment_policy_to_u8 : Text → ℕ
fragment_policy_to_u8 policy =
    let lower = to_ascii_lowercase policy in
    if same_list lower (bytes "rate_limit")
    then 1
    else if same_list lower (bytes "drop")
    then 2
    else 0

-- `default_action == "drop"`.
abbrev pub geoip_action : Text → ℕ
geoip_action action = if same_list action (bytes "drop") then 1 else 0

-- `eq_ignore_ascii_case("soft")`.
abbrev pub ignores_case_soft : Text → Bool
ignores_case_soft mode = same_list (to_ascii_lowercase mode) (bytes "soft")

-- `(len as u8).min(max as u8)`.
abbrev count_u8 : ℕ → ℕ → ℕ
count_u8 n limit = min (n % 256) limit

module _ {F : Type 0} where
  unfoldable pub from_config : Config F → RuntimeConfigSnapshot
  from_config config = record {
    rate_limit_enabled = config.rate_limit.enabled;
    syn_proxy_enabled = config.syn_proxy_enabled;
    l7_scan_enabled = config.l7_scan.enabled;
    udp_flood_enabled = config.udp_flood_enabled;
    icmp_flood_enabled = config.icmp_flood_enabled;
    geoip_enabled = config.geoip.enabled;
    tcp_reset_on_drop = config.tcp_reset_on_drop;
    trust_enabled = config.trust_score.enabled;
    conn_track_enabled = config.conn_track.enabled;
    conn_track_threshold = max config.conn_track.threshold 1;
    conn_track_window_ms = max config.conn_track.window_ms 1;
    trust_add_divisor = max config.trust_score.add_divisor 1;
    trust_sub_divisor = max config.trust_score.sub_divisor 1;
    geoip_default_action = geoip_action config.geoip.default_action;
    danger_level = 0;
    rate_limit = record {
      enabled = config.rate_limit.enabled;
      threshold = config.rate_limit.threshold;
      tick_ms = config.rate_limit.tick_ms;
      decay_num = config.rate_limit.decay_num;
      decay_den = config.rate_limit.decay_den;
      block_duration_s = config.rate_limit.block_duration_s;
      dport_grouping = config.rate_limit.dport_grouping;
    };
    port_rate_limit = record {
      enabled = config.port_rate_limit.enabled;
      threshold = config.port_rate_limit.threshold;
      tick_ms = config.port_rate_limit.tick_ms;
      decay_num = 0;
      decay_den = 0;
      block_duration_s = 0;
      dport_grouping = false;
    };
    adaptive = config.adaptive;
    packet_log_enabled = config.packet_log.enabled;
    packet_log_sample_rate = config.packet_log.sample_rate;
    protection_projects_enabled = not (is_list_empty config.protection_projects);
    fragment_policy = config.xdp.fragment_policy;
    rate_limit_block_mode = config.rate_limit.block_mode;
  }

  unfoldable pub init_config_map : Config F → RuntimeConfig
  unfolding fragment_policy_to_u8
  init_config_map config = record {
    trust_add_divisor = max config.trust_score.add_divisor 1;
    trust_sub_divisor = max config.trust_score.sub_divisor 1;
    conn_track_threshold = max config.conn_track.threshold 1;
    conn_track_window_ms = max config.conn_track.window_ms 1;
    packet_log_sample_rate = config.packet_log.sample_rate;
    rate_limit_enabled = u8_from config.rate_limit.enabled;
    syn_proxy_enabled = u8_from config.syn_proxy_enabled;
    l7_scan_enabled = u8_from config.l7_scan.enabled;
    udp_flood_enabled = u8_from config.udp_flood_enabled;
    icmp_flood_enabled = u8_from config.icmp_flood_enabled;
    geoip_enabled = u8_from config.geoip.enabled;
    geoip_default_action = geoip_action config.geoip.default_action;
    tcp_reset_on_drop = u8_from config.tcp_reset_on_drop;
    trust_enabled = u8_from config.trust_score.enabled;
    danger_level = 0;
    packet_log_enabled = u8_from config.packet_log.enabled;
    project_enabled = u8_from (not (is_list_empty config.protection_projects));
    port_acl_count = count_u8 (length config.port_acl) max_port_acl;
    l7_pattern_count = count_u8 (length config.l7_scan.patterns) max_l7_patterns;
    port_rate_limit_enabled = u8_from config.port_rate_limit.enabled;
    conn_track_enabled = u8_from config.conn_track.enabled;
    rate_limit_dport_grouping = u8_from config.rate_limit.dport_grouping;
    fragment_policy = fragment_policy_to_u8 config.xdp.fragment_policy;
    rate_limit_soft = u8_from (ignores_case_soft config.rate_limit.block_mode);
  }

  unfoldable pub init_rate_limit_map : Config F → Common.RateLimitConfig
  init_rate_limit_map config = record {
    threshold = config.rate_limit.threshold;
    tick_ms = config.rate_limit.tick_ms;
    decay_num = config.rate_limit.decay_num;
    decay_den = config.rate_limit.decay_den;
    block_duration_s = config.rate_limit.block_duration_s;
  }

  unfoldable pub init_port_rate_map : Config F → Common.RateLimitConfig
  init_port_rate_map config = record {
    threshold = config.port_rate_limit.threshold;
    tick_ms = config.port_rate_limit.tick_ms;
    decay_num = 0;
    decay_den = 1;
    block_duration_s = 0;
  }

  -- The settings part of `ControlState::new`; `main` starts the engine with the same section.
  unfoldable pub new : Config F → Plane
  unfolding from_config init_config_map init_rate_limit_map init_port_rate_map
  new config = record {
    runtime = from_config config;
    config = init_config_map config;
    rate_limit_cfg = init_rate_limit_map config;
    port_rate_limit_cfg = init_port_rate_map config;
    adaptive_engine = config.adaptive;
  }

  -- The settings part of `reload_config_file`, for a file that passed the check.
  unfoldable pub reload : Config F → Plane → Plane
  unfolding from_config init_config_map init_rate_limit_map init_port_rate_map
  reload config p = record {
    runtime = record (from_config config) { danger_level = p.runtime.danger_level };
    config = init_config_map config;
    rate_limit_cfg = init_rate_limit_map config;
    port_rate_limit_cfg = init_port_rate_map config;
    adaptive_engine = config.adaptive;
  }

unfoldable pub set_danger_level : ℕ → Plane → Plane
set_danger_level level p = record p {
  runtime = record p.runtime { danger_level = min level 2 };
  config = record p.config { danger_level = min level 2 };
}
