-- ===== src/Common/Config.antt =====
-- eshield-common/src/lib.rs: the configuration records that the user side writes into the maps.
use e_shield.Base.{ℕ}

pub record RuntimeConfig : Type 0 where
  pub trust_add_divisor : ℕ
  pub trust_sub_divisor : ℕ
  pub conn_track_threshold : ℕ
  pub conn_track_window_ms : ℕ
  pub packet_log_sample_rate : ℕ
  pub rate_limit_enabled : ℕ
  pub syn_proxy_enabled : ℕ
  pub l7_scan_enabled : ℕ
  pub udp_flood_enabled : ℕ
  pub icmp_flood_enabled : ℕ
  pub geoip_enabled : ℕ
  pub geoip_default_action : ℕ
  pub tcp_reset_on_drop : ℕ
  pub trust_enabled : ℕ
  pub danger_level : ℕ
  pub packet_log_enabled : ℕ
  pub project_enabled : ℕ
  pub port_acl_count : ℕ
  pub l7_pattern_count : ℕ
  pub port_rate_limit_enabled : ℕ
  pub conn_track_enabled : ℕ
  pub rate_limit_dport_grouping : ℕ
  pub fragment_policy : ℕ
  pub rate_limit_soft : ℕ

pub record RateLimitConfig : Type 0 where
  pub threshold : ℕ
  pub tick_ms : ℕ
  pub decay_num : ℕ
  pub decay_den : ℕ
  pub block_duration_s : ℕ

-- `impl Default for RateLimitConfig`.
abbrev pub default_rate_limit : RateLimitConfig
default_rate_limit = record {
  threshold = 200;
  tick_ms = 100;
  decay_num = 7;
  decay_den = 8;
  block_duration_s = 300;
}

-- `MAX_PORT_ACL` and `MAX_L7_PATTERNS`.
abbrev pub max_port_acl : ℕ
max_port_acl = 32

abbrev pub max_l7_patterns : ℕ
max_l7_patterns = 8
