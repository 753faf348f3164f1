-- ===== src/Node/Control/Patch/Shown.antt =====
-- eshield/src/control.rs: what CONFIG and the two limit configurations show of a snapshot.
use e_shield.Base.{ℕ, ◌≢◌, ◌⊎◌, max, true, false, ◌≡◌, refl, Bool, Option, none, some, arith}
use e_shield.Base.Dicts.{same_list, same_list_iff}
use e_shield.Base.Text.{Text, bytes, to_ascii_lowercase}
use e_shield.Common.Config.{RuntimeConfig}
use e_shield.Common.Config as Common
use e_shield.Node.Control.Runtime.{
  RateLimitParams, RuntimeConfigSnapshot, fragment_policy_to_u8, u8_from,
}
use e_shield.Node.Control.Patch.{
  switched, written, given_or, params_cfg, port_params_cfg, write_config,
}

-- A switch of CONFIG.
abbrev pub IsSwitch : Bool → ℕ → Type 0
IsSwitch true n = n ≡ 1
IsSwitch false n = n ≡ 0

-- A policy for fragments by its code: 1 limits, 2 drops, and 0 stands for every other word.
abbrev IsPolicy : Text → ℕ → Type 0
IsPolicy policy n =
    ((to_ascii_lowercase policy ≡ bytes "rate_limit") × (n ≡ 1))
    ⊎ (((to_ascii_lowercase policy ≡ bytes "drop") × (n ≡ 2))
        ⊎ ((to_ascii_lowercase policy ≢ bytes "rate_limit")
            × (to_ascii_lowercase policy ≢ bytes "drop")
            × (n ≡ 0)))

-- CONFIG says field by field what the snapshot does; a divisor or a limit of 0 counts as 1.
pub record Shows (s : RuntimeConfigSnapshot) (c : RuntimeConfig) : Type 0 where
  pub rate_limit_enabled : IsSwitch s.rate_limit_enabled c.rate_limit_enabled
  pub syn_proxy_enabled : IsSwitch s.syn_proxy_enabled c.syn_proxy_enabled
  pub l7_scan_enabled : IsSwitch s.l7_scan_enabled c.l7_scan_enabled
  pub udp_flood_enabled : IsSwitch s.udp_flood_enabled c.udp_flood_enabled
  pub icmp_flood_enabled : IsSwitch s.icmp_flood_enabled c.icmp_flood_enabled
  pub geoip_enabled : IsSwitch s.geoip_enabled c.geoip_enabled
  pub tcp_reset_on_drop : IsSwitch s.tcp_reset_on_drop c.tcp_reset_on_drop
  pub trust_enabled : IsSwitch s.trust_enabled c.trust_enabled
  pub conn_track_enabled : IsSwitch s.conn_track_enabled c.conn_track_enabled
  pub packet_log_enabled : IsSwitch s.packet_log_enabled c.packet_log_enabled
  pub project_enabled : IsSwitch s.protection_projects_enabled c.project_enabled
  pub port_rate_limit_enabled : IsSwitch s.port_rate_limit.enabled c.port_rate_limit_enabled
  pub rate_limit_dport_grouping : IsSwitch s.rate_limit.dport_grouping c.rate_limit_dport_grouping
  pub rate_limit_soft :
      IsSwitch (same_list s.rate_limit_block_mode (bytes "soft")) c.rate_limit_soft
  pub geoip_default_action : c.geoip_default_action ≡ s.geoip_default_action
  pub packet_log_sample_rate : c.packet_log_sample_rate ≡ s.packet_log_sample_rate
  pub conn_track_threshold : c.conn_track_threshold ≡ max s.conn_track_threshold 1
  pub conn_track_window_ms : c.conn_track_window_ms ≡ max s.conn_track_window_ms 1
  pub trust_add_divisor : c.trust_add_divisor ≡ max s.trust_add_divisor 1
  pub trust_sub_divisor : c.trust_sub_divisor ≡ max s.trust_sub_divisor 1
  pub fragment_policy : IsPolicy s.fragment_policy c.fragment_policy

-- A limiter of the data plane has the numbers of a section.
pub record Limits (rl : RateLimitParams) (c : Common.RateLimitConfig) : Type 0 where
  pub threshold : c.threshold ≡ rl.threshold
  pub tick_ms : c.tick_ms ≡ rl.tick_ms
  pub decay_num : c.decay_num ≡ rl.decay_num
  pub decay_den : c.decay_den ≡ rl.decay_den
  pub block_duration_s : c.block_duration_s ≡ rl.block_duration_s

-- The limiter per port has a threshold and a window, and neither decays nor blocks.
abbrev pub LimitsPort : RateLimitParams → Common.RateLimitConfig → Type 0
LimitsPort rl c =
    (c.threshold ≡ rl.threshold)
    × (c.tick_ms ≡ rl.tick_ms)
    × (c.decay_num ≡ 0)
    × (c.decay_den ≡ 1)
    × (c.block_duration_s ≡ 0)

pub u8_from-IsSwitch : (b : Bool) → IsSwitch b (u8_from b)
u8_from-IsSwitch true = refl
u8_from-IsSwitch false = refl

pub fragment_policy_to_u8-IsPolicy :
    (policy : Text) → IsPolicy policy (fragment_policy_to_u8 policy)
unfolding fragment_policy_to_u8
fragment_policy_to_u8-IsPolicy policy =
    let lower = to_ascii_lowercase policy in
    ground (arith, same_list_iff lower (bytes "rate_limit"), same_list_iff lower (bytes "drop"))

pub write_config-Shows :
    (s : RuntimeConfigSnapshot) (c : RuntimeConfig) → Shows s (write_config s c)
unfolding write_config
write_config-Shows s c = record {
  rate_limit_enabled = u8_from-IsSwitch s.rate_limit_enabled;
  syn_proxy_enabled = u8_from-IsSwitch s.syn_proxy_enabled;
  l7_scan_enabled = u8_from-IsSwitch s.l7_scan_enabled;
  udp_flood_enabled = u8_from-IsSwitch s.udp_flood_enabled;
  icmp_flood_enabled = u8_from-IsSwitch s.icmp_flood_enabled;
  geoip_enabled = u8_from-IsSwitch s.geoip_enabled;
  tcp_reset_on_drop = u8_from-IsSwitch s.tcp_reset_on_drop;
  trust_enabled = u8_from-IsSwitch s.trust_enabled;
  conn_track_enabled = u8_from-IsSwitch s.conn_track_enabled;
  packet_log_enabled = u8_from-IsSwitch s.packet_log_enabled;
  project_enabled = u8_from-IsSwitch s.protection_projects_enabled;
  port_rate_limit_enabled = u8_from-IsSwitch s.port_rate_limit.enabled;
  rate_limit_dport_grouping = u8_from-IsSwitch s.rate_limit.dport_grouping;
  rate_limit_soft = u8_from-IsSwitch (same_list s.rate_limit_block_mode (bytes "soft"));
  geoip_default_action = refl;
  packet_log_sample_rate = refl;
  conn_track_threshold = refl;
  conn_track_window_ms = refl;
  trust_add_divisor = refl;
  trust_sub_divisor = refl;
  fragment_policy = fragment_policy_to_u8-IsPolicy s.fragment_policy;
}

pub switched-Limits :
    (enabled : Option Bool) (rl : RateLimitParams) (c : Common.RateLimitConfig)
    → Limits rl c
    → Limits (switched enabled rl) c
switched-Limits none rl c l = l
switched-Limits (some b) rl c l = record {
  threshold = l.threshold;
  tick_ms = l.tick_ms;
  decay_num = l.decay_num;
  decay_den = l.decay_den;
  block_duration_s = l.block_duration_s;
}

pub written-Limits :
    (given : Option RateLimitParams) (shown : RateLimitParams) (old : Common.RateLimitConfig)
    → Limits shown old
    → Limits (given_or given shown) (written params_cfg given old)
written-Limits none shown old l = l
written-Limits (some rl) shown old l = record {
  threshold = refl;
  tick_ms = refl;
  decay_num = refl;
  decay_den = refl;
  block_duration_s = refl;
}

pub written-LimitsPort :
    (given : Option RateLimitParams) (shown : RateLimitParams) (old : Common.RateLimitConfig)
    → LimitsPort shown old
    → LimitsPort (given_or given shown) (written port_params_cfg given old)
written-LimitsPort none shown old l = l
written-LimitsPort (some rl) shown old l = (refl, refl, refl, refl, refl)
