-- ===== src/Node/Control/Patch.antt =====
-- eshield/src/control.rs: changes of the settings through the management interface.
pub mod Shown
pub mod Sync
pub mod Changes
pub mod Limited
pub mod Safe
use e_shield.Base.{ℕ, Bool, true, false, Option, none, some, [], ◌∷◌, ltb, leb, ◌==◌, max}
use e_shield.Base.Dicts.{same_list}
use e_shield.Base.Text.{Text, bytes, to_ascii_lowercase}
use e_shield.Base.Results.{Result, ok, err, ◌>>=◌, ◌>>◌, ensure}
use e_shield.Common.Config.{RuntimeConfig}
use e_shield.Common.Config as Common
use e_shield.Node.Config.Sections.{AdaptiveConfig}
use e_shield.Node.Config.Validate.Lists.{is_one_of}
use e_shield.Node.Control.Runtime.{
  Plane, RateLimitParams, RuntimeConfigSnapshot, u8_from, fragment_policy_to_u8,
}

pub record RuntimeConfigPatch : Type 0 where
  pub rate_limit_enabled : Option Bool
  pub syn_proxy_enabled : Option Bool
  pub l7_scan_enabled : Option Bool
  pub udp_flood_enabled : Option Bool
  pub icmp_flood_enabled : Option Bool
  pub geoip_enabled : Option Bool
  pub tcp_reset_on_drop : Option Bool
  pub trust_enabled : Option Bool
  pub conn_track_enabled : Option Bool
  pub conn_track_threshold : Option ℕ
  pub conn_track_window_ms : Option ℕ
  pub trust_add_divisor : Option ℕ
  pub trust_sub_divisor : Option ℕ
  pub geoip_default_action : Option ℕ
  pub rate_limit : Option RateLimitParams
  pub port_rate_limit : Option RateLimitParams
  pub adaptive : Option AdaptiveConfig
  pub fragment_policy : Option Text
  pub rate_limit_block_mode : Option Text

pub data PatchError : Type 0 where
  bad_rate_limit bad_port_rate_limit bad_adaptive bad_conn_track bad_divisor : PatchError
  bad_geoip_action bad_fragment_policy bad_block_mode : PatchError

-- `if let Some(x) = … { check }`.
abbrev pub if_given {ℓ} :
    {A : Type ℓ} → Option A → (A → Result (Unit {0}) PatchError) → Result (Unit {0}) PatchError
if_given none check = ok tt
if_given (some a) check = check a

abbrev if_on : Bool → Result (Unit {0}) PatchError → Result (Unit {0}) PatchError
if_on true check = check
if_on false check = ok tt

abbrev pub validate_rate_limit : RateLimitParams → Result (Unit {0}) PatchError
validate_rate_limit rl = if_on rl.enabled (do
  ensure (ltb 0 rl.threshold) bad_rate_limit
  ensure (ltb 0 rl.tick_ms) bad_rate_limit
  ensure (ltb 0 rl.decay_den) bad_rate_limit)

abbrev pub validate_port_rate_limit : RateLimitParams → Result (Unit {0}) PatchError
validate_port_rate_limit prl = if_on prl.enabled (do
  ensure (ltb 0 prl.threshold) bad_port_rate_limit
  ensure (ltb 0 prl.tick_ms) bad_port_rate_limit)

-- The check, in its order: the numbers, the default action, the words.
unfoldable pub validate_numbers : RuntimeConfigPatch → Result (Unit {0}) PatchError
validate_numbers patch = do
  if_given patch.rate_limit validate_rate_limit
  if_given patch.port_rate_limit validate_port_rate_limit
  if_given patch.adaptive λ ad. do
    ensure (ltb 0 ad.window_s) bad_adaptive
    if_on ad.enabled (ensure (ltb 0 ad.threshold) bad_adaptive)
  if_given patch.conn_track_threshold λ threshold. ensure (ltb 0 threshold) bad_conn_track
  if_given patch.conn_track_window_ms λ window_ms. ensure (ltb 0 window_ms) bad_conn_track
  if_given patch.trust_add_divisor λ d. ensure (ltb 0 d) bad_divisor
  if_given patch.trust_sub_divisor λ d. ensure (ltb 0 d) bad_divisor

abbrev pub validate_action : RuntimeConfigPatch → Result (Unit {0}) PatchError
validate_action patch =
    if_given patch.geoip_default_action λ action. ensure (leb action 1) bad_geoip_action

unfoldable pub validate_words : RuntimeConfigPatch → Result (Unit {0}) PatchError
validate_words patch = do
  if_given patch.fragment_policy λ policy.
      ensure
        (is_one_of (to_ascii_lowercase policy)
          (bytes "pass" ∷ bytes "rate_limit" ∷ bytes "drop" ∷ []))
        bad_fragment_policy
  if_given patch.rate_limit_block_mode λ mode.
      ensure (is_one_of (to_ascii_lowercase mode) (bytes "hard" ∷ bytes "soft" ∷ [])) bad_block_mode

unfoldable pub validate_runtime_patch : RuntimeConfigPatch → Result (Unit {0}) PatchError
unfolding validate_numbers validate_words
validate_runtime_patch patch = do
  validate_numbers patch
  validate_action patch
  validate_words patch

-- `unwrap_or`: the given value, or the one that stands.
abbrev pub given_or {ℓ} : {A : Type ℓ} → Option A → A → A
given_or none a = a
given_or (some a) b = a

abbrev pub lowered_or : Option Text → Text → Text
lowered_or none old = old
lowered_or (some new) old = to_ascii_lowercase new

-- `rate_limit_enabled` sets the switch in both places; `rate_limit` then replaces the whole section.
abbrev pub switched : Option Bool → RateLimitParams → RateLimitParams
switched none rl = rl
switched (some enabled) rl = record rl { enabled = enabled }

abbrev switch_of : Option RateLimitParams → Option Bool → Bool → Bool
switch_of none enabled old = given_or enabled old
switch_of (some rl) enabled old = rl.enabled

unfoldable pub patched_snapshot : RuntimeConfigPatch → RuntimeConfigSnapshot → RuntimeConfigSnapshot
patched_snapshot patch s = record s {
  rate_limit_enabled = switch_of patch.rate_limit patch.rate_limit_enabled s.rate_limit_enabled;
  syn_proxy_enabled = given_or patch.syn_proxy_enabled s.syn_proxy_enabled;
  l7_scan_enabled = given_or patch.l7_scan_enabled s.l7_scan_enabled;
  udp_flood_enabled = given_or patch.udp_flood_enabled s.udp_flood_enabled;
  icmp_flood_enabled = given_or patch.icmp_flood_enabled s.icmp_flood_enabled;
  geoip_enabled = given_or patch.geoip_enabled s.geoip_enabled;
  tcp_reset_on_drop = given_or patch.tcp_reset_on_drop s.tcp_reset_on_drop;
  trust_enabled = given_or patch.trust_enabled s.trust_enabled;
  conn_track_enabled = given_or patch.conn_track_enabled s.conn_track_enabled;
  conn_track_threshold = given_or patch.conn_track_threshold s.conn_track_threshold;
  conn_track_window_ms = given_or patch.conn_track_window_ms s.conn_track_window_ms;
  trust_add_divisor = given_or patch.trust_add_divisor s.trust_add_divisor;
  trust_sub_divisor = given_or patch.trust_sub_divisor s.trust_sub_divisor;
  geoip_default_action = given_or patch.geoip_default_action s.geoip_default_action;
  rate_limit = given_or patch.rate_limit (switched patch.rate_limit_enabled s.rate_limit);
  port_rate_limit = given_or patch.port_rate_limit s.port_rate_limit;
  adaptive = given_or patch.adaptive s.adaptive;
  fragment_policy = lowered_or patch.fragment_policy s.fragment_policy;
  rate_limit_block_mode = lowered_or patch.rate_limit_block_mode s.rate_limit_block_mode;
}

abbrev pub params_cfg : RateLimitParams → Common.RateLimitConfig
params_cfg rl = record {
  threshold = rl.threshold;
  tick_ms = rl.tick_ms;
  decay_num = rl.decay_num;
  decay_den = rl.decay_den;
  block_duration_s = rl.block_duration_s;
}

abbrev pub port_params_cfg : RateLimitParams → Common.RateLimitConfig
port_params_cfg prl = record {
  threshold = prl.threshold;
  tick_ms = prl.tick_ms;
  decay_num = 0;
  decay_den = 1;
  block_duration_s = 0;
}

abbrev pub written {ℓ} :
    {A : Type ℓ}
    → (A → Common.RateLimitConfig)
    → Option A
    → Common.RateLimitConfig
    → Common.RateLimitConfig
written make none old = old
written make (some a) old = make a

-- What the snapshot says of CONFIG; the danger level and the two counts are left as they are.
unfoldable pub write_config : RuntimeConfigSnapshot → RuntimeConfig → RuntimeConfig
unfolding fragment_policy_to_u8
write_config s cfg = record cfg {
  rate_limit_enabled = u8_from s.rate_limit_enabled;
  syn_proxy_enabled = u8_from s.syn_proxy_enabled;
  l7_scan_enabled = u8_from s.l7_scan_enabled;
  udp_flood_enabled = u8_from s.udp_flood_enabled;
  icmp_flood_enabled = u8_from s.icmp_flood_enabled;
  geoip_enabled = u8_from s.geoip_enabled;
  geoip_default_action = s.geoip_default_action;
  tcp_reset_on_drop = u8_from s.tcp_reset_on_drop;
  trust_enabled = u8_from s.trust_enabled;
  conn_track_enabled = u8_from s.conn_track_enabled;
  conn_track_threshold = max s.conn_track_threshold 1;
  conn_track_window_ms = max s.conn_track_window_ms 1;
  trust_add_divisor = max s.trust_add_divisor 1;
  trust_sub_divisor = max s.trust_sub_divisor 1;
  packet_log_enabled = u8_from s.packet_log_enabled;
  packet_log_sample_rate = s.packet_log_sample_rate;
  project_enabled = u8_from s.protection_projects_enabled;
  port_rate_limit_enabled = u8_from s.port_rate_limit.enabled;
  rate_limit_dport_grouping = u8_from s.rate_limit.dport_grouping;
  fragment_policy = fragment_policy_to_u8 s.fragment_policy;
  rate_limit_soft = u8_from (same_list s.rate_limit_block_mode (bytes "soft"));
}

unfoldable pub apply_patch : RuntimeConfigPatch → Plane → Plane
unfolding patched_snapshot write_config
apply_patch patch p =
    let snapshot = patched_snapshot patch p.runtime in
    record {
      runtime = snapshot;
      config = write_config snapshot p.config;
      rate_limit_cfg = written params_cfg patch.rate_limit p.rate_limit_cfg;
      port_rate_limit_cfg = written port_params_cfg patch.port_rate_limit p.port_rate_limit_cfg;
      adaptive_engine = given_or patch.adaptive p.adaptive_engine;
    }

unfoldable pub patch_runtime : RuntimeConfigPatch → Plane → Result Plane PatchError
unfolding validate_runtime_patch apply_patch
patch_runtime patch p = do validate_runtime_patch patch; ok (apply_patch patch p)
