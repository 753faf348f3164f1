-- ===== src/Node/Config/Sections.antt =====
-- eshield/src/config.rs: the sections of the configuration file that the checks and the data plane
-- read. A floating-point number is an abstract type `F`.
use e_shield.Base.{ℕ, Bool, Option, List}
use e_shield.Base.Text.{Text}
use e_shield.Node.Config.PortAcl.{PortAclItem}

pub record XdpConfig : Type 0 where
  pub mode : Text
  pub fragment_policy : Text

pub record TrustScoreConfig : Type 0 where
  pub enabled : Bool
  pub add_divisor : ℕ
  pub sub_divisor : ℕ

pub record DangerSignalConfig (F : Type 0) : Type 0 where
  pub enabled : Bool
  pub sample_interval_s : ℕ
  pub anomaly_multiplier : F

pub record ConnTrackConfig : Type 0 where
  pub enabled : Bool
  pub threshold : ℕ
  pub window_ms : ℕ

pub record HubConfig : Type 0 where
  pub enabled : Bool
  pub urls : List Text
  pub node_name : Text
  pub token : Text
  pub sync_pull_interval_s : ℕ
  pub sync_push_interval_s : ℕ
  pub push_min_hit_count : ℕ
  pub sync_rules_interval_s : ℕ

pub record PacketLogConfig : Type 0 where
  pub enabled : Bool
  pub sample_rate : ℕ
  pub memory_max_entries : ℕ

pub record ProtectionProject : Type 0 where
  pub name : Text
  pub protocol : Text
  pub dport : Text
  pub target_ips : List Text
  pub enabled_modules : List Text
  pub action : Text

pub record GeoIpConfig : Type 0 where
  pub enabled : Bool
  pub block_countries : List Text
  pub allow_countries : List Text
  pub default_action : Text

pub record ThreatFeed : Type 0 where
  pub name : Text
  pub url : Text
  pub interval_s : ℕ
  pub confidence : ℕ
  pub action : Text

pub record ThreatIntelConfig : Type 0 where
  pub enabled : Bool
  pub feeds : List ThreatFeed

pub record AdaptiveConfig : Type 0 where
  pub enabled : Bool
  pub threshold : ℕ
  pub window_s : ℕ
  pub block_duration_s : ℕ

pub record L7PatternConfig : Type 0 where
  pub pattern : Text
  pub mask : Option Text

pub record L7ScanConfig : Type 0 where
  pub enabled : Bool
  pub patterns : List L7PatternConfig

pub record RateLimitConfig : Type 0 where
  pub enabled : Bool
  pub threshold : ℕ
  pub tick_ms : ℕ
  pub decay_num : ℕ
  pub decay_den : ℕ
  pub block_duration_s : ℕ
  pub dport_grouping : Bool
  pub block_mode : Text

pub record PortRateLimitConfig : Type 0 where
  pub enabled : Bool
  pub threshold : ℕ
  pub tick_ms : ℕ

pub record Config (F : Type 0) : Type 0 where
  pub interface : Text
  pub whitelist : List Text
  pub blacklist : List Text
  pub udp_flood_enabled : Bool
  pub icmp_flood_enabled : Bool
  pub tcp_reset_on_drop : Bool
  pub rate_limit : RateLimitConfig
  pub port_rate_limit : PortRateLimitConfig
  -- `syn_proxy.enabled`, the section's one field.
  pub syn_proxy_enabled : Bool
  pub l7_scan : L7ScanConfig
  pub adaptive : AdaptiveConfig
  pub port_acl : List PortAclItem
  pub protection_projects : List ProtectionProject
  pub geoip : GeoIpConfig
  pub threat_intel : ThreatIntelConfig
  pub web_port : ℕ
  pub web_bind : Option Text
  pub store_path : Text
  pub trust_score : TrustScoreConfig
  pub danger_signal : DangerSignalConfig F
  pub conn_track : ConnTrackConfig
  pub hub : HubConfig
  pub packet_log : PacketLogConfig
  pub xdp : XdpConfig
