-- ===== src/Node/Config/Validate.antt =====
-- eshield/src/config.rs: the check that a configuration passes before it is used. What it asks of the
-- system and of the standard library is the record `Host`.
pub mod Lists
pub mod Accepted
use e_shield.Base.{
  ℕ, Bool, true, false, ◌&&◌, ◌||◌, not, Option, none, some, List, [], ◌∷◌, ltb, leb, ◌==◌, ◌!=◌,
  if◌then◌else◌, length,
}
use e_shield.Base.Dicts.{same_list}
use e_shield.Base.Text.{Text, bytes, to_ascii_lowercase}
use e_shield.Base.Results.{Result, ok, err, ◌>>=◌, ◌>>◌, ensure, or_err}
use e_shield.Node.Ip.{IpAddr, parse_cidr, parse_ip_or_cidr}
use e_shield.Node.Config.Sections.{
  Config, HubConfig, GeoIpConfig, ThreatFeed, ThreatIntelConfig, RateLimitConfig,
}
use e_shield.Node.Config.PortAcl.{validate_port_acl_items}
use Lists.{
  ConfigError, bad_interface, bad_mode, bad_cidr, bad_store, bad_port_acl, bad_number, bad_web,
  bad_country, bad_feed, bad_hub, is_empty, is_list_empty, is_one_of, all_pass,
  validate_l7_patterns, validate_projects,
}

pub record Host (F : Type 0) : Type 0 where
  -- `str::to_lowercase`, `IpAddr::from_str`, and the test of `SocketAddr::from_str`.
  pub to_lowercase : Text → Text
  pub parse_addr : Text → Option IpAddr
  pub is_socket_addr : Text → Bool
  -- Whether `str::trim` leaves nothing.
  pub is_blank : Text → Bool
  -- `is_finite() && > 0.0`.
  pub is_positive : F → Bool
  pub interface_exists : Text → Bool
  -- Whether the parent directory of the store exists or can be created.
  pub store_dir_ready : Text → Bool

abbrev pub passes {ℓ κ} : {A : Type ℓ} {E : Type κ} → Result A E → Bool
passes (ok a) = true
passes (err e) = false

-- A section that is switched off is not looked at.
abbrev pub when : Bool → Result (Unit {0}) ConfigError → Result (Unit {0}) ConfigError
when true check = check
when false check = ok tt

unfoldable validate_geoip : GeoIpConfig → Result (Unit {0}) ConfigError
validate_geoip geoip = when geoip.enabled (do
  ensure (is_one_of geoip.default_action (bytes "pass" ∷ bytes "drop" ∷ [])) bad_mode
  ensure (all_pass (λ code. length code == 2) geoip.block_countries) bad_country
  ensure (all_pass (λ code. length code == 2) geoip.allow_countries) bad_country)

unfoldable validate_feeds : List ThreatFeed → Result (Unit {0}) ConfigError
validate_feeds [] = ok tt
validate_feeds (feed ∷ feeds) = do
  ensure (not (is_empty feed.name)) bad_feed
  ensure (not (is_empty feed.url)) bad_feed
  ensure (feed.interval_s != 0) bad_feed
  ensure (leb feed.confidence 100) bad_feed
  ensure (is_one_of feed.action (bytes "drop" ∷ bytes "allow" ∷ [])) bad_feed
  validate_feeds feeds

unfoldable validate_threat_intel : ThreatIntelConfig → Result (Unit {0}) ConfigError
unfolding validate_feeds
validate_threat_intel threat_intel = when threat_intel.enabled (validate_feeds threat_intel.feeds)

-- `starts_with`.
abbrev starts_with : Text → Text → Bool
starts_with s [] = true
starts_with [] (c ∷ prefix) = false
starts_with (d ∷ s) (c ∷ prefix) = c == d && starts_with s prefix

unfoldable validate_hub : HubConfig → Result (Unit {0}) ConfigError
validate_hub hub = when hub.enabled (do
  ensure (not (is_empty hub.node_name)) bad_hub
  ensure (not (is_list_empty hub.urls)) bad_hub
  ensure (not (is_empty hub.token)) bad_hub
  ensure
      (all_pass
        (λ url.
          not (is_empty url)
          && (starts_with url (bytes "http://") || starts_with url (bytes "https://")))
        hub.urls)
      bad_hub
  ensure (hub.sync_pull_interval_s != 0) bad_hub
  ensure (hub.sync_push_interval_s != 0) bad_hub
  ensure (hub.push_min_hit_count != 0) bad_hub
  ensure (hub.sync_rules_interval_s != 0) bad_hub)

module _ {F : Type 0} (host : Host F) where
  abbrev web_bind_passes : Option Text → Bool
  web_bind_passes none = true
  web_bind_passes (some bind) = not (host.is_blank bind) && host.is_socket_addr bind

  -- The texts of the file: names, modes, addresses and the store's directory.
  unfoldable pub validate_texts : Config F → Result (Unit {0}) ConfigError
  validate_texts c = do
    ensure (not (is_empty c.interface)) bad_interface
    ensure (host.interface_exists c.interface) bad_interface
    ensure
        (is_one_of (to_ascii_lowercase c.xdp.mode)
          (bytes "auto" ∷ bytes "native" ∷ bytes "drv" ∷ bytes "generic" ∷ bytes "skb" ∷ []))
        bad_mode
    ensure
        (is_one_of (to_ascii_lowercase c.xdp.fragment_policy)
          (bytes "pass" ∷ bytes "rate_limit" ∷ bytes "drop" ∷ []))
        bad_mode
    ensure
        (is_one_of (to_ascii_lowercase c.rate_limit.block_mode) (bytes "hard" ∷ bytes "soft" ∷ []))
        bad_mode
    ensure (all_pass (λ cidr. passes (parse_cidr host.parse_addr cidr)) c.whitelist) bad_cidr
    ensure (all_pass (λ ip. passes (parse_ip_or_cidr host.parse_addr ip)) c.blacklist) bad_cidr
    ensure (host.store_dir_ready c.store_path) bad_store
    ensure (passes (validate_port_acl_items host.to_lowercase c.port_acl)) bad_port_acl

  -- The numbers of the sections that are switched on.
  unfoldable pub validate_numbers : Config F → Result (Unit {0}) ConfigError
  validate_numbers c = do
    when c.rate_limit.enabled (do
      ensure (c.rate_limit.threshold != 0) bad_number
      ensure (c.rate_limit.tick_ms != 0) bad_number
      ensure (c.rate_limit.decay_den != 0) bad_number)
    when c.port_rate_limit.enabled (do
      ensure (c.port_rate_limit.threshold != 0) bad_number
      ensure (c.port_rate_limit.tick_ms != 0) bad_number)
    when c.adaptive.enabled (do
      ensure (c.adaptive.threshold != 0) bad_number
      ensure (c.adaptive.window_s != 0) bad_number)
    validate_l7_patterns c.l7_scan.patterns
    when c.conn_track.enabled (do
      ensure (c.conn_track.threshold != 0) bad_number
      ensure (c.conn_track.window_ms != 0) bad_number)
    when c.trust_score.enabled (do
      ensure (c.trust_score.add_divisor != 0) bad_number
      ensure (c.trust_score.sub_divisor != 0) bad_number)
    when c.danger_signal.enabled (do
      ensure (c.danger_signal.sample_interval_s != 0) bad_number
      ensure (host.is_positive c.danger_signal.anomaly_multiplier) bad_number)
    when c.packet_log.enabled (do
      ensure (c.packet_log.sample_rate != 0) bad_number
      ensure (c.packet_log.memory_max_entries != 0) bad_number)
    ensure (c.web_port != 0) bad_web
    ensure (web_bind_passes c.web_bind) bad_web

  unfoldable pub validate : Config F → Result (Unit {0}) ConfigError
  unfolding validate_texts validate_numbers validate_geoip validate_threat_intel validate_hub
  validate c = do
    validate_texts c
    validate_numbers c
    validate_geoip c.geoip
    validate_threat_intel c.threat_intel
    validate_projects host.to_lowercase host.parse_addr c.protection_projects
    validate_hub c.hub
