-- ===== src/Common/Stats.antt =====
-- eshield-common/src/lib.rs: the per-CPU counters of the data plane.
use e_shield.Base.{ℕ}

pub record GlobalStats : Type 0 where
  pub total_packets : ℕ
  pub total_dropped : ℕ
  pub total_passed : ℕ
  pub syn_flood_blocked : ℕ
  pub rate_limited : ℕ
  pub l7_blocked : ℕ
  pub udp_flood_blocked : ℕ
  pub icmp_flood_blocked : ℕ
  pub geoip_blocked : ℕ
  pub blacklist_blocked : ℕ
  pub tcp_rst_sent : ℕ
  pub tcp_rst_fail : ℕ
  pub tcp_rst_attempt : ℕ
  pub tcp_dropped : ℕ
  pub udp_dropped : ℕ
  pub icmp_dropped : ℕ
  pub other_dropped : ℕ
  pub blacklist_gen : ℕ
  pub blacklist_hit_gen : ℕ
  pub fragment_blocked : ℕ
  pub port_rate_blocked : ℕ
  pub conn_track_blocked : ℕ
  pub trust_pass_sample : ℕ
  pub trust_drop_sample : ℕ
  pub blacklist_hit_sample : ℕ
  pub top_attacker_sample : ℕ
