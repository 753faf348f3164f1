-- ===== src/DataPlane/State.antt =====
-- eshield-ebpf/src/maps.rs: the maps, and the frame that the program works on. An array map is
-- read as a partial function of the index; a map that the data plane only reads (the LPM tries and
-- the project policies) is the function that a lookup computes.
use e_shield.Base.{ℕ, ◌+◌, ◌%◌, Bool, Option, none, some, List, u64_mod}
use e_shield.Common.Entries.{PortAclEntry, L7Pattern, ProjectPolicyKey, ProjectPolicy, CookieSecret}
use e_shield.Common.Config.{RuntimeConfig, RateLimitConfig}
use e_shield.Common.Stats.{GlobalStats}
use e_shield.DataPlane.Kernel.{Kernel}

pub record State (κ : Kernel) : Type 0 where
  pub stats : Option GlobalStats
  pub config : Option RuntimeConfig
  pub rate_limit_cfg : Option RateLimitConfig
  pub port_rate_limit_cfg : Option RateLimitConfig
  pub cookie_secrets : Option CookieSecret
  pub l7_patterns : ℕ → Option L7Pattern
  pub port_acl : ℕ → Option PortAclEntry
  pub project_policy : ProjectPolicyKey → Option ProjectPolicy
  pub whitelist_v4 : ℕ → Bool
  pub whitelist_v6 : List ℕ → Bool
  pub geoip_blocked_v4 : ℕ → Bool
  pub geoip_blocked_v6 : List ℕ → Bool
  pub geoip_allowed_v4 : ℕ → Bool
  pub geoip_allowed_v6 : List ℕ → Bool
  pub blacklist : κ.blacklist.Map
  pub trust_map : κ.trust_map.Map
  pub rate_map : κ.rate_map.Map
  pub rate_map_port : κ.rate_map_port.Map
  pub port_rate_map : κ.port_rate_map.Map
  pub conn_track : κ.conn_track.Map
  pub syn_proxy_conn : κ.syn_proxy_conn.Map
  pub top_attackers : κ.top_attackers.Map
  pub events : κ.events.Buf
  pub packet_samples : κ.packet_samples.Buf
  pub frame : List ℕ

-- `Option::map`, for the statistics of this CPU.
abbrev pub on_stats : (GlobalStats → GlobalStats) → Option GlobalStats → Option GlobalStats
on_stats f none = none
on_stats f (some g) = some (f g)

abbrev pub with_stats : {κ : Kernel} → (GlobalStats → GlobalStats) → State κ → State κ
with_stats f s = record s { stats = on_stats f s.stats }

-- `+= 1` and `wrapping_add(1)` on a u64 counter.
abbrev pub inc : ℕ → ℕ
inc n = (n + 1) % u64_mod
