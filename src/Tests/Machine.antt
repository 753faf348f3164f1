-- ===== src/Tests/Machine.antt =====
-- A kernel whose maps hold every key and whose ring buffers have room, and a data plane on it.
use e_shield.Base.{
  ℕ, ◌≡◌, refl, inl, true, false, Option, none, some, List, [], ◌∷◌, ◌++◌, replicate, ℕ_discrete,
  take,
}
use e_shield.Common.Ip.{IpKey}
use e_shield.Common.Entries.{BlockEntry, CookieSecret, RateLimitPortKey, PortRateKey}
use e_shield.Common.Config.{RuntimeConfig, default_rate_limit}
use e_shield.Common.Stats.{GlobalStats}
use e_shield.DataPlane.Kernel.{LruMap, Ring, Kernel}
use e_shield.DataPlane.State.{State}

pub IpKey-discrete : Discrete IpKey
IpKey-discrete = hlevel (ℕ_discrete)

pub RateLimitPortKey-discrete : Discrete RateLimitPortKey
RateLimitPortKey-discrete = hlevel (ℕ_discrete)

pub PortRateKey-discrete : Discrete PortRateKey
PortRateKey-discrete = hlevel (ℕ_discrete)

abbrev pub choose : {P A : Type 0} → Dec P → A → A → A
choose (yes _) a b = a
choose (no _) a b = b

pub choose_yes : {P A : Type 0} (d : Dec P) (a b : A) → P → choose d a b ≡ a
choose_yes (yes _) a b h = refl
choose_yes (no ne) a b h = absurd (ne h)

pub choose_no : {P A : Type 0} (d : Dec P) (a b : A) → ¬ P → choose d a b ≡ b
choose_no (yes h) a b ne = absurd (ne h)
choose_no (no _) a b ne = refl

abbrev pub put : {K V : Type 0} → Discrete K → (K → Option V) → K → Option V → K → Option V
put same m k v j = choose (same j k) v (m j)

abbrev pub table_of : {K V : Type 0} → Discrete K → LruMap K V
table_of {K = K} {V = V} same = record {
  Map = K → Option V;
  get = λ m k. m k;
  insert = λ m k v. put same m k (some v);
  remove = λ m k. put same m k none;
  get-insert_self = λ m k v. choose_yes (same k k) (some v) (m k) refl;
  get-insert_ne = λ m k j v ne. inl (choose_no (same j k) (some v) (m j) ne);
  get-remove_self = λ m k. choose_yes (same k k) none (m k) refl;
  get-remove_ne = λ m k j ne. choose_no (same j k) none (m j) ne;
}

abbrev pub log_of : {E : Type 0} → Ring E
log_of {E = E} = record { Buf = List E; reserve = λ _. true; submit = λ es e. e ∷ es }

abbrev pub machine : Kernel
machine = record {
  blacklist = table_of IpKey-discrete;
  trust_map = table_of IpKey-discrete;
  rate_map = table_of IpKey-discrete;
  rate_map_port = table_of RateLimitPortKey-discrete;
  port_rate_map = table_of PortRateKey-discrete;
  conn_track = table_of IpKey-discrete;
  syn_proxy_conn = table_of IpKey-discrete;
  top_attackers = table_of IpKey-discrete;
  events = log_of;
  packet_samples = log_of;
  adjust_tail = λ frame size. some (take size frame);
  csum_diff = λ bytes seed. some seed;
}

abbrev pub attacker : IpKey
attacker = record { family = 4; addr = replicate 12 0 ++ 10 ∷ 0 ∷ 0 ∷ 1 ∷ [] }

abbrev pub settings : ℕ → RuntimeConfig
settings soft = record {
  trust_add_divisor = 100;
  trust_sub_divisor = 3;
  conn_track_threshold = 100;
  conn_track_window_ms = 60_000;
  packet_log_sample_rate = 0;
  rate_limit_enabled = 1;
  syn_proxy_enabled = 1;
  l7_scan_enabled = 1;
  udp_flood_enabled = 1;
  icmp_flood_enabled = 1;
  geoip_enabled = 0;
  geoip_default_action = 0;
  tcp_reset_on_drop = 0;
  trust_enabled = 1;
  danger_level = 0;
  packet_log_enabled = 0;
  project_enabled = 0;
  port_acl_count = 0;
  l7_pattern_count = 0;
  port_rate_limit_enabled = 1;
  conn_track_enabled = 1;
  rate_limit_dport_grouping = 0;
  fragment_policy = 1;
  rate_limit_soft = soft;
}

abbrev pub no_stats : GlobalStats
no_stats = record {
  total_packets = 0;
  total_dropped = 0;
  total_passed = 0;
  syn_flood_blocked = 0;
  rate_limited = 0;
  l7_blocked = 0;
  udp_flood_blocked = 0;
  icmp_flood_blocked = 0;
  geoip_blocked = 0;
  blacklist_blocked = 0;
  tcp_rst_sent = 0;
  tcp_rst_fail = 0;
  tcp_rst_attempt = 0;
  tcp_dropped = 0;
  udp_dropped = 0;
  icmp_dropped = 0;
  other_dropped = 0;
  blacklist_gen = 0;
  blacklist_hit_gen = 0;
  fragment_blocked = 0;
  port_rate_blocked = 0;
  conn_track_blocked = 0;
  trust_pass_sample = 0;
  trust_drop_sample = 0;
  blacklist_hit_sample = 0;
  top_attacker_sample = 0;
}

abbrev pub secrets : ℕ → CookieSecret
secrets index = record { current = replicate 16 7; previous = replicate 16 9; bucket_index = index }

-- A UDP packet from 10.0.0.1, port 53, to 10.0.0.2, port 80.
abbrev pub udp_frame : List ℕ
udp_frame =
    replicate 12 0
    ++ 8 ∷ 0 ∷ 69 ∷ 0 ∷ 0 ∷ 28 ∷ 0 ∷ 0 ∷ 0 ∷ 0 ∷ 64 ∷ 17 ∷ 0 ∷ 0 ∷ 10 ∷ 0 ∷ 0 ∷ 1 ∷ 10 ∷ 0 ∷ 0 ∷ 2
      ∷ 0 ∷ 53 ∷ 0 ∷ 80 ∷ 0 ∷ 8 ∷ 0 ∷ 0 ∷ []

-- Every map empty, and the packet above under the program.
abbrev pub idle : State machine
idle = record {
  stats = some no_stats;
  config = some (settings 0);
  rate_limit_cfg = some default_rate_limit;
  port_rate_limit_cfg = some default_rate_limit;
  cookie_secrets = some (secrets 0);
  l7_patterns = λ _. none;
  port_acl = λ _. none;
  project_policy = λ _. none;
  whitelist_v4 = λ _. false;
  whitelist_v6 = λ _. false;
  geoip_blocked_v4 = λ _. false;
  geoip_blocked_v6 = λ _. false;
  geoip_allowed_v4 = λ _. false;
  geoip_allowed_v6 = λ _. false;
  blacklist = λ _. none;
  trust_map = λ _. none;
  rate_map = λ _. none;
  rate_map_port = λ _. none;
  port_rate_map = λ _. none;
  conn_track = λ _. none;
  syn_proxy_conn = λ _. none;
  top_attackers = λ _. none;
  events = [];
  packet_samples = [];
  frame = udp_frame;
}

abbrev pub blocked_for_good : BlockEntry
blocked_for_good = record {
  blocked_until_ns = 0;
  first_seen_ns = 5;
  hit_count = 1;
  block_reason = 3;
  last_reason = 0;
}

abbrev pub blocked_till_9 : BlockEntry
blocked_till_9 = record blocked_for_good { blocked_until_ns = 9 }

abbrev pub one_blocked : BlockEntry → State machine
one_blocked e = record idle { blacklist = λ _. some e }
