-- ===== src/Tests/Settings.antt =====
-- A configuration of a node, with abstract floating-point numbers left out.
use e_shield.Base.{true, false, none, []}
use e_shield.Base.Text.{Text, bytes}
use e_shield.Node.Config.Sections.{Config}

-- The block mode is the text given.
abbrev pub configured : Text → Config (Unit {0})
configured block_mode = record {
  interface = bytes "eth0";
  whitelist = [];
  blacklist = [];
  udp_flood_enabled = true;
  icmp_flood_enabled = true;
  tcp_reset_on_drop = false;
  rate_limit = record {
    enabled = true;
    threshold = 200;
    tick_ms = 100;
    decay_num = 7;
    decay_den = 8;
    block_duration_s = 60;
    dport_grouping = false;
    block_mode = block_mode;
  };
  port_rate_limit = record { enabled = false; threshold = 1000; tick_ms = 1000 };
  syn_proxy_enabled = true;
  l7_scan = record { enabled = false; patterns = [] };
  adaptive = record { enabled = true; threshold = 3; window_s = 60; block_duration_s = 300 };
  port_acl = [];
  protection_projects = [];
  geoip = record {
    enabled = false;
    block_countries = [];
    allow_countries = [];
    default_action = bytes "allow";
  };
  threat_intel = record { enabled = false; feeds = [] };
  web_port = 8080;
  web_bind = none;
  store_path = bytes "/var/lib/eshield";
  trust_score = record { enabled = true; add_divisor = 100; sub_divisor = 3 };
  danger_signal = record { enabled = false; sample_interval_s = 5; anomaly_multiplier = tt };
  conn_track = record { enabled = true; threshold = 100; window_ms = 60_000 };
  hub = record {
    enabled = false;
    urls = [];
    node_name = bytes "node-1";
    token = [];
    sync_pull_interval_s = 30;
    sync_push_interval_s = 60;
    push_min_hit_count = 3;
    sync_rules_interval_s = 300;
  };
  packet_log = record { enabled = false; sample_rate = 100; memory_max_entries = 1000 };
  xdp = record { mode = bytes "auto"; fragment_policy = bytes "pass" };
}
