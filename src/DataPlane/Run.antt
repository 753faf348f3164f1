-- ===== src/DataPlane/Run.antt =====
-- eshield-ebpf/src/main.rs: `try_eshield`, from the frame to the action.
pub mod Precedence
use e_shield.Base.{
  ℕ, Bool, true, false, Option, none, some, List, [], ◌∷◌, ◌==◌, ◌!=◌, if◌then◌else◌, min, max,
}
use e_shield.Common.Config.{RuntimeConfig, max_port_acl, max_l7_patterns}
use e_shield.Common.Stats.{GlobalStats}
use e_shield.Common.Rules
use e_shield.DataPlane.Kernel.{Kernel}
use e_shield.DataPlane.State.{State, with_stats, inc}
use e_shield.DataPlane.Action.{Action}
use e_shield.DataPlane.Parser.Fields.{
  eth_hdr_len, eth_p_ip, eth_p_ipv6, ipproto_tcp, ptr_at, eth_proto,
}
use e_shield.DataPlane.Parser.Headers.{Parsed, parse_ipv4, parse_ipv6}
use e_shield.DataPlane.Drop.{Helpers, PacketCtx, now_of, count_passed, trust_pass_sampled}
use e_shield.DataPlane.Checks.Tables.{
  is_whitelisted, check_port_acl_drop, check_blacklist_drop, check_project_policy, check_geoip_drop,
  check_conn_track_drop, check_l7_drop,
}
use e_shield.DataPlane.Checks.Floods.{
  check_fragment_drop, check_tcp_drop, check_udp_drop, check_icmp_drop, check_rate_limit_drop,
}
use e_shield.DataPlane.Sample.{log_packet_sample}

abbrev pub count_packet : GlobalStats → GlobalStats
count_packet g = record g { total_packets = inc g.total_packets }

-- The header parser that the Ethernet type selects.
abbrev pub parse_at : List ℕ → Option (List ℕ) → Option Parsed
parse_at frame none = none
parse_at frame (some eth) =
    if eth_proto eth == eth_p_ip
    then parse_ipv4 frame
    else if eth_proto eth == eth_p_ipv6
    then parse_ipv6 frame
    else none

unfoldable pub parse_frame : List ℕ → Option Parsed
parse_frame frame = parse_at frame (ptr_at eth_hdr_len frame 0)

abbrev pub context : Helpers → RuntimeConfig → Parsed → PacketCtx
context helpers runtime p = record {
  src = p.src;
  protocol = p.protocol;
  sport = p.sport;
  dport = p.dport;
  hdr_len = p.hdr_len;
  tcp_reset_on_drop = runtime.tcp_reset_on_drop;
  trust_add_divisor = max runtime.trust_add_divisor 1;
  trust_sub_divisor = max runtime.trust_sub_divisor 1;
  helpers = helpers;
  rule_id = Rules.unknown;
  rate_counted = false;
  fragment = p.fragment;
  project_flags = Rules.Modules.all;
}

abbrev pub Check : Kernel → Type 0
Check κ = PacketCtx → State κ → Action × PacketCtx × State κ

-- The last lines of the program: the packet passes.
abbrev pub pass_packet : {κ : Kernel} → PacketCtx → State κ → Action × State κ
pass_packet pc s = (
  Action.xdp_pass,
  trust_pass_sampled pc.src (now_of pc) pc.trust_add_divisor (with_stats count_passed s),
)

-- One `if action != NO_ACTION { log_packet_sample(…); return action; }`.
abbrev pub settle :
    {κ : Kernel}
    → (PacketCtx → State κ → Action × State κ)
    → Action × PacketCtx × State κ
    → Action × State κ
settle rest (Action.no_action, pc, s) = rest pc s
settle rest (action, pc, s) = (action, log_packet_sample pc action s)

-- The modules in order: the first that acts decides, and a packet on which none acts passes.
unfoldable pub run_checks : {κ : Kernel} → List (Check κ) → PacketCtx → State κ → Action × State κ
run_checks [] pc s = pass_packet pc s
run_checks (check ∷ rest) pc s = settle (run_checks rest) (check pc s)

abbrev pub only_if : {κ : Kernel} → (PacketCtx → Bool) → Check κ → Check κ
only_if test check pc s = if test pc then check pc s else (Action.no_action, pc, s)

abbrev pub checks : {κ : Kernel} → RuntimeConfig → List (Check κ)
checks runtime =
    check_port_acl_drop (min runtime.port_acl_count max_port_acl)
    ∷ check_blacklist_drop
    ∷ check_fragment_drop runtime.fragment_policy runtime.port_rate_limit_enabled
    ∷ check_project_policy
    ∷ check_geoip_drop runtime.geoip_enabled runtime.geoip_default_action
    ∷ check_conn_track_drop runtime.conn_track_enabled runtime.conn_track_threshold
        runtime.conn_track_window_ms
    ∷ only_if (λ pc. pc.protocol == ipproto_tcp)
        (check_tcp_drop runtime.syn_proxy_enabled runtime.port_rate_limit_enabled)
    ∷ check_udp_drop runtime.udp_flood_enabled runtime.port_rate_limit_enabled
    ∷ check_icmp_drop runtime.icmp_flood_enabled runtime.port_rate_limit_enabled
    ∷ only_if (λ _. runtime.l7_scan_enabled != 0)
        (check_l7_drop (min runtime.l7_pattern_count max_l7_patterns))
    ∷ check_rate_limit_drop
    ∷ []

module _ {κ : Kernel} where
  abbrev pub configured : Helpers → Parsed → Option RuntimeConfig → State κ → Action × State κ
  configured helpers p none s = (Action.xdp_pass, s)
  configured helpers p (some runtime) s =
      let pc : PacketCtx = context helpers runtime p in
      if is_whitelisted p.src s then pass_packet pc s else run_checks (checks runtime) pc s

  abbrev pub parsed : Helpers → Option Parsed → State κ → Action × State κ
  parsed helpers none s = (Action.xdp_pass, s)
  parsed helpers (some p) s = configured helpers p s.config (with_stats count_packet s)

  unfoldable pub try_eshield : Helpers → State κ → Action × State κ
  try_eshield helpers s = parsed helpers (parse_frame s.frame) s
