-- ===== src/DataPlane/Checks/Floods.antt =====
-- eshield-ebpf/src/main.rs: the modules that count packets: fragments, TCP with the SYN proxy, UDP,
-- ICMP, and the global rate limit.
use e_shield.Base.{
  ℕ, ◌+◌, Bool, true, Option, none, some, List, not, ◌&&◌, ◌||◌, ◌==◌, ◌!=◌, if◌then◌else◌, swap16,
  bit_and,
}
use e_shield.Common.Entries.{PortRateKey}
use e_shield.Common.Stats.{GlobalStats}
use e_shield.Common.Rules
use e_shield.DataPlane.Kernel.{Kernel}
use e_shield.DataPlane.State.{State, with_stats, inc}
use e_shield.DataPlane.Action.{Action, is_tx}
use e_shield.DataPlane.Parser.Fields.{
  eth_hdr_len, ip_hdr_len, tcp_hdr_len, ipproto_tcp, ipproto_udp, ipproto_icmp, ipproto_icmpv6,
  ptr_at, is_syn, tcp_flags,
}
use e_shield.DataPlane.Flood.{handle_syn_flood, handle_udp_flood, handle_icmp_flood}
use e_shield.DataPlane.PortRate.{check_port_rate}
use e_shield.DataPlane.RateLimit.{check_rate_limit}
use e_shield.DataPlane.SynCookie.{handle_syn, handle_ack}
use e_shield.DataPlane.Drop.{
  PacketCtx, now_of, count_passed, count_dropped, inc_protocol_dropped, trust_pass_sampled,
  drop_for,
}

abbrev count_fragment : GlobalStats → GlobalStats
count_fragment g = record g { fragment_blocked = inc g.fragment_blocked }

abbrev count_port_rate : GlobalStats → GlobalStats
count_port_rate g = record g { port_rate_blocked = inc g.port_rate_blocked }

abbrev count_syn_flood : GlobalStats → GlobalStats
count_syn_flood g = record g { syn_flood_blocked = inc g.syn_flood_blocked }

abbrev count_udp_flood : GlobalStats → GlobalStats
count_udp_flood g = record g { udp_flood_blocked = inc g.udp_flood_blocked }

abbrev count_icmp_flood : GlobalStats → GlobalStats
count_icmp_flood g = record g { icmp_flood_blocked = inc g.icmp_flood_blocked }

abbrev count_rate_limited : GlobalStats → GlobalStats
count_rate_limited g = record g { rate_limited = inc g.rate_limited }

-- What the SYN proxy's verdict adds: a challenge sent back is no drop.
abbrev pub count_challenge : Action → GlobalStats → GlobalStats
count_challenge action g =
    if is_tx action
    then count_syn_flood g
    else inc_protocol_dropped ipproto_tcp (count_dropped (count_syn_flood g))

abbrev port_key : PacketCtx → ℕ → PortRateKey
port_key pc dport = record { protocol = pc.protocol; dport = dport }

abbrev pub mark_counted : Bool → PacketCtx → PacketCtx
mark_counted syn pc = if syn then record pc { rate_counted = true } else pc

module _ {κ : Kernel} where
  -- The limit per protocol and port that four modules end in, with the rule that it reports.
  unfoldable pub limit_port :
      ℕ
      → (GlobalStats → GlobalStats)
      → PortRateKey
      → PacketCtx
      → State κ
      → Action × PacketCtx × State κ
  limit_port rule blocked key pc s =
      let (over, s') = check_port_rate key (now_of pc) s in
      if over then drop_for rule blocked pc s' else (Action.no_action, pc, s')

  unfoldable pub check_fragment_drop : ℕ → ℕ → PacketCtx → State κ → Action × PacketCtx × State κ
  check_fragment_drop policy port_rate_enabled pc s =
      if not pc.fragment || policy == 0
      then (Action.no_action, pc, s)
      else if policy == 2
      then drop_for Rules.fragment count_fragment pc s
      else if port_rate_enabled != 0
      then limit_port Rules.fragment count_fragment (port_key pc 0) pc s
      else (Action.no_action, pc, s)

  -- The ACK side of the proxy.
  abbrev pub proxy_acked : PacketCtx → Action × State κ → Action × PacketCtx × State κ
  proxy_acked pc (Action.no_action, s) = (Action.no_action, pc, s)
  proxy_acked pc (action, s) = (
    action,
    pc,
    trust_pass_sampled pc.src (now_of pc) pc.trust_add_divisor (with_stats count_passed s),
  )

  abbrev pub proxy_verdict :
      List ℕ → List ℕ → PacketCtx → Action × State κ → Action × PacketCtx × State κ
  proxy_verdict ip tcp pc (Action.no_action, s) = proxy_acked pc (handle_ack (now_of pc) ip tcp s)
  proxy_verdict ip tcp pc (action, s) =
      (action, record pc { rule_id = Rules.syn_flood }, with_stats (count_challenge action) s)

  abbrev pub proxy_tcp :
      Option (List ℕ) → Option (List ℕ) → PacketCtx → State κ → Action × PacketCtx × State κ
  proxy_tcp none tcp pc s = (Action.xdp_pass, pc, s)
  proxy_tcp (some ip) none pc s = (Action.no_action, pc, s)
  proxy_tcp (some ip) (some tcp) pc s =
      proxy_verdict ip tcp (mark_counted (is_syn tcp) pc)
        (handle_syn pc.hdr_len (now_of pc) ip tcp s)

  abbrev pub limit_tcp_port : ℕ → PacketCtx → State κ → Action × PacketCtx × State κ
  limit_tcp_port port_rate_enabled pc s =
      if port_rate_enabled != 0 && bit_and pc.project_flags Rules.Modules.syn_flood != 0
      then limit_port Rules.port_rate count_port_rate (port_key pc (swap16 pc.dport)) pc s
      else (Action.no_action, pc, s)

  abbrev pub detect_tcp : ℕ → Option (List ℕ) → PacketCtx → State κ → Action × PacketCtx × State κ
  detect_tcp port_rate_enabled none pc s = limit_tcp_port port_rate_enabled pc s
  detect_tcp port_rate_enabled (some tcp) pc s =
      let pc' : PacketCtx = mark_counted (is_syn tcp) pc in
      let (flood, s') = handle_syn_flood pc.src (tcp_flags tcp) (now_of pc) s in
      if flood
      then drop_for Rules.syn_flood count_syn_flood pc' s'
      else limit_tcp_port port_rate_enabled pc' s'

  unfoldable pub check_tcp_drop : ℕ → ℕ → PacketCtx → State κ → Action × PacketCtx × State κ
  check_tcp_drop syn_proxy_enabled port_rate_enabled pc s =
      if bit_and pc.project_flags Rules.Modules.syn_flood == 0 || pc.fragment
      then (Action.no_action, pc, s)
      else if pc.src.family == 4 && syn_proxy_enabled != 0
      then proxy_tcp (ptr_at ip_hdr_len s.frame eth_hdr_len)
          (ptr_at tcp_hdr_len s.frame (eth_hdr_len + pc.hdr_len)) pc s
      else detect_tcp port_rate_enabled (ptr_at tcp_hdr_len s.frame (eth_hdr_len + pc.hdr_len)) pc s

  abbrev limit_udp_port : ℕ → PacketCtx → State κ → Action × PacketCtx × State κ
  limit_udp_port port_rate_enabled pc s =
      if port_rate_enabled != 0 && bit_and pc.project_flags Rules.Modules.udp_flood != 0
      then limit_port Rules.port_rate count_port_rate (port_key pc (swap16 pc.dport)) pc s
      else (Action.no_action, pc, s)

  abbrev detect_udp : ℕ → PacketCtx → State κ → Action × PacketCtx × State κ
  detect_udp port_rate_enabled pc s =
      let pc' : PacketCtx = record pc { rate_counted = true } in
      let (flood, s') = handle_udp_flood pc.src (now_of pc) s in
      if flood
      then drop_for Rules.udp_flood count_udp_flood pc' s'
      else limit_udp_port port_rate_enabled pc' s'

  unfoldable pub check_udp_drop : ℕ → ℕ → PacketCtx → State κ → Action × PacketCtx × State κ
  check_udp_drop udp_flood_enabled port_rate_enabled pc s =
      if pc.protocol != ipproto_udp || pc.fragment
      then (Action.no_action, pc, s)
      else if udp_flood_enabled != 0 && bit_and pc.project_flags Rules.Modules.udp_flood != 0
      then detect_udp port_rate_enabled pc s
      else limit_udp_port port_rate_enabled pc s

  abbrev limit_icmp : ℕ → PacketCtx → State κ → Action × PacketCtx × State κ
  limit_icmp port_rate_enabled pc s =
      if port_rate_enabled != 0 && bit_and pc.project_flags Rules.Modules.icmp_flood != 0
      then limit_port Rules.port_rate count_port_rate (port_key pc 0) pc s
      else (Action.no_action, pc, s)

  abbrev detect_icmp : ℕ → PacketCtx → State κ → Action × PacketCtx × State κ
  detect_icmp port_rate_enabled pc s =
      let pc' : PacketCtx = record pc { rate_counted = true } in
      let (flood, s') = handle_icmp_flood pc.src (now_of pc) s in
      if flood
      then drop_for Rules.icmp_flood count_icmp_flood pc' s'
      else limit_icmp port_rate_enabled pc' s'

  unfoldable pub check_icmp_drop : ℕ → ℕ → PacketCtx → State κ → Action × PacketCtx × State κ
  check_icmp_drop icmp_flood_enabled port_rate_enabled pc s =
      if (pc.protocol != ipproto_icmp && pc.protocol != ipproto_icmpv6) || pc.fragment
      then (Action.no_action, pc, s)
      else if icmp_flood_enabled != 0 && bit_and pc.project_flags Rules.Modules.icmp_flood != 0
      then detect_icmp port_rate_enabled pc s
      else limit_icmp port_rate_enabled pc s

  unfoldable pub check_rate_limit_drop : PacketCtx → State κ → Action × PacketCtx × State κ
  check_rate_limit_drop pc s =
      let (over, s') = check_rate_limit pc.src pc.dport (now_of pc) s in
      if bit_and pc.project_flags Rules.Modules.rate_limit == 0
      then (Action.no_action, pc, s)
      else if pc.rate_counted
      then (Action.no_action, pc, s)
      else if over
      then drop_for Rules.rate_limit count_rate_limited pc s'
      else (Action.no_action, pc, s')
