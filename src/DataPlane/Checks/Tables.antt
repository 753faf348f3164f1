-- ===== src/DataPlane/Checks/Tables.antt =====
-- eshield-ebpf/src/main.rs: the modules that decide by a table: the whitelist, the port rules, the
-- blacklist, the project policies, GeoIP, the L7 signatures, and connection tracking.
use e_shield.Base.{
  ℕ, ◌+◌, Bool, false, Option, none, some, List, not, ◌&&◌, ◌||◌, ◌==◌, ◌!=◌, if◌then◌else◌, swap16,
  swap32, bit_and, max,
}
use e_shield.Common.Ip.{IpKey, IpFamily, family_of, ipv4_of}
use e_shield.Common.Entries.{ProjectPolicyKey, ProjectPolicy}
use e_shield.Common.Config.{RuntimeConfig}
use e_shield.Common.Stats.{GlobalStats}
use e_shield.Common.Rules
use e_shield.DataPlane.Kernel.{Kernel}
use e_shield.DataPlane.State.{State, with_stats, inc}
use e_shield.DataPlane.Action.{Action}
use e_shield.DataPlane.Parser.Fields.{
  eth_hdr_len, ip_hdr_len, tcp_hdr_len, ipproto_tcp, ptr_at, ip_daddr, tcp_flags,
}
use e_shield.DataPlane.Blacklist.{is_blacklisted}
use e_shield.DataPlane.ConnTrack.{check_conn_track}
use e_shield.DataPlane.PortAcl.{check_port_acl}
use e_shield.DataPlane.L7Scan.{scan}
use e_shield.DataPlane.Drop.{PacketCtx, now_of, count_passed, trust_pass_sampled, drop_for}

-- A lookup by the source's family, for the whitelist and both GeoIP lists.
unfoldable pub in_tries : (ℕ → Bool) → (List ℕ → Bool) → IpKey → Bool
in_tries v4 v6 src = elim (family_of src) [
  | none ↦ false
  | some IpFamily.ipv4 ↦ v4 (swap32 (ipv4_of src))
  | some IpFamily.ipv6 ↦ v6 src.addr
]

abbrev pub no_block : GlobalStats → GlobalStats
no_block g = g

abbrev count_geoip : GlobalStats → GlobalStats
count_geoip g = record g { geoip_blocked = inc g.geoip_blocked }

abbrev pub count_blacklist : GlobalStats → GlobalStats
count_blacklist g = record g { blacklist_blocked = inc g.blacklist_blocked }

abbrev count_l7 : GlobalStats → GlobalStats
count_l7 g = record g { l7_blocked = inc g.l7_blocked }

abbrev count_conn_track : GlobalStats → GlobalStats
count_conn_track g = record g { conn_track_blocked = inc g.conn_track_blocked }

-- The four lookups, from the exact key to the one with both wildcards.
abbrev first_some : Option ProjectPolicy → Option ProjectPolicy → Option ProjectPolicy
first_some none next = next
first_some (some p) next = some p

unfoldable pub find_policy :
    (ProjectPolicyKey → Option ProjectPolicy) → ℕ → ℕ → ℕ → Option ProjectPolicy
find_policy table addr dport protocol =
    first_some (table (record { addr = addr; dport = dport; protocol = protocol })) (
      first_some (table (record { addr = addr; dport = dport; protocol = 0 })) (
        first_some (table (record { addr = addr; dport = 0; protocol = protocol }))
          (table (record { addr = addr; dport = 0; protocol = 0 }))))

module _ {κ : Kernel} where
  unfoldable pub is_whitelisted : IpKey → State κ → Bool
  is_whitelisted src s = in_tries s.whitelist_v4 s.whitelist_v6 src

  unfoldable pub is_geoip_blocked : IpKey → State κ → Bool
  is_geoip_blocked src s = in_tries s.geoip_blocked_v4 s.geoip_blocked_v6 src

  unfoldable pub is_geoip_allowed : IpKey → State κ → Bool
  is_geoip_allowed src s = in_tries s.geoip_allowed_v4 s.geoip_allowed_v6 src

  unfoldable pub check_port_acl_drop : ℕ → PacketCtx → State κ → Action × PacketCtx × State κ
  check_port_acl_drop acl_count pc s =
      if acl_count == 0 || pc.fragment
      then (Action.no_action, pc, s)
      else if check_port_acl s.port_acl pc.protocol pc.dport acl_count
      then drop_for Rules.port_acl no_block pc s
      else (Action.no_action, pc, s)

  unfoldable pub check_blacklist_drop : PacketCtx → State κ → Action × PacketCtx × State κ
  check_blacklist_drop pc s =
      let (blocked, s') = is_blacklisted pc.src (now_of pc) s in
      if blocked then drop_for Rules.blacklist count_blacklist pc s' else (Action.no_action, pc, s')

  abbrev pub obey : Option ProjectPolicy → PacketCtx → State κ → Action × PacketCtx × State κ
  obey none pc s = (Action.no_action, pc, s)
  obey (some policy) pc s =
      if policy.action == Rules.Project.pass
      then (
        Action.xdp_pass,
        record pc { rule_id = Rules.project_policy },
        trust_pass_sampled pc.src (now_of pc) pc.trust_add_divisor (with_stats count_passed s),
      )
      else if policy.action == Rules.Project.drop
      then drop_for Rules.project_policy no_block pc s
      else if policy.action == Rules.Project.defend
      then (
        Action.no_action,
        record pc { project_flags = if policy.flags == 0 then Rules.Modules.all else policy.flags },
        s,
      )
      else (Action.no_action, pc, s)

  abbrev pub obey_at : Option (List ℕ) → PacketCtx → State κ → Action × PacketCtx × State κ
  obey_at none pc s = (Action.no_action, pc, s)
  obey_at (some ip) pc s =
      obey (find_policy s.project_policy (ip_daddr ip) (swap16 pc.dport) pc.protocol) pc s

  -- Only IPv4 packets are matched.
  abbrev pub obey_family : Option IpFamily → PacketCtx → State κ → Action × PacketCtx × State κ
  obey_family none pc s = (Action.no_action, pc, s)
  obey_family (some IpFamily.ipv4) pc s = obey_at (ptr_at ip_hdr_len s.frame eth_hdr_len) pc s
  obey_family (some IpFamily.ipv6) pc s = (Action.no_action, pc, s)

  abbrev pub obey_config : Option RuntimeConfig → PacketCtx → State κ → Action × PacketCtx × State κ
  obey_config none pc s = (Action.no_action, pc, s)
  obey_config (some runtime) pc s =
      if runtime.project_enabled == 0 || pc.fragment
      then (Action.no_action, pc, s)
      else obey_family (family_of pc.src) pc s

  unfoldable pub check_project_policy : PacketCtx → State κ → Action × PacketCtx × State κ
  check_project_policy pc s = obey_config s.config pc s

  unfoldable pub check_geoip_drop : ℕ → ℕ → PacketCtx → State κ → Action × PacketCtx × State κ
  check_geoip_drop enabled default_action pc s =
      if enabled == 0 || bit_and pc.project_flags Rules.Modules.geoip == 0
      then (Action.no_action, pc, s)
      else if is_geoip_blocked pc.src s || (default_action == 1 && not (is_geoip_allowed pc.src s))
      then drop_for Rules.geoip count_geoip pc s
      else (Action.no_action, pc, s)

  abbrev pub track : ℕ → ℕ → Option (List ℕ) → PacketCtx → State κ → Action × PacketCtx × State κ
  track threshold window_ms none pc s = (Action.no_action, pc, s)
  track threshold window_ms (some tcp) pc s =
      let (full, s') =
        check_conn_track pc.src (tcp_flags tcp) (now_of pc) (max threshold 1) (max window_ms 1) s in
      if full then drop_for Rules.conn_track count_conn_track pc s' else (Action.no_action, pc, s')

  unfoldable pub check_conn_track_drop :
      ℕ → ℕ → ℕ → PacketCtx → State κ → Action × PacketCtx × State κ
  check_conn_track_drop enabled threshold window_ms pc s =
      if enabled == 0
        || pc.fragment
        || pc.protocol != ipproto_tcp
        || bit_and pc.project_flags Rules.Modules.conn_track == 0
      then (Action.no_action, pc, s)
      else track threshold window_ms (ptr_at tcp_hdr_len s.frame (eth_hdr_len + pc.hdr_len)) pc s

  unfoldable pub check_l7_drop : ℕ → PacketCtx → State κ → Action × PacketCtx × State κ
  check_l7_drop pattern_count pc s =
      if pattern_count == 0 || bit_and pc.project_flags Rules.Modules.l7_scan == 0 || pc.fragment
      then (Action.no_action, pc, s)
      else if scan s.config s.l7_patterns s.frame pc.hdr_len pc.protocol pattern_count
      then drop_for Rules.l7_pattern count_l7 pc s
      else (Action.no_action, pc, s)
