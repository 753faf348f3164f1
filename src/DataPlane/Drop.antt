-- ===== src/DataPlane/Drop.antt =====
-- eshield-ebpf/src/main.rs: the context of a packet, and the one way in which it is dropped.
use e_shield.Base.{
  ℕ, Bool, false, Option, none, some, ◌&&◌, ◌==◌, ◌!=◌, if◌then◌else◌, bit_and, saturating_add64,
  wrapping_add32,
}
use e_shield.Common.Ip.{IpKey}
use e_shield.Common.Entries.{DropEvent}
use e_shield.Common.Stats.{GlobalStats}
use e_shield.Common.Rules
use e_shield.DataPlane.Kernel.{Kernel}
use e_shield.DataPlane.State.{State, with_stats, inc}
use e_shield.DataPlane.Action.{Action}
use e_shield.DataPlane.Parser.Fields.{ipproto_tcp, ipproto_udp, ipproto_icmp, ipproto_icmpv6}
use e_shield.DataPlane.Trust.{trust_pass, trust_drop}
use e_shield.DataPlane.TcpReset.{reply_tcp_rst}

-- What the BPF helpers answer while a packet is processed: the clock at its start and when its
-- drop event is written, and one random number.
pub record Helpers : Type 0 where
  pub ktime_ns : ℕ
  pub event_ktime_ns : ℕ
  pub prandom : ℕ

pub record PacketCtx : Type 0 where
  pub src : IpKey
  pub protocol : ℕ
  pub sport : ℕ
  pub dport : ℕ
  pub hdr_len : ℕ
  pub tcp_reset_on_drop : ℕ
  pub trust_add_divisor : ℕ
  pub trust_sub_divisor : ℕ
  pub helpers : Helpers
  pub rule_id : ℕ
  pub rate_counted : Bool
  pub fragment : Bool
  pub project_flags : ℕ

abbrev pub now_of : PacketCtx → ℕ
now_of pc = pc.helpers.ktime_ns

unfoldable pub inc_protocol_dropped : ℕ → GlobalStats → GlobalStats
inc_protocol_dropped protocol g =
    if protocol == ipproto_tcp
    then record g { tcp_dropped = inc g.tcp_dropped }
    else if protocol == ipproto_udp
    then record g { udp_dropped = inc g.udp_dropped }
    else if protocol == ipproto_icmp
    then record g { icmp_dropped = inc g.icmp_dropped }
    else if protocol == ipproto_icmpv6
    then record g { icmp_dropped = inc g.icmp_dropped }
    else record g { other_dropped = inc g.other_dropped }

abbrev pub count_passed : GlobalStats → GlobalStats
count_passed g = record g { total_passed = inc g.total_passed }

abbrev pub count_dropped : GlobalStats → GlobalStats
count_dropped g = record g { total_dropped = inc g.total_dropped }

abbrev count_pass_sample : GlobalStats → GlobalStats
count_pass_sample g = record g { trust_pass_sample = wrapping_add32 g.trust_pass_sample 1 }

abbrev pass_due : Option GlobalStats → Bool
pass_due none = false
pass_due (some g) = bit_and g.trust_pass_sample 0x3f == 0

abbrev count_attempt : ℕ → GlobalStats → GlobalStats
count_attempt protocol g = record g {
  tcp_rst_attempt = if protocol == ipproto_tcp then inc g.tcp_rst_attempt else g.tcp_rst_attempt;
  top_attacker_sample = wrapping_add32 g.top_attacker_sample 1;
}

-- Every sixteenth drop is due and stands for 16; without statistics each one is and stands for 1.
abbrev attacker_weight : Option GlobalStats → Option ℕ
attacker_weight none = some 1
attacker_weight (some g) = if bit_and g.top_attacker_sample 0xf == 0 then some 16 else none

abbrev or_zero : Option ℕ → ℕ
or_zero none = 0
or_zero (some n) = n

module _ {κ : Kernel} where
  unfoldable pub trust_pass_sampled : IpKey → ℕ → ℕ → State κ → State κ
  trust_pass_sampled src now_ns add_divisor s =
      let s' : State κ = with_stats count_pass_sample s in
      if pass_due s'.stats then trust_pass src now_ns add_divisor 64 s' else s'

  unfoldable pub emit_drop_event : PacketCtx → State κ → State κ
  emit_drop_event pc s =
      let event : DropEvent = record {
        timestamp_ns = pc.helpers.event_ktime_ns;
        src_ip = pc.src.addr;
        family = pc.src.family;
        protocol = pc.protocol;
        rule_id = pc.rule_id;
        dst_port = pc.dport;
      } in
      if κ.events.reserve s.events then record s { events = κ.events.submit s.events event } else s

  abbrev rank_attacker : IpKey → Option ℕ → State κ → State κ
  rank_attacker src none s = s
  rank_attacker src (some weight) s = record s {
    top_attackers =
        κ.top_attackers.insert s.top_attackers src
          (saturating_add64 (or_zero (κ.top_attackers.get s.top_attackers src)) weight);
  }

  abbrev report_drop : PacketCtx → State κ → State κ
  report_drop pc s = if pc.rule_id != Rules.blacklist then emit_drop_event pc s else s

  -- The state in which the answer, a RST or none, is chosen.
  unfoldable pub account_drop : PacketCtx → State κ → State κ
  account_drop pc s =
      let counted : State κ = with_stats (count_attempt pc.protocol) s in
      report_drop pc (
        rank_attacker pc.src (attacker_weight counted.stats)
          (trust_drop pc.src (now_of pc) pc.trust_sub_divisor counted))

  unfoldable pub drop_packet : PacketCtx → State κ → Action × State κ
  drop_packet pc s =
      let s' : State κ = account_drop pc s in
      if pc.tcp_reset_on_drop != 0 && pc.protocol == ipproto_tcp
      then reply_tcp_rst pc.hdr_len s'
      else (Action.xdp_drop, s')

  -- The shape of every module's verdict to drop: the rule, the counters, `drop_packet`.
  unfoldable pub drop_for :
      ℕ → (GlobalStats → GlobalStats) → PacketCtx → State κ → Action × PacketCtx × State κ
  drop_for rule blocked pc s =
      let pc' : PacketCtx = record pc { rule_id = rule } in
      let (action, s') =
        drop_packet pc'
          (with_stats (λ g. inc_protocol_dropped pc.protocol (blocked (count_dropped g))) s) in
      (action, pc', s')
