-- ===== src/DataPlane/Sample.antt =====
-- eshield-ebpf/src/main.rs: `log_packet_sample`, called with the frame as the verdict left it.
use e_shield.Base.{
  ℕ, ◌+◌, ◌*◌, ◌%◌, Bool, Option, none, some, List, ◌++◌, ◌||◌, leb, ◌==◌, ◌!=◌, if◌then◌else◌,
  length, replicate, u16_mod,
}
use e_shield.Common.Ip.{IpFamily, family_of}
use e_shield.Common.Entries.{PacketSample}
use e_shield.Common.Config.{RuntimeConfig}
use e_shield.DataPlane.Kernel.{Kernel}
use e_shield.DataPlane.State.{State}
use e_shield.DataPlane.Action.{Action}
use e_shield.DataPlane.Parser.Fields.{
  eth_hdr_len, ip_hdr_len, ipv6_hdr_len, tcp_hdr_len, ipproto_tcp, ipproto_udp, ipproto_icmp,
  ipproto_icmpv6, ptr_at, ip_daddr, ipv6_daddr, doff, ne_bytes,
}
use e_shield.DataPlane.Rewrite.{slice}
use e_shield.DataPlane.Drop.{PacketCtx, now_of}

abbrev doff_len : Option (List ℕ) → Option ℕ
doff_len none = none
doff_len (some tcp) = some (doff tcp * 4)

-- The length of the transport header; `none` where the function returns early.
unfoldable pub l4_hdr_len : List ℕ → PacketCtx → Option ℕ
l4_hdr_len frame pc =
    if pc.protocol == ipproto_tcp
    then doff_len (ptr_at tcp_hdr_len frame (eth_hdr_len + pc.hdr_len))
    else if pc.protocol == ipproto_udp
        || pc.protocol == ipproto_icmp
        || pc.protocol == ipproto_icmpv6
    then some 8
    else some 0

abbrev no_addr : List ℕ
no_addr = replicate 16 0

abbrev dst_v4 : Option (List ℕ) → List ℕ
dst_v4 none = no_addr
dst_v4 (some ip) = replicate 12 0 ++ ne_bytes (ip_daddr ip)

abbrev dst_v6 : Option (List ℕ) → List ℕ
dst_v6 none = no_addr
dst_v6 (some ip) = ipv6_daddr ip

-- The destination address, read again from the frame.
unfoldable pub dst_ip_of : List ℕ → PacketCtx → List ℕ
dst_ip_of frame pc = elim (family_of pc.src) [
  | none ↦ no_addr
  | some IpFamily.ipv4 ↦ dst_v4 (ptr_at ip_hdr_len frame eth_hdr_len)
  | some IpFamily.ipv6 ↦ dst_v6 (ptr_at ipv6_hdr_len frame eth_hdr_len)
]

abbrev action_code : Action → ℕ
action_code Action.xdp_pass = 1
action_code _ = 0

abbrev sample_at : List ℕ → PacketCtx → Action → ℕ → PacketSample
sample_at frame pc action payload_off =
    let full : Bool = leb (payload_off + 64) (length frame) in
    record {
      timestamp_ns = now_of pc;
      src_ip = pc.src.addr;
      dst_ip = dst_ip_of frame pc;
      family = pc.src.family;
      protocol = pc.protocol;
      src_port = pc.sport;
      dst_port = pc.dport;
      action = action_code action;
      rule_id = pc.rule_id;
      packet_len = length frame % u16_mod;
      payload_bytes = if full then 64 else 0;
      payload_sample = if full then slice frame payload_off 64 else replicate 64 0;
    }

module _ {κ : Kernel} where
  abbrev submit_sample : PacketCtx → Action → Option ℕ → State κ → State κ
  submit_sample _ _ none s = s
  submit_sample pc action (some l4_len) s =
      if κ.packet_samples.reserve s.packet_samples
      then record s {
        packet_samples =
            κ.packet_samples.submit s.packet_samples
              (sample_at s.frame pc action (eth_hdr_len + pc.hdr_len + l4_len));
      }
      else s

  abbrev sample_with : RuntimeConfig → PacketCtx → Action → State κ → State κ
  sample_with runtime pc action s =
      if runtime.packet_log_enabled == 0 || runtime.packet_log_sample_rate == 0
      then s
      else if pc.helpers.prandom % runtime.packet_log_sample_rate != 0
      then s
      else submit_sample pc action (l4_hdr_len s.frame pc) s

  unfoldable pub log_packet_sample : PacketCtx → Action → State κ → State κ
  log_packet_sample pc action s = elim s.config [
    | none ↦ s
    | some runtime ↦ sample_with runtime pc action s
  ]
