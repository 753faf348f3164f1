-- ===== src/DataPlane/Parser/Headers.antt =====
-- eshield-ebpf/src/main.rs: `parse_ipv4`, `parse_ipv6` and `read_ports`. A result is `none` where
-- the function returns false; what it has written by then is not used.
use e_shield.Base.{
  ℕ, ◌+◌, ◌*◌, Bool, true, false, Option, none, some, List, ltb, ◌==◌, ◌!=◌, if◌then◌else◌, swap16,
  bit_and,
}
use e_shield.Common.Ip.{IpKey, from_ipv4, from_ipv6}
use e_shield.DataPlane.Parser.Fields.{
  eth_hdr_len, ip_hdr_len, ipv6_hdr_len, tcp_hdr_len, udp_hdr_len, ipproto_tcp, ipproto_udp, ptr_at,
  ip_ver_ihl, ip_frag_off, ip_proto, ip_saddr, ipv6_next_header, ipv6_saddr, l4_source, l4_dest,
  ne_bytes,
}

pub record Parsed : Type 0 where
  pub src : IpKey
  pub protocol : ℕ
  pub hdr_len : ℕ
  pub sport : ℕ
  pub dport : ℕ
  pub fragment : Bool

-- The ports of the header that a bounded read found.
abbrev ports_of : Option (List ℕ) → Option (ℕ × ℕ)
ports_of none = none
ports_of (some l4) = some (swap16 (l4_source l4), swap16 (l4_dest l4))

unfoldable pub read_ports : List ℕ → ℕ → ℕ → Option (ℕ × ℕ)
read_ports frame transport_offset protocol =
    if protocol == ipproto_tcp
    then ports_of (ptr_at tcp_hdr_len frame transport_offset)
    else if protocol == ipproto_udp
    then ports_of (ptr_at udp_hdr_len frame transport_offset)
    else some (0, 0)

abbrev with_ports : IpKey → ℕ → ℕ → Option (ℕ × ℕ) → Option Parsed
with_ports src protocol len none = none
with_ports src protocol len (some (sport, dport)) = some (record {
  src = src;
  protocol = protocol;
  hdr_len = len;
  sport = sport;
  dport = dport;
  fragment = false;
})

-- The body of `parse_ipv4` once the fixed header is in reach.
abbrev parse_ipv4_at : List ℕ → List ℕ → Option Parsed
parse_ipv4_at frame ip =
    let len : ℕ = bit_and (ip_ver_ihl ip) 0x0f * 4 in
    let src : IpKey = from_ipv4 (ne_bytes (ip_saddr ip)) in
    if ltb len ip_hdr_len
    then none
    else if bit_and (swap16 (ip_frag_off ip)) 0x1fff != 0
    then some (record {
      src = src;
      protocol = ip_proto ip;
      hdr_len = len;
      sport = 0;
      dport = 0;
      fragment = true;
    })
    else with_ports src (ip_proto ip) len (read_ports frame (eth_hdr_len + len) (ip_proto ip))

unfoldable pub parse_ipv4 : List ℕ → Option Parsed
parse_ipv4 frame = elim (ptr_at ip_hdr_len frame eth_hdr_len) [
  | none ↦ none
  | some ip ↦ parse_ipv4_at frame ip
]

abbrev parse_ipv6_at : List ℕ → List ℕ → Option Parsed
parse_ipv6_at frame ip =
    with_ports (from_ipv6 (ipv6_saddr ip)) (ipv6_next_header ip) ipv6_hdr_len
      (read_ports frame (eth_hdr_len + ipv6_hdr_len) (ipv6_next_header ip))

unfoldable pub parse_ipv6 : List ℕ → Option Parsed
parse_ipv6 frame = elim (ptr_at ipv6_hdr_len frame eth_hdr_len) [
  | none ↦ none
  | some ip ↦ parse_ipv6_at frame ip
]
