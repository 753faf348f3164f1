-- ===== src/DataPlane/Parser/Fields.antt =====
-- eshield-ebpf/src/parser.rs: header layouts, flags, and bounded reads of the frame. A pointer
-- into the frame is the list of the bytes from it on; the target is little-endian.
use e_shield.Base.{
  ℕ, ◌+◌, ◌*◌, ◌/◌, ◌%◌, Bool, Option, none, some, List, [], ◌∷◌, ◌&&◌, ◌||◌, leb, ◌==◌, ◌!=◌,
  if◌then◌else◌, length, drop, take, get_or, swap16, bit_and,
}

abbrev pub eth_hdr_len : ℕ
eth_hdr_len = 14

abbrev pub ip_hdr_len : ℕ
ip_hdr_len = 20

abbrev pub ipv6_hdr_len : ℕ
ipv6_hdr_len = 40

abbrev pub tcp_hdr_len : ℕ
tcp_hdr_len = 20

abbrev pub udp_hdr_len : ℕ
udp_hdr_len = 8

-- `u16::to_be`.
abbrev pub eth_p_ip : ℕ
eth_p_ip = swap16 0x0800

abbrev pub eth_p_ipv6 : ℕ
eth_p_ipv6 = swap16 0x86dd

abbrev pub ipproto_tcp : ℕ
ipproto_tcp = 6

abbrev pub ipproto_udp : ℕ
ipproto_udp = 17

abbrev pub ipproto_icmp : ℕ
ipproto_icmp = 1

abbrev pub ipproto_icmpv6 : ℕ
ipproto_icmpv6 = 58

abbrev pub tcp_flag_syn : ℕ
tcp_flag_syn = 0x02

abbrev pub tcp_flag_rst : ℕ
tcp_flag_rst = 0x04

abbrev pub tcp_flag_ack : ℕ
tcp_flag_ack = 0x10

unfoldable pub is_syn_flags : ℕ → Bool
is_syn_flags flags = bit_and flags tcp_flag_syn != 0 && bit_and flags tcp_flag_ack == 0

unfoldable pub is_ack_or_rst_flags : ℕ → Bool
is_ack_or_rst_flags flags = bit_and flags tcp_flag_ack != 0 || bit_and flags tcp_flag_rst != 0

-- Fields of a `repr(C)` struct, read as the machine does.
abbrev pub byte_at : List ℕ → ℕ → ℕ
byte_at p i = get_or p i 0

abbrev pub u16_at : List ℕ → ℕ → ℕ
u16_at p i = byte_at p i + byte_at p (i + 1) * 0x100

abbrev pub u32_at : List ℕ → ℕ → ℕ
u32_at p i =
    byte_at p i
    + byte_at p (i + 1) * 0x100
    + byte_at p (i + 2) * 0x1_0000
    + byte_at p (i + 3) * 0x100_0000

-- The bytes of a frame from `offset` on, if `size` of them are there.
unfoldable pub ptr_at : ℕ → List ℕ → ℕ → Option (List ℕ)
ptr_at size frame offset =
    if leb (offset + size) (length frame) then some (drop offset frame) else none

-- Fields of the headers, by their offsets in `EthHdr`, `IpHdr`, `Ipv6Hdr`, `TcpHdr` and `UdpHdr`.
module _ (p : List ℕ) where
  abbrev pub eth_proto : ℕ
  eth_proto = u16_at p 12

  abbrev pub ip_ver_ihl : ℕ
  ip_ver_ihl = byte_at p 0

  abbrev pub ip_tot_len : ℕ
  ip_tot_len = u16_at p 2

  abbrev pub ip_frag_off : ℕ
  ip_frag_off = u16_at p 6

  abbrev pub ip_proto : ℕ
  ip_proto = byte_at p 9

  abbrev pub ip_saddr : ℕ
  ip_saddr = u32_at p 12

  abbrev pub ip_daddr : ℕ
  ip_daddr = u32_at p 16

  abbrev pub ipv6_next_header : ℕ
  ipv6_next_header = byte_at p 6

  abbrev pub ipv6_saddr : List ℕ
  ipv6_saddr = take 16 (drop 8 p)

  abbrev pub ipv6_daddr : List ℕ
  ipv6_daddr = take 16 (drop 24 p)

  -- `TcpHdr` and `UdpHdr` begin with the same two ports.
  abbrev pub l4_source : ℕ
  l4_source = u16_at p 0

  abbrev pub l4_dest : ℕ
  l4_dest = u16_at p 2

  abbrev pub tcp_seq : ℕ
  tcp_seq = u32_at p 4

  abbrev pub tcp_ack_seq : ℕ
  tcp_ack_seq = u32_at p 8

  abbrev pub tcp_doff_flags : ℕ
  tcp_doff_flags = u16_at p 12

  unfoldable pub doff : ℕ
  doff = swap16 tcp_doff_flags / 0x1000

  unfoldable pub tcp_flags : ℕ
  tcp_flags = bit_and (swap16 tcp_doff_flags) 0x3f

  unfoldable pub is_syn : Bool
  is_syn = is_syn_flags tcp_flags

-- `to_ne_bytes` of a u32.
abbrev pub ne_bytes : ℕ → List ℕ
ne_bytes x = x % 0x100 ∷ x / 0x100 % 0x100 ∷ x / 0x1_0000 % 0x100 ∷ x / 0x100_0000 % 0x100 ∷ []
