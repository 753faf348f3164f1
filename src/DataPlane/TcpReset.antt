-- ===== src/DataPlane/TcpReset.antt =====
-- eshield-ebpf/src/tcp_reset.rs: a dropped TCP packet is turned into a RST and sent back.
pub mod Header
use e_shield.Base.{
  ℕ, ◌+◌, ◌*◌, ◌%◌, Option, none, some, List, ◌++◌, ltb, ◌==◌, ◌!=◌, ◌||◌, if◌then◌else◌, length,
  swap16, swap32, u32_mod, wrapping_add32, bit_or,
}
use e_shield.Common.Stats.{GlobalStats}
use e_shield.DataPlane.Kernel.{Kernel}
use e_shield.DataPlane.State.{State, with_stats, inc}
use e_shield.DataPlane.Action.{Action}
use e_shield.DataPlane.Parser.Fields.{
  eth_hdr_len, ipproto_tcp, tcp_flag_rst, tcp_flag_ack, byte_at, u32_at, ne_bytes,
}
use e_shield.DataPlane.Rewrite.{write, le16, slice, swap_fields, finalize_csum, pseudo_sum}

abbrev pub ipv4_hdr_len : ℕ
ipv4_hdr_len = 20

abbrev pub rst_tcp_hdr_len : ℕ
rst_tcp_hdr_len = 20

abbrev pub rst_pkt_len : ℕ
rst_pkt_len = 40

abbrev pub inc_rst_sent : GlobalStats → GlobalStats
inc_rst_sent g = record g { tcp_rst_sent = inc g.tcp_rst_sent }

abbrev pub inc_rst_fail : GlobalStats → GlobalStats
inc_rst_fail g = record g { tcp_rst_fail = inc g.tcp_rst_fail }

-- The headers of the answer, with both checksums still zero.
unfoldable pub rst_headers : List ℕ → List ℕ
rst_headers frame =
    let ip_off : ℕ = 14 in
    let tcp_off : ℕ = 34 in
    let incoming_seq : ℕ = swap32 (u32_at frame 38) in
    let swapped : List ℕ =
      swap_fields (swap_fields (swap_fields frame 0 6) (ip_off + 12) 4) tcp_off 2 in
    let tcp : List ℕ =
      ne_bytes 0
      ++ ne_bytes (swap32 (wrapping_add32 incoming_seq 1))
      ++ le16 (swap16 (bit_or (5 * 0x1000) (bit_or tcp_flag_rst tcp_flag_ack)))
      ++ le16 0
      ++ le16 0
      ++ le16 0 in
    write (write (write swapped (tcp_off + 4) tcp) (ip_off + 10) (le16 0)) (ip_off + 2)
      (le16 (swap16 rst_pkt_len))

-- `csum`: the helper over a region of the frame, refused beyond its end.
abbrev csum : (List ℕ → ℕ → Option ℕ) → List ℕ → ℕ → ℕ → ℕ → Option ℕ
csum csum_diff frame offset len seed =
    if ltb (length frame) (offset + len) then none else csum_diff (slice frame offset len) seed

module _ {κ : Kernel} where
  abbrev fail : List ℕ → State κ → Action × State κ
  fail frame s = (Action.xdp_drop, with_stats inc_rst_fail (record s { frame = frame }))

  abbrev sum_tcp : List ℕ → Option ℕ → State κ → Action × State κ
  sum_tcp frame none s = fail frame s
  sum_tcp frame (some tcp_check) s = (
    Action.xdp_tx,
    with_stats inc_rst_sent (record s { frame = write frame 50 (le16 (finalize_csum tcp_check)) }),
  )

  abbrev sum_pseudo : List ℕ → Option ℕ → State κ → Action × State κ
  sum_pseudo frame none s = fail frame s
  sum_pseudo frame (some seed) s =
      sum_tcp frame (csum κ.csum_diff frame 34 rst_tcp_hdr_len (seed % u32_mod)) s

  abbrev sum_ip : List ℕ → Option ℕ → State κ → Action × State κ
  sum_ip frame none s = fail frame s
  sum_ip frame (some ip_check) s =
      let checked : List ℕ = write frame 24 (le16 (finalize_csum ip_check)) in
      sum_pseudo checked
        (pseudo_sum κ.csum_diff (slice checked 26 4) (slice checked 30 4) rst_tcp_hdr_len) s

  -- The bounded reads of the three headers need 54 bytes in all.
  abbrev answer : Option (List ℕ) → State κ → Action × State κ
  answer none s = fail s.frame s
  answer (some frame) s =
      if ltb (length frame) (eth_hdr_len + rst_pkt_len) || byte_at frame 23 != ipproto_tcp
      then fail frame s
      else sum_ip (rst_headers frame) (csum κ.csum_diff (rst_headers frame) 14 ipv4_hdr_len 0) s

  unfoldable pub reply_tcp_rst : ℕ → State κ → Action × State κ
  reply_tcp_rst hdr_len s =
      if hdr_len == ipv4_hdr_len
      then answer (κ.adjust_tail s.frame (eth_hdr_len + rst_pkt_len)) s
      else fail s.frame s
