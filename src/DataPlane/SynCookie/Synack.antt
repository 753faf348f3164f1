-- ===== src/DataPlane/SynCookie/Synack.antt =====
-- eshield-ebpf/src/syn_cookie.rs: `parse_mss`, `send_synack` and `compute_checksums`.
use e_shield.Base.{
  ℕ, ◌+◌, ◌-◌, ◌*◌, ◌/◌, ◌%◌, Bool, true, false, Option, none, some, List, [], ◌∷◌, ◌++◌, ltb, leb,
  ◌==◌, ◌!=◌, ◌||◌, if◌then◌else◌, length, swap16, swap32, u16_max, u32_mod, wrapping_add32, bit_or,
}
use e_shield.DataPlane.Parser.Fields.{eth_hdr_len, tcp_flag_syn, tcp_flag_ack, byte_at, ne_bytes}
use e_shield.DataPlane.Rewrite.{write, le16, slice, swap_fields, finalize_csum, pseudo_sum}

-- A frame as a rewrite left it, and whether the rewrite succeeded.
pub record Rewritten : Type 0 where
  pub frame : List ℕ
  pub sent : Bool

-- `MSS_TABLE[mss_idx].1`; an index past the table would be out of bounds, and none occurs.
abbrev pub mss_value : ℕ → ℕ
mss_value mss_idx = if mss_idx == 0 then 536 else if mss_idx == 1 then 1300 else 1460

-- The MSS option of a 24-byte TCP header at `offset`; each byte is read within bounds.
unfoldable pub parse_mss : List ℕ → ℕ → ℕ → Option ℕ
parse_mss frame offset tcp_len =
    if tcp_len != 24
    then none
    else if ltb (length frame) (offset + 24)
    then none
    else if byte_at frame (offset + 20) != 2 || byte_at frame (offset + 21) != 4
    then none
    else some (bit_or (byte_at frame (offset + 22) * 0x100) (byte_at frame (offset + 23)))

-- `doff | flags`, stored in the machine's order with no byte swap.
unfoldable pub synack_doff_flags : ℕ → ℕ
synack_doff_flags new_len = bit_or (new_len / 4 * 0x1000) (bit_or tcp_flag_syn tcp_flag_ack)

-- The rewritten headers, with both checksums zero; `hdr_len` is that of the IP header.
unfoldable pub synack_headers : List ℕ → ℕ → ℕ → ℕ → ℕ → List ℕ
synack_headers frame hdr_len new_len cookie original_seq =
    let tcp_off : ℕ = eth_hdr_len + hdr_len in
    let macs : List ℕ = swap_fields frame 0 6 in
    let addrs : List ℕ = swap_fields macs 26 4 in
    let ttl : List ℕ = write addrs 22 (64 ∷ []) in
    let check : List ℕ = write ttl 24 (le16 0) in
    let tot_len : List ℕ = write check 16 (le16 (swap16 (hdr_len + new_len))) in
    let ports : List ℕ = swap_fields tot_len tcp_off 2 in
    write ports (tcp_off + 4) (
      ne_bytes (swap32 cookie)
      ++ ne_bytes (swap32 (wrapping_add32 original_seq 1))
      ++ le16 (synack_doff_flags new_len)
      ++ le16 (swap16 u16_max)
      ++ le16 0)

abbrev mss_option : ℕ → List ℕ
mss_option mss_idx = 2 ∷ 4 ∷ mss_value mss_idx / 0x100 ∷ mss_value mss_idx % 0x100 ∷ []

module _ (csum_diff : List ℕ → ℕ → Option ℕ) where
  abbrev tcp_summed : List ℕ → ℕ → Option ℕ → Rewritten
  tcp_summed frame tcp_off none = record { frame = frame; sent = false }
  tcp_summed frame tcp_off (some sum) = record {
    frame = write frame (tcp_off + 16) (le16 (finalize_csum sum));
    sent = true;
  }

  abbrev pseudo_summed : List ℕ → ℕ → ℕ → Option ℕ → Rewritten
  pseudo_summed frame tcp_off new_len none = record { frame = frame; sent = false }
  pseudo_summed frame tcp_off new_len (some seed) =
      tcp_summed frame tcp_off (csum_diff (slice frame tcp_off new_len) (seed % u32_mod))

  -- `compute_checksums`.
  unfoldable pub compute_checksums : List ℕ → ℕ → ℕ → Rewritten
  compute_checksums frame hdr_len new_len = elim (csum_diff (slice frame eth_hdr_len hdr_len) 0) [
    | none ↦ record { frame = frame; sent = false }
    | some ip_sum ↦
        (let checked : List ℕ = write frame 24 (le16 (finalize_csum ip_sum)) in
          pseudo_summed checked (eth_hdr_len + hdr_len) new_len
            (pseudo_sum csum_diff (slice checked 26 4) (slice checked 30 4) new_len))
  ]

  -- The part after `bpf_xdp_adjust_tail`: the bounded reads of the headers, then of the option.
  abbrev rebuild : List ℕ → ℕ → ℕ → ℕ → ℕ → ℕ → Rewritten
  rebuild frame hdr_len new_len mss_idx cookie original_seq =
      let tcp_off : ℕ = eth_hdr_len + hdr_len in
      let headers : List ℕ = synack_headers frame hdr_len new_len cookie original_seq in
      if ltb (length frame) 34 || ltb (length frame) (tcp_off + 20)
      then record { frame = frame; sent = false }
      else if new_len == 24
      then (if ltb (length frame) (tcp_off + 24)
          then record { frame = headers; sent = false }
          else compute_checksums (write headers (tcp_off + 20) (mss_option mss_idx)) hdr_len
              new_len)
      else compute_checksums headers hdr_len new_len

  -- `send_synack`; the tail is cut only if the original header is longer than the new one.
  unfoldable pub send_synack :
      (List ℕ → ℕ → Option (List ℕ)) → List ℕ → ℕ → ℕ → ℕ → ℕ → ℕ → Rewritten
  send_synack adjust_tail frame hdr_len original_len mss_idx cookie original_seq =
      let new_len : ℕ = if leb 24 original_len then 24 else 20 in
      if ltb new_len original_len
      then elim (adjust_tail frame (length frame - (original_len - new_len))) [
        | none ↦ record { frame = frame; sent = false }
        | some cut ↦ rebuild cut hdr_len new_len mss_idx cookie original_seq
      ]
      else rebuild frame hdr_len new_len mss_idx cookie original_seq
