-- ===== src/DataPlane/L7Scan.antt =====
-- eshield-ebpf/src/l7_scan.rs: signatures over the first eight bytes of a TCP payload.
pub mod Matches
use e_shield.Base.{
  ℕ, zero, suc, ◌+◌, ◌*◌, Bool, true, false, Option, none, some, List, leb, ◌==◌, ◌!=◌,
  if◌then◌else◌, length, drop, bit_and,
}
use e_shield.Common.Entries.{L7Pattern}
use e_shield.Common.Config.{RuntimeConfig}
use e_shield.DataPlane.Parser.Fields.{eth_hdr_len, tcp_hdr_len, ptr_at, doff, u32_at}

abbrev pub signature_bytes : ℕ
signature_bytes = 8

-- The test of one pattern; an entry that is missing or of length 0 is skipped.
abbrev pub pattern_hits : ℕ → Option L7Pattern → Bool
pattern_hits chunk none = false
pattern_hits chunk (some pat) =
    if pat.pattern_length == 0
    then false
    else bit_and chunk pat.mask == bit_and pat.signature pat.mask

unfoldable pub scan_loop : (ℕ → Option L7Pattern) → ℕ → ℕ → ℕ → Bool
scan_loop table chunk i zero = false
scan_loop table chunk i (suc left) =
    let rest : Bool = scan_loop table chunk (i + 1) left in
    if pattern_hits chunk (table i) then true else rest

-- `*(payload as *const u64)`.
abbrev pub u64_at : List ℕ → ℕ
u64_at p = u32_at p 0 + u32_at p 4 * 0x1_0000_0000

abbrev scan_payload : (ℕ → Option L7Pattern) → List ℕ → ℕ → ℕ → List ℕ → Bool
scan_payload table frame hdr_len count tcp =
    let payload_off : ℕ = eth_hdr_len + hdr_len + doff tcp * 4 in
    if leb (payload_off + signature_bytes) (length frame)
    then scan_loop table (u64_at (drop payload_off frame)) 0 count
    else false

abbrev scan_tcp : (ℕ → Option L7Pattern) → List ℕ → ℕ → ℕ → Bool
scan_tcp table frame hdr_len count = elim (ptr_at tcp_hdr_len frame (eth_hdr_len + hdr_len)) [
  | none ↦ false
  | some tcp ↦ scan_payload table frame hdr_len count tcp
]

abbrev scan_enabled : RuntimeConfig → (ℕ → Option L7Pattern) → List ℕ → ℕ → ℕ → ℕ → Bool
scan_enabled runtime table frame hdr_len protocol count =
    if runtime.l7_scan_enabled == 0
    then false
    else if protocol != 6
    then false
    else scan_tcp table frame hdr_len count

unfoldable pub scan : Option RuntimeConfig → (ℕ → Option L7Pattern) → List ℕ → ℕ → ℕ → ℕ → Bool
scan config table frame hdr_len protocol count = elim config [
  | none ↦ false
  | some runtime ↦ scan_enabled runtime table frame hdr_len protocol count
]
