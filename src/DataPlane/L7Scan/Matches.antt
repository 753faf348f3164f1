-- ===== src/DataPlane/L7Scan/Matches.antt =====
-- eshield-ebpf/src/l7_scan.rs: which payloads are found.
use e_shield.Base.{
  ℕ, zero, suc, ◌+◌, ◌*◌, ◌≤◌, ◌<◌, ◌≡◌, ◌≢◌, ◌↔◌, refl, inl, inr, Bool, true, false, Bool-cases,
  ◌&&◌, ◌==◌, ==_iff, leb, Option, none, some, List, length, drop, arith, ℕ_discrete, bit_and,
}
use e_shield.Common.Entries.{L7Pattern}
use e_shield.Common.Config.{RuntimeConfig}
use e_shield.DataPlane.Parser.Fields.{eth_hdr_len, tcp_hdr_len, ptr_at, doff}
use e_shield.DataPlane.L7Scan.{pattern_hits, scan_loop, u64_at, signature_bytes, scan}

-- One of the patterns from an index on is in use and agrees with the eight bytes under its mask.
abbrev pub Matches : (ℕ → Option L7Pattern) → ℕ → ℕ → ℕ → Type 0
Matches table chunk start count =
    (i : ℕ) × (pat : L7Pattern) × (start ≤ i)
    × (i < start + count)
    × (table i ≡ some pat)
    × (pat.pattern_length ≢ 0)
    × (bit_and chunk pat.mask ≡ bit_and pat.signature pat.mask)

hits_pattern :
    (chunk : ℕ) (o : Option L7Pattern)
    → pattern_hits chunk o ≡ true
    → (pat : L7Pattern) × (o ≡ some pat)
      × (pat.pattern_length ≢ 0)
      × (bit_and chunk pat.mask ≡ bit_and pat.signature pat.mask)
hits_pattern chunk none h = cc
hits_pattern chunk (some pat) h = (pat, refl, ground arith, ground arith)

pattern_hits-true :
    (chunk : ℕ) (o : Option L7Pattern) (pat : L7Pattern)
    → o ≡ some pat
    → pat.pattern_length ≢ 0
    → bit_and chunk pat.mask ≡ bit_and pat.signature pat.mask
    → pattern_hits chunk o ≡ true
pattern_hits-true chunk o pat here used same = rw here (ground arith)

scan_loop_sound :
    (table : ℕ → Option L7Pattern) (chunk start count : ℕ)
    → scan_loop table chunk start count ≡ true
    → Matches table chunk start count
unfolding scan_loop
scan_loop_sound table chunk start zero h = cc
scan_loop_sound table chunk start (suc count) h =
    elim (Bool-cases (pattern_hits chunk (table start))) [
      | inl hit ↦
          (let (pat, here, used, same) = hits_pattern chunk (table start) hit in
            (start, pat, omega arith, omega arith, here, used, same))
      | inr miss ↦
          (let (i, pat, low, high, here, used, same) =
              scan_loop_sound table chunk (start + 1) count (rw miss at h) in
            (i, pat, omega arith, omega arith, here, used, same))
    ]

scan_loop_complete :
    (table : ℕ → Option L7Pattern) (chunk start count : ℕ)
    → Matches table chunk start count
    → scan_loop table chunk start count ≡ true
unfolding scan_loop
scan_loop_complete table chunk start zero (i, pat, low, high, here, used, same) =
    absurd (omega arith)
scan_loop_complete table chunk start (suc count) (i, pat, low, high, here, used, same) =
    elim (ℕ_discrete i start) [
      | yes e ↦
          (let hit = pattern_hits-true chunk (table start) pat (rw e at here) used same in
            rw hit refl)
      | no ne ↦
          (let later =
              scan_loop_complete table chunk (start + 1) count
                (i, pat, omega arith, omega arith, here, used, same) in
            ground (arith, later))
    ]

all_three :
    {P Q M : Type 0} (p q b : Bool)
    → (p ≡ true) ↔ P
    → (q ≡ true) ↔ Q
    → (b ≡ true) ↔ M
    → ((p && q && b) ≡ true) ↔ (P × Q × M)
all_three true true b hp hq hb = (λ e. (hp.0 refl, hq.0 refl, hb.0 e), λ x. hb.1 x.2)
all_three true false b hp hq hb = (λ e. cc, λ x. hq.1 x.1)
all_three false q b hp hq hb = (λ e. cc, λ x. hp.1 x.0)

leb_iff : (a b : ℕ) → (leb a b ≡ true) ↔ (a ≤ b)
leb_iff a b = ground arith

-- The nested tests as one conjunction.
scan_in_turn :
    (runtime : RuntimeConfig) (table : ℕ → Option L7Pattern) (frame tcp : List ℕ)
    (hdr_len protocol count : ℕ)
    → runtime.l7_scan_enabled ≢ 0
    → ptr_at tcp_hdr_len frame (eth_hdr_len + hdr_len) ≡ some tcp
    → let payload_off = eth_hdr_len + hdr_len + doff tcp * 4 in
      scan (some runtime) table frame hdr_len protocol count ≡ (
        (protocol == 6)
        && leb (payload_off + signature_bytes) (length frame)
        && scan_loop table (u64_at (drop payload_off frame)) 0 count)
unfolding scan
scan_in_turn runtime table frame tcp hdr_len protocol count enabled reach =
    ground (arith, enabled, reach)

-- With the scan enabled and a TCP header in reach, a TCP packet is found exactly when eight bytes
-- of payload are there and one of the first `count` patterns that are in use agrees with them under
-- its mask; a packet of any other protocol is never found.
scan_iff :
    (runtime : RuntimeConfig) (table : ℕ → Option L7Pattern) (frame tcp : List ℕ)
    (hdr_len protocol count : ℕ)
    → runtime.l7_scan_enabled ≢ 0
    → ptr_at tcp_hdr_len frame (eth_hdr_len + hdr_len) ≡ some tcp
    → let payload_off = eth_hdr_len + hdr_len + doff tcp * 4 in
      (scan (some runtime) table frame hdr_len protocol count ≡ true) ↔ (
        (protocol ≡ 6)
        × (payload_off + signature_bytes ≤ length frame)
        × Matches table (u64_at (drop payload_off frame)) 0 count)
scan_iff runtime table frame tcp hdr_len protocol count enabled reach =
    let chunk : ℕ = u64_at (drop (eth_hdr_len + hdr_len + doff tcp * 4) frame) in
    let found : (scan_loop table chunk 0 count ≡ true) ↔ Matches table chunk 0 count =
      (scan_loop_sound table chunk 0 count, scan_loop_complete table chunk 0 count) in
    rw (scan_in_turn runtime table frame tcp hdr_len protocol count enabled reach)
      (all_three (protocol == 6) _ _ (==_iff protocol 6) (leb_iff _ _) found)
