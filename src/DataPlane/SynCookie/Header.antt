-- ===== src/DataPlane/SynCookie/Header.antt =====
-- eshield-ebpf/src/syn_cookie.rs: the SYN-ACK read back as the client reads it.
use e_shield.Base.{
  ℕ, ◌+◌, ◌*◌, ◌/◌, ◌%◌, ◌≤◌, ◌<◌, ◌≡◌, ◌⊎◌, inl, inr, refl, sym, ap, ◌∙◌, List, [], ◌∷◌, ◌++◌,
  length, arith, swap16, swap32, u16_max, u32_mod, wrapping_add32, bit_and,
}
use mathlib.Core.Path.{subst}
use e_shield.DataPlane.Parser.Fields.{byte_at, u16_at, u32_at, ne_bytes}
use e_shield.DataPlane.Rewrite.{write, le16, swap_fields}
use e_shield.DataPlane.Rewrite.ReadBack.{
  patched, swapped, reads-write, reads-swap_fields, length-write, length-swap_fields, word16,
  word32, swap32-bytes,
}
use e_shield.DataPlane.SynCookie.Synack.{synack_headers, synack_doff_flags}

abbrev synack_tcp : ℕ → ℕ → ℕ → List ℕ
synack_tcp new_len cookie seq =
    ne_bytes (swap32 cookie)
    ++ ne_bytes (swap32 (wrapping_add32 seq 1))
    ++ le16 (synack_doff_flags new_len)
    ++ le16 (swap16 u16_max)
    ++ le16 0

abbrev rewritten_ip : ℕ → (ℕ → ℕ) → ℕ → ℕ
rewritten_ip new_len read =
    patched (patched (patched (swapped (swapped read 0 6) 26 4) 22 (64 ∷ [])) 24 (le16 0)) 16
      (le16 (swap16 (20 + new_len)))

abbrev synack_bytes : List ℕ → ℕ → ℕ → ℕ → ℕ → ℕ
synack_bytes frame new_len cookie seq =
    patched (swapped (rewritten_ip new_len (byte_at frame)) 34 2) 38 (synack_tcp new_len cookie seq)

reads-synack_headers :
    (frame : List ℕ) (new_len cookie seq : ℕ)
    → 54 ≤ length frame
    → byte_at (synack_headers frame 20 new_len cookie seq) ≡ synack_bytes frame new_len cookie seq
unfolding synack_headers
reads-synack_headers frame new_len cookie seq h =
    let macs : List ℕ = swap_fields frame 0 6 in
    let l₀ : length macs ≡ length frame = length-swap_fields frame 0 6 (omega arith) in
    let addrs : List ℕ = swap_fields macs 26 4 in
    let l₁ : length addrs ≡ length frame = length-swap_fields macs 26 4 (omega arith) ∙ l₀ in
    let ttl : List ℕ = write addrs 22 (64 ∷ []) in
    let l₂ : length ttl ≡ length frame = length-write addrs 22 (64 ∷ []) (omega arith) ∙ l₁ in
    let check : List ℕ = write ttl 24 (le16 0) in
    let l₃ : length check ≡ length frame = length-write ttl 24 (le16 0) (omega arith) ∙ l₂ in
    let total : List ℕ = le16 (swap16 (20 + new_len)) in
    let ip : List ℕ = write check 16 total in
    let l₄ : length ip ≡ length frame = length-write check 16 total (omega arith) ∙ l₃ in
    let ports : List ℕ = swap_fields ip 34 2 in
    let l₅ : length ports ≡ length frame = length-swap_fields ip 34 2 (omega arith) ∙ l₄ in
    let tcp : List ℕ = synack_tcp new_len cookie seq in
    let swaps : byte_at addrs ≡ swapped (swapped (byte_at frame) 0 6) 26 4 =
      reads-swap_fields macs 26 4 (omega arith)
      ∙ ap (λ r. swapped r 26 4) (reads-swap_fields frame 0 6 (omega arith)) in
    let ip_reads : byte_at ip ≡ rewritten_ip new_len (byte_at frame) =
      reads-write check 16 total (omega arith)
      ∙ ap (λ r. patched r 16 total)
          (reads-write ttl 24 (le16 0) (omega arith)
            ∙ ap (λ r. patched r 24 (le16 0))
                (reads-write addrs 22 (64 ∷ []) (omega arith)
                  ∙ ap (λ r. patched r 22 (64 ∷ [])) swaps)) in
    reads-write ports 38 tcp (omega arith)
    ∙ ap (λ r. patched r 38 tcp)
        (reads-swap_fields ip 34 2 (omega arith) ∙ ap (λ r. swapped r 34 2) ip_reads)

-- The fields of the answer, as read by a function from offsets to bytes.
abbrev Challenges : List ℕ → ℕ → ℕ → (ℕ → ℕ) → Type 0
Challenges frame cookie seq read =
    (word32 read 26 ≡ u32_at frame 30)
    × (word32 read 30 ≡ u32_at frame 26)
    × (word16 read 34 ≡ u16_at frame 36)
    × (word16 read 36 ≡ u16_at frame 34)
    × (swap32 (word32 read 38) ≡ cookie)
    × (swap32 (word32 read 42) ≡ wrapping_add32 seq 1)

no_syn_flag :
    (new_len : ℕ)
    → (new_len ≡ 20) ⊎ (new_len ≡ 24)
    → let word = synack_doff_flags new_len in
      let read = swap16 (word % 0x100 + word / 0x100 % 0x100 * 0x100) in
      (bit_and read 0x02 ≡ 0) × (read / 0x1000 ≡ 1)
unfolding synack_doff_flags
no_syn_flag new_len (inl e) = rw e (refl, refl)
no_syn_flag new_len (inr e) = rw e (refl, refl)

-- In the SYN-ACK built from a frame of at least 54 bytes with a 20-byte IP header the addresses and
-- the ports have changed places, the sequence number is the cookie, and the acknowledgement is the
-- client's sequence number plus one; but in the word of flags and data offset, read in the
-- order of the network, the SYN flag is not set and the data offset is 1, whichever of the two
-- header lengths was chosen.
pub synack_headers_fields :
    (frame : List ℕ) (new_len cookie seq : ℕ)
    → 54 ≤ length frame
    → cookie < u32_mod
    → (new_len ≡ 20) ⊎ (new_len ≡ 24)
    → let answer = synack_headers frame 20 new_len cookie seq in
      (u32_at answer 26 ≡ u32_at frame 30)
      × (u32_at answer 30 ≡ u32_at frame 26)
      × (u16_at answer 34 ≡ u16_at frame 36)
      × (u16_at answer 36 ≡ u16_at frame 34)
      × (swap32 (u32_at answer 38) ≡ cookie)
      × (swap32 (u32_at answer 42) ≡ wrapping_add32 seq 1)
      × (bit_and (swap16 (u16_at answer 46)) 0x02 ≡ 0)
      × (swap16 (u16_at answer 46) / 0x1000 ≡ 1)
synack_headers_fields frame new_len cookie seq h hc hl =
    let reads = reads-synack_headers frame new_len cookie seq h in
    let fields : Challenges frame cookie seq
        (byte_at (synack_headers frame 20 new_len cookie seq)) =
      subst (λ r. Challenges frame cookie seq r) (sym reads)
        (
          refl,
          refl,
          refl,
          refl,
          swap32-bytes cookie hc,
          swap32-bytes (wrapping_add32 seq 1) (omega arith),
        ) in
    let (to, from, sport, dport, first, ack) = fields in
    let (no_syn, words) =
      subst (λ r. (bit_and (swap16 (word16 r 46)) 0x02 ≡ 0) × (swap16 (word16 r 46) / 0x1000 ≡ 1))
        (sym reads) (no_syn_flag new_len hl) in
    (to, from, sport, dport, first, ack, no_syn, words)
