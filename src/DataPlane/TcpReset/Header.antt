-- ===== src/DataPlane/TcpReset/Header.antt =====
-- eshield-ebpf/src/tcp_reset.rs: the answer read back as the client reads it.
use e_shield.Base.{
  ℕ, ◌*◌, ◌/◌, ◌≤◌, ◌≡◌, refl, sym, ap, ◌∙◌, List, ◌++◌, length, arith, swap16, swap32,
  wrapping_add32, bit_or, bit_and,
}
use mathlib.Core.Path.{subst}
use e_shield.DataPlane.Parser.Fields.{byte_at, u16_at, u32_at, ne_bytes, tcp_flag_rst, tcp_flag_ack}
use e_shield.DataPlane.Rewrite.{write, le16, swap_fields}
use e_shield.DataPlane.Rewrite.ReadBack.{
  patched, swapped, reads-write, reads-swap_fields, length-write, length-swap_fields, word16,
  word32, swap32-bytes,
}
use e_shield.DataPlane.TcpReset.{rst_headers, rst_pkt_len}

-- The TCP header from the sequence number on.
abbrev rst_tcp : List ℕ → List ℕ
rst_tcp frame =
    ne_bytes 0
    ++ ne_bytes (swap32 (wrapping_add32 (swap32 (u32_at frame 38)) 1))
    ++ le16 (swap16 (bit_or (5 * 0x1000) (bit_or tcp_flag_rst tcp_flag_ack)))
    ++ le16 0
    ++ le16 0
    ++ le16 0

abbrev swapped_bytes : (ℕ → ℕ) → ℕ → ℕ
swapped_bytes read = swapped (swapped (swapped read 0 6) 26 4) 34 2

abbrev rst_bytes : List ℕ → ℕ → ℕ
rst_bytes frame =
    patched (patched (patched (swapped_bytes (byte_at frame)) 38 (rst_tcp frame)) 24 (le16 0)) 16
      (le16 (swap16 rst_pkt_len))

reads-rst_headers :
    (frame : List ℕ)
    → 54 ≤ length frame
    → (byte_at (rst_headers frame) ≡ rst_bytes frame) × (length (rst_headers frame) ≡ length frame)
unfolding rst_headers
reads-rst_headers frame h =
    let macs : List ℕ = swap_fields frame 0 6 in
    let l₀ : length macs ≡ length frame = length-swap_fields frame 0 6 (omega arith) in
    let addrs : List ℕ = swap_fields macs 26 4 in
    let l₁ : length addrs ≡ length frame = length-swap_fields macs 26 4 (omega arith) ∙ l₀ in
    let ports : List ℕ = swap_fields addrs 34 2 in
    let l₂ : length ports ≡ length frame = length-swap_fields addrs 34 2 (omega arith) ∙ l₁ in
    let tcp : List ℕ = write ports 38 (rst_tcp frame) in
    let l₃ : length tcp ≡ length frame = length-write ports 38 (rst_tcp frame) (omega arith) ∙ l₂ in
    let check : List ℕ = write tcp 24 (le16 0) in
    let l₄ : length check ≡ length frame = length-write tcp 24 (le16 0) (omega arith) ∙ l₃ in
    let total : List ℕ = le16 (swap16 rst_pkt_len) in
    let swaps : byte_at ports ≡ swapped_bytes (byte_at frame) =
      reads-swap_fields addrs 34 2 (omega arith)
      ∙ ap (λ r. swapped r 34 2)
          (reads-swap_fields macs 26 4 (omega arith)
            ∙ ap (λ r. swapped r 26 4) (reads-swap_fields frame 0 6 (omega arith))) in
    (
      reads-write check 16 total (omega arith)
          ∙ ap (λ r. patched r 16 total)
              (reads-write tcp 24 (le16 0) (omega arith)
                ∙ ap (λ r. patched r 24 (le16 0))
                    (reads-write ports 38 (rst_tcp frame) (omega arith)
                      ∙ ap (λ r. patched r 38 (rst_tcp frame)) swaps)),
      length-write check 16 total (omega arith) ∙ l₄,
    )

-- The fields of the answer, as read by a function from offsets to bytes.
abbrev Answers : List ℕ → (ℕ → ℕ) → Type 0
Answers frame read =
    (word32 read 26 ≡ u32_at frame 30)
    × (word32 read 30 ≡ u32_at frame 26)
    × (word16 read 34 ≡ u16_at frame 36)
    × (word16 read 36 ≡ u16_at frame 34)
    × (swap32 (word32 read 42) ≡ wrapping_add32 (swap32 (u32_at frame 38)) 1)
    × (bit_and (swap16 (word16 read 46)) 0x3f ≡ 0x14)
    × (swap16 (word16 read 46) / 0x1000 ≡ 5)
    × (swap16 (word16 read 16) ≡ 40)

answered : (frame : List ℕ) → Answers frame (rst_bytes frame)
answered frame = (
  refl,
  refl,
  refl,
  refl,
  swap32-bytes (wrapping_add32 (swap32 (u32_at frame 38)) 1) (omega arith),
  refl,
  refl,
  refl,
)

-- In the RST built from a frame of at least 54 bytes the addresses and the ports have changed
-- places, the acknowledgement is the incoming sequence number plus one, the flags are RST and ACK,
-- the data offset is five words, the IPv4 total length is 40, and the frame's length is kept.
pub rst_headers_fields :
    (frame : List ℕ)
    → 54 ≤ length frame
    → let answer = rst_headers frame in
      (u32_at answer 26 ≡ u32_at frame 30)
      × (u32_at answer 30 ≡ u32_at frame 26)
      × (u16_at answer 34 ≡ u16_at frame 36)
      × (u16_at answer 36 ≡ u16_at frame 34)
      × (swap32 (u32_at answer 42) ≡ wrapping_add32 (swap32 (u32_at frame 38)) 1)
      × (bit_and (swap16 (u16_at answer 46)) 0x3f ≡ 0x14)
      × (swap16 (u16_at answer 46) / 0x1000 ≡ 5)
      × (swap16 (u16_at answer 16) ≡ 40)
      × (length answer ≡ length frame)
rst_headers_fields frame h =
    let (reads, same) = reads-rst_headers frame h in
    let fields : Answers frame (byte_at (rst_headers frame)) =
      subst (λ r. Answers frame r) (sym reads) (answered frame) in
    let (to, from, sport, dport, ack, flags, words, total) = fields in
    (to, from, sport, dport, ack, flags, words, total, same)
