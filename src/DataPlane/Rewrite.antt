-- ===== src/DataPlane/Rewrite.antt =====
-- Writes into the frame and the folding of checksums that tcp_reset.rs and syn_cookie.rs share.
pub mod ReadBack
use e_shield.Base.{
  ℕ, ◌+◌, ◌-◌, ◌/◌, ◌%◌, Option, none, some, List, [], ◌∷◌, ◌++◌, length, drop, take, ◌==◌,
  if◌then◌else◌, u16_max, u16_mod, u32_mod,
}

-- Bytes written over the frame from an offset on.
unfoldable pub write : List ℕ → ℕ → List ℕ → List ℕ
write frame offset bytes = take offset frame ++ bytes ++ drop (offset + length bytes) frame

-- A u16 stored in the machine's order.
abbrev pub le16 : ℕ → List ℕ
le16 x = x % 0x100 ∷ x / 0x100 % 0x100 ∷ []

abbrev pub slice : List ℕ → ℕ → ℕ → List ℕ
slice frame offset size = take size (drop offset frame)

-- `mem::swap` of two adjacent fields of `size` bytes.
unfoldable pub swap_fields : List ℕ → ℕ → ℕ → List ℕ
swap_fields frame offset size =
    write frame offset (slice frame (offset + size) size ++ slice frame offset size)

-- `finalize_csum`, which both files declare.
unfoldable pub finalize_csum : ℕ → ℕ
finalize_csum sum =
    let v : ℕ = sum % u32_mod in
    let once : ℕ = v % u16_mod + v / u16_mod in
    let twice : ℕ = once % u16_mod + once / u16_mod in
    let r : ℕ = u16_max - twice % u16_mod in if r == 0 then 0xffff else r

-- The three words of the pseudo header, added by `bpf_csum_diff` one at a time.
unfoldable pub pseudo_sum : (List ℕ → ℕ → Option ℕ) → List ℕ → List ℕ → ℕ → Option ℕ
pseudo_sum csum_diff saddr daddr tcp_len = elim (csum_diff saddr 0) [
  | none ↦ none
  | some first ↦ elim (csum_diff daddr (first % u32_mod)) [
    | none ↦ none
    | some second ↦ csum_diff (0 ∷ 6 ∷ 0 ∷ tcp_len ∷ []) (second % u32_mod)
  ]
]
