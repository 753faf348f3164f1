-- ===== src/Pure/Checksum.antt =====
-- eshield-common/src/pure.rs: the Internet checksum, and TCP's with its pseudo header. The u32
-- accumulator wraps, as `+=` does in the release profile.
pub mod Total
pub mod Verify
use e_shield.Base.{
  ℕ, zero, suc, ◌+◌, ◌-◌, ◌*◌, ◌/◌, ◌%◌, List, [], ◌∷◌, ◌==◌, if◌then◌else◌, length, u16_max,
  u16_mod, u32_mod, wrapping_add32, bit_or,
}

-- `((data[i] as u32) << 8) | (data[i + 1] as u32)`.
abbrev pub be_word : ℕ → ℕ → ℕ
be_word hi lo = bit_or (hi * 256) lo

-- The `while` loop over pairs, and the `if` for a last odd byte.
unfoldable pub sum_words : ℕ → List ℕ → ℕ
sum_words sum [] = sum
sum_words sum (a ∷ []) = wrapping_add32 sum (a * 256)
sum_words sum (a ∷ b ∷ rest) = sum_words (wrapping_add32 sum (be_word a b)) rest

-- One round of `sum = (sum & 0xffff) + (sum >> 16)`, with the `break` once no carry is left.
unfoldable pub fold_carries : ℕ → ℕ → ℕ
fold_carries zero sum = sum
fold_carries (suc rounds) sum =
    fold_carries rounds (if sum / u16_mod == 0 then sum else sum % u16_mod + sum / u16_mod)

-- `!(sum as u16)` after the four rounds.
unfoldable pub complement16 : ℕ → ℕ
complement16 sum = u16_max - fold_carries 4 sum % u16_mod

unfoldable pub checksum : List ℕ → ℕ
checksum bytes = complement16 (sum_words 0 bytes)

unfoldable pub tcp_checksum : ℕ → ℕ → ℕ → List ℕ → ℕ
tcp_checksum saddr daddr proto tcp_data =
    let pseudo : ℕ =
      saddr / u16_mod % u16_mod
      + saddr % u16_mod
      + daddr / u16_mod % u16_mod
      + daddr % u16_mod
      + proto
      + length tcp_data % u32_mod in
    complement16 (sum_words pseudo tcp_data)
