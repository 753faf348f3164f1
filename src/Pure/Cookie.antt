-- ===== src/Pure/Cookie.antt =====
-- eshield-common/src/pure.rs: the SYN cookie. `|` and `^` are the bit operations; a shift by a
-- constant is a product or a quotient by a power of two.
pub mod Fields
use e_shield.Base.{
  ℕ, zero, suc, ◌+◌, ◌*◌, ◌/◌, ◌%◌, List, [], ◌∷◌, leb, if◌then◌else◌, get_or, u16_mod, u32_mod,
  wrapping_add32, swap32, bit_and, bit_or, bit_xor,
}

-- `rotate_left(5)` on u32.
abbrev pub rotate_left5 : ℕ → ℕ
rotate_left5 h = (h * 32) % u32_mod + h / 0x800_0000

abbrev pub mix : ℕ → ℕ → ℕ
mix h v = let r : ℕ = rotate_left5 (wrapping_add32 h v) in bit_xor r (r / 0x1_0000)

abbrev pub cookie_secret_len : ℕ
cookie_secret_len = 16

-- `u32::from_le_bytes` of the four bytes from `i` on.
abbrev pub le_word : List ℕ → ℕ → ℕ
le_word bytes i =
    get_or bytes i 0
    + get_or bytes (suc i) 0 * 0x100
    + get_or bytes (suc (suc i)) 0 * 0x1_0000
    + get_or bytes (suc (suc (suc i))) 0 * 0x100_0000

unfoldable pub secret_words : List ℕ → List ℕ
secret_words secret =
    le_word secret 0 ∷ le_word secret 4 ∷ le_word secret 8 ∷ le_word secret 12 ∷ []

unfoldable pub mix_all : ℕ → List ℕ → ℕ
mix_all h [] = h
mix_all h (w ∷ words) = mix_all (mix h w) words

-- The hash that the low 30 bits are cut from.
unfoldable pub cookie_hash : ℕ → ℕ → ℕ → ℕ → ℕ → ℕ → List ℕ → ℕ
cookie_hash saddr daddr sport dport bucket mss_idx words =
    mix_all 0x9e37_79b9
      (swap32 saddr ∷ swap32 daddr ∷ bit_or (sport * 0x1_0000) dport ∷ bucket ∷ mss_idx ∷ words)

-- `<< 30` drops what does not fit 32 bits.
unfoldable pub build_cookie_words : ℕ → ℕ → ℕ → ℕ → ℕ → ℕ → List ℕ → ℕ
build_cookie_words saddr daddr sport dport bucket mss_idx words =
    bit_or (mss_idx * 0x4000_0000 % u32_mod)
      (bit_and (cookie_hash saddr daddr sport dport bucket mss_idx words) 0x3fff_ffff)

unfoldable pub build_cookie : ℕ → ℕ → ℕ → ℕ → ℕ → ℕ → List ℕ → ℕ
build_cookie saddr daddr sport dport bucket mss_idx secret =
    build_cookie_words saddr daddr sport dport bucket mss_idx (secret_words secret)

-- The casts `as u32` and `as u16` after `& 0xffff_ffff` and `& 0xffff` are written as remainders.
unfoldable pub build_cookie_runtime : ℕ → ℕ → List ℕ → ℕ → ℕ
build_cookie_runtime addr_pair port_bucket secret mss_idx =
    build_cookie_words (addr_pair % u32_mod) (addr_pair / u32_mod) (port_bucket % u16_mod)
      (port_bucket / u16_mod % u16_mod) (port_bucket / u32_mod) mss_idx (secret_words secret)

unfoldable pub mss_to_idx : ℕ → ℕ
mss_to_idx mss = if leb 1460 mss then 2 else if leb 1300 mss then 1 else 0
