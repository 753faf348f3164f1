-- ===== src/Base/Words.antt =====
-- Rust's fixed-width arithmetic on native numbers. A value is kept below `2 ^ w`; the modulus is
-- written as a numeral so that the tactics read it.
use Prim.Native.Nat.{ℕ, ◌+◌, ◌-◌, ◌*◌, ◌/◌, ◌%◌, ◌<◌, min}
use mathlib.Core.Path.{◌≡◌}
use native.Mathlib.Omega.{arith}

abbrev pub u16_mod : ℕ
u16_mod = 0x1_0000

abbrev pub u32_mod : ℕ
u32_mod = 0x1_0000_0000

abbrev pub u64_mod : ℕ
u64_mod = 0x1_0000_0000_0000_0000

-- `u64::MAX` and its siblings.
abbrev pub u8_max : ℕ
u8_max = 0xff

abbrev pub u16_max : ℕ
u16_max = 0xffff

abbrev pub u32_max : ℕ
u32_max = 0xffff_ffff

abbrev pub u64_max : ℕ
u64_max = 0xffff_ffff_ffff_ffff

-- `wrapping_add`, `wrapping_mul`, and `+`, `*` in the release profile.
abbrev pub wrapping_add64 : ℕ → ℕ → ℕ
wrapping_add64 a b = (a + b) % u64_mod

abbrev pub wrapping_mul64 : ℕ → ℕ → ℕ
wrapping_mul64 a b = (a * b) % u64_mod

abbrev pub wrapping_add32 : ℕ → ℕ → ℕ
wrapping_add32 a b = (a + b) % u32_mod

-- `a.wrapping_sub(b)` on u32.
abbrev pub wrapping_sub32 : ℕ → ℕ → ℕ
wrapping_sub32 a b = (a + u32_mod - b) % u32_mod

-- `saturating_add` stops at the type's maximum; `saturating_sub` is the truncated `-`.
abbrev pub saturating_add64 : ℕ → ℕ → ℕ
saturating_add64 a b = min (a + b) u64_max

abbrev pub saturating_add32 : ℕ → ℕ → ℕ
saturating_add32 a b = min (a + b) u32_max

abbrev pub saturating_mul32 : ℕ → ℕ → ℕ
saturating_mul32 a b = min (a * b) u32_max

-- Byte order of the target `bpfel-unknown-none`: `from_be` and `to_be` swap bytes.
abbrev pub swap16 : ℕ → ℕ
swap16 x = (x % 256) * 256 + x / 256 % 256

abbrev pub swap32 : ℕ → ℕ
swap32 x =
    (x % 256) * 0x100_0000
    + (x / 0x100 % 256) * 0x1_0000
    + (x / 0x1_0000 % 256) * 0x100
    + x / 0x100_0000 % 256

pub swap16-swap16 : (x : ℕ) → x < u16_mod → swap16 (swap16 x) ≡ x
swap16-swap16 x h = omega arith

pub swap32-swap32 : (x : ℕ) → x < u32_mod → swap32 (swap32 x) ≡ x
swap32-swap32 x h = omega arith
