-- ===== src/Base/Bits.antt =====
-- Laws of the bit operations at variables, from the digit recursion that they stand for.
use Prim.Native.Nat.{
  ℕ, zero, suc, ◌+◌, ◌*◌, ◌/◌, ◌%◌, ◌^◌, ◌≤◌, ◌<◌, min, max, bit_and, bit_or, bit_xor, digits,
  differ, bit_and-bitwise, bit_or-bitwise, bit_xor-bitwise,
}
use mathlib.Core.Path.{◌≡◌, refl, ap}
use native.Mathlib.Omega.{arith}
use native.Mathlib.Nat.{pow-suc}

-- Any count of digits that the first number does not exceed gives the same result.
digits_fuel :
    (z : ℕ → ℕ) (f : ℕ → ℕ → ℕ) (n m a b : ℕ) → a ≤ n → a ≤ m → digits z f n a b ≡ digits z f m a b
digits_fuel z f zero zero a b p q = refl
digits_fuel z f zero (suc m) zero b p q = refl
digits_fuel z f zero (suc m) (suc a) b p q = absurd (omega arith)
digits_fuel z f (suc n) zero zero b p q = refl
digits_fuel z f (suc n) zero (suc a) b p q = absurd (omega arith)
digits_fuel z f (suc n) (suc m) zero b p q = refl
digits_fuel z f (suc n) (suc m) (suc a) b p q =
    omega (arith, digits_fuel z f n m (suc a / 2) (b / 2) (omega arith) (omega arith))

digits_half :
    (z : ℕ → ℕ) (f : ℕ → ℕ → ℕ) (a b : ℕ)
    → digits z f (suc a) (suc a) b
      ≡ digits z f (suc a / 2) (suc a / 2) (b / 2) * 2 + f (suc a % 2) (b % 2)
digits_half z f a b =
    omega (arith, digits_fuel z f a (suc a / 2) (suc a / 2) (b / 2) (omega arith) (omega arith))

pub bit_and_halves : (a b : ℕ) → bit_and a b ≡ bit_and (a / 2) (b / 2) * 2 + min (a % 2) (b % 2)
bit_and_halves zero b = omega (arith, bit_and-bitwise 0 b, bit_and-bitwise 0 (b / 2))
bit_and_halves (suc a) b = omega (
  arith,
  digits_half (λ b. zero) min a b,
  bit_and-bitwise (suc a) b,
  bit_and-bitwise (suc a / 2) (b / 2),
)

pub bit_or_halves : (a b : ℕ) → bit_or a b ≡ bit_or (a / 2) (b / 2) * 2 + max (a % 2) (b % 2)
bit_or_halves zero b = omega (arith, bit_or-bitwise 0 b, bit_or-bitwise 0 (b / 2))
bit_or_halves (suc a) b = omega (
  arith,
  digits_half (λ b. b) max a b,
  bit_or-bitwise (suc a) b,
  bit_or-bitwise (suc a / 2) (b / 2),
)

differ-le : (x y : ℕ) → x ≤ 1 → y ≤ 1 → differ x y ≤ 1
differ-le zero y p q = q
differ-le (suc x) zero p q = p
differ-le (suc zero) (suc zero) p q = omega arith
differ-le (suc zero) (suc (suc y)) p q = absurd (omega arith)
differ-le (suc (suc x)) (suc y) p q = absurd (omega arith)

pub bit_xor_halves : (a b : ℕ) → bit_xor a b ≡ bit_xor (a / 2) (b / 2) * 2 + differ (a % 2) (b % 2)
bit_xor_halves zero b = omega (arith, bit_xor-bitwise 0 b, bit_xor-bitwise 0 (b / 2))
bit_xor_halves (suc a) b = omega (
  arith,
  digits_half (λ b. b) differ a b,
  bit_xor-bitwise (suc a) b,
  bit_xor-bitwise (suc a / 2) (b / 2),
)

-- The bits of a conjunction are bits of its right operand.
and_le_fuel : (n a b : ℕ) → a ≤ n → bit_and a b ≤ b
and_le_fuel zero zero b h = omega (arith, bit_and-bitwise 0 b)
and_le_fuel zero (suc a) b h = absurd (omega arith)
and_le_fuel (suc n) a b h = omega (arith, bit_and_halves a b, and_le_fuel n (a / 2) (b / 2))

pub bit_and-le_right : (a b : ℕ) → bit_and a b ≤ b
bit_and-le_right a b = and_le_fuel a a b (omega arith)

-- The exclusive or of two words of `k` bits is a word of `k` bits.
pub bit_xor-lt : (k a b : ℕ) → a < 2 ^ k → b < 2 ^ k → bit_xor a b < 2 ^ k
bit_xor-lt zero zero zero p q = omega arith
bit_xor-lt zero (suc a) b p q = absurd (omega arith)
bit_xor-lt zero zero (suc b) p q = absurd (omega arith)
bit_xor-lt (suc k) a b p q = omega (
  arith,
  pow-suc 2 k,
  bit_xor_halves a b,
  differ-le (a % 2) (b % 2) (omega arith) (omega arith),
  bit_xor-lt k (a / 2) (b / 2),
)

or_zero_fuel : (n a : ℕ) → a ≤ n → bit_or a 0 ≡ a
or_zero_fuel zero zero h = refl
or_zero_fuel zero (suc a) h = absurd (omega arith)
or_zero_fuel (suc n) a h = omega (arith, bit_or_halves a 0, or_zero_fuel n (a / 2))

-- Fields that do not overlap: `|` is addition.
pub bit_or-shifted : (k m l : ℕ) → l < 2 ^ k → bit_or (m * 2 ^ k) l ≡ m * 2 ^ k + l
bit_or-shifted zero m zero h = omega (arith, or_zero_fuel (m * 1) (m * 1))
bit_or-shifted zero m (suc l) h = absurd (omega arith)
bit_or-shifted (suc k) m l h =
    let x : ℕ = m * 2 ^ k in
    let double : m * 2 ^ suc k ≡ x * 2 = omega (arith, ap (λ t. m * t) (pow-suc 2 k)) in
    let half : x * 2 / 2 ≡ x = omega arith in
    rw double (
      omega (
        arith,
        pow-suc 2 k,
        bit_or_halves (x * 2) l,
        ap (λ t. bit_or t (l / 2)) half,
        bit_or-shifted k m (l / 2),
      ))

-- The same with the shifted field on the right.
pub bit_or-shifted_right : (k m l : ℕ) → l < 2 ^ k → bit_or l (m * 2 ^ k) ≡ m * 2 ^ k + l
bit_or-shifted_right zero m zero h = omega (arith, bit_or-bitwise 0 (m * 1))
bit_or-shifted_right zero m (suc l) h = absurd (omega arith)
bit_or-shifted_right (suc k) m l h =
    let x : ℕ = m * 2 ^ k in
    let double : m * 2 ^ suc k ≡ x * 2 = omega (arith, ap (λ t. m * t) (pow-suc 2 k)) in
    let half : x * 2 / 2 ≡ x = omega arith in
    rw double (
      omega (
        arith,
        pow-suc 2 k,
        bit_or_halves l (x * 2),
        ap (λ t. bit_or (l / 2) t) half,
        bit_or-shifted_right k m (l / 2),
      ))

and_append_fuel :
    (k a x b y : ℕ)
    → a < 2 ^ k
    → b < 2 ^ k
    → bit_and (a + 2 ^ k * x) (b + 2 ^ k * y) ≡ bit_and a b + 2 ^ k * bit_and x y
and_append_fuel zero zero x zero y p q = omega (
  arith,
  ap (λ t. bit_and t (0 + 1 * y)) (unit x),
  ap (λ t. bit_and x t) (unit y),
  bit_and-bitwise 0 0,
)
  where
    unit : (z : ℕ) → 0 + 1 * z ≡ z
    unit z = omega arith
and_append_fuel zero (suc a) x b y p q = absurd (omega arith)
and_append_fuel zero zero x (suc b) y p q = absurd (omega arith)
and_append_fuel (suc k) a x b y p q =
    let u : ℕ = 2 ^ k * x in
    let v : ℕ = 2 ^ k * y in
    let w : ℕ = 2 ^ k * bit_and x y in
    let double : (z : ℕ) → 2 ^ suc k * z ≡ 2 ^ k * z * 2 =
      λ z. omega (arith, ap (λ t. t * z) (pow-suc 2 k)) in
    rw (double x, double y, double (bit_and x y))
      (omega (
        arith,
        pow-suc 2 k,
        bit_and_halves (a + u * 2) (b + v * 2),
        bit_and_halves a b,
        ap (λ t. bit_and t ((b + v * 2) / 2)) (half a u),
        ap (λ t. bit_and (a / 2 + u) t) (half b v),
        and_append_fuel k (a / 2) x (b / 2) y (omega (arith, pow-suc 2 k))
            (omega (arith, pow-suc 2 k)),
      ))
  where
    half : (c z : ℕ) → (c + z * 2) / 2 ≡ c / 2 + z
    half c z = omega arith

-- `&` works on a low byte and on the rest apart.
pub bit_and-append :
    (a x b y : ℕ)
    → a < 256
    → b < 256
    → bit_and (a + 256 * x) (b + 256 * y) ≡ bit_and a b + 256 * bit_and x y
bit_and-append a x b y p q = and_append_fuel 8 a x b y p q
