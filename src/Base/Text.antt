-- ===== src/Base/Text.antt =====
-- `&str` as the list of its bytes, with what the crates use of the standard library on it.
use Prim.Native.Char.{code}
use Prim.Native.String.{String}
use Prim.Native.Nat.{ℕ, ◌+◌, ◌-◌, ◌*◌, ◌≤◌}
use mathlib.Core.Path.{◌≡◌, refl}
use mathlib.Core.Logic.{inl, inr}
use native.Mathlib.Omega.{arith}
use mathlib.Core.Bool.{◌&&◌}
use mathlib.Core.Option.{Option, none, some}
use mathlib.Core.List.{List, [], ◌∷◌}
use e_shield.Base.Tests.{leb, ◌==◌, Bool-cases, if◌then◌else◌}

abbrev pub Text : Type 0
Text = List ℕ

-- The bytes of an ASCII literal.
abbrev pub bytes : String → Text
bytes String.[] = []
bytes (String.◌∷◌ c s) = code c ∷ bytes s

abbrev pub map_bytes : (ℕ → ℕ) → Text → Text
map_bytes f [] = []
map_bytes f (c ∷ s) = f c ∷ map_bytes f s

abbrev pub lower_byte : ℕ → ℕ
lower_byte c = if leb b'A' c && leb c b'Z' then c + 32 else c

unfoldable pub to_ascii_lowercase : Text → Text
to_ascii_lowercase s = map_bytes lower_byte s

-- `split_once(c)`: the parts before and after the first `c`.
abbrev put_before : ℕ → Option (Text × Text) → Option (Text × Text)
put_before c none = none
put_before c (some (before, after)) = some (c ∷ before, after)

unfoldable pub split_once : ℕ → Text → Option (Text × Text)
split_once sep [] = none
split_once sep (c ∷ s) =
    let rest = split_once sep s in if c == sep then some ([], s) else put_before c rest

abbrev digit : ℕ → Option ℕ
digit c = if leb b'0' c && leb c b'9' then some (c - b'0') else none

-- One digit more, with the overflow checks of `from_str`.
abbrev add_digit : ℕ → ℕ → Option ℕ → Option ℕ
add_digit limit value none = none
add_digit limit value (some d) = if leb (value * 10 + d) limit then some (value * 10 + d) else none

unfoldable pub parse_digits : ℕ → Text → Option ℕ → Option ℕ
parse_digits limit s none = none
parse_digits limit [] (some value) = some value
parse_digits limit (c ∷ s) (some value) = parse_digits limit s (add_digit limit value (digit c))

-- `str::parse` of an unsigned type with the given maximum: a `+` may come first, and there is a digit.
unfoldable pub parse_unsigned : ℕ → Text → Option ℕ
unfolding parse_digits
parse_unsigned limit [] = none
parse_unsigned limit (c ∷ []) = parse_digits limit (c ∷ []) (some 0)
parse_unsigned limit (c ∷ d ∷ s) =
    if c == b'+'
    then parse_digits limit (d ∷ s) (some 0)
    else parse_digits limit (c ∷ d ∷ s) (some 0)

added_le : (limit value : ℕ) (d : Option ℕ) {n : ℕ} → add_digit limit value d ≡ some n → n ≤ limit
added_le limit value none h = cc
added_le limit value (some d) h = ground arith

parse_digits-le :
    (limit : ℕ) (s : Text) (start : Option ℕ) {n : ℕ}
    → ((v : ℕ) → start ≡ some v → v ≤ limit)
    → parse_digits limit s start ≡ some n
    → n ≤ limit
unfolding parse_digits
parse_digits-le limit s none b h = cc
parse_digits-le limit [] (some v) b h = ground (arith, b v refl)
parse_digits-le limit (c ∷ s) (some v) b h =
    parse_digits-le limit s (add_digit limit v (digit c)) (λ w e. added_le limit v (digit c) e) h

-- A parsed number fits its type.
pub parse_unsigned-le : (limit : ℕ) (s : Text) {n : ℕ} → parse_unsigned limit s ≡ some n → n ≤ limit
unfolding parse_unsigned
parse_unsigned-le limit [] h = cc
parse_unsigned-le limit (c ∷ []) h = parse_digits-le limit (c ∷ []) (some 0) (λ v e. ground arith) h
parse_unsigned-le limit (c ∷ d ∷ s) h = elim (Bool-cases (c == b'+')) [
  | inl plus ↦ parse_digits-le limit (d ∷ s) (some 0) (λ v e. ground arith) (rw plus at h)
  | inr plain ↦ parse_digits-le limit (c ∷ d ∷ s) (some 0) (λ v e. ground arith) (rw plain at h)
]
