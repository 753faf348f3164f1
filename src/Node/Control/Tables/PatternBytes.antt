-- ===== src/Node/Control/Tables/PatternBytes.antt =====
-- eshield/src/control.rs: a compiled signature agrees with a payload as its bytes do.
use e_shield.Base.{
  ℕ, zero, suc, ◌+◌, ◌*◌, ◌%◌, ◌≤◌, ◌<◌, ◌≡◌, ◌↔◌, ◌⊎◌, refl, ap, true, false, Option, none, some,
  List, [], ◌∷◌, leb, ◌==◌, length, length-replicate, arith, take, drop, get_or, bit_and,
}
use e_shield.Base.Bits.{bit_and-append, bit_and-le_right}
use e_shield.Base.Text.{Text}
use e_shield.Base.Results.{ok}
use e_shield.Common.Entries.{L7Pattern}
use e_shield.Common.Config.{max_l7_patterns}
use e_shield.DataPlane.L7Scan.{pattern_hits, u64_at}
use e_shield.Node.Config.Sections.{L7PatternConfig}
use e_shield.Node.Config.Validate.Lists.{
  is_empty, mask_fits, all_pass, pattern_passes, validate_l7_patterns,
}
use e_shield.Node.Control.Tables.{from_le, mask_of, compile_pattern}

abbrev pub AreBytes : Text → Type 0
AreBytes [] = Unit
AreBytes (c ∷ s) = (c < 256) × AreBytes s

-- The payload's bytes agree with the pattern's where the mask's bits are set.
abbrev pub Agrees : Text → Text → Text → Type 0
Agrees [] mask payload = Unit
Agrees (c ∷ pattern) [] payload = Unit
Agrees (c ∷ pattern) (m ∷ mask) [] = ⊥
Agrees (c ∷ pattern) (m ∷ mask) (p ∷ payload) =
    (bit_and p m ≡ bit_and c m) × Agrees pattern mask payload

agree_iff :
    (pattern mask payload : Text)
    → length mask ≡ length pattern
    → length pattern ≤ length payload
    → AreBytes pattern
    → AreBytes mask
    → AreBytes payload
    → (bit_and (from_le payload) (from_le mask) ≡ bit_and (from_le pattern) (from_le mask))
      ↔ Agrees pattern mask payload
unfolding from_le
agree_iff [] [] payload e l bc bm bp =
    ((λ h. tt), λ h. omega (arith, bit_and-le_right (from_le payload) 0, bit_and-le_right 0 0))
agree_iff [] (m ∷ mask) payload e l bc bm bp = absurd (omega arith)
agree_iff (c ∷ pattern) [] payload e l bc bm bp = absurd (omega arith)
agree_iff (c ∷ pattern) (m ∷ mask) [] e l bc bm bp = absurd (omega arith)
agree_iff (c ∷ pattern) (m ∷ mask) (p ∷ payload) e l bc bm bp =
    let rest = agree_iff pattern mask payload (omega arith) (omega arith) bc.1 bm.1 bp.1 in
    let left = bit_and-append p (from_le payload) m (from_le mask) bp.0 bm.0 in
    let right = bit_and-append c (from_le pattern) m (from_le mask) bc.0 bm.0 in
    let low = bit_and-le_right p m in
    let low' = bit_and-le_right c m in
    (
      (λ h. (omega (arith, bm.0), rest.0 (omega (arith, bm.0)))),
      λ h. omega (arith, h.0, rest.1 h.1),
    )

le_step :
    (p : Text) (i n : ℕ)
    → from_le (take (suc n) (drop i p)) ≡ get_or p i 0 + 256 * from_le (take n (drop (suc i) p))
unfolding from_le
le_step [] zero zero = omega arith
le_step [] zero (suc n) = omega arith
le_step [] (suc i) zero = omega arith
le_step [] (suc i) (suc n) = omega arith
le_step (c ∷ p) zero n = refl
le_step (c ∷ p) (suc i) n = le_step p i n

-- The word that the scan reads is made of the first eight bytes.
pub u64-from_le : (p : Text) → u64_at p ≡ from_le (take 8 p)
unfolding from_le
u64-from_le p = omega (
  arith,
  le_step p 0 7,
  le_step p 1 6,
  le_step p 2 5,
  le_step p 3 4,
  le_step p 4 3,
  le_step p 5 2,
  le_step p 6 1,
  le_step p 7 0,
)

-- The bytes of a pattern, and of its mask, are bytes.
abbrev pub HasBytes : L7PatternConfig → Type 0
HasBytes pat = AreBytes pat.pattern × AreBytes (mask_of pat.pattern pat.mask)

abbrev pub AllHaveBytes : List L7PatternConfig → Type 0
AllHaveBytes [] = Unit
AllHaveBytes (pat ∷ patterns) = HasBytes pat × AllHaveBytes patterns

-- One of the patterns agrees with the payload.
abbrev pub AnyAgrees : Text → List L7PatternConfig → Type 0
AnyAgrees payload [] = ⊥
AnyAgrees payload (pat ∷ patterns) =
    Agrees pat.pattern (mask_of pat.pattern pat.mask) payload ⊎ AnyAgrees payload patterns

length-mask_of :
    (pat : L7PatternConfig) (mask : Option Text)
    → mask_fits pat mask ≡ true
    → length (mask_of pat.pattern mask) ≡ length pat.pattern
length-mask_of pat none h = length-replicate (length pat.pattern) 0xff
length-mask_of pat (some mask) h = ground arith

pub take-all {ℓ} : {A : Type ℓ} (n : ℕ) (xs : List A) → length xs ≤ n → take n xs ≡ xs
take-all zero [] h = refl
take-all zero (x ∷ xs) h = absurd (omega arith)
take-all (suc n) [] h = refl
take-all (suc n) (x ∷ xs) h = ap (λ ys. x ∷ ys) (take-all n xs (omega arith))

pub checked :
    (patterns : List L7PatternConfig)
    → validate_l7_patterns patterns ≡ ok tt
    → (length patterns ≤ max_l7_patterns) × (all_pass pattern_passes patterns ≡ true)
unfolding validate_l7_patterns
checked patterns h = ground arith

-- The parts of the check of one pattern.
pub record Passes (pat : L7PatternConfig) : Type 0 where
  pub some_bytes : 0 < length pat.pattern
  pub few_bytes : length pat.pattern ≤ 8
  pub mask_length : length (mask_of pat.pattern pat.mask) ≡ length pat.pattern

pub passed :
    (pat : L7PatternConfig) (patterns : List L7PatternConfig)
    → all_pass pattern_passes (pat ∷ patterns) ≡ true
    → Passes pat × (all_pass pattern_passes patterns ≡ true)
passed pat patterns h = (
  record {
    some_bytes = go pat.pattern (ground arith);
    few_bytes = ground arith;
    mask_length = length-mask_of pat pat.mask (ground arith);
  },
  ground arith,
)
  where
    go : (s : Text) → is_empty s ≡ false → 0 < length s
    go [] e = absurd (cc)
    go (c ∷ s) e = omega arith

abbrev pub compiled : L7PatternConfig → L7Pattern
compiled pat = record {
  signature = from_le pat.pattern;
  mask = from_le (mask_of pat.pattern pat.mask);
  pattern_length = length pat.pattern % 256;
  action = 0;
}

pub compile_pattern-ok :
    (pat : L7PatternConfig) → Passes pat → compile_pattern pat ≡ ok (compiled pat)
unfolding compile_pattern
compile_pattern-ok pat p =
    let few : leb (length pat.pattern) 8 ≡ true = ground (arith, p.few_bytes) in
    let fits : (length (mask_of pat.pattern pat.mask) == length pat.pattern) ≡ true =
      ground (arith, p.mask_length) in
    rw (few, fits) refl

pub pattern_hits_iff :
    (pat : L7PatternConfig) (payload : Text)
    → Passes pat
    → HasBytes pat
    → length payload ≡ 8
    → AreBytes payload
    → (pattern_hits (from_le payload) (some (compiled pat)) ≡ true)
      ↔ Agrees pat.pattern (mask_of pat.pattern pat.mask) payload
pattern_hits_iff pat payload p b l bp =
    let same =
      agree_iff pat.pattern (mask_of pat.pattern pat.mask) payload p.mask_length
        (omega (arith, p.few_bytes)) b.0 b.1 bp in
    ground (arith, same, p.some_bytes, p.few_bytes)
