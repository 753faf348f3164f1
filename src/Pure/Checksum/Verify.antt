-- ===== src/Pure/Checksum/Verify.antt =====
-- The receiver's test of a checksum.
use e_shield.Base.{
  ℕ, ◌+◌, ◌*◌, ◌/◌, ◌%◌, ◌≤◌, ◌<◌, ◌≡◌, List, ◌∷◌, ◌++◌, length, length-append, arith, u16_mod,
  u32_mod,
}
use e_shield.Pure.Checksum.{sum_words, complement16, checksum}
use e_shield.Pure.Checksum.Total.{
  AllBytes, words_total, sum_words_lem, words_total-le, words_total-append, AllBytes-append,
  fold_carries_lem,
}

-- Adding the complement of a sum to the sum folds to all ones.
complement16_closes :
    (sum : ℕ) → sum + u16_mod < u32_mod → complement16 (sum + complement16 sum) ≡ 0
unfolding complement16
complement16_closes sum h = omega (
  arith,
  fold_carries_lem sum (omega arith),
  fold_carries_lem (sum + complement16 sum) (omega arith),
)

complement16-lt : (sum : ℕ) → complement16 sum < u16_mod
unfolding complement16
complement16-lt sum = omega arith

-- The total of a packet with a 16-bit field at an even offset.
total_with_field :
    (p r : List ℕ) (hi lo : ℕ)
    → length p % 2 ≡ 0
    → words_total (p ++ hi ∷ lo ∷ r) ≡ words_total p + (hi * 256 + lo + words_total r)
total_with_field p r hi lo even = words_total-append p (hi ∷ lo ∷ r) even

checksum_lem :
    (bs : List ℕ) → AllBytes bs → length bs ≤ 65535 → checksum bs ≡ complement16 (words_total bs)
unfolding checksum
checksum_lem bs all h =
    let sum : sum_words 0 bs ≡ words_total bs =
      omega (arith, sum_words_lem 0 bs all, words_total-le bs all) in
    rw sum

-- Writing a check value into a zero field adds it to the total.
field_adds :
    (p r : List ℕ) (c : ℕ)
    → length p % 2 ≡ 0
    → words_total (p ++ c / 256 ∷ c % 256 ∷ r) ≡ words_total (p ++ 0 ∷ 0 ∷ r) + c
field_adds p r c even =
    omega (arith, total_with_field p r (c / 256) (c % 256) even, total_with_field p r 0 0 even)

same_length : (p r : List ℕ) (c : ℕ) → length (p ++ c / 256 ∷ c % 256 ∷ r) ≡ length (p ++ 0 ∷ 0 ∷ r)
same_length p r c =
    omega (arith, length-append p (c / 256 ∷ c % 256 ∷ r), length-append p (0 ∷ 0 ∷ r))

-- Bytes of at most 65535 in number whose checksum was computed with a zero field at an even
-- offset, and then written into that field, have the checksum 0, which a receiver asks for.
pub checksum_verifies :
    (p r : List ℕ)
    → AllBytes p
    → AllBytes r
    → length p % 2 ≡ 0
    → length (p ++ 0 ∷ 0 ∷ r) ≤ 65535
    → let check = checksum (p ++ 0 ∷ 0 ∷ r) in checksum (p ++ check / 256 ∷ check % 256 ∷ r) ≡ 0
checksum_verifies p r hp hr even short =
    let zeroed : List ℕ = p ++ 0 ∷ 0 ∷ r in
    let total : ℕ = words_total zeroed in
    let bytes : AllBytes zeroed =
      AllBytes-append p (0 ∷ 0 ∷ r) hp (omega arith, (omega arith, hr)) in
    let c : ℕ = complement16 total in
    let filled : AllBytes (p ++ c / 256 ∷ c % 256 ∷ r) =
      AllBytes-append p (c / 256 ∷ c % 256 ∷ r) hp
        (omega (arith, complement16-lt total), (omega arith, hr)) in
    rw
      (
        checksum_lem zeroed bytes short,
        checksum_lem (p ++ c / 256 ∷ c % 256 ∷ r) filled (omega (arith, same_length p r c)),
        field_adds p r c even,
      )
      (complement16_closes total (omega (arith, words_total-le zeroed bytes)))
