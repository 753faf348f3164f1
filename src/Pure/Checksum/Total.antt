-- ===== src/Pure/Checksum/Total.antt =====
-- The loops of the checksum: the exact sum of the words, and the folding of carries.
use e_shield.Base.{
  ℕ, ◌+◌, ◌*◌, ◌%◌, ◌≤◌, ◌<◌, ◌≡◌, List, [], ◌∷◌, ◌++◌, length, arith, u16_mod, u32_mod, ◌⊎◌,
}
use e_shield.Base.Bits.{bit_or-shifted}
use e_shield.Pure.Checksum.{be_word, sum_words, fold_carries}

abbrev pub AllBytes : List ℕ → Type 0
AllBytes [] = Unit
AllBytes (b ∷ bs) = (b < 256) × AllBytes bs

-- The 16-bit big-endian words of a packet, added without a bound.
abbrev pub words_total : List ℕ → ℕ
words_total [] = 0
words_total (a ∷ []) = a * 256
words_total (a ∷ b ∷ rest) = a * 256 + b + words_total rest

be_word_lem : (a b : ℕ) → b < 256 → be_word a b ≡ a * 256 + b
be_word_lem a b h = bit_or-shifted 8 a b h

-- While the exact sum fits 32 bits, the loop computes it.
pub sum_words_lem :
    (sum : ℕ) (bs : List ℕ)
    → AllBytes bs
    → sum + words_total bs < u32_mod
    → sum_words sum bs ≡ sum + words_total bs
unfolding sum_words
sum_words_lem sum [] all h = omega arith
sum_words_lem sum (a ∷ []) all h = omega arith
sum_words_lem sum (a ∷ b ∷ rest) all h =
    let word : be_word a b ≡ a * 256 + b = be_word_lem a b all.1.0 in
    let next : (sum + be_word a b) % u32_mod ≡ sum + (a * 256 + b) = omega arith in
    rw next (omega (arith, sum_words_lem (sum + (a * 256 + b)) rest all.1.1))

pub words_total-le : (bs : List ℕ) → AllBytes bs → words_total bs ≤ 65535 * length bs
words_total-le [] all = omega arith
words_total-le (a ∷ []) all = omega arith
words_total-le (a ∷ b ∷ rest) all = omega (arith, words_total-le rest all.1.1)

pub words_total-append :
    (p r : List ℕ) → length p % 2 ≡ 0 → words_total (p ++ r) ≡ words_total p + words_total r
words_total-append [] r h = omega arith
words_total-append (a ∷ []) r h = absurd (omega arith)
words_total-append (a ∷ b ∷ p) r h = omega (arith, words_total-append p r (omega arith))

pub AllBytes-append : (p r : List ℕ) → AllBytes p → AllBytes r → AllBytes (p ++ r)
AllBytes-append [] r hp hr = hr
AllBytes-append (a ∷ p) r hp hr = (hp.0, AllBytes-append p r hp.1 hr)

-- Four rounds always leave a 16-bit value, which differs from the sum by a multiple of 65535 and
-- is 0 only for 0.
pub fold_carries_lem :
    (sum : ℕ)
    → sum < u32_mod
    → (fold_carries 4 sum < u16_mod)
      × (fold_carries 4 sum % 65535 ≡ sum % 65535)
      × (((sum ≡ 0) × (fold_carries 4 sum ≡ 0)) ⊎ ((0 < sum) × (0 < fold_carries 4 sum)))
unfolding fold_carries
fold_carries_lem sum h = ground arith
