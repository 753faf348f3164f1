-- ===== src/Node/Ip/Octets.antt =====
-- eshield/src/ip.rs: which octets of an address a network keeps.
use e_shield.Base.{
  ℕ, zero, suc, ◌+◌, ◌/◌, ◌%◌, ◌<◌, ◌≡◌, ◌≢◌, refl, Bool-cases, inl, inr, List, [], ◌∷◌, ltb,
  if◌then◌else◌, get_or, set, arith,
}
use e_shield.Node.Ip.{clear_from, mask_octet, network_v6}

get_or-clear_from :
    (n : ℕ) (xs : List ℕ) (i : ℕ)
    → get_or (clear_from n xs) i 0 ≡ (if ltb i n then get_or xs i 0 else 0)
get_or-clear_from n [] i = ground arith
get_or-clear_from zero (x ∷ xs) zero = ground arith
get_or-clear_from (suc n) (x ∷ xs) zero = ground arith
get_or-clear_from zero (x ∷ xs) (suc i) = ground (arith, get_or-clear_from zero xs i)
get_or-clear_from (suc n) (x ∷ xs) (suc i) = ground (arith, get_or-clear_from n xs i)

get_or-set_other : (xs : List ℕ) (j i v : ℕ) → i ≢ j → get_or (set xs j v) i 0 ≡ get_or xs i 0
get_or-set_other [] j i v h = refl
get_or-set_other (x ∷ xs) zero zero v h = absurd (h refl)
get_or-set_other (x ∷ xs) zero (suc i) v h = refl
get_or-set_other (x ∷ xs) (suc j) zero v h = refl
get_or-set_other (x ∷ xs) (suc j) (suc i) v h = get_or-set_other xs j i v (λ e. h (omega arith))

mask_octet_other :
    (byte bit : ℕ) (xs : List ℕ) (i : ℕ)
    → i ≢ byte
    → get_or (mask_octet byte bit xs) i 0 ≡ get_or xs i 0
mask_octet_other byte bit xs i h = elim (Bool-cases (ltb 0 bit)) [
  | inl some_bits ↦ rw some_bits (get_or-set_other xs byte i _ h)
  | inr none ↦ rw none refl
]

-- An IPv6 network with a positive prefix keeps the whole octets of the prefix and clears every octet
-- after the one that the prefix ends in. Where the prefix ends between two octets, the octet right
-- after it is kept as well, although all its bits are host bits.
network_v6_octets :
    (octets : List ℕ) (prefix i : ℕ)
    → 0 < prefix
    → let left = get_or (network_v6 octets prefix) i 0 in
      (i < prefix / 8 → left ≡ get_or octets i 0)
      × (prefix / 8 < i → left ≡ 0)
      × (i ≡ prefix / 8 → prefix % 8 ≡ 0 → left ≡ get_or octets i 0)
unfolding network_v6
network_v6_octets octets prefix i h = ground (
  arith,
  get_or-clear_from (prefix / 8 + 1) (mask_octet (prefix / 8) (prefix % 8) octets) i,
  mask_octet_other (prefix / 8) (prefix % 8) octets i,
)
