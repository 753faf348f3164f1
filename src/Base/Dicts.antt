-- ===== src/Base/Dicts.antt =====
-- A `HashMap` or `DashMap` as a list of entries. The order of the list stands for the arbitrary
-- order in which such a map is walked, so no theorem may depend on it.
use Prim.Native.Nat.{ℕ, ◌≤◌}
use mathlib.Core.Path.{◌≡◌, refl}
use mathlib.Core.Logic.{◌↔◌, inl, inr}
use mathlib.Core.Bool.{Bool, true, false, ◌&&◌}
use mathlib.Core.Option.{Option, none, some}
use mathlib.Core.List.{List, [], ◌∷◌}
use native.Mathlib.Omega.{arith}
use e_shield.Base.Tests.{if◌then◌else◌, Bool-cases, ◌==◌, ==_iff}
use e_shield.Base.Lists.{length}

-- The keys' equality, as the program tests it.
pub record Key {ℓ} (K : Type ℓ) : Type ℓ where
  pub beq : K → K → Bool
  pub beq_iff : (a b : K) → (beq a b ≡ true) ↔ (a ≡ b)

abbrev pub is_same {ℓ} : {K : Type ℓ} ⦃key : Key K⦄ → K → K → Bool
is_same ⦃key⦄ = key.beq

abbrev pub same_list : List ℕ → List ℕ → Bool
same_list [] [] = true
same_list [] (y ∷ ys) = false
same_list (x ∷ xs) [] = false
same_list (x ∷ xs) (y ∷ ys) = x == y && same_list xs ys

pub same_list_iff : (xs ys : List ℕ) → (same_list xs ys ≡ true) ↔ (xs ≡ ys)
same_list_iff [] [] = ground arith
same_list_iff [] (y ∷ ys) = ground arith
same_list_iff (x ∷ xs) [] = ground arith
same_list_iff (x ∷ xs) (y ∷ ys) = ground (arith, same_list_iff xs ys)

instance abbrev pub ℕ_key : Key ℕ
ℕ_key = record { beq = ◌==◌; beq_iff = ==_iff }

instance abbrev pub text_key : Key (List ℕ)
text_key = record { beq = same_list; beq_iff = same_list_iff }

abbrev pub Dict {ℓ κ} : Type ℓ → Type κ → Type (ℓ ⊔ κ)
Dict K V = List (K × V)

-- What `retain` leaves under a key: its value, if the test keeps it.
abbrev pub kept_by {ℓ} : {V : Type ℓ} → (V → Bool) → Option V → Option V
kept_by keep none = none
kept_by keep (some v) = if keep v then some v else none

module _ {ℓ κ} {K : Type ℓ} {V : Type κ} ⦃key : Key K⦄ where
  unfoldable pub find : K → Dict K V → Option V
  find k [] = none
  find k (e ∷ d) = if is_same k e.0 then some e.1 else find k d

  unfoldable pub remove : K → Dict K V → Dict K V
  remove k [] = []
  remove k (e ∷ d) = if is_same k e.0 then remove k d else e ∷ remove k d

  unfoldable pub insert : K → V → Dict K V → Dict K V
  unfolding remove
  insert k v d = (k, v) ∷ remove k d

  -- `retain`, with a test of the value.
  unfoldable pub retain : (V → Bool) → Dict K V → Dict K V
  retain keep [] = []
  retain keep (e ∷ d) = if keep e.1 then e ∷ retain keep d else retain keep d

  -- No key stands twice.
  abbrev pub HasUniqueKeys : Dict K V → Type κ
  HasUniqueKeys [] = Unit
  HasUniqueKeys (e ∷ d) = (find e.0 d ≡ none) × HasUniqueKeys d

  pub find-remove_self : (k : K) (d : Dict K V) → find k (remove k d) ≡ none
  unfolding find remove
  find-remove_self k [] = refl
  find-remove_self k (e ∷ d) = ground (arith, find-remove_self k d)

  pub find-remove_other :
      (j k : K) (d : Dict K V) → is_same j k ≡ false → find j (remove k d) ≡ find j d
  unfolding find remove
  find-remove_other j k [] h = refl
  find-remove_other j k (e ∷ d) h =
      ground
        (arith, find-remove_other j k d h, key.beq_iff j e.0, key.beq_iff k e.0, key.beq_iff j k)

  pub find-remove :
      (j k : K) (d : Dict K V) → find j (remove k d) ≡ (if is_same j k then none else find j d)
  find-remove j k d = elim (Bool-cases (is_same j k)) [
    | inl same ↦ rw same (ground (arith, find-remove_self k d, key.beq_iff j k))
    | inr other ↦ rw other (find-remove_other j k d other)
  ]

  pub find-insert_self : (k : K) (v : V) (d : Dict K V) → find k (insert k v d) ≡ some v
  unfolding find insert
  find-insert_self k v d = ground (arith, key.beq_iff k k)

  pub find-insert_other :
      (j k : K) (v : V) (d : Dict K V) → is_same j k ≡ false → find j (insert k v d) ≡ find j d
  unfolding find insert
  find-insert_other j k v d h = rw h (find-remove_other j k d h)

  pub find-insert :
      (j k : K) (v : V) (d : Dict K V)
      → find j (insert k v d) ≡ (if is_same j k then some v else find j d)
  unfolding find insert
  find-insert j k v d = elim (Bool-cases (is_same j k)) [
    | inl same ↦ rw same refl
    | inr other ↦ rw other (find-remove_other j k d other)
  ]

  pub find-retain-none :
      (keep : V → Bool) (k : K) (d : Dict K V) → find k d ≡ none → find k (retain keep d) ≡ none
  unfolding find retain
  find-retain-none keep k [] h = refl
  find-retain-none keep k (e ∷ d) h = ground (arith, find-retain-none keep k d)

  pub retain-HasUniqueKeys :
      (keep : V → Bool) (d : Dict K V) → HasUniqueKeys d → HasUniqueKeys (retain keep d)
  unfolding retain
  retain-HasUniqueKeys keep [] u = tt
  retain-HasUniqueKeys keep (e ∷ d) u =
      ground (arith, retain-HasUniqueKeys keep d, find-retain-none keep e.0 d)

  pub remove-HasUniqueKeys : (k : K) (d : Dict K V) → HasUniqueKeys d → HasUniqueKeys (remove k d)
  unfolding remove
  remove-HasUniqueKeys k [] u = tt
  remove-HasUniqueKeys k (e ∷ d) u = elim (Bool-cases (is_same k e.0)) [
    | inl h ↦ rw h (remove-HasUniqueKeys k d u.1)
    | inr h ↦ rw h (rw (find-remove_other e.0 k d (flip h)) (u.0), remove-HasUniqueKeys k d u.1)
  ]
    where
      flip : is_same k e.0 ≡ false → is_same e.0 k ≡ false
      flip h = ground (arith, key.beq_iff k e.0, key.beq_iff e.0 k)

  pub insert-HasUniqueKeys :
      (k : K) (v : V) (d : Dict K V) → HasUniqueKeys d → HasUniqueKeys (insert k v d)
  unfolding insert
  insert-HasUniqueKeys k v d u = (find-remove_self k d, remove-HasUniqueKeys k d u)

  pub find-retain :
      (keep : V → Bool) (k : K) (d : Dict K V)
      → HasUniqueKeys d
      → find k (retain keep d) ≡ kept_by keep (find k d)
  unfolding find retain
  find-retain keep k [] u = refl
  find-retain keep k (e ∷ d) u =
      ground (arith, find-retain keep k d u.1, find-retain-none keep k d, key.beq_iff k e.0)

  pub length-remove-le : (k : K) (d : Dict K V) → length (remove k d) ≤ length d
  unfolding remove
  length-remove-le k [] = omega arith
  length-remove-le k (e ∷ d) = ground (arith, length-remove-le k d)
