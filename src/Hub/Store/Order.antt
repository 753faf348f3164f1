-- ===== src/Hub/Store/Order.antt =====
-- eshield-hub/src/store.rs: the tables stay in the order of their keys.
use e_shield.Base.{
  ℕ, ◌≤◌, ◌≡◌, refl, Bool-cases, inl, inr, true, false, some, [], ◌∷◌, if◌then◌else◌, arith,
}
use e_shield.Base.Dicts.{Dict, text_key, find, remove, same_list, same_list_iff}
use e_shield.Hub.Store.{Composite, time_of, before, put}

before_trans : (a b c : Composite) → before a b ≡ true → before b c ≡ true → before a c ≡ true
unfolding before
before_trans [] [] c h k = absurd (cc)
before_trans [] (y ∷ b) [] h k = absurd (cc)
before_trans [] (y ∷ b) (z ∷ c) h k = refl
before_trans (x ∷ a) [] c h k = absurd (cc)
before_trans (x ∷ a) (y ∷ b) [] h k = absurd (cc)
before_trans (x ∷ a) (y ∷ b) (z ∷ c) h k = ground (arith, before_trans a b c)

-- Of two keys that differ one is before the other.
before_total : (a b : Composite) → same_list a b ≡ false → before a b ≡ false → before b a ≡ true
unfolding before
before_total [] [] h k = absurd (cc)
before_total [] (y ∷ b) h k = absurd (cc)
before_total (x ∷ a) [] h k = refl
before_total (x ∷ a) (y ∷ b) h k = ground (arith, before_total a b)

before_time : (a b : Composite) → before a b ≡ true → time_of a ≤ time_of b
unfolding before
before_time [] [] h = omega arith
before_time [] (y ∷ b) h = omega arith
before_time (x ∷ a) [] h = absurd (cc)
before_time (x ∷ a) (y ∷ b) h = ground arith

module _ {ℓ} {V : Type ℓ} where
  -- Every key of the rows is after the given one.
  abbrev pub Above : Composite → Dict Composite V → Type 0
  Above k [] = Unit
  Above k (row ∷ rows) = (before k row.0 ≡ true) × Above k rows

  abbrev pub IsSorted : Dict Composite V → Type 0
  IsSorted [] = Unit
  IsSorted (row ∷ rows) = Above row.0 rows × IsSorted rows

  -- The rows stand in the order of their times, none before the given one.
  abbrev pub InTime : ℕ → Dict Composite V → Type 0
  InTime from [] = Unit
  InTime from (row ∷ rows) = (from ≤ time_of row.0) × InTime (time_of row.0) rows

  Above-times :
      (k : Composite) (rows : Dict Composite V)
      → Above k rows
      → IsSorted rows
      → InTime (time_of k) rows
  Above-times k [] a o = tt
  Above-times k (row ∷ rows) a o = (before_time k row.0 a.0, Above-times row.0 rows o.0 o.1)

  pub sorted_times : (rows : Dict Composite V) → IsSorted rows → InTime 0 rows
  sorted_times [] o = tt
  sorted_times (row ∷ rows) o = (omega arith, Above-times row.0 rows o.0 o.1)

  Above-later :
      (j k : Composite) (rows : Dict Composite V) → before j k ≡ true → Above k rows → Above j rows
  Above-later j k [] h a = tt
  Above-later j k (row ∷ rows) h a = (before_trans j k row.0 h a.0, Above-later j k rows h a.1)

  Above-put :
      (j k : Composite) (v : V) (rows : Dict Composite V)
      → before j k ≡ true
      → Above j rows
      → Above j (put k v rows)
  unfolding put
  Above-put j k v [] h a = (h, tt)
  Above-put j k v (row ∷ rows) h a = elim (Bool-cases (same_list k row.0)) [
    | inl same ↦ rw same (h, a.1)
    | inr other ↦ elim (Bool-cases (before k row.0)) [
      | inl front ↦ rw (other, front) (h, a)
      | inr behind ↦ rw (other, behind) (a.0, Above-put j k v rows h a.1)
    ]
  ]

  pub put-IsSorted :
      (k : Composite) (v : V) (rows : Dict Composite V) → IsSorted rows → IsSorted (put k v rows)
  unfolding put
  put-IsSorted k v [] o = (tt, tt)
  put-IsSorted k v (row ∷ rows) o = elim (Bool-cases (same_list k row.0)) [
    | inl same ↦ (let e : k ≡ row.0 = (same_list_iff k row.0).0 same in rw same (rw e o.0, o.1))
    | inr other ↦ elim (Bool-cases (before k row.0)) [
      | inl front ↦ rw (other, front) ((front, Above-later k row.0 rows front o.0), o)
      | inr behind ↦
          rw (other, behind)
            (
              Above-put row.0 k v rows (before_total k row.0 other behind) o.0,
              put-IsSorted k v rows o.1,
            )
    ]
  ]

  Above-remove :
      (j k : Composite) (rows : Dict Composite V) → Above j rows → Above j (remove k rows)
  unfolding remove
  Above-remove j k [] a = tt
  Above-remove j k (row ∷ rows) a = elim (Bool-cases (same_list k row.0)) [
    | inl same ↦ rw same (Above-remove j k rows a.1)
    | inr other ↦ rw other (a.0, Above-remove j k rows a.1)
  ]

  pub remove-IsSorted :
      (k : Composite) (rows : Dict Composite V) → IsSorted rows → IsSorted (remove k rows)
  unfolding remove
  remove-IsSorted k [] o = tt
  remove-IsSorted k (row ∷ rows) o = elim (Bool-cases (same_list k row.0)) [
    | inl same ↦ rw same (remove-IsSorted k rows o.1)
    | inr other ↦ rw other (Above-remove row.0 k rows o.0, remove-IsSorted k rows o.1)
  ]

  -- A lookup after an insertion, in any rows.
  pub find-put :
      (j k : Composite) (v : V) (rows : Dict Composite V)
      → find j (put k v rows) ≡ (if same_list j k then some v else find j rows)
  unfolding find put
  find-put j k v [] = refl
  find-put j k v (row ∷ rows) =
      ground (
        arith,
        find-put j k v rows,
        same_list_iff j k,
        same_list_iff k row.0,
        same_list_iff j row.0,
      )
