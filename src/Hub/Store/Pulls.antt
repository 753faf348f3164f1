-- ===== src/Hub/Store/Pulls.antt =====
-- eshield-hub/src/store.rs: a node that follows the cursor misses nothing and sees nothing twice.
use e_shield.Base.{
  ℕ, zero, suc, ◌≤◌, ◌<◌, ◌≡◌, refl, ◌∙◌, sym, ap, false, none, List, [], ◌∷◌, ◌++◌, leb, ◌==◌,
  length, length-append, arith,
}
use e_shield.Base.Dicts.{Dict}
use e_shield.Hub.Store.{Composite, time_of, Store, SharedPolicy}
use e_shield.Hub.Store.Query.{page, rows_since, values, query_since}
use e_shield.Hub.Store.Order.{InTime, IsSorted, sorted_times}
use e_shield.Hub.Store.Pages.{newer, Paged, page-Paged, page-newer, newer-InTime, newer-newer}

module _ {ℓ} {V : Type ℓ} where
  -- A page is empty only if there is nothing newer.
  first_taken :
      (since limit : ℕ) (rows : Dict Composite V)
      → InTime (suc since) rows
      → 0 < length rows
      → 0 < length (page since limit 0 none since rows).0
  unfolding page
  first_taken since limit [] o h = absurd (omega arith)
  first_taken since limit (row ∷ rows) (first, o) h =
      (let fresh : leb (time_of row.0) since ≡ false = ground arith in rw fresh (omega arith))

  -- The queries of a node that starts each one at the cursor of the one before.
  unfoldable follow : ℕ → ℕ → ℕ → Dict Composite V → Dict Composite V
  follow zero limit since rows = []
  follow (suc left) limit since rows =
      let found = rows_since since limit rows in found.0 ++ follow left limit found.1 rows

  length-newer-le : (since : ℕ) (rows : Dict Composite V) → length (newer since rows) ≤ length rows
  length-newer-le since [] = omega arith
  length-newer-le since (row ∷ rows) = ground (arith, length-newer-le since rows)

  follow_all :
      (left limit since : ℕ) (rows : Dict Composite V)
      → 0 < limit
      → InTime 0 rows
      → length (newer since rows) ≤ left
      → follow left limit since rows ≡ newer since rows
  unfolding follow rows_since
  follow_all zero limit since rows h o fuel = empty (newer since rows) fuel
    where
      empty : (rs : Dict Composite V) → length rs ≤ 0 → [] ≡ rs
      empty [] h = refl
      empty (r ∷ rs) h = absurd (omega arith)
  follow_all (suc left) limit since rows h o fuel =
      let found = page since limit 0 none since rows in
      let some_limit : (limit == 0) ≡ false = ground arith in
      let ahead = newer-InTime since 0 rows o in
      let paged : Paged since (newer since rows) found =
        rw (page-newer since limit 0 none since rows) (
          page-Paged since limit 0 none since (suc since) (newer since rows) (omega arith)
            (omega arith) ahead tt) in
      let later : newer found.1 (newer since rows) ≡ newer found.1 rows =
        newer-newer since found.1 rows paged.forward in
      let size = length-append found.0 (newer found.1 rows) in
      let whole : found.0 ++ newer found.1 rows ≡ newer since rows =
        ap (λ rs. found.0 ++ rs) (sym later) ∙ paged.complete in
      let total = ap length whole in
      let progress : 0 < length (newer since rows) → 0 < length found.0 = λ some_row.
        rw (page-newer since limit 0 none since rows)
          (first_taken since limit (newer since rows) ahead some_row) in
      let shorter : length (newer found.1 rows) ≤ left =
        ground (arith, size, total, progress, fuel) in
      rw some_limit
        (ap (λ rs. found.0 ++ rs) (follow_all left limit found.1 rows h o shorter) ∙ whole)

-- The policies that a node gets which starts each query at the cursor of the one before.
unfoldable pub pulls : ℕ → ℕ → ℕ → Store → List SharedPolicy
pulls zero limit since s = []
pulls (suc left) limit since s =
    let found = query_since since limit s in found.0 ++ pulls left limit found.1 s

values-append : {V : Type 0} (xs ys : Dict Composite V) → values (xs ++ ys) ≡ values xs ++ values ys
values-append [] ys = refl
values-append (x ∷ xs) ys = ap (λ vs. x.1 ∷ vs) (values-append xs ys)

pulls-follow :
    (left limit since : ℕ) (s : Store)
    → pulls left limit since s ≡ values (follow left limit since s.policies)
unfolding pulls follow query_since
pulls-follow zero limit since s = refl
pulls-follow (suc left) limit since s =
    let found = rows_since since limit s.policies in
    ap (λ vs. values found.0 ++ vs) (pulls-follow left limit found.1 s)
    ∙ sym (values-append found.0 (follow left limit found.1 s.policies))

-- In a store whose rows stand in the order of their keys, and with any positive limit, a node that
-- starts each query at the cursor of the one before gets, in as many queries as there are rows, every
-- policy that is newer than its start, each once and in order, although a page is cut by the limit.
pub pulls-newer :
    (limit since : ℕ) (s : Store)
    → 0 < limit
    → IsSorted s.policies
    → pulls (length s.policies) limit since s ≡ values (newer since s.policies)
pulls-newer limit since s h o =
    pulls-follow (length s.policies) limit since s
    ∙ ap values (
        follow_all (length s.policies) limit since s.policies h (sorted_times s.policies o)
          (length-newer-le since s.policies))
