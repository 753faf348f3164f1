-- ===== src/Hub/Store/Chunks.antt =====
-- eshield-hub/src/store.rs: a long list of policies, merged chunk by chunk.
use e_shield.Base.{
  ℕ, zero, suc, ◌≤◌, ◌≡◌, refl, sym, ap, Bool, Bool-cases, inl, inr, true, Option, none, some, List,
  [], ◌∷◌, ◌++◌, length, length-append, length-drop, length-replicate, take-drop, leb, take, drop,
  replicate, arith,
}
use mathlib.Core.List.{append-nil}
use e_shield.Base.Text.{Text}
use e_shield.Hub.Store.{Store, NodePolicy, merge_chunk, chunk, go_on, merge_chunks, merge}
use e_shield.Hub.Store.Index.{policy_of, IsIndexed}
use e_shield.Hub.Store.Reports.{View, Shows, Gives, reports, merge_chunk-Gives}

-- Times that the clock has shown.
abbrev AreReadings : (ℕ → ℕ) → List ℕ → Type 0
AreReadings clock [] = Unit
AreReadings clock (t ∷ times) = ((i : ℕ) × (clock i ≡ t)) × AreReadings clock times

-- The merge has finished, and each policy was reported once, in order, at a time of the clock.
pub record Merged (clock : ℕ → ℕ) (name : Text) (nodes : List NodePolicy) (view : View)
    (r : Store × Bool) : Type 0 where
  pub finished : r.1 ≡ true
  pub times : List ℕ
  pub one_each : length times ≡ length nodes
  pub readings : AreReadings clock times
  pub shows : Shows (reports name times nodes view) r.0

reports-append :
    (name : Text) (times later : List ℕ) (xs ys : List NodePolicy) (view : View)
    → length times ≡ length xs
    → reports name (times ++ later) (xs ++ ys) view
      ≡ reports name later ys (reports name times xs view)
unfolding reports
reports-append name [] later [] ys view h = refl
reports-append name [] later (x ∷ xs) ys view h = absurd (omega arith)
reports-append name (t ∷ times) later [] ys view h = absurd (omega arith)
reports-append name (t ∷ times) later (x ∷ xs) ys view h =
    reports-append name times later xs ys _ (omega arith)

one_reading :
    (clock : ℕ → ℕ) (i n : ℕ) (later : List ℕ)
    → AreReadings clock later
    → AreReadings clock (replicate n (clock i) ++ later)
one_reading clock i zero later h = h
one_reading clock i (suc n) later h = ((i, refl), one_reading clock i n later h)

-- A chunk before what is merged after it.
go_on-Merged :
    (clock : ℕ → ℕ) (i : ℕ) (name : Text) (xs ys nodes : List NodePolicy) (view : View)
    (r : Option Store) (s : Store) (rest : Store → Store × Bool)
    → Gives (reports name (replicate (length xs) (clock i)) xs view) r
    → ((s' : Store) (view' : View) → Shows view' s' → Merged clock name ys view' (rest s'))
    → xs ++ ys ≡ nodes
    → Merged clock name nodes view (go_on r s rest)
go_on-Merged clock i name xs ys nodes view none s rest g h whole = absurd g
go_on-Merged clock i name xs ys nodes view (some s') s rest g h whole =
    let first = replicate (length xs) (clock i) in
    let m = h s' (reports name first xs view) g in
    let size = length-replicate (length xs) (clock i) in
    record {
      finished = m.finished;
      times = first ++ m.times;
      one_each = omega (
        arith,
        size,
        m.one_each,
        length-append first m.times,
        length-append xs ys,
        ap length whole,
      );
      readings = one_reading clock i (length xs) m.times m.readings;
      shows = rw (sym whole, reports-append name first m.times xs ys view size) (m.shows);
    }

nothing_left :
    (clock : ℕ → ℕ) (name : Text) (view : View) (s : Store)
    → Shows view s
    → Merged clock name [] view (s, true)
unfolding reports
nothing_left clock name view s S = record {
  finished = refl;
  times = [];
  one_each = refl;
  readings = tt;
  shows = S;
}

merge_chunks-Merged :
    (left : ℕ) (clock : ℕ → ℕ) (name : Text) (nodes : List NodePolicy) (s : Store) (view : View)
    → Shows view s
    → length nodes ≤ left
    → Merged clock name nodes view (merge_chunks left clock name nodes s)
unfolding merge_chunks
merge_chunks-Merged zero clock name [] s view S h = nothing_left clock name view s S
merge_chunks-Merged zero clock name (p ∷ nodes) s view S h = absurd (omega arith)
merge_chunks-Merged (suc left) clock name [] s view S h = nothing_left clock name view s S
merge_chunks-Merged (suc left) clock name (p ∷ nodes) s view S h =
    let xs = take chunk (p ∷ nodes) in
    let ys = drop chunk (p ∷ nodes) in
    let shorter : length ys ≤ left = omega (arith, length-drop chunk (p ∷ nodes)) in
    go_on-Merged clock left name xs ys (p ∷ nodes) view (merge_chunk (clock left) name xs s) s
      (merge_chunks left clock name ys) (merge_chunk-Gives (clock left) name xs s view S)
      (λ s' view' S'. merge_chunks-Merged left clock name ys s' view' S' shorter)
      (take-drop chunk (p ∷ nodes))

-- In a store whose index has exactly the rows of the policies, a merge of any list of policies finishes
-- and keeps the index so, and what the index then gives for each address is what it gave before with the
-- reports of the list put into it one after the other, each at a time that the clock has shown,
-- although a long list is merged in chunks.
pub merge-Merged :
    (clock : ℕ → ℕ) (name : Text) (nodes : List NodePolicy) (s : Store)
    → IsIndexed s
    → Merged clock name nodes (policy_of s) (merge clock name nodes s)
unfolding merge
merge-Merged clock name nodes s I =
    let S : Shows (policy_of s) s = record { indexed = I; shown = λ ip. refl } in
    elim (Bool-cases (leb (length nodes) chunk)) [
      | inl fits ↦ rw fits (
          go_on-Merged clock 0 name nodes [] nodes (policy_of s)
            (merge_chunk (clock 0) name nodes s) s (λ s'. (s', true))
            (merge_chunk-Gives (clock 0) name nodes s (policy_of s) S)
            (λ s' view' S'. nothing_left clock name view' s' S') (append-nil nodes))
      | inr long ↦
          rw long
            (merge_chunks-Merged (length nodes) clock name nodes s (policy_of s) S (omega arith))
    ]
