-- ===== src/Hub/Store/Pages.antt =====
-- eshield-hub/src/store.rs: what one page of a query takes, and where its cursor stands.
use e_shield.Base.{
  ℕ, suc, ◌≤◌, ◌<◌, ◌≡◌, refl, ◌∙◌, sym, ap, Bool, Bool-cases, inl, inr, true, false, Option, none,
  some, [], ◌∷◌, ◌++◌, leb, if◌then◌else◌, arith,
}
use e_shield.Base.Dicts.{Dict}
use e_shield.Hub.Store.{Composite, time_of}
use e_shield.Hub.Store.Query.{next_cutoff, is_past, page}
use e_shield.Hub.Store.Order.{InTime}

-- After the cutoff only rows of its time are taken, and the cursor stands at it.
abbrev pub AtCutoff : Option ℕ → ℕ → Type 0
AtCutoff none cursor = Unit
AtCutoff (some cutoff) cursor = cutoff ≡ cursor

next-AtCutoff :
    (cutoff : Option ℕ) (cursor taken limit time : ℕ)
    → is_past cutoff time ≡ false
    → AtCutoff (next_cutoff cutoff taken limit time) time
next-AtCutoff none cursor taken limit time h = elim (Bool-cases (leb limit taken)) [
  | inl full ↦ rw full refl
  | inr room ↦ rw room tt
]
next-AtCutoff (some cutoff) cursor taken limit time h = ground arith

past_cursor :
    (cutoff : Option ℕ) (cursor time : ℕ)
    → AtCutoff cutoff cursor
    → cursor ≤ time
    → is_past cutoff time ≡ true
    → cursor < time
past_cursor none cursor time a h e = absurd (cc)
past_cursor (some cutoff) cursor time a h e = ground arith

module _ {ℓ} {V : Type ℓ} where
  -- The rows that are newer than a time.
  abbrev pub newer : ℕ → Dict Composite V → Dict Composite V
  newer since [] = []
  newer since (row ∷ rows) =
      if leb (time_of row.0) since then newer since rows else row ∷ newer since rows

  InTime-later : (a b : ℕ) (rows : Dict Composite V) → a ≤ b → InTime b rows → InTime a rows
  InTime-later a b [] h o = tt
  InTime-later a b (row ∷ rows) h (first, o) = (omega arith, o)

  newer-all :
      (since time : ℕ) (rows : Dict Composite V)
      → since < time
      → InTime time rows
      → newer since rows ≡ rows
  newer-all since time [] h o = refl
  newer-all since time (row ∷ rows) h (first, o) =
      let fresh : leb (time_of row.0) since ≡ false = ground arith in
      rw fresh (ap (λ rest. row ∷ rest) (newer-all since (time_of row.0) rows (omega arith) o))

  -- What a page that starts at some rows tells: it takes the first of them, and its cursor is where
  -- the rows go on.
  pub record Paged (cursor : ℕ) (rows : Dict Composite V) (p : Dict Composite V × ℕ) : Type ℓ where
    pub forward : cursor ≤ p.1
    pub complete : p.0 ++ newer p.1 rows ≡ rows

  page_old :
      (since limit taken : ℕ) (cutoff : Option ℕ) (cursor : ℕ) (row : Composite × V)
      (rows : Dict Composite V)
      → leb (time_of row.0) since ≡ true
      → page since limit taken cutoff cursor (row ∷ rows)
        ≡ page since limit taken cutoff cursor rows
  unfolding page
  page_old since limit taken cutoff cursor row rows h = rw h refl

  abbrev next_page : ℕ → ℕ → ℕ → Option ℕ → ℕ → Dict Composite V → Dict Composite V × ℕ
  next_page since limit taken cutoff time rows =
      page since limit (suc taken) (next_cutoff cutoff taken limit time) time rows

  -- A row that is taken, before the rest of its page.
  abbrev taken_row : Bool → ℕ → Composite × V → Dict Composite V × ℕ → Dict Composite V × ℕ
  taken_row true cursor row rest = ([], cursor)
  taken_row false cursor row rest = (row ∷ rest.0, rest.1)

  page_fresh :
      (since limit taken : ℕ) (cutoff : Option ℕ) (cursor : ℕ) (row : Composite × V)
      (rows : Dict Composite V)
      → leb (time_of row.0) since ≡ false
      → page since limit taken cutoff cursor (row ∷ rows)
        ≡ taken_row
            (is_past cutoff (time_of row.0))
            cursor
            row
            (next_page since limit taken cutoff (time_of row.0) rows)
  unfolding page
  page_fresh since limit taken cutoff cursor row rows h = rw h (go (is_past cutoff (time_of row.0)))
    where
      go :
          (past : Bool)
          → (if past then ([], cursor) else (
            row ∷ (next_page since limit taken cutoff (time_of row.0) rows).0,
            (next_page since limit taken cutoff (time_of row.0) rows).1,
          ))
            ≡ taken_row past cursor row (next_page since limit taken cutoff (time_of row.0) rows)
      go true = refl
      go false = refl

  -- The row is taken, and its page goes on.
  taken-Paged :
      (cursor : ℕ) (row : Composite × V) (rows : Dict Composite V) (p : Dict Composite V × ℕ)
      → cursor ≤ time_of row.0
      → Paged (time_of row.0) rows p
      → Paged cursor (row ∷ rows) (row ∷ p.0, p.1)
  taken-Paged cursor row rows p le rest = record {
    forward = omega (arith, rest.forward);
    complete =
        (let seen : leb (time_of row.0) p.1 ≡ true = ground (arith, rest.forward) in
          rw seen (ap (λ rs. row ∷ rs) rest.complete));
  }

  nothing :
      (since limit taken : ℕ) (cutoff : Option ℕ) (cursor : ℕ)
      → Paged cursor [] (page since limit taken cutoff cursor [])
  unfolding page
  nothing since limit taken cutoff cursor = record { forward = omega arith; complete = refl }

  pub page-Paged :
      (since limit taken : ℕ) (cutoff : Option ℕ) (cursor from : ℕ) (rows : Dict Composite V)
      → cursor ≤ from
      → since < from
      → InTime from rows
      → AtCutoff cutoff cursor
      → Paged cursor rows (page since limit taken cutoff cursor rows)
  page-Paged since limit taken cutoff cursor from [] le lt o a =
      nothing since limit taken cutoff cursor
  page-Paged since limit taken cutoff cursor from (row ∷ rows) le lt (first, o) a =
      let time = time_of row.0 in
      let fresh : leb time since ≡ false = ground arith in
      rw (page_fresh since limit taken cutoff cursor row rows fresh)
        (elim (Bool-cases (is_past cutoff time)) [
          | inl past ↦ rw past (record {
            forward = omega arith;
            complete =
                newer-all cursor time (row ∷ rows)
                  (past_cursor cutoff cursor time a (omega arith) past) (omega arith, o);
          })
          | inr goes_on ↦ rw goes_on (
              taken-Paged cursor row rows (next_page since limit taken cutoff time rows)
                (omega arith)
                (page-Paged since limit (suc taken) (next_cutoff cutoff taken limit time) time time
                  rows (omega arith) (omega arith) o
                  (next-AtCutoff cutoff cursor taken limit time goes_on)))
        ])

  newer_old :
      (since : ℕ) (row : Composite × V) (rows : Dict Composite V)
      → leb (time_of row.0) since ≡ true
      → newer since (row ∷ rows) ≡ newer since rows
  newer_old since row rows h = rw h refl

  newer_fresh :
      (since : ℕ) (row : Composite × V) (rows : Dict Composite V)
      → leb (time_of row.0) since ≡ false
      → newer since (row ∷ rows) ≡ row ∷ newer since rows
  newer_fresh since row rows h = rw h refl

  pub page-newer :
      (since limit taken : ℕ) (cutoff : Option ℕ) (cursor : ℕ) (rows : Dict Composite V)
      → page since limit taken cutoff cursor rows
        ≡ page since limit taken cutoff cursor (newer since rows)
  page-newer since limit taken cutoff cursor [] = refl
  page-newer since limit taken cutoff cursor (row ∷ rows) =
      let start = page since limit taken cutoff cursor in
      elim (Bool-cases (leb (time_of row.0) since)) [
        | inl old ↦
            page_old since limit taken cutoff cursor row rows old
            ∙ page-newer since limit taken cutoff cursor rows
            ∙ ap start (sym (newer_old since row rows old))
        | inr fresh ↦
            page_fresh since limit taken cutoff cursor row rows fresh
            ∙ ap (taken_row (is_past cutoff (time_of row.0)) cursor row) (
                page-newer since limit (suc taken) (next_cutoff cutoff taken limit (time_of row.0))
                  (time_of row.0) rows)
            ∙ sym (page_fresh since limit taken cutoff cursor row (newer since rows) fresh)
            ∙ ap start (sym (newer_fresh since row rows fresh))
      ]

  pub newer-InTime :
      (since from : ℕ) (rows : Dict Composite V)
      → InTime from rows
      → InTime (suc since) (newer since rows)
  newer-InTime since from [] o = tt
  newer-InTime since from (row ∷ rows) (first, o) = elim (Bool-cases (leb (time_of row.0) since)) [
    | inl old ↦ rw old (newer-InTime since (time_of row.0) rows o)
    | inr fresh ↦
        (let later : since < time_of row.0 = ground arith in
          rw (fresh, newer-all since (time_of row.0) rows later o) (omega arith, o))
  ]

  pub newer-newer :
      (since later : ℕ) (rows : Dict Composite V)
      → since ≤ later
      → newer later (newer since rows) ≡ newer later rows
  newer-newer since later [] h = refl
  newer-newer since later (row ∷ rows) h = ground (arith, newer-newer since later rows h)
