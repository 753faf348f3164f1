-- ===== src/Hub/Store/Query.antt =====
-- eshield-hub/src/store.rs: the queries of the nodes, page by page.
use e_shield.Base.{
  ℕ, suc, Bool, false, Option, none, some, List, [], ◌∷◌, leb, ◌==◌, ◌!=◌, if◌then◌else◌,
}
use e_shield.Base.Dicts.{Dict, text_key}
use e_shield.Common.Ip.{IpKey, ip_key}
use e_shield.Hub.Store.{Composite, time_of, ip_of, SharedPolicy, Store}

-- The loop of a query: rows up to the time `since` are skipped; once the limit is reached, the rows of
-- the next row's time are taken too, and no more. It gives the rows, and where the next query starts.
abbrev pub next_cutoff : Option ℕ → ℕ → ℕ → ℕ → Option ℕ
next_cutoff (some cutoff) taken limit time = some cutoff
next_cutoff none taken limit time = if leb limit taken then some time else none

abbrev pub is_past : Option ℕ → ℕ → Bool
is_past none time = false
is_past (some cutoff) time = time != cutoff

unfoldable pub page {ℓ} :
    {V : Type ℓ} → ℕ → ℕ → ℕ → Option ℕ → ℕ → Dict Composite V → Dict Composite V × ℕ
page since limit taken cutoff cursor [] = ([], cursor)
page since limit taken cutoff cursor (row ∷ rows) =
    let time = time_of row.0 in
    let old = leb time since in
    let rest =
      page since limit (if old then taken else suc taken)
        (if old then cutoff else next_cutoff cutoff taken limit time) (if old then cursor else time)
        rows in
    if old then rest else if is_past cutoff time then ([], cursor) else (row ∷ rest.0, rest.1)

unfoldable pub rows_since {ℓ} : {V : Type ℓ} → ℕ → ℕ → Dict Composite V → Dict Composite V × ℕ
unfolding page
rows_since since_ns limit rows =
    if limit == 0 then ([], since_ns) else page since_ns limit 0 none since_ns rows

abbrev pub values {ℓ} : {V : Type ℓ} → Dict Composite V → List V
values [] = []
values (row ∷ rows) = row.1 ∷ values rows

abbrev pub addresses {ℓ} : {V : Type ℓ} → Dict Composite V → List IpKey
addresses [] = []
addresses (row ∷ rows) = ip_of row.0 ∷ addresses rows

unfoldable pub query_since : ℕ → ℕ → Store → List SharedPolicy × ℕ
unfolding rows_since
query_since since_ns limit s =
    let found = rows_since since_ns limit s.policies in (values found.0, found.1)

unfoldable pub query_tombstones_since : ℕ → ℕ → Store → List IpKey × ℕ
unfolding rows_since
query_tombstones_since since_ns limit s =
    let found = rows_since since_ns limit s.tombstones in (addresses found.0, found.1)
