-- ===== src/Hub/Store/Reports.antt =====
-- eshield-hub/src/store.rs: a merge is the reports of its policies, one after the other.
use e_shield.Base.{
  ℕ, ◌≡◌, refl, ◌∙◌, sym, ap, Option, none, some, List, [], ◌∷◌, if◌then◌else◌, length, replicate,
  arith,
}
use e_shield.Base.Dicts.{Dict, text_key, find, same_list_iff}
use e_shield.Base.Text.{Text}
use e_shield.Common.Ip.{IpKey, ip_key, same_ip}
use e_shield.Hub.Store.{
  Composite, composite_key, Store, SharedPolicy, NodePolicy, combine, replaced, merged_at, row_at,
  merge_node, and_then, merge_nodes, with_index, rebuilt, merge_chunk,
}
use e_shield.Hub.Store.Index.{policy_of, IsIndexed}
use e_shield.Hub.Store.Merged.{replaced-IsIndexed, policy_of-replaced}

-- The policies without the tables that hold them.
abbrev pub View : Type 0
View = IpKey → Option SharedPolicy

-- One report changes the policy of its address.
abbrev report : Text → ℕ → NodePolicy → View → View
report name now_ns node view =
    λ ip. if same_ip ip node.ip then some (combine now_ns name node (view node.ip)) else view ip

-- Each report with the time at which it is merged.
unfoldable pub reports : Text → List ℕ → List NodePolicy → View → View
reports name [] nodes view = view
reports name (t ∷ times) [] view = view
reports name (t ∷ times) (node ∷ nodes) view = reports name times nodes (report name t node view)

combine-ip :
    (now_ns : ℕ) (name : Text) (node : NodePolicy) (p : Option SharedPolicy)
    → ((q : SharedPolicy) → p ≡ some q → q.ip ≡ node.ip)
    → (combine now_ns name node p).ip ≡ node.ip
unfolding combine
combine-ip now_ns name node none h = refl
combine-ip now_ns name node (some p) h = h p refl

-- A store that holds a view.
pub record Shows (view : View) (s : Store) : Type 0 where
  pub indexed : IsIndexed s
  pub shown : (ip : IpKey) → policy_of s ip ≡ view ip

-- A transaction that gives such a store.
abbrev pub Gives : View → Option Store → Type 0
Gives view none = ⊥
Gives view (some s) = Shows view s

replaced-Shows :
    (now_ns : ℕ) (name : Text) (node : NodePolicy) (s : Store) (view : View)
    (key : Option Composite) (row : Option SharedPolicy)
    → Shows view s
    → find node.ip s.index ≡ key
    → row_at key s ≡ row
    → (combine now_ns name node row).ip ≡ node.ip
    → Shows (report name now_ns node view) (replaced key (combine now_ns name node row) s)
unfolding policy_of
replaced-Shows now_ns name node s view key row S e at_row same =
    let policy = combine now_ns name node row in
    let at_key : find policy.ip s.index ≡ key = ap (λ ip. find ip s.index) same ∙ e in
    let here : row ≡ view node.ip = sym at_row ∙ ap (λ k. row_at k s) (sym e) ∙ S.shown node.ip in
    record {
      indexed = replaced-IsIndexed key policy s S.indexed at_key;
      shown = λ ip. ground (
        arith,
        policy_of-replaced key policy s ip S.indexed at_key,
        S.shown ip,
        same,
        ap (combine now_ns name node) here,
      );
    }

merged-Gives :
    (now_ns : ℕ) (name : Text) (node : NodePolicy) (s : Store) (view : View)
    (key : Option Composite) (row : Option SharedPolicy)
    → Shows view s
    → find node.ip s.index ≡ key
    → row_at key s ≡ row
    → Gives (report name now_ns node view) (merged_at now_ns name node s key row)
unfolding combine
merged-Gives now_ns name node s view none none S e at_row =
    replaced-Shows now_ns name node s view none none S e refl refl
merged-Gives now_ns name node s view none (some p) S e at_row = absurd (cc)
merged-Gives now_ns name node s view (some k) none S e at_row =
    absurd (cc (S.indexed.entries node.ip k e).1)
merged-Gives now_ns name node s view (some k) (some p) S e at_row =
    let entry = S.indexed.entries node.ip k e in
    replaced-Shows now_ns name node s view (some k) (some p) S e at_row
      (cc (entry.1, entry.2, at_row))

merge_node-Gives :
    (now_ns : ℕ) (name : Text) (node : NodePolicy) (s : Store) (view : View)
    → Shows view s
    → Gives (report name now_ns node view) (merge_node now_ns name node s)
unfolding merge_node
merge_node-Gives now_ns name node s view S =
    merged-Gives now_ns name node s view (find node.ip s.index) (row_at (find node.ip s.index) s) S
      refl refl

and_then-Gives :
    (v w : View) (r : Option Store) (f : Store → Option Store)
    → Gives v r
    → ((s : Store) → Shows v s → Gives w (f s))
    → Gives w (and_then r f)
and_then-Gives v w none f g h = absurd g
and_then-Gives v w (some s) f g h = h s g

merge_nodes-Gives :
    (now_ns : ℕ) (name : Text) (nodes : List NodePolicy) (s : Store) (view : View)
    → Shows view s
    → Gives
        (reports name (replicate (length nodes) now_ns) nodes view)
        (merge_nodes now_ns name nodes s)
unfolding merge_nodes reports
merge_nodes-Gives now_ns name [] s view S = S
merge_nodes-Gives now_ns name (node ∷ nodes) s view S =
    and_then-Gives (report name now_ns node view)
      (reports name (replicate (length nodes) now_ns) nodes (report name now_ns node view))
      (merge_node now_ns name node s) (merge_nodes now_ns name nodes)
      (merge_node-Gives now_ns name node s view S)
      (λ s'. merge_nodes-Gives now_ns name nodes s' (report name now_ns node view))

found_first :
    (row : Composite × SharedPolicy) (rows : Dict Composite SharedPolicy)
    → find row.0 (row ∷ rows) ≡ some row.1
unfolding find
found_first row rows = ground (arith, same_list_iff row.0 row.0)

found_nowhere : (ip : IpKey) (index : Dict IpKey Composite) → index ≡ [] → find ip index ≡ none
unfolding find
found_nowhere ip [] h = refl
found_nowhere ip (e ∷ index) h = absurd (cc)

-- An index that has all the rows is not built again.
with_index-same :
    (s : Store) (index : Dict IpKey Composite)
    → IsIndexed s
    → s.index ≡ index
    → with_index s index ≡ s
with_index-same s (e ∷ index) I h = refl
with_index-same s [] I h = ap (λ i. record s { index = i }) (go s.policies I.rows ∙ sym h)
  where
    go :
        (rows : Dict Composite SharedPolicy)
        → ((k : Composite) (p : SharedPolicy)
            → find k rows ≡ some p
            → (k ≡ composite_key p.last_seen_ns p.ip) × (find p.ip s.index ≡ some k))
        → rebuilt rows [] ≡ []
    go [] all = refl
    go (row ∷ rows) all =
        absurd (cc ((all row.0 row.1 (found_first row rows)).1, found_nowhere row.1.ip s.index h))

pub merge_chunk-Gives :
    (now_ns : ℕ) (name : Text) (nodes : List NodePolicy) (s : Store) (view : View)
    → Shows view s
    → Gives
        (reports name (replicate (length nodes) now_ns) nodes view)
        (merge_chunk now_ns name nodes s)
unfolding merge_chunk
merge_chunk-Gives now_ns name nodes s view S =
    rw (with_index-same s s.index S.indexed refl) (merge_nodes-Gives now_ns name nodes s view S)
