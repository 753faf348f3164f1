-- ===== src/Hub/Store/Deleted.antt =====
-- eshield-hub/src/store.rs: what a deletion leaves of the tables.
use e_shield.Base.{
  ◌≡◌, ◌≢◌, ◌⊎◌, refl, ◌∙◌, sym, ap, Bool-cases, inl, inr, false, Option, none, some, List, [], ◌∷◌,
  if◌then◌else◌, arith,
}
use e_shield.Base.Dicts.{Dict, text_key, find, find-remove, same_list_iff}
use e_shield.Common.Ip.{IpKey, ip_key, same_ip, same_ip_iff}
use e_shield.Hub.Store.{Composite, Store, SharedPolicy, before, row_at}
use e_shield.Hub.Store.Removal.{drop_rows, deleted_at, delete_each}
use e_shield.Hub.Store.Order.{Above, IsSorted, remove-IsSorted}
use e_shield.Hub.Store.Index.{policy_of, IsIndexed, kept, kept_row, row_kept}
use e_shield.Hub.Store.Reports.{View, Shows}

before_self : (k : Composite) → before k k ≡ false
unfolding before
before_self [] = refl
before_self (x ∷ k) = ground (arith, before_self k)

Above-absent :
    {V : Type 0} (k : Composite) (rows : Dict Composite V) → Above k rows → find k rows ≡ none
unfolding find
Above-absent k [] a = refl
Above-absent k (row ∷ rows) a =
    ground (arith, a.0, Above-absent k rows a.1, before_self k, same_list_iff k row.0)

found_first :
    {V : Type 0} (row : Composite × V) (rows : Dict Composite V)
    → find row.0 (row ∷ rows) ≡ some row.1
unfolding find
found_first row rows = ground (arith, same_list_iff row.0 row.0)

found_later :
    {V : Type 0} (row : Composite × V) (rows : Dict Composite V) (k : Composite) (v : V)
    → Above row.0 rows
    → find k rows ≡ some v
    → find k (row ∷ rows) ≡ some v
unfolding find
found_later row rows k v a h = ground (arith, Above-absent row.0 rows a, same_list_iff k row.0)

-- The rows of an address that has none.
drop_rows_none :
    (ip : IpKey) (rows : Dict Composite SharedPolicy)
    → IsSorted rows
    → ((k : Composite) (p : SharedPolicy) → find k rows ≡ some p → p.ip ≢ ip)
    → drop_rows ip rows ≡ rows
drop_rows_none ip [] o h = refl
drop_rows_none ip (row ∷ rows) o h =
    let other : same_ip row.1.ip ip ≡ false =
      ground (arith, h row.0 row.1 (found_first row rows), same_ip_iff row.1.ip ip) in
    rw other (
      ap (λ rest. row ∷ rest)
        (drop_rows_none ip rows o.1 (λ k p e. h k p (found_later row rows k p o.0 e))))

dropped_same :
    (ip : IpKey) (s : Store)
    → IsIndexed s
    → find ip s.index ≡ none
    → drop_rows ip s.policies ≡ s.policies
dropped_same ip s I e =
    drop_rows_none ip s.policies I.sorted
      (λ k p h same. absurd (cc (e, (I.rows k p h).1, ap (λ a. find a s.index) same)))

find-deleted :
    (ip : IpKey) (key : Option Composite) (s : Store) (j : Composite)
    → IsIndexed s
    → find ip s.index ≡ key
    → find j (deleted_at ip key s).policies ≡ kept key j s
find-deleted ip none s j I e = ap (λ rows. find j rows) (dropped_same ip s I e)
find-deleted ip (some key) s j I e = find-remove j key s.policies

find-deleted_index :
    (ip : IpKey) (key : Option Composite) (s : Store) (a : IpKey)
    → find a (deleted_at ip key s).index ≡ (if same_ip a ip then none else find a s.index)
find-deleted_index ip none s a = find-remove a ip s.index
find-deleted_index ip (some key) s a = find-remove a ip s.index

deleted-IsSorted :
    (ip : IpKey) (key : Option Composite) (s : Store)
    → IsIndexed s
    → find ip s.index ≡ key
    → IsSorted (deleted_at ip key s).policies
deleted-IsSorted ip none s I e = rw (dropped_same ip s I e) (I.sorted)
deleted-IsSorted ip (some key) s I e = remove-IsSorted key s.policies I.sorted

-- The key of another address is not the one that is deleted.
key_kept :
    (ip a : IpKey) (key : Option Composite) (k : Composite) (s : Store)
    → IsIndexed s
    → find ip s.index ≡ key
    → find a s.index ≡ some k
    → a ≢ ip
    → key ≢ some k
key_kept ip a key k s I e at_k other e' =
    let entry = I.entries a k at_k in
    let twin = I.entries ip k (e ∙ e') in other (cc (entry.1, entry.2, twin.1, twin.2))

deleted-IsIndexed :
    (ip : IpKey) (key : Option Composite) (s : Store)
    → IsIndexed s
    → find ip s.index ≡ key
    → IsIndexed (deleted_at ip key s)
deleted-IsIndexed ip key s I e = record {
  sorted = deleted-IsSorted ip key s I e;
  rows = λ j q h.
      (let row = kept_row key j q s (sym (find-deleted ip key s j I e) ∙ h) in
        let before = I.rows j q row.0 in
        (
          before.0,
          ground (arith, find-deleted_index ip key s q.ip, same_ip_iff q.ip ip, row.1, before.1),
        ));
  entries = λ a k h.
      (let other : a ≢ ip =
          λ same. ground (arith, find-deleted_index ip key s a, same_ip_iff a ip) in
        let stays : find a s.index ≡ some k = ground (arith, find-deleted_index ip key s a) in
        let entry = I.entries a k stays in
        (
          entry.0,
          find-deleted ip key s k I e
              ∙ row_kept key k entry.0 s entry.1 (key_kept ip a key k s I e stays other),
          entry.2,
        ));
}

-- A view without one address.
abbrev pub without : IpKey → View → View
without ip view = λ a. if same_ip a ip then none else view a

row_deleted :
    (ip a : IpKey) (key at_key : Option Composite) (s : Store)
    → IsIndexed s
    → find ip s.index ≡ key
    → find a s.index ≡ at_key
    → a ≢ ip
    → row_at at_key (deleted_at ip key s) ≡ row_at at_key s
row_deleted ip a key none s I e at_a other = refl
row_deleted ip a key (some k) s I e at_a other =
    let entry = I.entries a k at_a in
    find-deleted ip key s k I e
    ∙ row_kept key k entry.0 s entry.1 (key_kept ip a key k s I e at_a other)
    ∙ sym entry.1

policy_of-deleted :
    (ip : IpKey) (key : Option Composite) (s : Store) (a : IpKey)
    → IsIndexed s
    → find ip s.index ≡ key
    → policy_of (deleted_at ip key s) a ≡ (if same_ip a ip then none else policy_of s a)
unfolding policy_of
policy_of-deleted ip key s a I e = elim (Bool-cases (same_ip a ip)) [
  | inl same ↦ rw (find-deleted_index ip key s a, same) refl
  | inr other ↦
      rw (find-deleted_index ip key s a, other)
        (row_deleted ip a key (find a s.index) s I e refl (ground (arith, same_ip_iff a ip)))
]

deleted-Shows :
    (ip : IpKey) (s : Store) (view : View)
    → Shows view s
    → Shows (without ip view) (deleted_at ip (find ip s.index) s)
deleted-Shows ip s view S = record {
  indexed = deleted-IsIndexed ip (find ip s.index) s S.indexed refl;
  shown = λ a. ground (arith, policy_of-deleted ip (find ip s.index) s a S.indexed refl, S.shown a);
}

abbrev pub IsAmong : IpKey → List IpKey → Type 0
IsAmong a [] = ⊥
IsAmong a (ip ∷ ips) = (a ≡ ip) ⊎ IsAmong a ips

-- The view without some addresses.
unfoldable pub without_all : List IpKey → View → View
without_all [] view = view
without_all (ip ∷ ips) view = without_all ips (without ip view)

pub delete_each-Shows :
    (ips : List IpKey) (s : Store) (view : View)
    → Shows view s
    → Shows (without_all ips view) (delete_each ips s)
unfolding delete_each without_all
delete_each-Shows [] s view S = S
delete_each-Shows (ip ∷ ips) s view S =
    delete_each-Shows ips (deleted_at ip (find ip s.index) s) (without ip view)
      (deleted-Shows ip s view S)
