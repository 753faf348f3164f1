-- ===== src/Hub/Store/Buried.antt =====
-- eshield-hub/src/store.rs: a deletion takes the policies of its addresses away and leaves tombstones.
use e_shield.Base.{
  ℕ, ◌≡◌, ◌⊎◌, refl, ◌∙◌, ap, Bool-cases, inl, inr, false, Option, none, some, List, [], ◌∷◌,
  if◌then◌else◌, arith,
}
use e_shield.Base.Dicts.{text_key, find, same_list, same_list_iff}
use e_shield.Common.Ip.{IpKey, ip_key, same_ip, same_ip_iff}
use e_shield.Hub.Store.{Composite, composite_key, Store, row_at, put}
use e_shield.Hub.Store.Removal.{delete_each, bury_each, delete_policies}
use e_shield.Hub.Store.Order.{find-put}
use e_shield.Hub.Store.Index.{policy_of, IsIndexed}
use e_shield.Hub.Store.Reports.{View, Shows}
use e_shield.Hub.Store.Deleted.{IsAmong, without, without_all, delete_each-Shows}

without_none :
    (ips : List IpKey) (view : View) (a : IpKey) → view a ≡ none → without_all ips view a ≡ none
unfolding without_all
without_none [] view a h = h
without_none (ip ∷ ips) view a h = without_none ips (without ip view) a (ground (arith, h))

without_gone :
    (ips : List IpKey) (view : View) (a : IpKey) → IsAmong a ips → without_all ips view a ≡ none
unfolding without_all
without_gone [] view a h = absurd h
without_gone (ip ∷ ips) view a (inl here) =
    without_none ips (without ip view) a (ground (arith, same_ip_iff a ip))
without_gone (ip ∷ ips) view a (inr later) = without_gone ips (without ip view) a later

without_others :
    (ips : List IpKey) (view : View) (a : IpKey)
    → (IsAmong a ips → ⊥)
    → without_all ips view a ≡ view a
unfolding without_all
without_others [] view a h = refl
without_others (ip ∷ ips) view a h =
    let apart : a ≡ ip → ⊥ = λ e. h (inl e) in
    let other : same_ip a ip ≡ false = ground (arith, same_ip_iff a ip, apart) in
    without_others ips (without ip view) a (λ later. h (inr later)) ∙ (rw other refl)

abbrev with_tombstone : ℕ → IpKey → Store → Store
with_tombstone now_ns ip s = record s { tombstones = put (composite_key now_ns ip) tt s.tombstones }

row_at-tombstone :
    (now_ns : ℕ) (ip : IpKey) (s : Store) (key : Option Composite)
    → row_at key (with_tombstone now_ns ip s) ≡ row_at key s
row_at-tombstone now_ns ip s none = refl
row_at-tombstone now_ns ip s (some key) = refl

tombstone-Shows :
    (now_ns : ℕ) (ip : IpKey) (s : Store) (view : View)
    → Shows view s
    → Shows view (with_tombstone now_ns ip s)
unfolding policy_of
tombstone-Shows now_ns ip s view S = record {
  indexed = record {
    sorted = S.indexed.sorted;
    rows = S.indexed.rows;
    entries = S.indexed.entries;
  };
  shown = λ a. row_at-tombstone now_ns ip s (find a s.index) ∙ S.shown a;
}

bury_each-Shows :
    (now_ns : ℕ) (ips : List IpKey) (s : Store) (view : View)
    → Shows view s
    → Shows view (bury_each now_ns ips s)
unfolding bury_each
bury_each-Shows now_ns [] s view S = S
bury_each-Shows now_ns (ip ∷ ips) s view S =
    bury_each-Shows now_ns ips (with_tombstone now_ns ip s) view
      (tombstone-Shows now_ns ip s view S)

abbrev Buried : ℕ → IpKey → Store → Type 0
Buried now_ns a s = find (composite_key now_ns a) s.tombstones ≡ some tt

put-Buried :
    (now_ns : ℕ) (ip a : IpKey) (s : Store)
    → (a ≡ ip) ⊎ Buried now_ns a s
    → Buried now_ns a (with_tombstone now_ns ip s)
put-Buried now_ns ip a s h =
    find-put (composite_key now_ns a) (composite_key now_ns ip) tt s.tombstones ∙ go h
  where
    go :
        (a ≡ ip) ⊎ Buried now_ns a s
        → (if same_list (composite_key now_ns a) (composite_key now_ns ip)
            then some tt
            else find (composite_key now_ns a) s.tombstones)
          ≡ some tt
    go (inl e) = ground (
      arith,
      ap (composite_key now_ns) e,
      same_list_iff (composite_key now_ns a) (composite_key now_ns ip),
    )
    go (inr b) = elim (Bool-cases (same_list (composite_key now_ns a) (composite_key now_ns ip))) [
      | inl same ↦ rw same refl
      | inr other ↦ rw other b
    ]

bury_each-Buried :
    (now_ns : ℕ) (ips : List IpKey) (s : Store) (a : IpKey)
    → IsAmong a ips ⊎ Buried now_ns a s
    → Buried now_ns a (bury_each now_ns ips s)
unfolding bury_each
bury_each-Buried now_ns [] s a (inl h) = absurd h
bury_each-Buried now_ns [] s a (inr b) = b
bury_each-Buried now_ns (ip ∷ ips) s a (inl (inl here)) =
    bury_each-Buried now_ns ips (with_tombstone now_ns ip s) a
      (inr (put-Buried now_ns ip a s (inl here)))
bury_each-Buried now_ns (ip ∷ ips) s a (inl (inr later)) =
    bury_each-Buried now_ns ips (with_tombstone now_ns ip s) a (inl later)
bury_each-Buried now_ns (ip ∷ ips) s a (inr b) =
    bury_each-Buried now_ns ips (with_tombstone now_ns ip s) a
      (inr (put-Buried now_ns ip a s (inr b)))

-- What a deletion of some addresses does to a store.
pub record AreDeleted (now_ns : ℕ) (ips : List IpKey) (s after : Store) : Type 0 where
  pub indexed : IsIndexed after
  pub gone : (a : IpKey) → IsAmong a ips → policy_of after a ≡ none
  pub others : (a : IpKey) → (IsAmong a ips → ⊥) → policy_of after a ≡ policy_of s a
  pub buried : (a : IpKey) → IsAmong a ips → Buried now_ns a after

-- In a store whose index has exactly the rows of the policies, a deletion keeps the index so, takes the
-- policies of the listed addresses away and no other, and leaves a tombstone of each of them with the
-- time of the deletion.
pub delete_policies-AreDeleted :
    (now_ns : ℕ) (ips : List IpKey) (s : Store)
    → IsIndexed s
    → AreDeleted now_ns ips s (delete_policies now_ns ips s)
unfolding delete_policies
delete_policies-AreDeleted now_ns ips s I =
    let start : Shows (policy_of s) s = record { indexed = I; shown = λ a. refl } in
    let deleted = delete_each-Shows ips s (policy_of s) start in
    let done =
      bury_each-Shows now_ns ips (delete_each ips s) (without_all ips (policy_of s)) deleted in
    record {
      indexed = done.indexed;
      gone = λ a h. done.shown a ∙ without_gone ips (policy_of s) a h;
      others = λ a h. done.shown a ∙ without_others ips (policy_of s) a h;
      buried = λ a h. bury_each-Buried now_ns ips (delete_each ips s) a (inl h);
    }
