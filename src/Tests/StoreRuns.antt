-- ===== src/Tests/StoreRuns.antt =====
-- The hub's store after two merges, asked page by page, and after a deletion.
use e_shield.Base.{ℕ, ◌≡◌, ◌+◌, refl, some, [], ◌∷◌, arith}
use e_shield.Base.Dicts.{text_key, find, same_list_iff}
use e_shield.Base.Text.{bytes}
use e_shield.Common.Ip.{IpKey, ip_key, same_ip_iff}
use e_shield.Hub.Store.{Composite, composite_key, NodePolicy, SharedPolicy, Store, merge}
use e_shield.Hub.Store.Query.{values}
use e_shield.Hub.Store.Removal.{delete_policies}
use e_shield.Hub.Store.Order.{IsSorted}
use e_shield.Hub.Store.Index.{policy_of, IsIndexed}
use e_shield.Hub.Store.Chunks.{Merged, merge-Merged}
use e_shield.Hub.Store.Pages.{newer}
use e_shield.Hub.Store.Pulls.{pulls, pulls-newer}
use e_shield.Hub.Store.Buried.{AreDeleted, delete_policies-AreDeleted}

abbrev host : ℕ → IpKey
host n = record { family = 4; addr = n ∷ [] }

abbrev policy : ℕ → IpKey → SharedPolicy
policy time ip = record {
  ip = ip;
  reason = 2;
  hit_count = 3;
  trust_score = 10;
  first_seen_ns = 1;
  last_seen_ns = time;
  source_nodes = bytes "a" ∷ [];
  ttl_s = 60;
}

-- Two of the three rows have one time.
abbrev store : Store
store = record {
  policies =
      (composite_key 5 (host 1), policy 5 (host 1))
      ∷ (composite_key 5 (host 2), policy 5 (host 2))
      ∷ (composite_key 9 (host 3), policy 9 (host 3))
      ∷ [];
  index = [];
  tombstones = [];
}

store-IsSorted : IsSorted store.policies
unfolding e_shield.Hub.Store.before
store-IsSorted = ((refl, (refl, tt)), ((refl, tt), (tt, tt)))

pulls-newer_example : pulls 3 1 2 store ≡ values (newer 2 store.policies)
pulls-newer_example = pulls-newer 1 2 store (omega arith) store-IsSorted

-- One policy, under its key.
abbrev one : Store
one = record {
  policies = (composite_key 5 (host 1), policy 5 (host 1)) ∷ [];
  index = (host 1, composite_key 5 (host 1)) ∷ [];
  tombstones = [];
}

one_row :
    (k : Composite) (p : SharedPolicy)
    → find k one.policies ≡ some p
    → (k ≡ composite_key p.last_seen_ns p.ip) × (find p.ip one.index ≡ some k)
unfolding find
one_row k p h = ground (arith, same_list_iff k (composite_key 5 (host 1)))

one_entry :
    (ip : IpKey) (k : Composite)
    → find ip one.index ≡ some k
    → (p : SharedPolicy) × (find k one.policies ≡ some p) × (p.ip ≡ ip)
unfolding find
one_entry ip k h = (
  policy 5 (host 1),
  ground (arith, same_ip_iff ip (host 1)),
  ground (arith, same_ip_iff ip (host 1)),
)

one-IsIndexed : IsIndexed one
one-IsIndexed = record { sorted = (tt, tt); rows = one_row; entries = one_entry }

abbrev reported : ℕ → NodePolicy
reported n = record {
  ip = host n;
  reason = 4;
  hit_count = 8;
  trust_score = 20;
  blocked_until_ns = 0;
  ttl_s = 0;
}

abbrev clock : ℕ → ℕ
clock n = n + 7

merge-Merged_example :
    Merged clock
      (bytes "b")
      (reported 1 ∷ reported 2 ∷ [])
      (policy_of one)
      (merge clock (bytes "b") (reported 1 ∷ reported 2 ∷ []) one)
merge-Merged_example =
    merge-Merged clock (bytes "b") (reported 1 ∷ reported 2 ∷ []) one one-IsIndexed

delete_policies-AreDeleted_example :
    AreDeleted 9 (host 1 ∷ []) one (delete_policies 9 (host 1 ∷ []) one)
delete_policies-AreDeleted_example = delete_policies-AreDeleted 9 (host 1 ∷ []) one one-IsIndexed
