-- ===== src/Hub/Store.antt =====
-- eshield-hub/src/store.rs: the hub's policies. A table of the database is the list of its rows in the
-- order of the keys; a transaction that fails leaves the tables as they were; errors of the database
-- and of the encoding of a row are not modelled. Each transaction takes the time that it reads.
pub mod Query
pub mod Removal
pub mod Pages
pub mod Pulls
pub mod Order
pub mod Index
pub mod Merged
pub mod Reports
pub mod Chunks
pub mod Deleted
pub mod Buried
use e_shield.Base.{
  ℕ, zero, suc, ◌+◌, ◌*◌, Bool, true, false, ◌||◌, ◌&&◌, not, Option, none, some, List, [], ◌∷◌,
  ◌++◌, ltb, leb, ◌==◌, ◌!=◌, if◌then◌else◌, length, take, drop, get_or, min, max, u64_max,
  saturating_add64,
}
use e_shield.Base.Dicts.{Dict, text_key, find, insert, remove, same_list}
use e_shield.Base.Text.{Text}
use e_shield.Common.Ip.{IpKey, ip_key, same_ip}

-- eshield-hub/src/models.rs
pub record NodePolicy : Type 0 where
  pub ip : IpKey
  pub reason : ℕ
  pub hit_count : ℕ
  pub trust_score : ℕ
  pub blocked_until_ns : ℕ
  pub ttl_s : ℕ

pub record SharedPolicy : Type 0 where
  pub ip : IpKey
  pub reason : ℕ
  pub hit_count : ℕ
  pub trust_score : ℕ
  pub first_seen_ns : ℕ
  pub last_seen_ns : ℕ
  pub source_nodes : List Text
  pub ttl_s : ℕ

-- The bytes of a key in their order; the eight big-endian bytes of the time are one digit.
abbrev pub Composite : Type 0
Composite = List ℕ

abbrev pub composite_key : ℕ → IpKey → Composite
composite_key last_seen_ns ip = last_seen_ns ∷ ip.family ∷ ip.addr

abbrev pub time_of : Composite → ℕ
time_of key = get_or key 0 0

abbrev pub ip_of : Composite → IpKey
ip_of key = record { family = get_or key 1 0; addr = drop 2 key }

-- The order of byte strings.
unfoldable pub before : Composite → Composite → Bool
before [] [] = false
before [] (y ∷ ys) = true
before (x ∷ xs) [] = false
before (x ∷ xs) (y ∷ ys) = ltb x y || (x == y && before xs ys)

-- `Table::insert`.
unfoldable pub put {ℓ} : {V : Type ℓ} → Composite → V → Dict Composite V → Dict Composite V
unfolding before
put k v [] = (k, v) ∷ []
put k v (e ∷ rows) =
    if same_list k e.0
    then (k, v) ∷ rows
    else if before k e.0
    then (k, v) ∷ e ∷ rows
    else e ∷ put k v rows

pub record Store : Type 0 where
  pub policies : Dict Composite SharedPolicy
  pub index : Dict IpKey Composite
  pub tombstones : Dict Composite (Unit {0})

abbrev pub is_source : Text → List Text → Bool
is_source name [] = false
is_source name (n ∷ names) = same_list n name || is_source name names

abbrev pub add_source : Text → List Text → List Text
add_source name names = if is_source name names then names else names ++ name ∷ []

-- The policy of an address with one more report.
unfoldable pub combine : ℕ → Text → NodePolicy → Option SharedPolicy → SharedPolicy
combine now_ns node_name node none = record {
  ip = node.ip;
  reason = node.reason;
  hit_count = node.hit_count;
  trust_score = node.trust_score;
  first_seen_ns = now_ns;
  last_seen_ns = now_ns;
  source_nodes = node_name ∷ [];
  ttl_s = node.ttl_s;
}
combine now_ns node_name node (some p) = record p {
  reason = node.reason;
  hit_count = max p.hit_count node.hit_count;
  trust_score = min p.trust_score node.trust_score;
  source_nodes = add_source node_name p.source_nodes;
  ttl_s = if p.ttl_s == 0 || node.ttl_s == 0 then 0 else max p.ttl_s node.ttl_s;
  last_seen_ns = max p.last_seen_ns now_ns;
  first_seen_ns = min p.first_seen_ns now_ns;
}

-- The old row goes if its key has changed, and the new one is written under both keys.
abbrev pub replaced : Option Composite → SharedPolicy → Store → Store
replaced none policy s = record s {
  policies = put (composite_key policy.last_seen_ns policy.ip) policy s.policies;
  index = insert policy.ip (composite_key policy.last_seen_ns policy.ip) s.index;
}
replaced (some old_key) policy s =
    let new_key = composite_key policy.last_seen_ns policy.ip in
    record s {
      policies =
          put new_key policy
            (if same_list old_key new_key then s.policies else remove old_key s.policies);
      index = insert policy.ip new_key s.index;
    }

-- A key in the index without a row is an error.
abbrev pub merged_at :
    ℕ → Text → NodePolicy → Store → Option Composite → Option SharedPolicy → Option Store
merged_at now_ns node_name node s none row =
    some (replaced none (combine now_ns node_name node none) s)
merged_at now_ns node_name node s (some key) none = none
merged_at now_ns node_name node s (some key) (some p) =
    some (replaced (some key) (combine now_ns node_name node (some p)) s)

abbrev pub row_at : Option Composite → Store → Option SharedPolicy
row_at none s = none
row_at (some key) s = find key s.policies

unfoldable pub merge_node : ℕ → Text → NodePolicy → Store → Option Store
unfolding combine
merge_node now_ns node_name node s =
    merged_at now_ns node_name node s (find node.ip s.index) (row_at (find node.ip s.index) s)

abbrev pub and_then : Option Store → (Store → Option Store) → Option Store
and_then none f = none
and_then (some s) f = f s

unfoldable pub merge_nodes : ℕ → Text → List NodePolicy → Store → Option Store
unfolding merge_node
merge_nodes now_ns node_name [] s = some s
merge_nodes now_ns node_name (node ∷ policies) s =
    and_then (merge_node now_ns node_name node s) (merge_nodes now_ns node_name policies)

-- The index of an old database, which has none.
abbrev pub rebuilt : Dict Composite SharedPolicy → Dict IpKey Composite → Dict IpKey Composite
rebuilt [] index = index
rebuilt (row ∷ rows) index = rebuilt rows (insert row.1.ip row.0 index)

abbrev pub with_index : Store → Dict IpKey Composite → Store
with_index s [] = record s { index = rebuilt s.policies [] }
with_index s (e ∷ index) = s

unfoldable pub merge_chunk : ℕ → Text → List NodePolicy → Store → Option Store
unfolding merge_nodes
merge_chunk now_ns node_name policies s =
    merge_nodes now_ns node_name policies (with_index s s.index)

abbrev pub chunk : ℕ
chunk = 1000

-- A failed chunk ends the merge, and keeps what the earlier ones have committed.
abbrev pub go_on : Option Store → Store → (Store → Store × Bool) → Store × Bool
go_on none s rest = (s, false)
go_on (some s') s rest = rest s'

-- The chunks, on fuel, with the time that each of them reads; whether all of them were merged.
unfoldable pub merge_chunks : ℕ → (ℕ → ℕ) → Text → List NodePolicy → Store → Store × Bool
unfolding merge_chunk
merge_chunks zero now_ns node_name policies s = (s, true)
merge_chunks (suc left) now_ns node_name [] s = (s, true)
merge_chunks (suc left) now_ns node_name (p ∷ policies) s =
    go_on (merge_chunk (now_ns left) node_name (take chunk (p ∷ policies)) s) s
      (merge_chunks left now_ns node_name (drop chunk (p ∷ policies)))

-- A list that fits one chunk is merged even if it is empty; every chunk takes a policy or more.
unfoldable pub merge : (ℕ → ℕ) → Text → List NodePolicy → Store → Store × Bool
unfolding merge_chunks
merge now_ns node_name policies s =
    if leb (length policies) chunk
    then go_on (merge_chunk (now_ns 0) node_name policies s) s (λ s'. (s', true))
    else merge_chunks (length policies) now_ns node_name policies s
