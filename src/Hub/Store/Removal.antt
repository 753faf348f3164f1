-- ===== src/Hub/Store/Removal.antt =====
-- eshield-hub/src/store.rs: the policies that have run out, and those that are deleted.
use e_shield.Base.{
  ℕ, ◌*◌, Bool, ◌&&◌, Option, none, some, List, [], ◌∷◌, ltb, ◌!=◌, if◌then◌else◌, min, u64_max,
  saturating_add64,
}
use e_shield.Base.Dicts.{Dict, text_key, find, remove}
use e_shield.Common.Ip.{IpKey, ip_key, same_ip}
use e_shield.Hub.Store.{Composite, composite_key, time_of, put, SharedPolicy, Store}

abbrev pub has_run_out : ℕ → SharedPolicy → Bool
has_run_out now_ns policy =
    policy.ttl_s != 0
    && ltb (saturating_add64 policy.last_seen_ns (min (policy.ttl_s * 1_000_000_000) u64_max))
        now_ns

-- The loops that remove the stale rows of a list, from both tables.
unfoldable pub drop_policies : ℕ → Dict Composite SharedPolicy → Store → Store
drop_policies now_ns [] s = s
drop_policies now_ns (row ∷ rows) s = drop_policies now_ns rows (
    if has_run_out now_ns row.1
    then record s { policies = remove row.0 s.policies; index = remove row.1.ip s.index }
    else s)

unfoldable pub drop_tombstones : ℕ → ℕ → Dict Composite (Unit {0}) → Store → Store
drop_tombstones now_ns ttl_ns [] s = s
drop_tombstones now_ns ttl_ns (row ∷ rows) s = drop_tombstones now_ns ttl_ns rows (
    if ltb (saturating_add64 (time_of row.0) ttl_ns) now_ns
    then record s { tombstones = remove row.0 s.tombstones }
    else s)

unfoldable pub prune : ℕ → ℕ → Store → Store
unfolding drop_policies drop_tombstones
prune now_ns tombstone_ttl_ns s =
    drop_tombstones now_ns tombstone_ttl_ns s.tombstones (drop_policies now_ns s.policies s)

-- Without an entry in the index the rows of the address are looked for.
abbrev pub drop_rows : IpKey → Dict Composite SharedPolicy → Dict Composite SharedPolicy
drop_rows ip [] = []
drop_rows ip (row ∷ rows) =
    if same_ip row.1.ip ip then drop_rows ip rows else row ∷ drop_rows ip rows

abbrev pub deleted_at : IpKey → Option Composite → Store → Store
deleted_at ip none s = record s { policies = drop_rows ip s.policies; index = remove ip s.index }
deleted_at ip (some key) s = record s {
  policies = remove key s.policies;
  index = remove ip s.index;
}

unfoldable pub delete_each : List IpKey → Store → Store
delete_each [] s = s
delete_each (ip ∷ ips) s = delete_each ips (deleted_at ip (find ip s.index) s)

unfoldable pub bury_each : ℕ → List IpKey → Store → Store
unfolding put
bury_each now_ns [] s = s
bury_each now_ns (ip ∷ ips) s =
    bury_each now_ns ips (record s { tombstones = put (composite_key now_ns ip) tt s.tombstones })

-- For no addresses there is no transaction, which leaves the same tables.
unfoldable pub delete_policies : ℕ → List IpKey → Store → Store
unfolding delete_each bury_each
delete_policies now_ns ips s = bury_each now_ns ips (delete_each ips s)
