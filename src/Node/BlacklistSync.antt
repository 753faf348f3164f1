-- ===== src/Node/BlacklistSync.antt =====
-- eshield/src/blacklist_sync.rs: the blocks that the data plane makes are written to the stored rules.
-- The clock, the generations and the entries of the data plane's map are what a round reads.
pub mod Origins
use e_shield.Base.{
  ℕ, ◌-◌, Bool, true, false, ◌||◌, ◌&&◌, not, Option, none, some, List, [], ◌∷◌, leb, ◌==◌, ◌!=◌,
  if◌then◌else◌,
}
use e_shield.Base.Dicts.{Dict, find, insert}
use e_shield.Common.Ip.{IpKey, ip_key}
use e_shield.Common.Entries.{BlockEntry}
use e_shield.Common.Rules
use e_shield.Node.Store.{
  BlockOrigin, publishable, is_hub, BlacklistRow, Table, save_blacklist, prune_expired_blacklist,
}

pub record CachedEntry : Type 0 where
  pub blocked_until_ns : ℕ
  pub hit_count : ℕ
  pub block_reason : ℕ

-- The synchroniser with the store that it writes.
pub record BlacklistSync : Type 0 where
  pub store : Table
  pub cache : Dict IpKey CachedEntry
  pub last_prune_ns : ℕ
  pub last_gen : ℕ
  pub last_hit_gen : ℕ
  pub last_hit_scan_ns : ℕ

unfoldable pub new : Table → BlacklistSync
new store = record {
  store = store;
  cache = [];
  last_prune_ns = 0;
  last_gen = 0;
  last_hit_gen = 0;
  last_hit_scan_ns = 0;
}

unfoldable pub block_reason_to_origin : ℕ → Option BlockOrigin
block_reason_to_origin reason =
    if reason == Rules.rate_limit
      || reason == Rules.syn_flood
      || reason == Rules.udp_flood
      || reason == Rules.icmp_flood
    then some BlockOrigin.local
    else if reason == Rules.adaptive
    then some BlockOrigin.adaptive
    else if reason == Rules.api_block
    then some BlockOrigin.api
    else if reason == Rules.threat_intel
    then some BlockOrigin.threat_intel
    else none

abbrev is_empty {ℓ} : {A : Type ℓ} → List A → Bool
is_empty [] = true
is_empty (a ∷ rest) = false

-- Whether a round reads the whole map; without generations it always does.
unfoldable need_scan : ℕ → Option (ℕ × ℕ) → BlacklistSync → Bool
need_scan now_ns none sync = true
need_scan now_ns (some (add_gen, hit_gen)) sync =
    add_gen != sync.last_gen
    || hit_gen != sync.last_hit_gen && leb 60_000_000_000 (now_ns - sync.last_hit_scan_ns)
    || is_empty sync.cache

abbrev cached_of : BlockEntry → CachedEntry
cached_of entry = record {
  blocked_until_ns = entry.blocked_until_ns;
  hit_count = entry.hit_count;
  block_reason = entry.block_reason;
}

abbrev pub is_cached : CachedEntry → Option CachedEntry → Bool
is_cached cached none = false
is_cached cached (some existing) =
    existing.blocked_until_ns == cached.blocked_until_ns
    && existing.hit_count == cached.hit_count
    && existing.block_reason == cached.block_reason

-- An entry that is to be written, with its origin.
pub record Changed : Type 0 where
  pub key : IpKey
  pub entry : BlockEntry
  pub origin : BlockOrigin
  pub cached : CachedEntry

abbrev pub changed_entry :
    IpKey → BlockEntry → Option BlockOrigin → Option CachedEntry → List Changed → List Changed
changed_entry key entry none existing rest = rest
changed_entry key entry (some origin) existing rest =
    if not (publishable origin) || is_cached (cached_of entry) existing
    then rest
    else record { key = key; entry = entry; origin = origin; cached = cached_of entry } ∷ rest

unfoldable pub changed_of : Dict IpKey CachedEntry → Dict IpKey BlockEntry → List Changed
unfolding block_reason_to_origin
changed_of cache [] = []
changed_of cache ((key, entry) ∷ snapshot) =
    changed_entry key entry (block_reason_to_origin entry.block_reason) (find key cache)
      (changed_of cache snapshot)

abbrev pub is_from_hub : Option BlacklistRow → Bool
is_from_hub none = false
is_from_hub (some row) = is_hub row.origin

abbrev row_of : ℕ → Changed → BlacklistRow
row_of now_ns c = record {
  blocked_until_ns = c.entry.blocked_until_ns;
  block_reason = c.entry.block_reason;
  first_seen_ns = c.entry.first_seen_ns;
  origin = c.origin;
  last_updated_ns = now_ns;
}

-- A change, unless the hub's row would lose its origin. The clock of a saved row is the round's.
unfoldable pub sync_one : ℕ → Bool → Changed → BlacklistSync → BlacklistSync
unfolding save_blacklist
sync_one now_ns from_hub c sync = if not (is_hub c.origin) && from_hub then sync else record sync {
  store = save_blacklist c.key (row_of now_ns c) sync.store;
  cache = insert c.key c.cached sync.cache;
}

-- The loop over the changes, with the rows from which the origins were read before it.
unfoldable pub sync_each : ℕ → Table → List Changed → BlacklistSync → BlacklistSync
unfolding sync_one
sync_each now_ns rows [] sync = sync
sync_each now_ns rows (c ∷ changed) sync =
    sync_each now_ns rows changed (sync_one now_ns (is_from_hub (find c.key rows)) c sync)

abbrev seen_gens : ℕ → Option (ℕ × ℕ) → BlacklistSync → BlacklistSync
seen_gens now_ns none sync = sync
seen_gens now_ns (some (add_gen, hit_gen)) sync = record sync {
  last_gen = add_gen;
  last_hit_gen = hit_gen;
  last_hit_scan_ns = now_ns;
}

abbrev pruned : ℕ → BlacklistSync → BlacklistSync
pruned now_ns sync =
    if leb 60_000_000_000 (now_ns - sync.last_prune_ns)
    then record sync { store = prune_expired_blacklist now_ns sync.store; last_prune_ns = now_ns }
    else sync

abbrev scanned : ℕ → Option (ℕ × ℕ) → Dict IpKey BlockEntry → BlacklistSync → BlacklistSync
scanned now_ns gens snapshot sync =
    seen_gens now_ns gens (sync_each now_ns sync.store (changed_of sync.cache snapshot) sync)

-- A map that cannot be read ends the round.
abbrev scan : ℕ → Option (ℕ × ℕ) → Option (Dict IpKey BlockEntry) → BlacklistSync → BlacklistSync
scan now_ns gens none sync = sync
scan now_ns gens (some snapshot) sync = pruned now_ns (scanned now_ns gens snapshot sync)

-- With the entries of the map, or none if it cannot be opened.
unfoldable pub sync_once :
    ℕ → Option (ℕ × ℕ) → Option (Dict IpKey BlockEntry) → BlacklistSync → BlacklistSync
unfolding need_scan sync_each changed_of prune_expired_blacklist
sync_once now_ns gens blacklist sync =
    if need_scan now_ns gens sync then scan now_ns gens blacklist sync else pruned now_ns sync
