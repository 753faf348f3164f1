-- ===== src/Node/BlacklistSync/Origins.antt =====
-- eshield/src/blacklist_sync.rs: what a round writes, and what it leaves alone.
use e_shield.Base.{
  ℕ, ◌-◌, sym, ◌≡◌, refl, Bool, Bool-cases, inl, inr, true, false, not, Option, none, some, List,
  [], ◌∷◌, leb, arith,
}
use e_shield.Base.Dicts.{
  Dict, HasUniqueKeys, find, find-insert_other, insert-HasUniqueKeys, find-retain,
}
use e_shield.Common.Ip.{IpKey, ip_key, same_ip, same_ip_iff}
use e_shield.Common.Entries.{BlockEntry}
use e_shield.Node.Store.{
  BlockOrigin, is_hub, BlacklistRow, Table, has_expired, save_blacklist, prune_expired_blacklist,
}
use e_shield.Node.BlacklistSync.{
  BlacklistSync, CachedEntry, Changed, block_reason_to_origin, changed_entry, changed_of,
  is_from_hub, row_of, sync_one, sync_each, need_scan, scan, pruned, seen_gens, sync_once,
}

-- No reason of the data plane stands for the hub.
reason_not_hub :
    (reason : ℕ) (origin : BlockOrigin)
    → block_reason_to_origin reason ≡ some origin
    → is_hub origin ≡ false
unfolding block_reason_to_origin
reason_not_hub reason BlockOrigin.hub h = ground arith
reason_not_hub reason BlockOrigin.local h = refl
reason_not_hub reason BlockOrigin.api h = refl
reason_not_hub reason BlockOrigin.adaptive h = refl
reason_not_hub reason BlockOrigin.threat_intel h = refl

abbrev NoneOfHub : List Changed → Type 0
NoneOfHub [] = Unit
NoneOfHub (c ∷ changed) = (is_hub c.origin ≡ false) × NoneOfHub changed

entry-NoneOfHub :
    (key : IpKey) (entry : BlockEntry) (origin : Option BlockOrigin) (existing : Option CachedEntry)
    (rest : List Changed)
    → ((o : BlockOrigin) → origin ≡ some o → is_hub o ≡ false)
    → NoneOfHub rest
    → NoneOfHub (changed_entry key entry origin existing rest)
entry-NoneOfHub key entry none existing rest h n = n
entry-NoneOfHub key entry (some o) existing rest h n = ground (arith, h o refl)

changed-NoneOfHub :
    (cache : Dict IpKey CachedEntry) (snapshot : Dict IpKey BlockEntry)
    → NoneOfHub (changed_of cache snapshot)
unfolding changed_of
changed-NoneOfHub cache [] = tt
changed-NoneOfHub cache ((key, entry) ∷ snapshot) =
    entry-NoneOfHub key entry (block_reason_to_origin entry.block_reason) (find key cache)
      (changed_of cache snapshot) (λ o. reason_not_hub entry.block_reason o)
      (changed-NoneOfHub cache snapshot)

-- The store after a round, as far as one row of the hub goes.
record Guarded (key : IpKey) (row : BlacklistRow) (s : Table) : Type 0 where
  unique : HasUniqueKeys s
  stays : find key s ≡ some row

sync_one-Guarded :
    (now_ns : ℕ) (from_hub : Bool) (c : Changed) (sync : BlacklistSync) (key : IpKey)
    (row : BlacklistRow)
    → is_hub c.origin ≡ false
    → (key ≡ c.key → from_hub ≡ true)
    → Guarded key row sync.store
    → Guarded key row (sync_one now_ns from_hub c sync).store
unfolding sync_one save_blacklist
sync_one-Guarded now_ns true c sync key row n h g = rw n g
sync_one-Guarded now_ns false c sync key row n h g =
    let apart : same_ip key c.key ≡ false = ground (arith, same_ip_iff key c.key) in
    let saved = row_of now_ns c in
    rw n (record {
      unique = insert-HasUniqueKeys c.key saved sync.store g.unique;
      stays = rw (find-insert_other key c.key saved sync.store apart) (g.stays);
    })

sync_each-Guarded :
    (now_ns : ℕ) (rows : Table) (changed : List Changed) (sync : BlacklistSync) (key : IpKey)
    (row : BlacklistRow)
    → NoneOfHub changed
    → is_from_hub (find key rows) ≡ true
    → Guarded key row sync.store
    → Guarded key row (sync_each now_ns rows changed sync).store
unfolding sync_each
sync_each-Guarded now_ns rows [] sync key row n h g = g
sync_each-Guarded now_ns rows (c ∷ changed) sync key row n h g =
    sync_each-Guarded now_ns rows changed (sync_one now_ns (is_from_hub (find c.key rows)) c sync)
      key row n.1 h
      (sync_one-Guarded now_ns (is_from_hub (find c.key rows)) c sync key row n.0
        (λ e. rw (sym e) h) g)

pruned-keeps :
    (now_ns : ℕ) (key : IpKey) (row : BlacklistRow) (sync : BlacklistSync)
    → has_expired now_ns row.blocked_until_ns ≡ false
    → Guarded key row sync.store
    → find key (pruned now_ns sync).store ≡ some row
unfolding prune_expired_blacklist
pruned-keeps now_ns key row sync lasts g =
    elim (Bool-cases (leb 60_000_000_000 (now_ns - sync.last_prune_ns))) [
      | inl due ↦
          rw
            (
              due,
              find-retain (λ r. not (has_expired now_ns r.blocked_until_ns)) key sync.store
                  g.unique,
            )
            (ground (arith, g.stays, lasts))
      | inr early ↦ rw early (g.stays)
    ]

seen_gens-store :
    (now_ns : ℕ) (gens : Option (ℕ × ℕ)) (sync : BlacklistSync)
    → (seen_gens now_ns gens sync).store ≡ sync.store
seen_gens-store now_ns none sync = refl
seen_gens-store now_ns (some gen) sync = refl

scan-keeps :
    (now_ns : ℕ) (gens : Option (ℕ × ℕ)) (blacklist : Option (Dict IpKey BlockEntry))
    (sync : BlacklistSync) (key : IpKey) (row : BlacklistRow)
    → is_hub row.origin ≡ true
    → has_expired now_ns row.blocked_until_ns ≡ false
    → Guarded key row sync.store
    → find key (scan now_ns gens blacklist sync).store ≡ some row
scan-keeps now_ns gens none sync key row h lasts g = g.stays
scan-keeps now_ns gens (some snapshot) sync key row h lasts g =
    let changed = changed_of sync.cache snapshot in
    let synced = sync_each now_ns sync.store changed sync in
    let from_hub : is_from_hub (find key sync.store) ≡ true = rw (g.stays) h in
    let kept : Guarded key row synced.store =
      sync_each-Guarded now_ns sync.store changed sync key row
        (changed-NoneOfHub sync.cache snapshot) from_hub g in
    pruned-keeps now_ns key row (seen_gens now_ns gens synced) lasts
      (rw (seen_gens-store now_ns gens synced) kept)

-- A row that the hub has given stays as it is as long as its block lasts, whatever the data plane
-- reports of its address, so that the hub can still take it back.
pub sync_once-keeps_hub :
    (now_ns : ℕ) (gens : Option (ℕ × ℕ)) (blacklist : Option (Dict IpKey BlockEntry))
    (sync : BlacklistSync) (key : IpKey) (row : BlacklistRow)
    → HasUniqueKeys sync.store
    → find key sync.store ≡ some row
    → row.origin ≡ BlockOrigin.hub
    → has_expired now_ns row.blocked_until_ns ≡ false
    → find key (sync_once now_ns gens blacklist sync).store ≡ some row
unfolding sync_once
sync_once-keeps_hub now_ns gens blacklist sync key row unique here origin lasts =
    let g : Guarded key row sync.store = record { unique = unique; stays = here } in
    let h : is_hub row.origin ≡ true = rw origin refl in
    elim (Bool-cases (need_scan now_ns gens sync)) [
      | inl due ↦ rw due (scan-keeps now_ns gens blacklist sync key row h lasts g)
      | inr idle ↦ rw idle (pruned-keeps now_ns key row sync lasts g)
    ]
