-- ===== src/DataPlane/Blacklist/Blocking.antt =====
-- eshield-ebpf/src/blacklist.rs: a block takes effect, lasts as long as asked, and ends.
use e_shield.Base.{
  ℕ, ◌+◌, ◌*◌, ◌≤◌, ◌<◌, ◌≡◌, refl, ◌⊎◌, ◌↔◌, true, false, Option, none, some, arith, u64_max,
  saturating_add32,
}
use e_shield.Common.Ip.{IpKey}
use e_shield.Common.Entries.{BlockEntry}
use e_shield.Pure.Block.{is_active, merge_block_entry, later_until}
use e_shield.Pure.Block.Merge.{Blocks}
use e_shield.DataPlane.Kernel.{Kernel}
use e_shield.DataPlane.State.{State}
use e_shield.DataPlane.Trust.{score_of}
use e_shield.DataPlane.Blacklist.{block_until, is_blacklisted, add_to_blacklist}

-- The merge of any entry with an expiry that blocks now blocks what the expiry blocks.
blocked_now :
    (prev : Option BlockEntry) (now until reason t : ℕ)
    → Blocks until now
    → Blocks until t
    → is_active t (merge_block_entry prev now until reason false) ≡ true
unfolding merge_block_entry later_until
blocked_now none now until reason t hn ht = ground arith
blocked_now (some p) now until reason t hn ht = ground arith

-- A block that holds at one time and lasts until another.
abbrev pub Held : Option BlockEntry → ℕ → ℕ → Type 0
Held none now t = ⊥
Held (some p) now t = Blocks p.blocked_until_ns now × Blocks p.blocked_until_ns t

merged_lasts :
    (prev : Option BlockEntry) (now seconds reason t : ℕ)
    → now ≤ u64_max
    → t < u64_max
    → (is_active t (merge_block_entry prev now (block_until now seconds) reason false) ≡ true)
      ↔ ((seconds ≡ 0) ⊎ ((t < now + seconds * 1_000_000_000) ⊎ Held prev now t))
unfolding merge_block_entry later_until block_until
merged_lasts none now seconds reason t hn ht = ground arith
merged_lasts (some p) now seconds reason t hn ht = ground arith

module _ {κ : Kernel} where
  -- Once a source is blocked with an expiry that blocks now, it is found blacklisted at every time
  -- that this expiry blocks, whatever entry it had before, and its trust score is 0.
  pub add_to_blacklist-is_blacklisted :
      (src : IpKey) (now seconds reason t : ℕ) (s : State κ)
      → Blocks (block_until now seconds) now
      → Blocks (block_until now seconds) t
      → let s' = add_to_blacklist src now seconds reason s in
        ((is_blacklisted src t s').0 ≡ true) × (score_of (κ.trust_map.get s'.trust_map src) ≡ 0)
  unfolding add_to_blacklist is_blacklisted merge_block_entry
  add_to_blacklist-is_blacklisted src now seconds reason t s hn ht =
      let found =
        blocked_now (κ.blacklist.get s.blacklist src) now (block_until now seconds) reason t hn
          ht in
      (rw κ.blacklist.get-insert_self (ground (arith, found)), rw κ.trust_map.get-insert_self refl)

  -- Once a source is blocked for some seconds, it is found blacklisted at a time exactly if the
  -- seconds are 0, or they have not yet passed, or an older block that held when the new one was made
  -- lasts until then, for clocks below the largest time.
  pub add_to_blacklist_lasts :
      (src : IpKey) (now seconds reason t : ℕ) (s : State κ)
      → now ≤ u64_max
      → t < u64_max
      → ((is_blacklisted src t (add_to_blacklist src now seconds reason s)).0 ≡ true) ↔ (
          (seconds ≡ 0)
          ⊎ ((t < now + seconds * 1_000_000_000) ⊎ Held (κ.blacklist.get s.blacklist src) now t))
  unfolding add_to_blacklist is_blacklisted
  add_to_blacklist_lasts src now seconds reason t s hn ht =
      let lasts = merged_lasts (κ.blacklist.get s.blacklist src) now seconds reason t hn ht in
      rw κ.blacklist.get-insert_self (ground (arith, lasts))

  -- A hit on an active block keeps it: the source is found blacklisted again at every time at
  -- which the entry is active.
  pub is_blacklisted_stays :
      (src : IpKey) (now t : ℕ) (s : State κ) (e : BlockEntry)
      → κ.blacklist.get s.blacklist src ≡ some e
      → is_active now e ≡ true
      → is_active t e ≡ true
      → let r = is_blacklisted src now s in (r.0 ≡ true) × ((is_blacklisted src t r.1).0 ≡ true)
  unfolding is_blacklisted
  is_blacklisted_stays src now t s e found on later =
      let hit : ℕ → BlockEntry =
        λ weight. record e { hit_count = saturating_add32 e.hit_count weight } in
      ground (
        arith,
        κ.blacklist.get-insert_self s.blacklist src (hit 1),
        κ.blacklist.get-insert_self s.blacklist src (hit 16),
      )
