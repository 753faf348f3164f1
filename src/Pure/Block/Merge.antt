-- ===== src/Pure/Block/Merge.antt =====
-- What a merge keeps and what it changes.
use e_shield.Base.{ℕ, ◌<◌, ◌≡◌, ◌≢◌, ◌⊎◌, Bool, true, false, Option, none, some, arith}
use e_shield.Common.Entries.{BlockEntry, block_permanent}
use e_shield.Pure.Block.{later_until, is_active, merge_block_entry}

-- An expiry as the blacklist reads it: the source is blocked at time `t`.
abbrev pub Blocks : ℕ → ℕ → Type 0
Blocks until t = (until ≡ block_permanent) ⊎ (t < until)

-- A merge never shortens a block: whenever the old entry, active now, or the new expiry blocks a
-- time, the merged entry blocks it, and it blocks no other time.
pub merge_block_entry-Blocks :
    (p : BlockEntry) (now until reason : ℕ) (explicit : Bool) (t : ℕ)
    → is_active now p ≡ true
    → let merged = merge_block_entry (some p) now until reason explicit in
      (Blocks p.blocked_until_ns t ⊎ Blocks until t → Blocks merged.blocked_until_ns t)
      × (Blocks merged.blocked_until_ns t → Blocks p.blocked_until_ns t ⊎ Blocks until t)
unfolding merge_block_entry later_until
merge_block_entry-Blocks p now until reason explicit t h = ground arith

-- While a block is active the first time it was seen, its hits and, unless the new block is
-- explicit, its first reason stay; the last reason records the other of two different reasons.
merge_block_entry_reasons :
    (p : BlockEntry) (now until reason : ℕ)
    → is_active now p ≡ true
    → let automatic = merge_block_entry (some p) now until reason false in
      let manual = merge_block_entry (some p) now until reason true in
      (automatic.block_reason ≡ p.block_reason)
      × (automatic.first_seen_ns ≡ p.first_seen_ns)
      × (automatic.hit_count ≡ p.hit_count)
      × (reason ≢ p.block_reason → automatic.last_reason ≡ reason)
      × (manual.block_reason ≡ reason)
      × (manual.first_seen_ns ≡ p.first_seen_ns)
      × (manual.hit_count ≡ p.hit_count)
      × (reason ≢ p.block_reason → manual.last_reason ≡ p.block_reason)
unfolding merge_block_entry
merge_block_entry_reasons p now until reason h = ground arith

-- A merge with an expiry that blocks now yields an active entry, whatever the old entry was, for an
-- automatic and for an explicit block alike.
merge_block_entry_active :
    (prev : Option BlockEntry) (now until reason : ℕ) (explicit : Bool)
    → Blocks until now
    → is_active now (merge_block_entry prev now until reason explicit) ≡ true
unfolding merge_block_entry later_until
merge_block_entry_active none now until reason explicit h = ground arith
merge_block_entry_active (some p) now until reason explicit h = ground arith

-- Automatic merges commute in their expiry: the order in which two modules block a source does
-- not change until when it is blocked.
merge_block_entry_order :
    (p : BlockEntry) (now u v r q : ℕ)
    → is_active now p ≡ true
    → Blocks u now
    → Blocks v now
    → (merge_block_entry
        (some (merge_block_entry (some p) now u r false))
        now
        v
        q
        false).blocked_until_ns
      ≡ (merge_block_entry
          (some (merge_block_entry (some p) now v q false))
          now
          u
          r
          false).blocked_until_ns
unfolding merge_block_entry later_until
merge_block_entry_order p now u v r q h hu hv = ground arith
