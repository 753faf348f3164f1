-- ===== src/Pure/Block.antt =====
-- eshield-common/src/pure.rs: `merge_block_entry`, the one rule by which the data plane and the
-- control plane write the blacklist.
pub mod Merge
use e_shield.Base.{ℕ, Bool, true, false, Option, none, some, ◌||◌, ltb, ◌==◌, ◌!=◌, if◌then◌else◌}
use e_shield.Common.Entries.{BlockEntry, block_permanent}

-- The later of two expiries, where a permanent block is later than every other.
unfoldable pub later_until : ℕ → ℕ → ℕ
later_until a b =
    if a == block_permanent || b == block_permanent
    then block_permanent
    else if ltb b a
    then a
    else b

-- The guard of the `Some(p) if …` arm, and of `is_blacklisted`.
abbrev pub is_active : ℕ → BlockEntry → Bool
is_active now_ns p = p.blocked_until_ns == block_permanent || ltb now_ns p.blocked_until_ns

abbrev fresh : ℕ → ℕ → ℕ → BlockEntry
fresh now_ns blocked_until_ns reason = record {
  blocked_until_ns = blocked_until_ns;
  block_reason = reason;
  hit_count = 0;
  first_seen_ns = now_ns;
  last_reason = 0;
}

unfoldable pub merge_block_entry : Option BlockEntry → ℕ → ℕ → ℕ → Bool → BlockEntry
unfolding later_until
merge_block_entry none now_ns blocked_until_ns reason explicit =
    fresh now_ns blocked_until_ns reason
merge_block_entry (some p) now_ns blocked_until_ns reason explicit =
    if is_active now_ns p
    then (let until = later_until p.blocked_until_ns blocked_until_ns in
        if explicit
        then record {
          blocked_until_ns = until;
          first_seen_ns = p.first_seen_ns;
          hit_count = p.hit_count;
          block_reason = reason;
          last_reason = if p.block_reason != reason then p.block_reason else p.last_reason;
        }
        else record {
          blocked_until_ns = until;
          first_seen_ns = p.first_seen_ns;
          hit_count = p.hit_count;
          block_reason = p.block_reason;
          last_reason = if reason != p.block_reason then reason else p.last_reason;
        })
    else fresh now_ns blocked_until_ns reason
