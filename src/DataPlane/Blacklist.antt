-- ===== src/DataPlane/Blacklist.antt =====
-- eshield-ebpf/src/blacklist.rs: the dynamic blacklist, and what a block does to a source's trust.
pub mod Blocking
use e_shield.Base.{
  ℕ, ◌*◌, ◌/◌, Bool, true, false, Option, none, some, ltb, ◌==◌, if◌then◌else◌, u64_max, bit_and,
  saturating_add32, saturating_add64, wrapping_add32,
}
use e_shield.Common.Ip.{IpKey}
use e_shield.Common.Entries.{
  BlockEntry, TrustEntry, block_permanent, trust_entry, trust_default, trust_min,
}
use e_shield.Common.Stats.{GlobalStats}
use e_shield.Pure.Block.{is_active, merge_block_entry}
use e_shield.DataPlane.Kernel.{Kernel}
use e_shield.DataPlane.State.{State, on_stats, with_stats, inc}

abbrev bump_blacklist_gen : GlobalStats → GlobalStats
bump_blacklist_gen g = record g { blacklist_gen = inc g.blacklist_gen }

abbrev bump_blacklist_hit_gen : GlobalStats → GlobalStats
bump_blacklist_hit_gen g = record g { blacklist_hit_gen = inc g.blacklist_hit_gen }

abbrev count_hit_sample : GlobalStats → GlobalStats
count_hit_sample g = record g { blacklist_hit_sample = wrapping_add32 g.blacklist_hit_sample 1 }

-- Every sixteenth hit is due and stands for 16; without statistics each one is due and stands for 1.
abbrev hit_weight : Option GlobalStats → Option ℕ
hit_weight none = some 1
hit_weight (some g) = if bit_and g.blacklist_hit_sample 0xf == 0 then some 16 else none

-- `add_to_blacklist`'s expiry: 0 seconds ask for a permanent block, and the product and the sum
-- saturate.
unfoldable pub block_until : ℕ → ℕ → ℕ
block_until now_ns block_duration_s =
    if block_duration_s == 0
    then block_permanent
    else saturating_add64 now_ns (
        if ltb (u64_max / 1_000_000_000) block_duration_s
        then u64_max
        else block_duration_s * 1_000_000_000)

module _ {κ : Kernel} where
  abbrev reset_trust : IpKey → State κ → State κ
  reset_trust src s = record s {
    trust_map = κ.trust_map.insert s.trust_map src (trust_entry trust_default);
  }

  abbrev record_hit : IpKey → BlockEntry → Option ℕ → State κ → State κ
  record_hit src entry none s = s
  record_hit src entry (some weight) s =
      let updated : BlockEntry = record entry {
        hit_count = saturating_add32 entry.hit_count weight;
      } in
      with_stats bump_blacklist_hit_gen
        (record s { blacklist = κ.blacklist.insert s.blacklist src updated })

  abbrev judge : IpKey → ℕ → Option BlockEntry → State κ → Bool × State κ
  judge src now_ns none s = (false, s)
  judge src now_ns (some entry) s =
      if is_active now_ns entry
      then (let sampled : State κ = with_stats count_hit_sample s in
          (true, record_hit src entry (hit_weight sampled.stats) sampled))
      else (false, reset_trust src (record s { blacklist = κ.blacklist.remove s.blacklist src }))

  unfoldable pub is_blacklisted : IpKey → ℕ → State κ → Bool × State κ
  is_blacklisted src now_ns s = judge src now_ns (κ.blacklist.get s.blacklist src) s

  unfoldable pub add_to_blacklist : IpKey → ℕ → ℕ → ℕ → State κ → State κ
  add_to_blacklist src now_ns block_duration_s reason s =
      let entry : BlockEntry =
        merge_block_entry (κ.blacklist.get s.blacklist src) now_ns
          (block_until now_ns block_duration_s) reason false in
      let zeroed : TrustEntry = record (trust_entry trust_min) { last_update_ns = now_ns } in
      let s' : State κ =
        with_stats bump_blacklist_gen
          (record s { blacklist = κ.blacklist.insert s.blacklist src entry }) in
      record s' { trust_map = κ.trust_map.insert s'.trust_map src zeroed }
