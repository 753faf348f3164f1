-- ===== src/DataPlane/Trust.antt =====
-- eshield-ebpf/src/trust.rs: the reputation of a source, between 0 and 1000.
pub mod Score
use e_shield.Base.{
  ℕ, ◌+◌, ◌-◌, ◌*◌, ◌/◌, ◌%◌, min, max, Bool, true, false, Option, none, some, ◌==◌, leb,
  if◌then◌else◌, saturating_add32, saturating_mul32, wrapping_add32, wrapping_mul64, u32_mod,
  bit_and,
}
use e_shield.Common.Ip.{IpKey}
use e_shield.Common.Entries.{
  TrustEntry, trust_max, trust_min, trust_default, trust_entry, trust_add_divisor,
  trust_sub_divisor,
}
use e_shield.Common.Stats.{GlobalStats}
use e_shield.DataPlane.Kernel.{Kernel}
use e_shield.DataPlane.State.{State, on_stats}

unfoldable pub trust_level : ℕ → ℕ
trust_level score =
    if leb 700 score then 1 else if leb 300 score then 2 else if leb 100 score then 3 else 4

-- The entry that an update starts from.
abbrev pub or_default : Option TrustEntry → TrustEntry
or_default none = trust_entry trust_default
or_default (some e) = e

-- The new entry of `trust_pass`; `delta` is what one packet earns.
unfoldable pub pass_entry : TrustEntry → ℕ → ℕ → ℕ → TrustEntry
pass_entry entry now_ns add_divisor weight =
    let weight₁ : ℕ = max weight 1 in
    let divisor : ℕ = if add_divisor == 0 then trust_add_divisor else add_divisor in
    let delta : ℕ = (trust_max - entry.trust_score) / divisor in
    let score : ℕ =
      min (wrapping_add32 entry.trust_score (saturating_mul32 delta weight₁)) trust_max in
    record {
      last_update_ns = now_ns;
      trust_score = score;
      pass_count = saturating_add32 entry.pass_count weight₁;
      drop_count = entry.drop_count;
      level = trust_level score;
    }

-- The new entry of `trust_drop`, before the sampling of sources at zero.
unfoldable pub drop_entry : TrustEntry → ℕ → ℕ → TrustEntry
drop_entry entry now_ns sub_divisor =
    let divisor : ℕ = if sub_divisor == 0 then trust_sub_divisor else sub_divisor in
    let score : ℕ = entry.trust_score - entry.trust_score / divisor in
    record {
      last_update_ns = now_ns;
      trust_score = score;
      pass_count = entry.pass_count;
      drop_count = saturating_add32 entry.drop_count 1;
      level = trust_level score;
    }

abbrev count_drop_sample : GlobalStats → GlobalStats
count_drop_sample g = record g { trust_drop_sample = wrapping_add32 g.trust_drop_sample 1 }

-- Every sixteenth drop of a source at zero is due; without statistics each one is.
abbrev drop_due : Option GlobalStats → Bool
drop_due none = true
drop_due (some g) = bit_and g.trust_drop_sample 0xf == 0

abbrev pub score_of : Option TrustEntry → ℕ
score_of none = trust_default
score_of (some e) = e.trust_score

module _ {κ : Kernel} where
  unfoldable pub trust_pass : IpKey → ℕ → ℕ → ℕ → State κ → State κ
  trust_pass src now_ns add_divisor weight s =
      let entry : TrustEntry =
        pass_entry (or_default (κ.trust_map.get s.trust_map src)) now_ns add_divisor weight in
      record s { trust_map = κ.trust_map.insert s.trust_map src entry }

  unfoldable pub trust_drop : IpKey → ℕ → ℕ → State κ → State κ
  trust_drop src now_ns sub_divisor s =
      let entry : TrustEntry =
        drop_entry (or_default (κ.trust_map.get s.trust_map src)) now_ns sub_divisor in
      if entry.trust_score == trust_min
      then (let stats : Option GlobalStats = on_stats count_drop_sample s.stats in
          let caught_up : TrustEntry = record entry {
            drop_count = saturating_add32 entry.drop_count 15;
          } in
          if drop_due stats
          then record s { stats = stats; trust_map = κ.trust_map.insert s.trust_map src caught_up }
          else record s { stats = stats })
      else record s { trust_map = κ.trust_map.insert s.trust_map src entry }

  unfoldable pub trust_factor : IpKey → State κ → ℕ
  trust_factor src s = wrapping_mul64 (500 + score_of (κ.trust_map.get s.trust_map src)) 1000 / 1500

unfoldable pub danger_factor : ℕ → ℕ
danger_factor danger_level =
    if danger_level == 2 then 500 else if danger_level == 1 then 750 else 1000
