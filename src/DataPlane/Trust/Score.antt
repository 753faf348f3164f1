-- ===== src/DataPlane/Trust/Score.antt =====
-- eshield-ebpf/src/trust.rs: how the score moves, and the factor read from it.
use e_shield.Base.{
  ℕ, ◌-◌, ◌*◌, ◌/◌, ◌≤◌, ◌<◌, ◌≡◌, ◌≢◌, Option, none, some, refl, ap, arith, max, if◌then◌else◌,
  ◌==◌,
}
use native.Mathlib.Nat.{mul-le-mul, div-le_self, div-lt_self, le_trans}
use e_shield.Common.Ip.{IpKey}
use e_shield.Common.Entries.{TrustEntry, trust_max, trust_add_divisor, trust_sub_divisor}
use e_shield.DataPlane.Kernel.{Kernel}
use e_shield.DataPlane.State.{State}
use e_shield.DataPlane.Trust.{
  trust_level, pass_entry, drop_entry, trust_pass, trust_factor, score_of, or_default,
}

-- The scores of an entry are those that the program writes.
abbrev pub InRange : TrustEntry → Type 0
InRange e = e.trust_score ≤ trust_max

-- What a packet of some weight earns fits 32 bits.
earned :
    (score divisor weight : ℕ)
    → score ≤ trust_max
    → weight ≤ 4096
    → (trust_max - score) / divisor * weight ≤ 1000 * 4096
earned score divisor weight h hw =
    mul-le-mul {n₂ = 1000} (le_trans (div-le_self (trust_max - score) divisor) (omega arith)) hw

-- A pass of at most 4096 packets never lowers a score in range or a 32-bit count of passes, never
-- takes the score out of range, and sets the level of the new score.
pass_entry_bounds :
    (e : TrustEntry) (now divisor weight : ℕ)
    → InRange e
    → weight ≤ 4096
    → let after = pass_entry e now divisor weight in
      (e.trust_score ≤ after.trust_score)
      × InRange after
      × (after.level ≡ trust_level after.trust_score)
      × (e.pass_count ≤ 0xffff_ffff → e.pass_count ≤ after.pass_count)
unfolding pass_entry
pass_entry_bounds e now divisor weight h hw =
    let used : ℕ = if divisor == 0 then trust_add_divisor else divisor in
    let small = earned e.trust_score used (max weight 1) h (omega arith) in
    (omega (arith, small), omega (arith, small), refl, omega arith)

-- A dropped packet never raises a score; with a divisor of 2 or more (or the default, written as 0)
-- it never takes a positive score to 0.
drop_entry_bounds :
    (e : TrustEntry) (now divisor : ℕ)
    → divisor ≢ 1
    → let after = drop_entry e now divisor in
      (after.trust_score ≤ e.trust_score)
      × (0 < e.trust_score → 0 < after.trust_score)
      × (after.level ≡ trust_level after.trust_score)
unfolding drop_entry
drop_entry_bounds e now divisor h =
    let used : ℕ = if divisor == 0 then trust_sub_divisor else divisor in
    let two : 2 ≤ used = ground arith in
    (omega arith, λ pos. omega (arith, div-lt_self pos two), refl)

-- A better score never has a worse (numerically higher) level, and the level is one of the four.
trust_level_antitone :
    (a b : ℕ) → a ≤ b → (trust_level b ≤ trust_level a) × (0 < trust_level b) × (trust_level a ≤ 4)
unfolding trust_level
trust_level_antitone a b h = ground arith

score_of_lem : (o : Option TrustEntry) → score_of o ≡ (or_default o).trust_score
score_of_lem none = refl
score_of_lem (some e) = refl

module _ {κ : Kernel} where
  -- Every stored score in range gives a factor between a third and the whole of the threshold.
  trust_factor_bounds :
      (src : IpKey) (s : State κ)
      → score_of (κ.trust_map.get s.trust_map src) ≤ trust_max
      → (333 ≤ trust_factor src s) × (trust_factor src s ≤ 1000)
  unfolding trust_factor
  trust_factor_bounds src s h = omega arith

  -- A pass that stands for at most 4096 packets never lowers the stored score of a source or the
  -- factor read from it, if the score is in range, and leaves the score in range.
  trust_pass_stored :
      (src : IpKey) (now divisor weight : ℕ) (s : State κ)
      → InRange (or_default (κ.trust_map.get s.trust_map src))
      → weight ≤ 4096
      → let before = score_of (κ.trust_map.get s.trust_map src) in
        let s' = trust_pass src now divisor weight s in
        let after = score_of (κ.trust_map.get s'.trust_map src) in
        (before ≤ after) × (after ≤ trust_max) × (trust_factor src s ≤ trust_factor src s')
  unfolding trust_pass trust_factor
  trust_pass_stored src now divisor weight s h hw =
      let entry : Option TrustEntry = κ.trust_map.get s.trust_map src in
      let updated : TrustEntry = pass_entry (or_default entry) now divisor weight in
      let stored = ap score_of (κ.trust_map.get-insert_self s.trust_map src updated) in
      let bounds = pass_entry_bounds (or_default entry) now divisor weight h hw in
      let before = score_of_lem entry in
      (
        omega (arith, stored, before, bounds),
        omega (arith, stored, bounds),
        omega (arith, stored, before, bounds),
      )
