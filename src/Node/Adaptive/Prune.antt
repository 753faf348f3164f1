-- ===== src/Node/Adaptive/Prune.antt =====
-- eshield/src/adaptive.rs: the cleaning ends within its limits.
use e_shield.Base.{
  ℕ, zero, suc, ◌≤◌, ◌<◌, ◌≡◌, refl, Bool-cases, inl, inr, true, false, some, [], ◌∷◌, leb, length,
  arith,
}
use e_shield.Base.Dicts.{Dict, remove, length-remove-le}
use e_shield.Common.Ip.{IpKey, ip_key, same_ip, same_ip_iff}
use e_shield.Node.Adaptive.{
  AdaptiveEngine, max_entries, first_key, victim, is_full, drop_key, evict, live_only, size, prune,
}

-- Dropping the first key of a map shrinks it.
first_removed :
    {V : Type 0} (d : Dict IpKey V)
    → 0 < length d
    → (key : IpKey) × (first_key d ≡ some key) × (length (remove key d) < length d)
unfolding remove
first_removed [] h = absurd (omega arith)
first_removed (e ∷ d) h =
    let own : same_ip e.0 e.0 ≡ true = (same_ip_iff e.0 e.0).1 refl in
    (e.0, refl, rw own (omega (arith, length-remove-le e.0 d)))

drop_shrinks :
    (engine : AdaptiveEngine)
    → is_full engine ≡ true
    → (key : IpKey) × (victim engine ≡ some key) × (size (drop_key engine key) < size engine)
unfolding is_full victim
drop_shrinks engine full = elim (Bool-cases (leb (length engine.blocked) (length engine.windows))) [
  | inl more ↦
      (let (key, first, less) = first_removed engine.windows (ground arith) in
        (key, rw more first, omega (arith, less, length-remove-le key engine.blocked)))
  | inr fewer ↦
      (let (key, first, less) = first_removed engine.blocked (ground arith) in
        (key, rw fewer first, omega (arith, less, length-remove-le key engine.windows)))
]

empty : (engine : AdaptiveEngine) → size engine ≤ 0 → is_full engine ≡ false
unfolding is_full
empty engine h = ground arith

within :
    (engine : AdaptiveEngine)
    → is_full engine ≡ false
    → (length engine.windows ≤ max_entries) × (length engine.blocked ≤ max_entries)
unfolding is_full
within engine h = ground arith

evict_ends :
    (fuel : ℕ) (engine : AdaptiveEngine) → size engine ≤ fuel → is_full (evict fuel engine) ≡ false
unfolding evict
evict_ends zero engine h = empty engine h
evict_ends (suc fuel) engine h = elim (Bool-cases (is_full engine)) [
  | inl full ↦
      (let (key, chosen, less) = drop_shrinks engine full in
        rw (full, chosen) (evict_ends fuel (drop_key engine key) (omega arith)))
  | inr fits ↦ rw fits fits
]

-- The cleaning ends by its own test, with at most 100000 entries in each of the two maps, whatever
-- they held before.
pub prune-le :
    (now : ℕ) (engine : AdaptiveEngine)
    → let left = prune now engine in
      (length left.windows ≤ max_entries) × (length left.blocked ≤ max_entries)
unfolding prune
prune-le now engine =
    let live = live_only now engine in
    within (evict (size live) live) (evict_ends (size live) live (omega arith))
