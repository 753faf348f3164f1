-- ===== src/Node/Control/Publish.antt =====
-- eshield/src/control.rs: the blocks that a node reports to the hub.
use e_shield.Base.{
  ℕ, zero, suc, ◌+◌, ◌/◌, ◌≤◌, ◌<◌, ◌≡◌, true, not, ◌&&◌, Option, none, some, List, [], ◌∷◌, ltb,
  if◌then◌else◌, min, arith,
}
use e_shield.Common.Ip.{IpKey}
use e_shield.Common.Entries.{BlockEntry, TrustEntry}
use e_shield.DataPlane.Kernel.{Kernel}
use e_shield.DataPlane.State.{State}
use e_shield.Node.Store.{BlacklistRow, Table, publishable, has_expired}
use e_shield.Node.Control.Blocks.{seconds_left}

-- eshield/src/hub_client.rs
pub record NodePolicy : Type 0 where
  pub ip : IpKey
  pub reason : ℕ
  pub hit_count : ℕ
  pub trust_score : ℕ
  pub blocked_until_ns : ℕ
  pub ttl_s : ℕ

-- On the hub's scale from 0 to 100; an unknown address has 0.
abbrev scaled : Option TrustEntry → ℕ
scaled none = 0
scaled (some entry) = min (entry.trust_score / 10) 100

-- The policy of one row, if it is reported: the row's origin, the hits of the address in the data
-- plane, and its trust decide.
unfoldable pub policy_of :
    ℕ → ℕ → ℕ → IpKey → BlacklistRow → Option BlockEntry → ℕ → Option NodePolicy
unfolding seconds_left
policy_of now_ns min_hits min_trust key row none trust_score = none
policy_of now_ns min_hits min_trust key row (some entry) trust_score =
    if not (publishable row.origin)
    then none
    else if ltb entry.hit_count min_hits && has_expired now_ns row.blocked_until_ns
    then none
    else if ltb min_trust trust_score
    then none
    else some (record {
      ip = key;
      reason = row.block_reason;
      hit_count = entry.hit_count;
      trust_score = trust_score;
      blocked_until_ns = row.blocked_until_ns;
      ttl_s = seconds_left now_ns row.blocked_until_ns;
    })

-- The loop: `left` more policies fit below the limit; the first one is taken whatever the limit is,
-- since the test follows the push.
abbrev push_policy : Option NodePolicy → ℕ → (ℕ → List NodePolicy) → List NodePolicy
push_policy none left rest = rest left
push_policy (some policy) zero rest = policy ∷ []
push_policy (some policy) (suc zero) rest = policy ∷ []
push_policy (some policy) (suc (suc left)) rest = policy ∷ rest (suc left)

module _ {κ : Kernel} where
  unfoldable collect : ℕ → ℕ → ℕ → State κ → Table → ℕ → List NodePolicy
  unfolding policy_of
  collect now_ns min_hits min_trust plane [] limit = []
  collect now_ns min_hits min_trust plane ((key, row) ∷ rows) limit =
      push_policy
        (policy_of now_ns min_hits min_trust key row (κ.blacklist.get plane.blacklist key)
          (scaled (κ.trust_map.get plane.trust_map key)))
        limit (collect now_ns min_hits min_trust plane rows)

-- A block that has run out, or has less than a second left, is reported all the same if it was hit
-- often enough and its address is trusted little enough, and its remaining time is given as 0 seconds,
-- which stands for a permanent block.
expired_is_reported_permanent :
    (now min_hits min_trust : ℕ) (key : IpKey) (row : BlacklistRow) (entry : BlockEntry) (trust : ℕ)
    → publishable row.origin ≡ true
    → row.blocked_until_ns < now + 1_000_000_000
    → min_hits ≤ entry.hit_count
    → trust ≤ min_trust
    → (policy : NodePolicy) × (policy_of now min_hits min_trust key row (some entry) trust
        ≡ some policy)
      × (policy.ttl_s ≡ 0)
unfolding policy_of seconds_left
expired_is_reported_permanent now min_hits min_trust key row entry trust ours over hit low = (
  record {
    ip = key;
    reason = row.block_reason;
    hit_count = entry.hit_count;
    trust_score = trust;
    blocked_until_ns = row.blocked_until_ns;
    ttl_s = seconds_left now row.blocked_until_ns;
  },
  ground arith,
  ground arith,
)
