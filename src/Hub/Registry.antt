-- ===== src/Hub/Registry.antt =====
-- eshield-hub/src/registry.rs: the register of the nodes, and the status that the console lists. A
-- node's name is any type of keys; the clean-up task is one step per tick of its interval.
pub mod Online
use e_shield.Base.{ℕ, ◌-◌, Bool, true, List, [], ◌∷◌, leb}
use e_shield.Base.Dicts.{Key, Dict, insert, retain}

pub record NodeInfo {ℓ} (K : Type ℓ) : Type ℓ where
  pub name : K
  pub last_seen_ns : ℕ
  pub online : Bool

-- The test of `list` and of the clean-up: seen within the timeout.
abbrev pub is_fresh : ℕ → ℕ → ℕ → Bool
is_fresh now_ns timeout_ns last_seen_ns = leb (now_ns - last_seen_ns) timeout_ns

abbrev pub Nodes {ℓ} : Type ℓ → Type ℓ
Nodes K = Dict K (NodeInfo K)

module _ {ℓ} {K : Type ℓ} where
  unfoldable pub heartbeat : ⦃key : Key K⦄ → Nodes K → K → ℕ → Nodes K
  heartbeat nodes name now_ns =
      insert name (record { name = name; last_seen_ns = now_ns; online = true }) nodes

  unfoldable pub list : Nodes K → ℕ → ℕ → List (NodeInfo K)
  list [] now_ns timeout_ns = []
  list (entry ∷ nodes) now_ns timeout_ns =
      record entry.1 { online = is_fresh now_ns timeout_ns entry.1.last_seen_ns }
      ∷ list nodes now_ns timeout_ns

  -- One round of `cleanup_task`.
  unfoldable pub cleanup : ⦃key : Key K⦄ → Nodes K → ℕ → ℕ → Nodes K
  cleanup nodes now_ns timeout_ns =
      retain (λ info. is_fresh now_ns timeout_ns info.last_seen_ns) nodes
