-- ===== src/Node/Adaptive/Counts.antt =====
-- eshield/src/adaptive.rs: when a source is blocked.
use e_shield.Base.{ℕ, ◌⊎◌, ◌+◌, ◌≤◌, ◌<◌, ◌≡◌, true, some, [], ◌∷◌}
use e_shield.Base.Dicts.{find}
use e_shield.Common.Ip.{IpKey, ip_key}
use e_shield.Common.Rules as Rules
use e_shield.DataPlane.Kernel.{Kernel}
use e_shield.DataPlane.Blacklist.{is_blacklisted}
use e_shield.Node.Adaptive.{Node, Window, AdaptiveEngine, recent_only, or_empty, noted_until}

-- The number of events in a window, without a bound.
abbrev events_in : Window → ℕ
events_in [] = 0
events_in (e ∷ window) = e.1 + events_in window

-- The events that a source's window counts at a time.
abbrev pub recent_events : ℕ → IpKey → AdaptiveEngine → ℕ
recent_events now_s src engine =
    events_in (recent_only now_s engine.config.window_s (or_empty (find src engine.windows)))

module _ {κ : Kernel} where
  -- The outcome of a call. Over the threshold the source is noted until the end of its block, and the
  -- data plane finds it blacklisted at the time `t`; below it nothing but its window has changed.
  abbrev pub Judged : ℕ → ℕ → IpKey → ℕ → Node κ → Node κ → Type 0
  Judged now_s t src seen n after =
      ((n.engine.config.threshold ≤ seen)
        × (find src after.engine.blocked
            ≡ some (noted_until now_s n.engine.config.block_duration_s))
        × ((is_blacklisted src t after.plane).0 ≡ true))
      ⊎ ((seen < n.engine.config.threshold)
          × (after.engine.blocked ≡ n.engine.blocked)
          × (after.plane ≡ n.plane))
