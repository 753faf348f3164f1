-- ===== src/Node/Control/Patch/Changes.antt =====
-- eshield/src/control.rs: a running node through a sequence of patches, reloads and measurements of
-- the danger level.
use e_shield.Base.{ℕ, ◌&&◌, Bool, true, none, List, [], ◌∷◌}
use e_shield.Base.Results.{Result, ok, err}
use e_shield.Node.Config.Sections.{Config}
use e_shield.Node.Control.Runtime.{Plane, reload, set_danger_level}
use e_shield.Node.Control.Patch.{RuntimeConfigPatch, PatchError, patch_runtime}
use e_shield.Node.Control.Patch.Limited.{is_on, has_limits}

-- What changes the settings of a running node; a patch that is refused changes nothing.
pub data Change (F : Type 0) : Type 0 where
  patches : RuntimeConfigPatch → Change F
  reloads : Config F → Change F
  measures_danger : ℕ → Change F

abbrev pub no_change : RuntimeConfigPatch
no_change = record {
  rate_limit_enabled = none;
  syn_proxy_enabled = none;
  l7_scan_enabled = none;
  udp_flood_enabled = none;
  icmp_flood_enabled = none;
  geoip_enabled = none;
  tcp_reset_on_drop = none;
  trust_enabled = none;
  conn_track_enabled = none;
  conn_track_threshold = none;
  conn_track_window_ms = none;
  trust_add_divisor = none;
  trust_sub_divisor = none;
  geoip_default_action = none;
  rate_limit = none;
  port_rate_limit = none;
  adaptive = none;
  fragment_policy = none;
  rate_limit_block_mode = none;
}

abbrev pub after : Plane → Result Plane PatchError → Plane
after p (ok q) = q
after p (err e) = p

module _ {F : Type 0} where
  abbrev pub change : Plane → Change F → Plane
  change p (patches patch) = after p (patch_runtime patch p)
  change p (reloads config) = reload config p
  change p (measures_danger level) = set_danger_level level p

  unfoldable pub run : Plane → List (Change F) → Plane
  run p [] = p
  run p (c ∷ changes) = run (change p c) changes

-- A change brings no limiter that is switched off, and no configuration with a zero limit.
abbrev pub is_looked_at : {F : Type 0} → Change F → Bool
is_looked_at (patches patch) = is_on patch.rate_limit && is_on patch.port_rate_limit
is_looked_at (reloads config) = has_limits config
is_looked_at (measures_danger level) = true

abbrev pub are_looked_at : {F : Type 0} → List (Change F) → Bool
are_looked_at [] = true
are_looked_at (c ∷ changes) = is_looked_at c && are_looked_at changes
