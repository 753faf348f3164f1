-- ===== src/Tests/ControlRuns.antt =====
-- The theorems on the settings of a running node at concrete inputs.
use e_shield.Base.{◌≡◌, ◌↔◌, ◌⊎◌, ◌&&◌, List, refl, true, false, none, some, [], ◌∷◌}
use e_shield.Base.Dicts.{same_list}
use e_shield.Base.Text.{bytes, to_ascii_lowercase, split_once, parse_unsigned}
use e_shield.Base.Results.{ok}
use e_shield.Node.Config.Sections.{Config}
use e_shield.Node.Config.Validate.{Host, validate}
use e_shield.Node.Config.Validate.Lists.{is_empty, validate_l7_patterns, validate_projects}
use e_shield.Node.Config.PortAcl.{validate_port_acl_items}
use e_shield.Node.Config.Validate.Accepted.{Ready, validate-Ready}
use e_shield.Node.Control.Runtime.{Plane, RateLimitParams, ignores_case_soft, new, reload}
use e_shield.Node.Control.Patch.{
  RuntimeConfigPatch, apply_patch, patch_runtime, validate_runtime_patch,
}
use e_shield.Node.Control.Patch.Sync.{
  InSync, patch_runtime-InSync, new-InSync_iff, reload-InSync_iff,
}
use e_shield.Node.Control.Patch.Limited.{Limited, has_limits}
use e_shield.Node.Control.Patch.Changes.{
  Change, patches, reloads, measures_danger, no_change, run, are_looked_at,
}
use e_shield.Node.Control.Patch.Safe.{IsSafe, run-IsSafe}
use e_shield.Tests.Settings.{configured}

abbrev running : Plane
unfolding new
running = new (configured (bytes "soft"))

abbrev new_threshold : RuntimeConfigPatch
new_threshold = record no_change { conn_track_threshold = some 7 }

in_sync : InSync running
unfolding to_ascii_lowercase running new
in_sync = (new-InSync_iff (configured (bytes "soft"))).1 refl

accepted_patch : patch_runtime new_threshold running ≡ ok (apply_patch new_threshold running)
unfolding patch_runtime validate_runtime_patch
accepted_patch = refl

patch_runtime-InSync_example :
    let q = apply_patch new_threshold running in
    InSync q
    × (q.config.danger_level ≡ running.config.danger_level)
    × (q.config.port_acl_count ≡ running.config.port_acl_count)
    × (q.config.l7_pattern_count ≡ running.config.l7_pattern_count)
patch_runtime-InSync_example =
    patch_runtime-InSync new_threshold running (apply_patch new_threshold running) in_sync
      accepted_patch

reload-InSync_iff_example : InSync (reload (configured (bytes "hard")) running) ↔ (
    (running.runtime.danger_level ≡ 0)
    × (ignores_case_soft (bytes "hard") ≡ same_list (bytes "hard") (bytes "soft")))
reload-InSync_iff_example = reload-InSync_iff (configured (bytes "hard")) running

abbrev three_changes : List (Change (Unit {0}))
three_changes = patches new_threshold ∷ measures_danger 9 ∷ reloads (configured (bytes "hard")) ∷ []

run-IsSafe_example :
    let p = run (new (configured (bytes "soft"))) three_changes in
    IsSafe p
    × (Limited p
        ⊎ ((has_limits (configured (bytes "soft")) && are_looked_at three_changes) ≡ false))
run-IsSafe_example = run-IsSafe (configured (bytes "soft")) three_changes

-- A threshold of 0, which no check lets through where it is switched on.
abbrev nothing_passes : RateLimitParams
nothing_passes = record {
  enabled = false;
  threshold = 0;
  tick_ms = 0;
  decay_num = 0;
  decay_den = 0;
  block_duration_s = 60;
  dport_grouping = false;
}

-- A host on which everything exists, and a configuration with one port rule.
abbrev any_host : Host (Unit {0})
any_host = record {
  to_lowercase = to_ascii_lowercase;
  parse_addr = λ s. none;
  is_socket_addr = λ s. true;
  is_blank = is_empty;
  is_positive = λ x. true;
  interface_exists = λ name. true;
  store_dir_ready = λ path. true;
}

abbrev with_rule : Config (Unit {0})
with_rule = record (configured (bytes "soft")) {
  port_acl = record { protocol = bytes "TCP"; dport = bytes "80-90"; action = bytes "drop" } ∷ [];
}

rule_passes : validate any_host with_rule ≡ ok tt
unfolding validate validate_port_acl_items validate_l7_patterns validate_projects split_once
    parse_unsigned to_ascii_lowercase
rule_passes = refl

validate-Ready_example : Ready any_host with_rule
validate-Ready_example = validate-Ready any_host with_rule rule_passes
