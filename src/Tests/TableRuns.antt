-- ===== src/Tests/TableRuns.antt =====
-- The tables of port rules and signatures, written from lists and asked by the data plane.
use e_shield.Base.{◌≡◌, ◌↔◌, refl, true, none, some, List, [], ◌∷◌, arith}
use e_shield.Base.Text.{Text, bytes, to_ascii_lowercase, split_once, parse_unsigned}
use e_shield.Base.Results.{ok}
use e_shield.Common.Config.{RuntimeConfig}
use e_shield.DataPlane.PortAcl.{check_port_acl}
use e_shield.Node.Config.PortAcl.{PortAclItem, validate_port_acl_items}
use e_shield.Node.Config.Sections.{L7PatternConfig}
use e_shield.Node.Config.Validate.Lists.{validate_l7_patterns}
use e_shield.Node.Control.Tables.{Tables, set_port_acl, set_l7_patterns}
use e_shield.Node.Control.Tables.Rules.{DropsBy, set_port_acl-DropsBy}
use e_shield.Node.Control.Tables.PatternBytes.{AllHaveBytes}
use e_shield.Node.Control.Tables.Patterns.{Scans, set_l7_patterns-Scans}
use e_shield.Tests.Machine.{machine, idle, settings}

abbrev tables : Tables machine
tables = record {
  plane = idle;
  port_acl_shown = [];
  patterns_shown = [];
  port_acl_stored = none;
  patterns_stored = none;
}

abbrev rules : List PortAclItem
rules =
    record { protocol = bytes "TCP"; dport = bytes "443"; action = bytes "allow" }
    ∷ record { protocol = bytes "any"; dport = bytes "1-1024"; action = bytes "drop" }
    ∷ []

rules_valid : validate_port_acl_items to_ascii_lowercase rules ≡ ok tt
unfolding validate_port_acl_items to_ascii_lowercase split_once parse_unsigned
rules_valid = refl

set_port_acl-DropsBy_example :
    let r = set_port_acl to_ascii_lowercase rules tables in
    (r.1 ≡ ok tt)
    × (r.0.port_acl_shown ≡ rules)
    × ((after : RuntimeConfig) × (r.0.plane.config ≡ some after)
        × ((check_port_acl r.0.plane.port_acl 17 53 after.port_acl_count ≡ true)
            ↔ DropsBy to_ascii_lowercase 17 53 rules))
set_port_acl-DropsBy_example =
    set_port_acl-DropsBy to_ascii_lowercase rules tables (settings 0) 17 53 refl rules_valid

-- "GET " and, in any case, "PUT".
abbrev signatures : List L7PatternConfig
signatures =
    record { pattern = bytes "GET "; mask = none }
    ∷ record { pattern = bytes "PUT"; mask = some (0xdf ∷ 0xdf ∷ 0xdf ∷ []) }
    ∷ []

abbrev payload : Text
payload = bytes "put /a HTTP/1.1"

signatures_valid : validate_l7_patterns signatures ≡ ok tt
unfolding validate_l7_patterns
signatures_valid = refl

signatures_bytes : AllHaveBytes signatures
signatures_bytes = ground arith

set_l7_patterns-Scans_example :
    Scans payload signatures (settings 0) (set_l7_patterns signatures tables)
set_l7_patterns-Scans_example =
    set_l7_patterns-Scans signatures tables (settings 0) payload refl signatures_valid
      signatures_bytes refl (ground arith)
