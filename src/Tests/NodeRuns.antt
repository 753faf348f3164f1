-- ===== src/Tests/NodeRuns.antt =====
-- The theorems on the blocks, the rules, the secrets and the helpers of a node at concrete inputs.
use e_shield.Base.{
  ℕ, ◌≤◌, ◌≡◌, ◌↔◌, refl, inr, true, false, some, List, [], ◌∷◌, arith, length, replicate,
}
use e_shield.Base.Dicts.{find}
use e_shield.Base.Text.{bytes, to_ascii_lowercase, split_once, parse_unsigned}
use e_shield.Base.Results.{ok}
use e_shield.Common.Ip.{ip_key}
use e_shield.Common.Entries.{CookieSecret, PortAclEntry}
use e_shield.Common.Config.{max_port_acl}
use e_shield.DataPlane.SynCookie.Cookie.{Flow, accepts, challenge_cookie}
use e_shield.Node.Config.PortAcl.{
  PortAclItem, ports_of, parse_ports, to_entry, validate_port_acl_items,
}
use e_shield.Node.Config.PortAcl.Compiles.{Compile, validate_port_acl_items_iff}
use e_shield.Node.Cookies.{rotate_cookie_secrets, challenge_survives_rotation}
use e_shield.Node.Store.{BlacklistRow, adaptive}
use e_shield.Node.Control.Blocks.{
  ControlState, SharedPolicy, apply_hub_policies, unblock_hub_policies, until_of, is_from_hub,
}
use e_shield.Node.Control.Blocks.Hub.{
  Keeps, block_of, unblock_hub_policies_local, apply_hub_policies-Keeps,
}
use e_shield.Node.Adaptive.{AdaptiveEngine, Node, prune, max_entries}
use e_shield.Node.Adaptive.Prune.{prune-le}
use e_shield.Node.Timeseries.{Totals, new}
use e_shield.Node.Timeseries.Recent.{run, newest, log_of, run-newest}
use e_shield.Tests.Machine.{machine, attacker, idle, one_blocked, blocked_till_9, secrets}

abbrev web_rule : PortAclItem
web_rule = record { protocol = bytes "TCP"; dport = bytes "80-90"; action = bytes "drop" }

validate_port_acl_items_iff_example :
    (validate_port_acl_items to_ascii_lowercase (web_rule ∷ []) ≡ ok tt)
    ↔ ((1 ≤ max_port_acl) × Compile to_ascii_lowercase (web_rule ∷ []))
validate_port_acl_items_iff_example = validate_port_acl_items_iff to_ascii_lowercase (web_rule ∷ [])

abbrev web_entry : PortAclEntry
web_entry = record { protocol = 6; dport_low = 0x5000; dport_high = 0x5a00; action = 2 }

web_ports : ports_of (bytes "80-90") ≡ ok (80, 90)
unfolding ports_of parse_ports split_once parse_unsigned
web_ports = refl

web_compiles : to_entry to_ascii_lowercase web_rule ≡ ok web_entry
unfolding to_entry ports_of parse_ports split_once parse_unsigned to_ascii_lowercase
web_compiles = refl

-- 2001:db8::ff00/32 keeps the octet after its prefix.
abbrev octets : List ℕ
octets = 32 ∷ 1 ∷ 13 ∷ 184 ∷ 255 ∷ replicate 11 0

abbrev flow : Flow
flow = record { saddr = 0x100_000a; daddr = 0x200_000a; sport = 4000; dport = 443 }

challenge_survives_rotation_example :
    let rounds : List (ℕ × List ℕ) = (70, replicate 16 1) ∷ (125, replicate 16 2) ∷ [] in
    (after : CookieSecret) × (rotate_cookie_secrets rounds (some (secrets 1)) ≡ some after)
    × (accepts flow after 125_000_000_000 (challenge_cookie flow (secrets 1) 65_000_000_000 2)
        ≡ true)
challenge_survives_rotation_example =
    challenge_survives_rotation flow (secrets 1) ((70, replicate 16 1) ∷ (125, replicate 16 2) ∷ [])
      65_000_000_000 125_000_000_000 2 (omega arith) refl (inr refl)
      (omega arith, (omega arith, tt))

abbrev row : BlacklistRow
row = record {
  blocked_until_ns = 9;
  block_reason = 5;
  first_seen_ns = 5;
  origin = adaptive;
  last_updated_ns = 5;
}

abbrev control : ControlState machine
control = record {
  plane = one_blocked blocked_till_9;
  blacklist = [];
  store = some ((attacker, row) ∷ []);
  trust_enabled = true;
  node_name = bytes "node-1";
}

permanent_until : until_of 6 0 ≡ 0
unfolding until_of
permanent_until = refl

not_the_hubs : is_from_hub (find attacker ((attacker, row) ∷ [])) ≡ false
unfolding find
not_the_hubs = refl

unblock_hub_policies_local_example :
    block_of attacker (unblock_hub_policies (attacker ∷ []) control) ≡ block_of attacker control
unblock_hub_policies_local_example =
    unblock_hub_policies_local attacker ((attacker, row) ∷ []) (attacker ∷ []) control refl
      not_the_hubs

abbrev policy : SharedPolicy
policy = record {
  ip = attacker;
  reason = 6;
  ttl_s = 1;
  trust_score = 10;
  source_nodes = bytes "node-2" ∷ [];
}

apply_hub_policies-Keeps_example :
    Keeps machine attacker
      (block_of attacker control)
      (block_of attacker (apply_hub_policies 6 (policy ∷ []) control))
apply_hub_policies-Keeps_example = apply_hub_policies-Keeps 6 attacker (policy ∷ []) control refl

abbrev engine : AdaptiveEngine
engine = record {
  config = record { enabled = true; threshold = 3; window_s = 60; block_duration_s = 300 };
  windows = (attacker, (10, 2) ∷ []) ∷ [];
  blocked = [];
}

prune-le_example :
    let left = prune 20 engine in
    (length left.windows ≤ max_entries) × (length left.blocked ≤ max_entries)
prune-le_example = prune-le 20 engine

abbrev node : Node machine
node = record { engine = engine; plane = idle; adaptive_blocked = 0 }

abbrev totals : ℕ → Totals
totals n = record { total_packets = n; total_dropped = 0; total_passed = n }

abbrev samples : List (ℕ × Totals)
samples = (10, totals 1) ∷ (10, totals 2) ∷ (11, totals 3) ∷ (12, totals 4) ∷ []

run-newest_example : (run samples (new 2 5)).slots ≡ newest 2 (log_of samples (new 2 5))
run-newest_example = run-newest 2 5 samples (omega arith)
