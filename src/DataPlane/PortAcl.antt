-- ===== src/DataPlane/PortAcl.antt =====
-- eshield-ebpf/src/port_acl.rs: the rule table, searched in order.
pub mod FirstMatch
use e_shield.Base.{ℕ, zero, suc, ◌+◌, Bool, true, false, Option, none, some, swap16}
use e_shield.Common.Entries.{PortAclEntry}
use e_shield.Pure.Acl.{AclMatch, match_port_acl_entry}

abbrev pub match_entry : ℕ → ℕ → Option PortAclEntry → Option AclMatch
match_entry protocol dport none = none
match_entry protocol dport (some entry) =
    match_port_acl_entry protocol dport entry.protocol (swap16 entry.dport_low)
      (swap16 entry.dport_high) entry.action

-- The `match` in the loop: a rule that decides returns, and any other goes on.
abbrev pub resolve : Option AclMatch → Bool → Bool
resolve none rest = rest
resolve (some AclMatch.drop) rest = true
resolve (some AclMatch.allow) rest = false

-- The `while` loop from index `i` on, with `left` rules to go; a missing entry is skipped.
unfoldable pub acl_loop : (ℕ → Option PortAclEntry) → ℕ → ℕ → ℕ → ℕ → Bool
acl_loop table protocol dport i zero = false
acl_loop table protocol dport i (suc left) =
    resolve (match_entry protocol dport (table i)) (acl_loop table protocol dport (i + 1) left)

unfoldable pub check_port_acl : (ℕ → Option PortAclEntry) → ℕ → ℕ → ℕ → Bool
check_port_acl table protocol dport count = acl_loop table protocol dport 0 count
