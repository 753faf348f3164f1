-- ===== src/Pure/Acl.antt =====
-- eshield-common/src/pure.rs: `match_port_acl_entry`, one rule of the port and protocol list.
use e_shield.Base.{
  ℕ, ◌≤◌, ◌≡◌, ◌≢◌, ◌⊎◌, ◌↔◌, Bool, Option, none, some, ◌&&◌, ◌||◌, ltb, ◌==◌, ◌!=◌, if◌then◌else◌,
  arith,
}

pub data AclMatch : Type 0 where
  allow drop : AclMatch

-- The test of the three nested `if`s that return `None`, for the port.
unfoldable pub port_differs : ℕ → ℕ → ℕ → Bool
port_differs dport low high =
    low != 0 && (if high != 0 then ltb dport low || ltb high dport else dport != low)

unfoldable pub match_port_acl_entry : ℕ → ℕ → ℕ → ℕ → ℕ → ℕ → Option AclMatch
unfolding port_differs
match_port_acl_entry protocol dport entry_protocol dport_low dport_high action =
    if action == 0
    then none
    else if entry_protocol != 0 && entry_protocol != protocol
    then none
    else if port_differs dport dport_low dport_high
    then none
    else if action == 1
    then some AclMatch.allow
    else if action == 2
    then some AclMatch.drop
    else none

-- The rule's protocol field covers a protocol: 0 is a wildcard.
abbrev pub CoversProtocol : ℕ → ℕ → Type 0
CoversProtocol entry protocol = (entry ≡ 0) ⊎ (entry ≡ protocol)

-- The rule's port fields cover a port: low 0 is a wildcard, high 0 means the low port alone.
abbrev pub CoversPort : ℕ → ℕ → ℕ → Type 0
CoversPort low high dport =
    (low ≡ 0) ⊎ (((high ≡ 0) × (dport ≡ low)) ⊎ ((high ≢ 0) × (low ≤ dport) × (dport ≤ high)))

-- A rule drops exactly the packets that its protocol and port fields cover, if its action is 2,
-- and allows exactly those if it is 1.
pub match_port_acl_entry_iff :
    (protocol dport entry low high action : ℕ)
    → ((match_port_acl_entry protocol dport entry low high action ≡ some AclMatch.drop)
        ↔ ((action ≡ 2) × CoversProtocol entry protocol × CoversPort low high dport))
      × ((match_port_acl_entry protocol dport entry low high action ≡ some AclMatch.allow)
          ↔ ((action ≡ 1) × CoversProtocol entry protocol × CoversPort low high dport))
unfolding match_port_acl_entry port_differs
match_port_acl_entry_iff protocol dport entry low high action = ground arith
