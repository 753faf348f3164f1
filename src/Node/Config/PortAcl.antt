-- ===== src/Node/Config/PortAcl.antt =====
-- eshield/src/config.rs: the rules of the port list, checked and compiled. `to_lowercase` is the
-- standard library's, which maps all of Unicode; the other text functions are those of Base/Text.
pub mod Compiles
pub mod Covers
use e_shield.Base.{
  ℕ, Bool, true, false, ◌||◌, Option, none, some, List, [], ◌∷◌, ltb, leb, ◌==◌, if◌then◌else◌,
  length, u16_max, swap16,
}
use e_shield.Base.Dicts.{same_list}
use e_shield.Base.Text.{Text, bytes, split_once, parse_unsigned}
use e_shield.Base.Results.{Result, ok, err, ◌>>=◌, ◌>>◌, ensure, or_err}
use e_shield.Common.Entries.{PortAclEntry}
use e_shield.Common.Config.{max_port_acl}

pub record PortAclItem : Type 0 where
  pub protocol : Text
  pub dport : Text
  pub action : Text

-- The messages, without the index that they quote.
pub data AclError : Type 0 where
  too_many invalid_protocol invalid_action invalid_low invalid_high invalid_range invalid_dport :
      AclError

-- Without a short circuit each test is looked at, which changes nothing here.
abbrev pub known_protocol : Text → Bool
known_protocol p =
    same_list p (bytes "tcp")
    || same_list p (bytes "udp")
    || same_list p (bytes "icmp")
    || same_list p (bytes "icmpv6")
    || same_list p (bytes "any")

abbrev pub known_action : Text → Bool
known_action a = same_list a (bytes "allow") || same_list a (bytes "drop")

abbrev pub is_any_port : Text → Bool
is_any_port dport = same_list dport (bytes "*") || same_list dport (bytes "any")

unfoldable pub validate_ports : Option (Text × Text) → Text → Result (Unit {0}) AclError
validate_ports (some (low, high)) dport = do
  l ← or_err (parse_unsigned u16_max low) invalid_low
  h ← or_err (parse_unsigned u16_max high) invalid_high
  ensure (leb l h) invalid_range
validate_ports none dport = do p ← or_err (parse_unsigned u16_max dport) invalid_dport; ok tt

abbrev pub protocol_number : Text → Option ℕ
protocol_number p =
    if same_list p (bytes "any")
    then some 0
    else if same_list p (bytes "tcp")
    then some 6
    else if same_list p (bytes "udp")
    then some 17
    else if same_list p (bytes "icmp")
    then some 1
    else if same_list p (bytes "icmpv6")
    then some 58
    else none

abbrev pub action_number : Text → Option ℕ
action_number a =
    if same_list a (bytes "allow")
    then some 1
    else if same_list a (bytes "drop")
    then some 2
    else none

unfoldable pub parse_ports : Option (Text × Text) → Text → Result (ℕ × ℕ) AclError
parse_ports (some (a, b)) dport = do
  low ← or_err (parse_unsigned u16_max a) invalid_low
  high ← or_err (parse_unsigned u16_max b) invalid_high
  ensure (leb low high) invalid_range
  ok (low, high)
parse_ports none dport = do p ← or_err (parse_unsigned u16_max dport) invalid_dport; ok (p, p)

-- The bounds of an item's ports in host order, 0 and 0 for any port.
unfoldable pub ports_of : Text → Result (ℕ × ℕ) AclError
unfolding parse_ports
ports_of dport = if is_any_port dport then ok (0, 0) else parse_ports (split_once b'-' dport) dport

module _ (to_lowercase : Text → Text) where
  unfoldable pub validate_item : PortAclItem → Result (Unit {0}) AclError
  unfolding validate_ports
  validate_item entry = do
    ensure (known_protocol (to_lowercase entry.protocol)) invalid_protocol
    ensure (known_action (to_lowercase entry.action)) invalid_action
    if is_any_port entry.dport
        then ok tt
        else validate_ports (split_once b'-' entry.dport) entry.dport

  unfoldable pub validate_items : List PortAclItem → Result (Unit {0}) AclError
  unfolding validate_item
  validate_items [] = ok tt
  validate_items (entry ∷ items) = do validate_item entry; validate_items items

  unfoldable pub validate_port_acl_items : List PortAclItem → Result (Unit {0}) AclError
  unfolding validate_items
  validate_port_acl_items items = do
    ensure (leb (length items) max_port_acl) too_many
    validate_items items

  unfoldable pub to_entry : PortAclItem → Result PortAclEntry AclError
  unfolding ports_of
  to_entry item = do
    protocol ← or_err (protocol_number (to_lowercase item.protocol)) invalid_protocol
    action ← or_err (action_number (to_lowercase item.action)) invalid_action
    ports ← ports_of item.dport
    ok (record {
      protocol = protocol;
      dport_low = swap16 ports.0;
      dport_high = swap16 ports.1;
      action = action;
    })
