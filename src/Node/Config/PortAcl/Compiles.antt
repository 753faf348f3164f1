-- ===== src/Node/Config/PortAcl/Compiles.antt =====
-- eshield/src/config.rs: the check of the port list and its compilation agree.
use e_shield.Base.{
  ℕ, ◌≤◌, ◌≡◌, refl, ◌↔◌, Bool, Bool-cases, inl, inr, ◌||◌, Option, none, some, List, [], ◌∷◌,
  if◌then◌else◌, length, arith,
}
use e_shield.Base.Dicts.{same_list}
use e_shield.Base.Text.{Text, bytes, split_once}
use e_shield.Base.Results.{Result, ok, err, ◌>>◌, ensure, or_err}
use e_shield.Common.Entries.{PortAclEntry}
use e_shield.Common.Config.{max_port_acl}
use e_shield.Node.Config.PortAcl.{
  PortAclItem, AclError, invalid_protocol, invalid_action, known_protocol, known_action,
  is_any_port, validate_ports, protocol_number, action_number, parse_ports, ports_of, validate_item,
  validate_items, validate_port_acl_items, to_entry,
}

-- The outcome of a computation, without its value.
abbrev outcome {ℓ κ} : {A : Type ℓ} {E : Type κ} → Result A E → Result (Unit {0}) E
outcome (ok a) = ok tt
outcome (err e) = err e

known_protocol_number :
    (p : Text)
    → ensure (known_protocol p) invalid_protocol
      ≡ outcome (or_err (protocol_number p) invalid_protocol)
known_protocol_number p =
    go (same_list p (bytes "tcp")) (same_list p (bytes "udp")) (same_list p (bytes "icmp"))
      (same_list p (bytes "icmpv6")) (same_list p (bytes "any"))
  where
    go :
        (t u i v a : Bool)
        → ensure (t || u || i || v || a) invalid_protocol
          ≡ outcome {A = ℕ} (
              or_err
                (if a
                  then some 0
                  else if t
                  then some 6
                  else if u
                  then some 17
                  else if i
                  then some 1
                  else if v
                  then some 58
                  else none)
                invalid_protocol)
    go t u i v a = ground arith

known_action_number :
    (a : Text)
    → ensure (known_action a) invalid_action ≡ outcome (or_err (action_number a) invalid_action)
known_action_number a = go (same_list a (bytes "allow")) (same_list a (bytes "drop"))
  where
    go :
        (allow drop : Bool)
        → ensure (allow || drop) invalid_action
          ≡ outcome {A = ℕ}
              (or_err (if allow then some 1 else if drop then some 2 else none) invalid_action)
    go allow drop = ground arith

validate_ports-parse :
    (split : Option (Text × Text)) (dport : Text)
    → validate_ports split dport ≡ outcome (parse_ports split dport)
unfolding validate_ports parse_ports
validate_ports-parse (some (low, high)) dport = ground arith
validate_ports-parse none dport = ground arith

ports-outcome :
    (dport : Text)
    → (if is_any_port dport then ok tt else validate_ports (split_once b'-' dport) dport)
      ≡ outcome (ports_of dport)
unfolding ports_of
ports-outcome dport = elim (Bool-cases (is_any_port dport)) [
  | inl any ↦ rw any refl
  | inr other ↦ rw other (validate_ports-parse (split_once b'-' dport) dport)
]

module _ (to_lowercase : Text → Text) where
  -- The check of an item and its compilation fail with the same error, or both succeed.
  validate_item-to_entry :
      (item : PortAclItem) → validate_item to_lowercase item ≡ outcome (to_entry to_lowercase item)
  unfolding validate_item to_entry
  validate_item-to_entry item =
      rw
        (
          known_protocol_number (to_lowercase item.protocol),
          known_action_number (to_lowercase item.action),
          ports-outcome item.dport,
        )
        (ground arith)

  -- Every item of the list compiles.
  abbrev pub Compile : List PortAclItem → Type 0
  Compile [] = Unit
  Compile (item ∷ items) =
      ((entry : PortAclEntry) × (to_entry to_lowercase item ≡ ok entry)) × Compile items

  both_iff :
      (one rest : Result (Unit {0}) AclError)
      → ((one >> rest) ≡ ok tt) ↔ ((one ≡ ok tt) × (rest ≡ ok tt))
  both_iff (ok u) rest = ((λ h. (refl, h)), λ h. h.1)
  both_iff (err e) rest = ((λ h. absurd (cc)), λ h. absurd (cc))

  compiles_iff :
      (item : PortAclItem)
      → (validate_item to_lowercase item ≡ ok tt)
        ↔ ((entry : PortAclEntry) × (to_entry to_lowercase item ≡ ok entry))
  compiles_iff item = go (to_entry to_lowercase item) (validate_item-to_entry item)
    where
      go :
          (r : Result PortAclEntry AclError)
          → validate_item to_lowercase item ≡ outcome r
          → (validate_item to_lowercase item ≡ ok tt) ↔ ((entry : PortAclEntry) × (r ≡ ok entry))
      go (ok entry) e = ((λ h. (entry, refl)), λ h. e)
      go (err x) e = ((λ h. absurd (cc)), λ h. absurd (cc))

  validate_items_iff :
      (items : List PortAclItem) → (validate_items to_lowercase items ≡ ok tt) ↔ Compile items
  unfolding validate_items
  validate_items_iff [] = ((λ h. tt), λ h. refl)
  validate_items_iff (item ∷ items) =
      let both = both_iff (validate_item to_lowercase item) (validate_items to_lowercase items) in
      let one = compiles_iff item in
      let rest = validate_items_iff items in
      ((λ h. (one.0 (both.0 h).0, rest.0 (both.0 h).1)), λ h. both.1 (one.1 h.0, rest.1 h.1))

  -- The check of the configuration passes a list of port rules exactly if it has at most 32 items and
  -- every one of them compiles to an entry of the data plane, so that no checked list fails half-way.
  pub validate_port_acl_items_iff :
      (items : List PortAclItem)
      → (validate_port_acl_items to_lowercase items ≡ ok tt)
        ↔ ((length items ≤ max_port_acl) × Compile items)
  unfolding validate_port_acl_items
  validate_port_acl_items_iff items = ground (arith, validate_items_iff items)
