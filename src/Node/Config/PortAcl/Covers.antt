-- ===== src/Node/Config/PortAcl/Covers.antt =====
-- eshield/src/config.rs: what the data plane makes of a compiled port rule.
use e_shield.Base.{
  ℕ, ◌≤◌, ◌≡◌, ◌⊎◌, refl, ◌↔◌, Bool-cases, Option-cases, true, false, inl, inr, Option, none, some,
  arith, u16_max, swap16, swap16-swap16,
}
use e_shield.Base.Text.{Text, bytes, split_once, parse_unsigned, parse_unsigned-le}
use e_shield.Base.Dicts.{same_list_iff}
use e_shield.Base.Results.{ok}
use e_shield.Common.Entries.{PortAclEntry}
use e_shield.Pure.Acl.{AclMatch, CoversPort, match_port_acl_entry_iff}
use e_shield.DataPlane.PortAcl.{match_entry}
use e_shield.Node.Config.PortAcl.{
  PortAclItem, is_any_port, protocol_number, action_number, parse_ports, ports_of, to_entry,
}

-- The ports are two 16-bit numbers, the first at most the second.
parse_ports-range :
    (split : Option (Text × Text)) (dport : Text) {r : ℕ × ℕ}
    → parse_ports split dport ≡ ok r
    → (r.0 ≤ r.1) × (r.1 ≤ u16_max)
unfolding parse_ports
parse_ports-range (some (a, b)) dport h = elim (Option-cases (parse_unsigned u16_max b)) [
  | inl e ↦ absurd (ground (arith, e))
  | inr (p, e) ↦ (let bound : p ≤ u16_max = parse_unsigned-le u16_max b e in ground (arith, bound))
]
parse_ports-range none dport h = elim (Option-cases (parse_unsigned u16_max dport)) [
  | inl e ↦ absurd (ground (arith, e))
  | inr (p, e) ↦
      (let bound : p ≤ u16_max = parse_unsigned-le u16_max dport e in ground (arith, bound))
]

ports_of-range : (dport : Text) {r : ℕ × ℕ} → ports_of dport ≡ ok r → (r.0 ≤ r.1) × (r.1 ≤ u16_max)
unfolding ports_of
ports_of-range dport h = elim (Bool-cases (is_any_port dport)) [
  | inl any ↦ (let e : ok (0, 0) ≡ ok _ = rw any at h in ground (arith, e))
  | inr other ↦ parse_ports-range (split_once b'-' dport) dport (rw other at h)
]

abbrev entry_from : ℕ → ℕ → ℕ × ℕ → PortAclEntry
entry_from n a ports = record {
  protocol = n;
  dport_low = swap16 ports.0;
  dport_high = swap16 ports.1;
  action = a;
}

-- The parts that a compiled item is made of.
Parts : (Text → Text) → PortAclItem → PortAclEntry → ℕ × ℕ → Type 0
Parts to_lowercase item entry ports =
    (n : ℕ) × (a : ℕ) × (protocol_number (to_lowercase item.protocol) ≡ some n)
    × (action_number (to_lowercase item.action) ≡ some a)
    × (entry ≡ entry_from n a ports)

-- A protocol's name covers the packets with its number, and "any" covers every packet.
abbrev pub NamesProtocol : Text → ℕ → Type 0
NamesProtocol name protocol =
    (name ≡ bytes "any")
    ⊎ (((name ≡ bytes "tcp") × (protocol ≡ 6))
        ⊎ (((name ≡ bytes "udp") × (protocol ≡ 17))
            ⊎ (((name ≡ bytes "icmp") × (protocol ≡ 1))
                ⊎ ((name ≡ bytes "icmpv6") × (protocol ≡ 58)))))

-- The two numbers around the hyphen, or the one number.
abbrev pub HasBounds : Text → ℕ → ℕ → Type 0
HasBounds dport low high =
    ((a : Text) × (b : Text) × (split_once b'-' dport ≡ some (a, b))
      × (parse_unsigned u16_max a ≡ some low)
      × (parse_unsigned u16_max b ≡ some high))
    ⊎ ((split_once b'-' dport ≡ none) × (parse_unsigned u16_max dport ≡ some low) × (high ≡ low))

-- The words for any port cover every port, and so does a range that starts at 0; any other range
-- covers the ports within it.
abbrev pub NamesPort : Text → ℕ → Type 0
NamesPort dport port =
    (dport ≡ bytes "*")
    ⊎ ((dport ≡ bytes "any")
        ⊎ ((low : ℕ) × (high : ℕ) × HasBounds dport low high
            × ((low ≡ 0) ⊎ ((low ≤ port) × (port ≤ high)))))

protocol_number_iff :
    (name : Text) (n protocol : ℕ)
    → protocol_number name ≡ some n
    → ((n ≡ 0) ⊎ (n ≡ protocol)) ↔ NamesProtocol name protocol
protocol_number_iff name n protocol h = ground (
  arith,
  same_list_iff name (bytes "any"),
  same_list_iff name (bytes "tcp"),
  same_list_iff name (bytes "udp"),
  same_list_iff name (bytes "icmp"),
  same_list_iff name (bytes "icmpv6"),
)

action_number_iff :
    (name : Text) (n : ℕ)
    → action_number name ≡ some n
    → ((n ≡ 2) ↔ (name ≡ bytes "drop")) × ((n ≡ 1) ↔ (name ≡ bytes "allow"))
action_number_iff name n h =
    ground (arith, same_list_iff name (bytes "allow"), same_list_iff name (bytes "drop"))

parse_ports-HasBounds :
    (dport : Text) (split : Option (Text × Text)) {r : ℕ × ℕ}
    → split_once b'-' dport ≡ split
    → parse_ports split dport ≡ ok r
    → HasBounds dport r.0 r.1
unfolding parse_ports
parse_ports-HasBounds dport (some (a, b)) s h = ground arith
parse_ports-HasBounds dport none s h = ground arith

HasBounds-unique :
    (dport : Text) (l h low high : ℕ)
    → HasBounds dport l h
    → HasBounds dport low high
    → (low ≡ l) × (high ≡ h)
HasBounds-unique dport l h low high (inl (a, b, s, x, y)) (inl (c, d, t, z, w)) =
    (let first : a ≡ c = ground (arith, s, t) in
      let second : b ≡ d = ground (arith, s, t) in ground (arith, x, y, z, w, first, second))
HasBounds-unique dport l h low high (inl (a, b, s, x, y)) (inr (t, z, w)) =
    absurd (ground (arith, s, t))
HasBounds-unique dport l h low high (inr (s, x, y)) (inl (c, d, t, z, w)) =
    absurd (ground (arith, s, t))
HasBounds-unique dport l h low high (inr (s, x, y)) (inr (t, z, w)) = ground (arith, x, y, z, w)

ports_of-NamesPort :
    (dport : Text) (ports : ℕ × ℕ) (port : ℕ)
    → ports_of dport ≡ ok ports
    → ((ports.0 ≡ 0) ⊎ ((ports.0 ≤ port) × (port ≤ ports.1))) ↔ NamesPort dport port
unfolding ports_of
ports_of-NamesPort dport ports port h = elim (Bool-cases (is_any_port dport)) [
  | inl any ↦ (let e : ok (0, 0) ≡ ok ports = rw any at h in any_port any (ground (arith, e)))
  | inr other ↦ one_range other (rw other at h)
]
  where
    any_port :
        is_any_port dport ≡ true
        → ports.0 ≡ 0
        → ((ports.0 ≡ 0) ⊎ ((ports.0 ≤ port) × (port ≤ ports.1))) ↔ NamesPort dport port
    any_port any e =
        ground (arith, same_list_iff dport (bytes "*"), same_list_iff dport (bytes "any"))

    one_range :
        is_any_port dport ≡ false
        → parse_ports (split_once b'-' dport) dport ≡ ok ports
        → ((ports.0 ≡ 0) ⊎ ((ports.0 ≤ port) × (port ≤ ports.1))) ↔ NamesPort dport port
    one_range other e =
        let bounds = parse_ports-HasBounds dport (split_once b'-' dport) refl e in
        (
          (λ x. inr (inr (ports.0, ports.1, bounds, x))),
          λ x. elim x [
            | inl star ↦ absurd (ground (arith, same_list_iff dport (bytes "*")))
            | inr (inl any) ↦ absurd (ground (arith, same_list_iff dport (bytes "any")))
            | inr (inr (low, high, own, range)) ↦
                (let (a, b) = HasBounds-unique dport ports.0 ports.1 low high bounds own in
                  rw (← a, ← b) range)
          ],
        )

-- The fields of an entry from a range say the same as the range.
fields_iff :
    (low high port : ℕ)
    → low ≤ high
    → CoversPort low high port ↔ ((low ≡ 0) ⊎ ((low ≤ port) × (port ≤ high)))
fields_iff low high port h = ground arith

relabel :
    {D A N P A' N' P' : Type 0}
    → (D ↔ (A × N × P))
    → (A ↔ A')
    → (N ↔ N')
    → (P ↔ P')
    → D ↔ (A' × (N' × P'))
relabel d a n p = (
  (λ x. let (y, z, w) = d.0 x in (a.0 y, (n.0 z, p.0 w))),
  λ x. d.1 (a.1 x.0, n.1 x.1.0, p.1 x.1.1),
)

module _ (to_lowercase : Text → Text) where
  to_entry-Parts :
      (item : PortAclItem) (entry : PortAclEntry) (ports : ℕ × ℕ)
      → to_entry to_lowercase item ≡ ok entry
      → ports_of item.dport ≡ ok ports
      → Parts to_lowercase item entry ports
  unfolding to_entry Parts
  to_entry-Parts item entry ports h e =
      go (protocol_number (to_lowercase item.protocol)) refl
        (action_number (to_lowercase item.action)) refl
    where
      go :
          (p : Option ℕ)
          → protocol_number (to_lowercase item.protocol) ≡ p
          → (a : Option ℕ) → action_number (to_lowercase item.action) ≡ a
          → Parts to_lowercase item entry ports
      go none ep a ea = absurd (ground arith)
      go (some n) ep none ea = absurd (ground arith)
      go (some n) ep (some a) ea = (n, a, ep, ea, ground arith)

  -- A compiled rule drops a packet exactly if its action reads "drop" and its protocol and its ports
  -- cover the packet's. It allows a packet under the same terms with "allow".
  pub to_entry_matches :
      (item : PortAclItem) (entry : PortAclEntry) (ports : ℕ × ℕ) (protocol dport : ℕ)
      → to_entry to_lowercase item ≡ ok entry
      → ports_of item.dport ≡ ok ports
      → let covers =
          NamesProtocol (to_lowercase item.protocol) protocol × NamesPort item.dport dport in
        ((match_entry protocol dport (some entry) ≡ some AclMatch.drop)
          ↔ ((to_lowercase item.action ≡ bytes "drop") × covers))
        × ((match_entry protocol dport (some entry) ≡ some AclMatch.allow)
            ↔ ((to_lowercase item.action ≡ bytes "allow") × covers))
  unfolding Parts
  to_entry_matches item entry ports protocol dport h e =
      let (n, a, ep, ea, parts) = to_entry-Parts item entry ports h e in
      let range = ports_of-range item.dport e in
      let low = swap16-swap16 ports.0 (omega (arith, range)) in
      let high = swap16-swap16 ports.1 (omega (arith, range)) in
      let named = protocol_number_iff (to_lowercase item.protocol) n protocol ep in
      let acts = action_number_iff (to_lowercase item.action) a ea in
      let fields = fields_iff ports.0 ports.1 dport range.0 in
      let reads = ports_of-NamesPort item.dport ports dport e in
      let reaches : CoversPort ports.0 ports.1 dport ↔ NamesPort item.dport dport =
        ((λ x. reads.0 (fields.0 x)), λ x. fields.1 (reads.1 x)) in
      let (drops, allows) = match_port_acl_entry_iff protocol dport n ports.0 ports.1 a in
      rw (parts, low, high)
        (relabel drops acts.0 named reaches, relabel allows acts.1 named reaches)
