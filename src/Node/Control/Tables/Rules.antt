-- ===== src/Node/Control/Tables/Rules.antt =====
-- eshield/src/control.rs: the table of port rules against the list that it is written from.
use e_shield.Base.{
  ℕ, ◌+◌, ◌≤◌, ◌<◌, ◌≡◌, ◌↔◌, ◌⊎◌, refl, ◌∙◌, Bool, inl, inr, true, false, Option, none, some, List,
  [], ◌∷◌, leb, length, arith, min, ◌%◌,
}
use e_shield.Base.Text.{Text, bytes}
use e_shield.Base.Dicts.{same_list_iff}
use e_shield.Base.Results.{Result, ok, err}
use e_shield.Common.Entries.{PortAclEntry}
use e_shield.Common.Config.{RuntimeConfig, max_port_acl}
use e_shield.Pure.Acl.{AclMatch}
use e_shield.DataPlane.Kernel.{Kernel}
use e_shield.DataPlane.PortAcl.{match_entry, resolve, acl_loop, check_port_acl}
use e_shield.Node.Config.PortAcl.{
  PortAclItem, AclError, action_number, ports_of, to_entry, validate_port_acl_items,
}
use e_shield.Node.Config.PortAcl.Compiles.{Compile, validate_port_acl_items_iff}
use e_shield.Node.Config.PortAcl.Covers.{NamesProtocol, NamesPort, to_entry_matches}
use e_shield.Node.Control.Tables.{
  Tables, Written, cleared, no_entry, put_slot, write_rules, init_port_acl_map, set_port_acl,
}

-- The verdict of one rule, where it decides by its action on the packets that it names.
judged :
    (m : Option AclMatch) (rest : Bool) {Drop Allow Named Covered Later : Type 0}
    → ((m ≡ some AclMatch.drop) ↔ (Drop × Named))
    → ((m ≡ some AclMatch.allow) ↔ (Allow × Named))
    → (Covered → Named)
    → (Named → Covered)
    → (Allow ⊎ Drop)
    → ((rest ≡ true) ↔ Later)
    → (resolve m rest ≡ true) ↔ ((Covered × Drop) ⊎ ((¬ Covered) × Later))
judged none rest {Drop = Drop} {Allow = Allow} {Named = Named} drops allows n c one later = (
  (λ h. inr ((λ covered. silent one (n covered)), later.0 h)),
  λ h. elim h [
    | inl (covered, d) ↦ absurd (let e = drops.1 (d, n covered) in cc)
    | inr (other, p) ↦ later.1 p
  ],
)
  where
    silent : Allow ⊎ Drop → Named → ⊥
    silent (inl a) m = (let e = allows.1 (a, m) in cc)
    silent (inr d) m = (let e = drops.1 (d, m) in cc)
judged (some AclMatch.drop) rest drops allows n c one later =
    ((λ h. (let (d, m) = drops.0 refl in inl (c m, d))), λ h. refl)
judged (some AclMatch.allow) rest drops allows n c one later = (
  (λ h. absurd (cc)),
  λ h. elim h [
    | inl (covered, d) ↦ absurd (let e = drops.1 (d, n covered) in cc)
    | inr (other, p) ↦ absurd (other (c (allows.0 refl).1))
  ],
)

module _ (to_lowercase : Text → Text) (protocol dport : ℕ) where
  -- A rule of the list covers the packet by its protocol and by its ports.
  abbrev pub Covers : PortAclItem → Type 0
  Covers item = NamesProtocol (to_lowercase item.protocol) protocol × NamesPort item.dport dport

  -- The first rule of the list that covers the packet says "drop".
  abbrev pub DropsBy : List PortAclItem → Type 0
  DropsBy [] = ⊥
  DropsBy (item ∷ items) =
      (Covers item × (to_lowercase item.action ≡ bytes "drop")) ⊎ ((¬ Covers item) × DropsBy items)

  compiled_ports :
      (item : PortAclItem) (entry : PortAclEntry)
      → to_entry to_lowercase item ≡ ok entry
      → (ports : ℕ × ℕ) × (ports_of item.dport ≡ ok ports)
  unfolding to_entry
  compiled_ports item entry h = go (ports_of item.dport) refl
    where
      go :
          (r : Result (ℕ × ℕ) AclError)
          → ports_of item.dport ≡ r
          → (ports : ℕ × ℕ) × (ports_of item.dport ≡ ok ports)
      go (ok ports) e = (ports, e)
      go (err x) e = absurd (ground (arith, e))

  compiled_action :
      (item : PortAclItem) (entry : PortAclEntry)
      → to_entry to_lowercase item ≡ ok entry
      → (to_lowercase item.action ≡ bytes "allow") ⊎ (to_lowercase item.action ≡ bytes "drop")
  unfolding to_entry
  compiled_action item entry h = go (action_number (to_lowercase item.action)) refl
    where
      go :
          (a : Option ℕ)
          → action_number (to_lowercase item.action) ≡ a
          → (to_lowercase item.action ≡ bytes "allow") ⊎ (to_lowercase item.action ≡ bytes "drop")
      go a e = ground (
        arith,
        same_list_iff (to_lowercase item.action) (bytes "allow"),
        same_list_iff (to_lowercase item.action) (bytes "drop"),
      )

  -- One compiled rule, before rules whose verdict is `rest`.
  one_rule :
      (item : PortAclItem) (entry : PortAclEntry) (rest : Bool) {P : Type 0}
      → to_entry to_lowercase item ≡ ok entry
      → ((rest ≡ true) ↔ P)
      → (resolve (match_entry protocol dport (some entry)) rest ≡ true)
        ↔ ((Covers item × (to_lowercase item.action ≡ bytes "drop")) ⊎ ((¬ Covers item) × P))
  one_rule item entry rest h later =
      let (ports, e) = compiled_ports item entry h in
      let (drops, allows) = to_entry_matches to_lowercase item entry ports protocol dport h e in
      judged (match_entry protocol dport (some entry)) rest drops allows (λ c. c) (λ c. c)
        (compiled_action item entry h) later

  -- A table that was written from slot `i` on.
  record Loaded (items : List PortAclItem) (i : ℕ) (table : ℕ → Option PortAclEntry)
      (w : Written PortAclEntry AclError) : Type 0 where
    finished : w.1 ≡ ok tt
    kept : (j : ℕ) → j < i → w.0 j ≡ table j
    verdict : (acl_loop w.0 protocol dport i (length items) ≡ true) ↔ DropsBy items

  rules_loop :
      (items : List PortAclItem) (i : ℕ) (table : ℕ → Option PortAclEntry)
      → i + length items ≤ max_port_acl
      → Compile to_lowercase items
      → Loaded items i table (write_rules to_lowercase i items table)
  unfolding write_rules acl_loop
  rules_loop [] i table fits c = record {
    finished = refl;
    kept = λ j h. refl;
    verdict = ((λ h. absurd (cc)), λ h. absurd h);
  }
  rules_loop (item ∷ items) i table fits ((entry, e), c) =
      let room : leb max_port_acl i ≡ false = ground arith in
      let rest = rules_loop items (i + 1) (put_slot i entry table) (omega arith) c in
      let own : put_slot i entry table i ≡ some entry = ground arith in
      rw (room, e)
        (record {
          finished = rest.finished;
          kept = λ j h. rest.kept j (omega arith) ∙ before j h entry;
          verdict = rw (rest.kept i (omega arith) ∙ own) (one_rule item entry _ e rest.verdict);
        })
    where
      before : (j : ℕ) → j < i → (entry : PortAclEntry) → put_slot i entry table j ≡ table j
      before j h entry = ground arith

module _ {κ : Kernel} where
  -- A list that passes the check is loaded without an error, and shown; from then on the data plane
  -- drops a packet by the port rules exactly if the first rule of the list that covers the packet says
  -- "drop". A rule covers a packet if its protocol is "any" or that of the packet, and its ports are
  -- "*", "any", a range that holds the packet's port, or a range that starts at 0, whatever its end.
  pub set_port_acl-DropsBy :
      (to_lowercase : Text → Text) (items : List PortAclItem) (t : Tables κ) (cfg : RuntimeConfig)
      (protocol dport : ℕ)
      → t.plane.config ≡ some cfg
      → validate_port_acl_items to_lowercase items ≡ ok tt
      → let r = set_port_acl to_lowercase items t in
        (r.1 ≡ ok tt)
        × (r.0.port_acl_shown ≡ items)
        × ((after : RuntimeConfig) × (r.0.plane.config ≡ some after)
            × ((check_port_acl r.0.plane.port_acl protocol dport after.port_acl_count ≡ true)
                ↔ DropsBy to_lowercase protocol dport items))
  unfolding set_port_acl init_port_acl_map check_port_acl
  set_port_acl-DropsBy to_lowercase items t cfg protocol dport here valid =
      let (fits, c) = (validate_port_acl_items_iff to_lowercase items).0 valid in
      let loaded =
        rules_loop to_lowercase protocol dport items 0
          (cleared max_port_acl no_entry t.plane.port_acl) (omega arith) c in
      let count : min (length items % 256) max_port_acl ≡ length items = omega arith in
      rw (valid, loaded.finished, here) (refl, refl, (_, refl, rw count loaded.verdict))
