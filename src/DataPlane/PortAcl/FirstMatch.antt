-- ===== src/DataPlane/PortAcl/FirstMatch.antt =====
-- eshield-ebpf/src/port_acl.rs: the table is read first match first.
use e_shield.Base.{
  ℕ, zero, suc, ◌+◌, ◌≤◌, ◌<◌, ◌≡◌, ◌↔◌, refl, Bool, true, ℕ_discrete, ◌⊎◌, inl, inr, Option, none,
  some, arith,
}
use e_shield.Common.Entries.{PortAclEntry}
use e_shield.Pure.Acl.{AclMatch}
use e_shield.DataPlane.PortAcl.{resolve, match_entry, acl_loop, check_port_acl}

-- A rule within the first `count` drops the packet, and no rule before it says anything of it.
abbrev pub DropsFirst : (ℕ → Option PortAclEntry) → ℕ → ℕ → ℕ → ℕ → Type 0
DropsFirst table protocol dport start count =
    (i : ℕ) × (start ≤ i)
    × (i < start + count)
    × (match_entry protocol dport (table i) ≡ some AclMatch.drop)
    × ((j : ℕ) → start ≤ j → j < i → match_entry protocol dport (table j) ≡ none)

-- The first of several rules says nothing, and a later one is the first to drop.
DropsFirst-later :
    (table : ℕ → Option PortAclEntry) (protocol dport start count : ℕ)
    → match_entry protocol dport (table start) ≡ none
    → DropsFirst table protocol dport (start + 1) count
    → DropsFirst table protocol dport start (suc count)
DropsFirst-later table protocol dport start count silent (i, low, high, hit, before) =
    (i, omega arith, omega arith, hit, λ j a b. earlier j a b)
  where
    earlier : (j : ℕ) → start ≤ j → j < i → match_entry protocol dport (table j) ≡ none
    earlier j a b = elim (ℕ_discrete j start) [
      | yes e ↦ rw e silent
      | no ne ↦ before j (omega arith) b
    ]

resolve_cases :
    (o : Option AclMatch) (rest : Bool)
    → resolve o rest ≡ true
    → (o ≡ some AclMatch.drop) ⊎ ((o ≡ none) × (rest ≡ true))
resolve_cases none rest h = inr (refl, h)
resolve_cases (some AclMatch.drop) rest h = inl refl
resolve_cases (some AclMatch.allow) rest h = cc

acl_loop_sound :
    (table : ℕ → Option PortAclEntry) (protocol dport start count : ℕ)
    → acl_loop table protocol dport start count ≡ true
    → DropsFirst table protocol dport start count
unfolding acl_loop
acl_loop_sound table protocol dport start zero h = cc
acl_loop_sound table protocol dport start (suc count) h =
    elim (resolve_cases (match_entry protocol dport (table start)) _ h) [
      | inl hit ↦ (start, omega arith, omega arith, hit, λ j a b. absurd (omega arith))
      | inr (silent, later) ↦
          DropsFirst-later table protocol dport start count silent
            (acl_loop_sound table protocol dport (start + 1) count later)
    ]

acl_loop_complete :
    (table : ℕ → Option PortAclEntry) (protocol dport start count : ℕ)
    → DropsFirst table protocol dport start count
    → acl_loop table protocol dport start count ≡ true
unfolding acl_loop
acl_loop_complete table protocol dport start zero (i, low, high, hit, before) = absurd (omega arith)
acl_loop_complete table protocol dport start (suc count) (i, low, high, hit, before) =
    elim (ℕ_discrete i start) [
      | yes e ↦
          (let here : match_entry protocol dport (table start) ≡ some AclMatch.drop = rw e at hit in
            rw here refl)
      | no ne ↦
          (let silent = before start (omega arith) (omega arith) in
            rw silent (
              acl_loop_complete table protocol dport (start + 1) count
                (i, omega arith, omega arith, hit, λ j a b. before j (omega arith) b)))
    ]

-- The rule table drops a packet exactly when, among its first `count` entries, the first one that
-- decides about the packet at all is a drop: an earlier allow or a missing entry is respected.
check_port_acl_iff :
    (table : ℕ → Option PortAclEntry) (protocol dport count : ℕ)
    → (check_port_acl table protocol dport count ≡ true) ↔ DropsFirst table protocol dport 0 count
unfolding check_port_acl
check_port_acl_iff table protocol dport count =
    (acl_loop_sound table protocol dport 0 count, acl_loop_complete table protocol dport 0 count)
