-- ===== src/Node/Control/Blocks/Hub.antt =====
-- eshield/src/control.rs: what the hub's policies and deletions may change on a node.
use e_shield.Base.{
  ℕ, ◌*◌, ◌%◌, u32_mod, ◌≡◌, ◌≢◌, refl, ◌∙◌, ◌⊎◌, ◌&&◌, Bool, Bool-cases, inl, inr, true, false,
  not, Option, none, some, List, [], ◌∷◌, ltb,
}
use e_shield.Base.Dicts.{find}
use e_shield.Common.Ip.{IpKey, ip_key}
use e_shield.Common.Entries.{BlockEntry}
use e_shield.DataPlane.Kernel.{Kernel}
use e_shield.Node.Store.{Table, hub}
use e_shield.Node.Config.Validate.Lists.{is_some, is_list_empty}
use e_shield.Node.Control.Blocks.{
  ControlState, SharedPolicy, is_among, is_from_hub, block_ip_raw, block_ip_key, set_trust_score,
  apply_policy, apply_policies, apply_hub_policies, unblock_ip_key, unblock_each, unblock_with,
  unblock_hub_policies,
}

module _ (κ : Kernel) where
  -- An insertion of another address, at which the kernel makes room by dropping this block.
  pub record Evicted (key : IpKey) (before : Option BlockEntry) : Type 0 where
    map : κ.blacklist.Map
    other : IpKey
    entry : BlockEntry
    differs : key ≢ other
    held : κ.blacklist.get map key ≡ before
    dropped : κ.blacklist.get (κ.blacklist.insert map other entry) key ≡ none

  -- The same block, or none after the kernel has dropped it for another address.
  abbrev pub Keeps : IpKey → Option BlockEntry → Option BlockEntry → Type 0
  Keeps key before after = (after ≡ before) ⊎ ((after ≡ none) × Evicted key before)

  Evicted-trans : (key : IpKey) (a b : Option BlockEntry) → b ≡ a → Evicted key b → Evicted key a
  Evicted-trans key a b e x = record {
    map = x.map;
    other = x.other;
    entry = x.entry;
    differs = x.differs;
    held = x.held ∙ e;
    dropped = x.dropped;
  }

  Keeps-trans :
      (key : IpKey) (a b c : Option BlockEntry) → Keeps key a b → Keeps key b c → Keeps key a c
  Keeps-trans key a b c (inl e) (inl f) = inl (f ∙ e)
  Keeps-trans key a b c (inl e) (inr (f, x)) = inr (f, Evicted-trans key a b e x)
  Keeps-trans key a b c (inr (e, x)) (inl f) = inr (f ∙ e, x)
  Keeps-trans key a b c (inr (e, x)) (inr (f, y)) = inr (f, x)

module _ {κ : Kernel} where
  -- The block of an address in the data plane.
  abbrev pub block_of : IpKey → ControlState κ → Option BlockEntry
  block_of key c = κ.blacklist.get c.plane.blacklist key

  unblock_each_local :
      (key : IpKey) (rows : Table) (ips : List IpKey) (c : ControlState κ)
      → is_from_hub (find key rows) ≡ false
      → block_of key (unblock_each rows ips c) ≡ block_of key c
  unfolding unblock_each unblock_ip_key
  unblock_each_local key rows [] c h = refl
  unblock_each_local key rows (ip ∷ ips) c h = elim (Bool-cases (is_from_hub (find ip rows))) [
    | inl theirs ↦
        rw theirs (unblock_each_local key rows ips (unblock_ip_key ip c) h ∙ other ip theirs)
    | inr ours ↦ rw ours (unblock_each_local key rows ips c h)
  ]
    where
      clash : (ip : IpKey) → is_from_hub (find ip rows) ≡ true → key ≡ ip → ⊥
      clash ip theirs e = (let t : is_from_hub (find key rows) ≡ true = rw e theirs in cc)

      other :
          (ip : IpKey)
          → is_from_hub (find ip rows) ≡ true
          → block_of key (unblock_ip_key ip c) ≡ block_of key c
      other ip theirs = κ.blacklist.get-remove_ne c.plane.blacklist ip key λ e. clash ip theirs e

  -- A deletion that the hub sends never lifts a block that the store holds under another origin, or
  -- does not hold.
  pub unblock_hub_policies_local :
      (key : IpKey) (rows : Table) (ips : List IpKey) (c : ControlState κ)
      → c.store ≡ some rows
      → is_from_hub (find key rows) ≡ false
      → block_of key (unblock_hub_policies ips c) ≡ block_of key c
  unfolding unblock_hub_policies
  unblock_hub_policies_local key rows ips c s h = go c.store s
    where
      go : (o : Option Table) → o ≡ some rows → block_of key (unblock_with o ips c) ≡ block_of key c
      go none e = absurd (cc)
      go (some held) e =
          (let same : held ≡ rows = cc in unblock_each_local key held ips c (rw same h))

  trust_keeps :
      (now score : ℕ) (key ip : IpKey) (c : ControlState κ)
      → block_of key (set_trust_score now ip score c) ≡ block_of key c
  unfolding set_trust_score
  trust_keeps now score key ip c = elim (Bool-cases c.trust_enabled) [
    | inl on ↦ rw on refl
    | inr off ↦ rw off refl
  ]

  policy-Keeps :
      (now : ℕ) (existing : IpKey → Bool) (key : IpKey) (policy : SharedPolicy) (c : ControlState κ)
      → existing key ≡ true
      → Keeps κ key (block_of key c) (block_of key (apply_policy now existing policy c))
  unfolding apply_policy block_ip_key block_ip_raw
  policy-Keeps now existing key policy c h = elim (Bool-cases (existing policy.ip)) [
    | inl known ↦ rw known (inl refl)
    | inr new ↦
        rw new
          (elim (Bool-cases
            (not (is_list_empty c.node_name) && is_among c.node_name policy.source_nodes)) [
              | inl own ↦ rw own (inl refl)
              | inr foreign ↦ rw foreign (elim (Bool-cases (ltb 0 policy.trust_score)) [
                | inl scored ↦ rw scored (
                    rw
                      (trust_keeps now (policy.trust_score * 10 % u32_mod) key policy.ip
                        (block_ip_key now policy.ip policy.ttl_s policy.reason hub c))
                      (fresh new))
                | inr plain ↦ rw plain (fresh new)
              ])
            ])
  ]
    where
      differs : existing policy.ip ≡ false → key ≢ policy.ip
      differs new e = (let t : existing key ≡ false = rw e new in cc)

      fresh :
          existing policy.ip ≡ false
          → Keeps κ key
              (block_of key c)
              (block_of key (block_ip_key now policy.ip policy.ttl_s policy.reason hub c))
      fresh new = elim (κ.blacklist.get-insert_ne c.plane.blacklist policy.ip key _ (differs new)) [
        | inl same ↦ inl same
        | inr gone ↦ inr (
          gone,
          record {
            map = c.plane.blacklist;
            other = policy.ip;
            entry = _;
            differs = differs new;
            held = refl;
            dropped = gone;
          },
        )
      ]

  policies_keep :
      (now : ℕ) (existing : IpKey → Bool) (key : IpKey) (policies : List SharedPolicy)
      (c : ControlState κ)
      → existing key ≡ true
      → Keeps κ key (block_of key c) (block_of key (apply_policies now existing policies c))
  unfolding apply_policies
  policies_keep now existing key [] c h = inl refl
  policies_keep now existing key (policy ∷ policies) c h =
      let next = apply_policy now existing policy c in
      Keeps-trans κ key (block_of key c) (block_of key next) _
        (policy-Keeps now existing key policy c h) (policies_keep now existing key policies next h)

  -- Policies from the hub leave the block of an address that the data plane blocks already as it is,
  -- with its expiry and its reason. It can only go where the kernel drops it to make room: at the
  -- insertion of another address into a map that holds this very block.
  pub apply_hub_policies-Keeps :
      (now : ℕ) (key : IpKey) (policies : List SharedPolicy) (c : ControlState κ)
      → is_some (block_of key c) ≡ true
      → Keeps κ key (block_of key c) (block_of key (apply_hub_policies now policies c))
  unfolding apply_hub_policies
  apply_hub_policies-Keeps now key policies c h =
      policies_keep now (λ ip. is_some (block_of ip c)) key policies c h
