-- ===== src/Node/Control/Blocks/Effect.antt =====
-- eshield/src/control.rs: blocks and releases as the data plane sees them.
use e_shield.Base.{
  ℕ, ◌+◌, ◌-◌, ◌≤◌, ◌<◌, ◌≡◌, ◌≢◌, refl, Bool, true, false, Option, none, some, arith, u64_max,
}
use e_shield.Base.Dicts.{find, find-remove_self}
use e_shield.Common.Ip.{IpKey, ip_key}
use e_shield.Common.Entries.{BlockEntry, block_permanent}
use e_shield.Pure.Block.{is_active, merge_block_entry, later_until}
use e_shield.Pure.Block.Merge.{Blocks}
use e_shield.DataPlane.Kernel.{Kernel}
use e_shield.DataPlane.Blacklist.{is_blacklisted}
use e_shield.Node.Store.{Table, remove_blacklist}
use e_shield.Node.Control.Blocks.{
  ControlState, ns_per_s, until_of, seconds_left, is_explicit, block_ip_raw, unblock_ip_key,
  on_store,
}

active_after :
    (prev : Option BlockEntry) (now until reason t : ℕ) (explicit : Bool)
    → Blocks until now
    → Blocks until t
    → is_active t (merge_block_entry prev now until reason explicit) ≡ true
unfolding merge_block_entry later_until
active_after none now until reason t explicit hn ht = ground arith
active_after (some p) now until reason t explicit hn ht = ground arith

-- The store's row of a key, if there is a store.
abbrev pub Stored : IpKey → Option Table → Type 0
Stored key none = Unit
Stored key (some table) = find key table ≡ none

removed_row :
    (key : IpKey) (store : Option Table) → Stored key (on_store (remove_blacklist key) store)
unfolding remove_blacklist
removed_row key none = tt
removed_row key (some table) = find-remove_self key table

-- A block that is stored with at least a second left is restored for its whole seconds: it ends no
-- later than before, and less than a second earlier. With less than a second left, it is restored
-- as a permanent block.
restored_until :
    (now until : ℕ)
    → until ≤ u64_max
    → until ≢ block_permanent
    → now < until
    → let restored = until_of now (seconds_left now until) in
      (ns_per_s ≤ until - now → (restored ≤ until) × (until < restored + ns_per_s))
      × (until - now < ns_per_s → restored ≡ block_permanent)
unfolding until_of seconds_left
restored_until now until fits timed early = ground arith

module _ {κ : Kernel} where
  -- A block through the control plane takes effect in the data plane at once: the address is found
  -- blacklisted at every time that the expiry blocks, whatever entry it had and whatever the reason.
  block_ip_raw-is_blacklisted :
      (now : ℕ) (key : IpKey) (seconds reason t : ℕ) (c : ControlState κ)
      → Blocks (until_of now seconds) now
      → Blocks (until_of now seconds) t
      → (is_blacklisted key t (block_ip_raw now key seconds reason c).plane).0 ≡ true
  unfolding block_ip_raw is_blacklisted merge_block_entry
  block_ip_raw-is_blacklisted now key seconds reason t c hn ht =
      let found =
        active_after (κ.blacklist.get c.plane.blacklist key) now (until_of now seconds) reason t
          (is_explicit reason) hn ht in
      rw κ.blacklist.get-insert_self (ground (arith, found))

  -- A release lets the address in at every time and forgets the stored block, so that no reload and
  -- no restart brings it back.
  unblock_ip_key_releases :
      (key : IpKey) (c : ControlState κ)
      → let released = unblock_ip_key key c in
        ((t : ℕ) → (is_blacklisted key t released.plane).0 ≡ false) × Stored key released.store
  unfolding unblock_ip_key is_blacklisted
  unblock_ip_key_releases key c =
      ((λ t. rw κ.blacklist.get-remove_self refl), removed_row key c.store)
