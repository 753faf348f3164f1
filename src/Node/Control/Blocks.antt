-- ===== src/Node/Control/Blocks.antt =====
-- eshield/src/control.rs: blocks and releases by the management interface, by threat feeds and by the
-- hub. The audit record is left out, and one call reads the clock once.
pub mod Effect
pub mod Hub
use e_shield.Base.{
  u32_mod, ◌%◌, ℕ, ◌-◌, ◌*◌, ◌/◌, ◌||◌, ◌&&◌, Bool, true, false, not, Option, none, some, List, [],
  ◌∷◌, ltb, leb, ◌==◌, if◌then◌else◌, u64_max, saturating_add64, min,
}
use e_shield.Base.Dicts.{Dict, find, same_list}
use e_shield.Base.Text.{Text}
use e_shield.Common.Ip.{IpKey, ip_key, same_ip}
use e_shield.Common.Entries.{BlockEntry, TrustEntry, block_permanent}
use e_shield.Common.Rules as Rules
use e_shield.Pure.Block.{merge_block_entry}
use e_shield.DataPlane.Kernel.{Kernel}
use e_shield.DataPlane.State.{State}
use e_shield.Node.Store.{
  BlockOrigin, BlacklistRow, Table, hub, is_hub, has_expired, save_blacklist, save_blacklist_many,
  remove_blacklist,
}
use e_shield.Node.Config.Validate.Lists.{is_list_empty, is_some}

abbrev pub ns_per_s : ℕ
ns_per_s = 1_000_000_000

-- The expiry of a block of some seconds; `saturating_mul` on u64.
unfoldable pub until_of : ℕ → ℕ → ℕ
until_of now_ns duration_s =
    if duration_s == 0
    then block_permanent
    else saturating_add64 now_ns (min (duration_s * ns_per_s) u64_max)

-- The seconds that a stored or reported block has left, rounded down; 0 for a permanent one.
unfoldable pub seconds_left : ℕ → ℕ → ℕ
seconds_left now_ns blocked_until_ns =
    if blocked_until_ns == block_permanent then 0 else (blocked_until_ns - now_ns) / ns_per_s

-- What a call changes: the data plane's maps, the list of the configured blocks, and the store.
pub record ControlState (κ : Kernel) : Type 0 where
  pub plane : State κ
  pub blacklist : List IpKey
  pub store : Option Table
  pub trust_enabled : Bool
  pub node_name : Text

abbrev pub on_store : (Table → Table) → Option Table → Option Table
on_store f none = none
on_store f (some table) = some (f table)

-- `retain(|&x| x != key)`.
abbrev without : IpKey → List IpKey → List IpKey
without key [] = []
without key (x ∷ xs) = if same_ip x key then without key xs else x ∷ without key xs

abbrev row_of : ℕ → ℕ → ℕ → BlockOrigin → BlacklistRow
row_of now_ns duration_s reason origin = record {
  blocked_until_ns = until_of now_ns duration_s;
  block_reason = reason;
  first_seen_ns = now_ns;
  origin = origin;
  last_updated_ns = now_ns;
}

-- eshield/src/hub_client.rs, `SharedPolicy`.
pub record SharedPolicy : Type 0 where
  pub ip : IpKey
  pub reason : ℕ
  pub ttl_s : ℕ
  pub trust_score : ℕ
  pub source_nodes : List Text

abbrev pub is_among : Text → List Text → Bool
is_among name [] = false
is_among name (n ∷ names) = same_list n name || is_among name names

unfoldable pub trust_level : ℕ → ℕ
trust_level score =
    if leb 700 score then 1 else if leb 300 score then 2 else if leb 100 score then 3 else 4

-- The reasons of the management interface and of the configuration are explicit.
abbrev pub is_explicit : ℕ → Bool
is_explicit reason = reason == Rules.api_block || reason == Rules.blacklist

abbrev pub is_from_hub : Option BlacklistRow → Bool
is_from_hub none = false
is_from_hub (some row) = is_hub row.origin

module _ {κ : Kernel} where
  unfoldable pub block_ip_raw : ℕ → IpKey → ℕ → ℕ → ControlState κ → ControlState κ
  unfolding until_of merge_block_entry
  block_ip_raw now_ns key duration_s reason c =
      let entry =
        merge_block_entry (κ.blacklist.get c.plane.blacklist key) now_ns
          (until_of now_ns duration_s) reason (is_explicit reason) in
      record c {
        plane = record c.plane { blacklist = κ.blacklist.insert c.plane.blacklist key entry };
      }

  unfoldable pub block_ip_key : ℕ → IpKey → ℕ → ℕ → BlockOrigin → ControlState κ → ControlState κ
  unfolding block_ip_raw save_blacklist
  block_ip_key now_ns key duration_s reason origin c =
      let blocked = block_ip_raw now_ns key duration_s reason c in
      record blocked {
        store =
            on_store (save_blacklist key (row_of now_ns duration_s reason origin)) blocked.store;
      }

  unfoldable pub unblock_ip_key : IpKey → ControlState κ → ControlState κ
  unfolding remove_blacklist
  unblock_ip_key key c = record c {
    plane = record c.plane { blacklist = κ.blacklist.remove c.plane.blacklist key };
    blacklist = without key c.blacklist;
    store = on_store (remove_blacklist key) c.store;
  }

  unfoldable pub set_trust_score : ℕ → IpKey → ℕ → ControlState κ → ControlState κ
  unfolding trust_level
  set_trust_score now_ns key trust_score c =
      let score = min trust_score 1000 in
      let entry : TrustEntry = record {
        trust_score = score;
        pass_count = 0;
        drop_count = 0;
        last_update_ns = now_ns;
        level = trust_level score;
      } in
      if c.trust_enabled
      then record c {
        plane = record c.plane { trust_map = κ.trust_map.insert c.plane.trust_map key entry };
      }
      else c

  -- One policy; `existing` is the set of the addresses that were blocked before the first one.
  unfoldable pub apply_policy : ℕ → (IpKey → Bool) → SharedPolicy → ControlState κ → ControlState κ
  unfolding block_ip_key set_trust_score
  apply_policy now_ns existing policy c =
      if existing policy.ip
      then c
      else if not (is_list_empty c.node_name) && is_among c.node_name policy.source_nodes
      then c
      else (let blocked = block_ip_key now_ns policy.ip policy.ttl_s policy.reason hub c in
          if ltb 0 policy.trust_score
          then set_trust_score now_ns policy.ip (policy.trust_score * 10 % u32_mod) blocked
          else blocked)

  unfoldable pub apply_policies :
      ℕ → (IpKey → Bool) → List SharedPolicy → ControlState κ → ControlState κ
  unfolding apply_policy
  apply_policies now_ns existing [] c = c
  apply_policies now_ns existing (policy ∷ policies) c =
      apply_policies now_ns existing policies (apply_policy now_ns existing policy c)

  unfoldable pub apply_hub_policies : ℕ → List SharedPolicy → ControlState κ → ControlState κ
  unfolding apply_policies
  apply_hub_policies now_ns policies c =
      apply_policies now_ns (λ ip. is_some (κ.blacklist.get c.plane.blacklist ip)) policies c

  -- The loop of `unblock_hub_policies` over the addresses, with the rows that it has read.
  unfoldable pub unblock_each : Table → List IpKey → ControlState κ → ControlState κ
  unfolding unblock_ip_key
  unblock_each rows [] c = c
  unblock_each rows (ip ∷ ips) c =
      unblock_each rows ips (if is_from_hub (find ip rows) then unblock_ip_key ip c else c)

  -- Without a store nothing is known to be the hub's.
  abbrev pub unblock_with : Option Table → List IpKey → ControlState κ → ControlState κ
  unblock_with none ips c = c
  unblock_with (some rows) ips c = unblock_each rows ips c

  unfoldable pub unblock_hub_policies : List IpKey → ControlState κ → ControlState κ
  unfolding unblock_each
  unblock_hub_policies ips c = unblock_with c.store ips c

  -- The blocks of `load_persisted_rules`.
  unfoldable restore_each : ℕ → Table → ControlState κ → ControlState κ
  unfolding block_ip_raw seconds_left
  restore_each now_ns [] c = c
  restore_each now_ns ((key, row) ∷ rows) c = restore_each now_ns rows (
      if row.block_reason == Rules.blacklist || has_expired now_ns row.blocked_until_ns
      then c
      else block_ip_raw now_ns key (seconds_left now_ns row.blocked_until_ns) row.block_reason c)
