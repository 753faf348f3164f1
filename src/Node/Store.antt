-- ===== src/Node/Store.antt =====
-- eshield/src/store.rs: the table of the stored blocks, under the key of the address. The database and
-- the encoding of a row are its storage, whose errors are not modelled.
use e_shield.Base.{ℕ, Bool, true, false, not, List, [], ◌∷◌, leb, ◌!=◌, ◌&&◌}
use e_shield.Base.Dicts.{Dict, insert, remove, retain}
use e_shield.Common.Ip.{IpKey, ip_key}
use e_shield.Common.Entries.{block_permanent}

-- eshield/src/config.rs: where a block comes from.
pub data BlockOrigin : Type 0 where
  local api adaptive threat_intel hub : BlockOrigin

-- Every origin but the hub may be reported to it.
abbrev pub publishable : BlockOrigin → Bool
publishable local = true
publishable api = true
publishable adaptive = true
publishable threat_intel = true
publishable hub = false

-- `== BlockOrigin::Hub`.
abbrev pub is_hub : BlockOrigin → Bool
is_hub hub = true
is_hub local = false
is_hub api = false
is_hub adaptive = false
is_hub threat_intel = false

pub record BlacklistRow : Type 0 where
  pub blocked_until_ns : ℕ
  pub block_reason : ℕ
  pub first_seen_ns : ℕ
  pub origin : BlockOrigin
  pub last_updated_ns : ℕ

abbrev pub Table : Type 0
Table = Dict IpKey BlacklistRow

unfoldable pub save_blacklist : IpKey → BlacklistRow → Table → Table
save_blacklist key row table = insert key row table

unfoldable pub save_blacklist_many : List IpKey → BlacklistRow → Table → Table
unfolding save_blacklist
save_blacklist_many [] row table = table
save_blacklist_many (key ∷ keys) row table =
    save_blacklist_many keys row (save_blacklist key row table)

unfoldable pub remove_blacklist : IpKey → Table → Table
remove_blacklist key table = remove key table

abbrev pub has_expired : ℕ → ℕ → Bool
has_expired now_ns blocked_until_ns =
    blocked_until_ns != block_permanent && leb blocked_until_ns now_ns

unfoldable pub prune_expired_blacklist : ℕ → Table → Table
prune_expired_blacklist now_ns table =
    retain (λ row. not (has_expired now_ns row.blocked_until_ns)) table
