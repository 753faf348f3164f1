-- ===== src/Tests/AccessRuns.antt =====
-- Requests to the console, rounds of the synchroniser, and requests to the hubs.
use e_shield.Base.{
  ℕ, zero, suc, ◌≡◌, ◌↔◌, ◌⊎◌, refl, true, false, Option, none, some, [], ◌∷◌, arith,
}
use e_shield.Base.Dicts.{Dict, HasUniqueKeys, find, same_list, same_list_iff}
use e_shield.Base.Text.{Text, bytes}
use e_shield.Common.Ip.{IpKey, ip_key}
use e_shield.Common.Entries.{BlockEntry}
use e_shield.Node.Store.{BlockOrigin, BlacklistRow, Table}
use e_shield.Node.Auth.{Role, AuthState, Method, Request, provided_of, Outcome, auth_middleware}
use e_shield.Node.Auth.Access.{IsTokenOf, MayRun, auth_middleware_iff}
use e_shield.Node.BlacklistSync.{BlacklistSync, sync_once}
use e_shield.Node.BlacklistSync.Origins.{sync_once-keeps_hub}
use e_shield.Node.HubClient.{HubClient, Query, get_with_failover}
use e_shield.Node.HubClient.Failover.{Answered, Exhausted, get_with_failover_ends}
use e_shield.Tests.Machine.{attacker}

abbrev tokens : AuthState
tokens = record { token = some (bytes "secret"); readonly_token = some (bytes "screen") }

-- A write from outside with the read-only token.
abbrev write : Request
write = record {
  is_loopback = false;
  method = Method.any_other;
  path = bytes "/api/rules";
  headers = (bytes "authorization", some (bytes "Bearer screen")) ∷ [];
}

auth_middleware_iff_example :
    (auth_middleware same_list tokens write ≡ Outcome.runs Role.readonly) ↔ (
      (t : Text) × (provided_of write ≡ some t)
      × IsTokenOf Role.readonly tokens t
      × MayRun Role.readonly write)
auth_middleware_iff_example =
    auth_middleware_iff same_list same_list_iff tokens write Role.readonly (λ e. absurd (cc e)) refl

abbrev hub_row : BlacklistRow
hub_row = record {
  blocked_until_ns = 0;
  block_reason = 2;
  first_seen_ns = 1;
  origin = BlockOrigin.hub;
  last_updated_ns = 1;
}

abbrev rows : Table
rows = (attacker, hub_row) ∷ []

abbrev synchroniser : BlacklistSync
synchroniser = record {
  store = rows;
  cache = [];
  last_prune_ns = 0;
  last_gen = 0;
  last_hit_gen = 0;
  last_hit_scan_ns = 0;
}

-- The data plane has blocked the address by the rate limit.
abbrev blocks : Dict IpKey BlockEntry
blocks =
    (
      attacker,
      record {
        blocked_until_ns = 90_000_000_000;
        first_seen_ns = 2;
        hit_count = 7;
        block_reason = 2;
        last_reason = 2;
      },
    )
    ∷ []

rows_unique : HasUniqueKeys rows
unfolding find
rows_unique = (refl, tt)

row_found : find attacker rows ≡ some hub_row
unfolding find
row_found = refl

sync_once-keeps_hub_example :
    find attacker (sync_once 70_000_000_000 (some (1, 0)) (some blocks) synchroniser).store
    ≡ some hub_row
sync_once-keeps_hub_example =
    sync_once-keeps_hub 70_000_000_000 (some (1, 0)) (some blocks) synchroniser attacker hub_row
      rows_unique row_found refl refl

abbrev client : HubClient
client = record {
  urls = bytes "https://a/" ∷ bytes "https://b" ∷ [];
  last_pull_ns = 0;
  last_deleted_ns = 0;
  current_url_idx = 1;
  connected = true;
  active_url = none;
}

-- Only the last attempt is answered.
abbrev last_answers : ℕ → Text → Query → Option ℕ
last_answers zero url query = some 200
last_answers (suc left) url query = none

get_with_failover_ends_example :
    Answered last_answers
      (Query.policies_since 0)
      2
      client
      (get_with_failover last_answers (Query.policies_since 0) client)
    ⊎ Exhausted last_answers
        (Query.policies_since 0)
        2
        client
        client
        (get_with_failover last_answers (Query.policies_since 0) client)
get_with_failover_ends_example =
    get_with_failover_ends last_answers (Query.policies_since 0) client (omega arith)
