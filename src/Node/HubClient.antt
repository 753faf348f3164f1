-- ===== src/Node/HubClient.antt =====
-- eshield/src/hub_client.rs: a node's requests to its hubs. The HTTP client, with the decoding of the
-- bodies, is an argument: what it gives for an address and a request, at each attempt that is left.
-- A path is kept as its parts.
pub mod Failover
use e_shield.Base.{
  ℕ, zero, suc, ◌+◌, ◌%◌, Bool, true, false, not, Option, none, some, List, [], ◌∷◌, ◌==◌, leb,
  if◌then◌else◌, length, get_elem?,
}
use e_shield.Base.Text.{Text, bytes}
use e_shield.Common.Ip.{IpKey}
use e_shield.DataPlane.Kernel.{Kernel}
use e_shield.Node.Control.Blocks.{
  ControlState, SharedPolicy, apply_hub_policies, unblock_hub_policies,
}

-- The path of a request.
pub data Query : Type 0 where
  policies_since deleted_since : ℕ → Query

-- The client of one loop; the console's flag and address are written with its own.
pub record HubClient : Type 0 where
  pub urls : List Text
  pub last_pull_ns : ℕ
  pub last_deleted_ns : ℕ
  pub current_url_idx : ℕ
  pub connected : Bool
  pub active_url : Option (Text × Query)

unfoldable pub new : List Text → HubClient
new urls = record {
  urls = urls;
  last_pull_ns = 0;
  last_deleted_ns = 0;
  current_url_idx = 0;
  connected = false;
  active_url = none;
}

-- `trim_end_matches('/')`.
abbrev before_slashes : ℕ → Text → Text
before_slashes c [] = if c == b'/' then [] else c ∷ []
before_slashes c (d ∷ s) = c ∷ d ∷ s

unfoldable trim_slashes : Text → Text
trim_slashes [] = []
trim_slashes (c ∷ s) = before_slashes c (trim_slashes s)

abbrev first_or : List Text → Option Text → Text
first_or urls (some url) = url
first_or [] none = bytes "http://localhost:9930"
first_or (url ∷ urls) none = url

unfoldable pub active_hub_url : HubClient → Text
unfolding trim_slashes
active_hub_url client =
    trim_slashes (first_or client.urls (get_elem? client.urls client.current_url_idx))

unfoldable pub rotate_hub_url : HubClient → HubClient
rotate_hub_url client = record client {
  current_url_idx = (client.current_url_idx + 1) % length client.urls;
}

unfoldable pub mark_connected : Text → Query → HubClient → HubClient
mark_connected url query client = record client { connected = true; active_url = some (url, query) }

unfoldable pub mark_disconnected : HubClient → HubClient
mark_disconnected client = record client { connected = false }

module _ {ℓ} {R : Type ℓ} (send : ℕ → Text → Query → Option R) where
  -- The loop over the addresses, with the attempts that are left.
  unfoldable pub try_each : ℕ → Query → HubClient → HubClient × Option R
  unfolding active_hub_url rotate_hub_url mark_connected mark_disconnected
  try_each zero query client = (mark_disconnected client, none)
  try_each (suc left) query client =
      let rest = try_each left query (rotate_hub_url client) in
      elim (send left (active_hub_url client) query) [
        | some resp ↦ (mark_connected (active_hub_url client) query client, some resp)
        | none ↦ rest
      ]

  unfoldable pub get_with_failover : Query → HubClient → HubClient × Option R
  unfolding try_each
  get_with_failover query client = try_each (length client.urls) query client

-- What a hub answers, with a cursor that does not parse as none.
pub record Pull : Type 0 where
  pub is_success : Bool
  pub policies : List SharedPolicy
  pub ips : List IpKey
  pub cursor : Option ℕ

abbrev moved_to : Option ℕ → ℕ → ℕ
moved_to none since = since
moved_to (some cursor) since = cursor

module _ {κ : Kernel} (send : ℕ → Text → Query → Option (Option Pull)) where
  abbrev deleted_with :
      Option (Option Pull) → HubClient → ControlState κ → HubClient × ControlState κ
  deleted_with none client c = (client, c)
  deleted_with (some none) client c = (client, c)
  deleted_with (some (some pull)) client c =
      if pull.is_success
      then (
        record client { last_deleted_ns = moved_to pull.cursor client.last_deleted_ns },
        unblock_hub_policies pull.ips c,
      )
      else (client, c)

  -- A failed request or body changes nothing but the address that is tried next.
  unfoldable pub pull_deleted_once : HubClient → ControlState κ → HubClient × ControlState κ
  unfolding get_with_failover unblock_hub_policies
  pull_deleted_once client c =
      let asked = get_with_failover send (deleted_since client.last_deleted_ns) client in
      deleted_with asked.1 asked.0 c

  abbrev pulled_with :
      ℕ → Option (Option Pull) → HubClient → ControlState κ → HubClient × ControlState κ
  pulled_with now_ns none client c = (client, c)
  pulled_with now_ns (some none) client c = (client, c)
  pulled_with now_ns (some (some pull)) client c =
      if pull.is_success
      then pull_deleted_once
          (record client { last_pull_ns = moved_to pull.cursor client.last_pull_ns })
          (apply_hub_policies now_ns pull.policies c)
      else (client, c)

  unfoldable pub pull_once : ℕ → HubClient → ControlState κ → HubClient × ControlState κ
  unfolding get_with_failover pull_deleted_once apply_hub_policies
  pull_once now_ns client c =
      let asked = get_with_failover send (policies_since client.last_pull_ns) client in
      pulled_with now_ns asked.1 asked.0 c
