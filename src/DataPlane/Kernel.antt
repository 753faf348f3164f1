-- ===== src/DataPlane/Kernel.antt =====
-- What the data plane takes from the kernel and from aya: LRU hash maps, ring buffers and two BPF
-- helpers. They are parameters, with the documented behaviour that the code relies on as laws.
use e_shield.Base.{ℕ, ◌≡◌, ◌≢◌, ◌⊎◌, Bool, Option, none, some, List}
use e_shield.Common.Ip.{IpKey}
use e_shield.Common.Entries.{
  BlockEntry, TrustEntry, ConnTrackEntry, RateCounter, DropEvent, PacketSample, RateLimitPortKey,
  PortRateKey,
}

-- A `BPF_MAP_TYPE_LRU_HASH`: an insertion may evict other keys, and is never refused for lack of
-- room.
pub record LruMap (K V : Type 0) : Type 1 where
  pub Map : Type 0
  pub get : Map → K → Option V
  pub insert : Map → K → V → Map
  pub remove : Map → K → Map
  pub get-insert_self : (m : Map) (k : K) (v : V) → get (insert m k v) k ≡ some v
  pub get-insert_ne :
      (m : Map) (k j : K) (v : V)
      → j ≢ k
      → (get (insert m k v) j ≡ get m j) ⊎ (get (insert m k v) j ≡ none)
  pub get-remove_self : (m : Map) (k : K) → get (remove m k) k ≡ none
  pub get-remove_ne : (m : Map) (k j : K) → j ≢ k → get (remove m k) j ≡ get m j

-- A `BPF_MAP_TYPE_RINGBUF`: `reserve` may find no room.
pub record Ring (E : Type 0) : Type 1 where
  pub Buf : Type 0
  pub reserve : Buf → Bool
  pub submit : Buf → E → Buf

pub record Kernel : Type 1 where
  pub blacklist : LruMap IpKey BlockEntry
  pub trust_map : LruMap IpKey TrustEntry
  pub rate_map : LruMap IpKey RateCounter
  pub rate_map_port : LruMap RateLimitPortKey RateCounter
  pub port_rate_map : LruMap PortRateKey RateCounter
  pub conn_track : LruMap IpKey ConnTrackEntry
  pub syn_proxy_conn : LruMap IpKey ℕ
  pub top_attackers : LruMap IpKey ℕ
  pub events : Ring DropEvent
  pub packet_samples : Ring PacketSample
  -- `bpf_xdp_adjust_tail`: the frame cut or grown to a length, or its error.
  pub adjust_tail : List ℕ → ℕ → Option (List ℕ)
  -- `bpf_csum_diff(null, 0, to, len, seed)`: the 32-bit accumulator, or its error.
  pub csum_diff : List ℕ → ℕ → Option ℕ
