-- ===== src/Node/Adaptive.antt =====
-- eshield/src/adaptive.rs: the engine that blocks sources whose packets are dropped again and again. A
-- call takes the seconds and the nanoseconds that it reads; the locks and the log are left out.
pub mod Prune
pub mod Counts
use e_shield.Base.{
  ℕ, zero, suc, ◌+◌, ◌-◌, ◌*◌, ◌%◌, Bool, true, false, ◌||◌, not, Option, none, some, List, [], ◌∷◌,
  ltb, leb, ◌==◌, if◌then◌else◌, length, min, u64_max, u64_mod, saturating_add64,
}
use e_shield.Base.Dicts.{Dict, find, insert, remove, retain}
use e_shield.Common.Ip.{IpKey, ip_key}
use e_shield.Common.Entries.{BlockEntry, block_permanent}
use e_shield.Common.Rules as Rules
use e_shield.Pure.Block.{merge_block_entry}
use e_shield.DataPlane.Kernel.{Kernel}
use e_shield.DataPlane.State.{State}
use e_shield.Node.Config.Sections.{AdaptiveConfig}

-- The events of a source, as (second, count), oldest first.
abbrev pub Window : Type 0
Window = List (ℕ × ℕ)

pub record AdaptiveEngine : Type 0 where
  pub config : AdaptiveConfig
  pub windows : Dict IpKey Window
  pub blocked : Dict IpKey ℕ

abbrev is_recent : ℕ → ℕ → ℕ → Bool
is_recent now_s window_s t = leb (now_s - t) window_s

-- `window.retain`.
unfoldable pub recent_only : ℕ → ℕ → Window → Window
recent_only now_s window_s [] = []
recent_only now_s window_s (e ∷ window) =
    if is_recent now_s window_s e.0
    then e ∷ recent_only now_s window_s window
    else recent_only now_s window_s window

-- The `match` on `last_mut`: the last entry is of this second, or a new one is pushed.
unfoldable pub add_events : ℕ → ℕ → Window → Window
add_events now_s count [] = (now_s, count) ∷ []
add_events now_s count (e ∷ []) =
    if e.0 == now_s then (e.0, saturating_add64 e.1 count) ∷ [] else e ∷ (now_s, count) ∷ []
add_events now_s count (e ∷ f ∷ window) = e ∷ add_events now_s count (f ∷ window)

-- `sum`, which wraps in a release build.
unfoldable pub total_of : Window → ℕ
total_of [] = 0
total_of (e ∷ window) = (e.1 + total_of window) % u64_mod

unfoldable pub block_until : ℕ → ℕ → ℕ
block_until now_ns duration_s =
    if duration_s == 0
    then block_permanent
    else saturating_add64 now_ns (min (duration_s * 1_000_000_000) u64_max)

-- The engine's own note of the block, in seconds; a permanent one is marked by the largest time.
abbrev pub noted_until : ℕ → ℕ → ℕ
noted_until now_s duration_s =
    if duration_s == 0 then u64_max else saturating_add64 now_s duration_s

abbrev pub still_blocked : ℕ → Option ℕ → Bool
still_blocked now_s none = false
still_blocked now_s (some until) = ltb now_s until

abbrev pub or_empty : Option Window → Window
or_empty none = []
or_empty (some window) = window

abbrev inc : ℕ → ℕ
inc n = (n + 1) % u64_mod

-- The window of the source with the new events in it.
abbrev pub counted : ℕ → IpKey → ℕ → AdaptiveEngine → Window
counted now_s src_ip count engine =
    add_events now_s count
      (recent_only now_s engine.config.window_s (or_empty (find src_ip engine.windows)))

-- What a call changes: the engine, the maps of the data plane, and the count of adaptive blocks.
pub record Node (κ : Kernel) : Type 0 where
  pub engine : AdaptiveEngine
  pub plane : State κ
  pub adaptive_blocked : ℕ

module _ {κ : Kernel} where
  unfoldable pub block_source : ℕ → ℕ → ℕ → IpKey → Node κ → Node κ
  unfolding block_until merge_block_entry
  block_source now_s now_ns merged_ns src_ip n =
      let duration_s = n.engine.config.block_duration_s in
      let entry =
        merge_block_entry (κ.blacklist.get n.plane.blacklist src_ip) merged_ns
          (block_until now_ns duration_s) Rules.adaptive false in
      record {
        engine = record n.engine {
          blocked = insert src_ip (noted_until now_s duration_s) n.engine.blocked;
        };
        plane = record n.plane { blacklist = κ.blacklist.insert n.plane.blacklist src_ip entry };
        adaptive_blocked = inc n.adaptive_blocked;
      }

  -- The clock is read in seconds, for the expiry, and once more for the merge.
  unfoldable pub on_events : ℕ → ℕ → ℕ → IpKey → ℕ → Node κ → Node κ
  unfolding recent_only add_events total_of block_source
  on_events now_s now_ns merged_ns src_ip count n =
      if count == 0 || not n.engine.config.enabled
      then n
      else if still_blocked now_s (find src_ip n.engine.blocked)
      then n
      else (let window = counted now_s src_ip count n.engine in
          let seen = record n {
            engine = record n.engine { windows = insert src_ip window n.engine.windows };
          } in
          if leb n.engine.config.threshold (total_of window)
          then block_source now_s now_ns merged_ns src_ip seen
          else seen)

abbrev pub max_entries : ℕ
max_entries = 100_000

abbrev any_recent : ℕ → ℕ → Window → Bool
any_recent now_s window_s [] = false
any_recent now_s window_s (e ∷ window) =
    is_recent now_s window_s e.0 || any_recent now_s window_s window

-- `iter().next()`: some key of the map.
abbrev pub first_key {ℓ} : {V : Type ℓ} → Dict IpKey V → Option IpKey
first_key [] = none
first_key (e ∷ d) = some e.0

-- The key that a round of the loop drops from both maps.
unfoldable pub victim : AdaptiveEngine → Option IpKey
victim engine =
    if leb (length engine.blocked) (length engine.windows)
    then first_key engine.windows
    else first_key engine.blocked

unfoldable pub is_full : AdaptiveEngine → Bool
is_full engine = ltb max_entries (length engine.windows) || ltb max_entries (length engine.blocked)

abbrev pub drop_key : AdaptiveEngine → IpKey → AdaptiveEngine
drop_key engine key = record engine {
  windows = remove key engine.windows;
  blocked = remove key engine.blocked;
}

-- One round, by the loop's test and the key; without a key it breaks.
abbrev evict_round :
    Bool → Option IpKey → AdaptiveEngine → (AdaptiveEngine → AdaptiveEngine) → AdaptiveEngine
evict_round false key engine go_on = engine
evict_round true none engine go_on = engine
evict_round true (some key) engine go_on = go_on (drop_key engine key)

-- The `while` loop, on fuel.
unfoldable pub evict : ℕ → AdaptiveEngine → AdaptiveEngine
unfolding is_full victim
evict zero engine = engine
evict (suc fuel) engine = evict_round (is_full engine) (victim engine) engine (evict fuel)

-- The stale keys are removed one by one, which leaves what `retain` leaves.
unfoldable pub live_only : ℕ → AdaptiveEngine → AdaptiveEngine
live_only now_s engine = record engine {
  windows = retain (λ window. any_recent now_s engine.config.window_s window) engine.windows;
  blocked = retain (λ until. ltb now_s until) engine.blocked;
}

abbrev pub size : AdaptiveEngine → ℕ
size engine = length engine.windows + length engine.blocked

-- Each round of the loop drops an entry, so as many rounds as there are entries are enough.
unfoldable pub prune : ℕ → AdaptiveEngine → AdaptiveEngine
unfolding evict live_only
prune now_s engine = let live = live_only now_s engine in evict (size live) live
