-- ===== src/Node/Timeseries.antt =====
-- eshield/src/timeseries.rs: the window of sampled metrics. A point has the time, the counters that
-- rates are derived from and the rates; the counters that are copied along are left out.
pub mod Recent
use e_shield.Base.{
  ℕ, zero, suc, ◌+◌, ◌-◌, ◌/◌, Bool, true, false, ◌&&◌, not, Option, none, some, List, [], ◌∷◌,
  ◌++◌, ltb, leb, ◌==◌, ◌!=◌, if◌then◌else◌, length, drop, max,
}

pub record Totals : Type 0 where
  pub total_packets : ℕ
  pub total_dropped : ℕ
  pub total_passed : ℕ

pub record MetricPoint : Type 0 where
  timestamp : ℕ
  pub totals : Totals
  dps : Option ℕ
  pps : Option ℕ
  has_data : Bool

-- Oldest first.
pub record TimeSeriesWindow : Type 0 where
  pub slots : List MetricPoint
  pub capacity : ℕ
  pub interval_s : ℕ
  pub head_timestamp : ℕ
  pub last : Totals

abbrev no_totals : Totals
no_totals = record { total_packets = 0; total_dropped = 0; total_passed = 0 }

unfoldable pub new : ℕ → ℕ → TimeSeriesWindow
new capacity interval_s = record {
  slots = [];
  capacity = capacity;
  interval_s = interval_s;
  head_timestamp = 0;
  last = no_totals;
}

abbrev is_nil {ℓ} : {A : Type ℓ} → List A → Bool
is_nil [] = true
is_nil (x ∷ xs) = false

-- The growth of a counter since the last point, 0 before the first.
abbrev delta : ℕ → ℕ → ℕ → ℕ
delta head now before = if head == 0 then 0 else now - before

unfoldable pub point_of : TimeSeriesWindow → ℕ → Totals → MetricPoint
point_of w now stats =
    let elapsed = if w.head_timestamp == 0 then w.interval_s else max (now - w.head_timestamp) 1 in
    let has_data =
      w.head_timestamp != 0
      && ltb 0 (delta w.head_timestamp stats.total_packets w.last.total_packets) in
    record {
      timestamp = now;
      totals = stats;
      dps =
          if has_data
          then some (delta w.head_timestamp stats.total_dropped w.last.total_dropped / elapsed)
          else none;
      pps =
          if has_data
          then some (delta w.head_timestamp stats.total_passed w.last.total_passed / elapsed)
          else none;
      has_data = has_data;
    }

-- `pop_front` of a full deque, then `push_back`.
abbrev pub push_bounded : ℕ → List MetricPoint → MetricPoint → List MetricPoint
push_bounded capacity slots point =
    (if length slots == capacity then drop 1 slots else slots) ++ point ∷ []

-- No second point within the same second.
unfoldable pub is_repeated : ℕ → TimeSeriesWindow → Bool
is_repeated now w = now == w.head_timestamp && not (is_nil w.slots)

-- `record`, at the given second.
unfoldable pub record_stats : ℕ → Totals → TimeSeriesWindow → TimeSeriesWindow
unfolding point_of is_repeated
record_stats now stats w = if is_repeated now w then w else record w {
  slots = push_bounded w.capacity w.slots (point_of w now stats);
  head_timestamp = now;
  last = stats;
}

abbrev newer_than : ℕ → List MetricPoint → List MetricPoint
newer_than timestamp [] = []
newer_than timestamp (p ∷ slots) =
    if ltb timestamp p.timestamp then p ∷ newer_than timestamp slots else newer_than timestamp slots

unfoldable snapshot_after : ℕ → TimeSeriesWindow → List MetricPoint
snapshot_after timestamp w = newer_than timestamp w.slots

abbrev skip_older : ℕ → List MetricPoint → List MetricPoint
skip_older cutoff [] = []
skip_older cutoff (p ∷ slots) =
    if ltb p.timestamp cutoff then skip_older cutoff slots else p ∷ slots

unfoldable pub snapshot : ℕ → ℕ → TimeSeriesWindow → List MetricPoint
snapshot now duration_s w =
    if duration_s == 0 then w.slots else skip_older (now - duration_s) w.slots

abbrev last_time : List MetricPoint → ℕ → ℕ
last_time [] head = head
last_time (p ∷ []) head = p.timestamp
last_time (p ∷ q ∷ slots) head = last_time (q ∷ slots) head

-- The points of an earlier run: the newest of them, with fresh baselines of the counters.
unfoldable load : List MetricPoint → TimeSeriesWindow → TimeSeriesWindow
load [] w = w
load (p ∷ points) w =
    let kept = drop (length (p ∷ points) - w.capacity) (p ∷ points) in
    if is_nil kept then record w { slots = kept } else record w {
      slots = kept;
      head_timestamp = last_time kept w.head_timestamp;
      last = no_totals;
    }
