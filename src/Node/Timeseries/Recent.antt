-- ===== src/Node/Timeseries/Recent.antt =====
-- eshield/src/timeseries.rs: the window holds the newest points of the whole history.
use e_shield.Base.{
  ℕ, zero, suc, ◌-◌, ◌≤◌, ◌<◌, ◌≡◌, refl, ◌∙◌, Bool-cases, inl, inr, true, false, List, [], ◌∷◌,
  ◌++◌, ◌==◌, leb, leb→le, sym, ap, length, length-drop, length-append, drop, arith, if◌then◌else◌,
}
use mathlib.Core.List.{append_assoc, append-nil}
use e_shield.Node.Timeseries.{
  Totals, MetricPoint, TimeSeriesWindow, new, point_of, is_repeated, push_bounded, record_stats,
}

-- The newest `n` of a list, oldest first.
abbrev pub newest {ℓ} : {A : Type ℓ} → ℕ → List A → List A
newest n xs = drop (length xs - n) xs

drop-append {ℓ} :
    {A : Type ℓ} (k : ℕ) (xs ys : List A) → k ≤ length xs → drop k (xs ++ ys) ≡ drop k xs ++ ys
drop-append zero xs ys h = refl
drop-append (suc k) [] ys h = absurd (omega arith)
drop-append (suc k) (x ∷ xs) ys h = drop-append k xs ys (omega arith)

drop-drop_one {ℓ} : {A : Type ℓ} (k : ℕ) (xs : List A) → drop 1 (drop k xs) ≡ drop (suc k) xs
drop-drop_one zero [] = refl
drop-drop_one zero (x ∷ xs) = refl
drop-drop_one (suc k) [] = refl
drop-drop_one (suc k) (x ∷ xs) = drop-drop_one k xs

-- Pushing onto the newest points of a history leaves the newest points of the longer history.
push_newest :
    (capacity : ℕ) (history : List MetricPoint) (p : MetricPoint)
    → 0 < capacity
    → push_bounded capacity (newest capacity history) p ≡ newest capacity (history ++ p ∷ [])
push_newest capacity history p h = elim (Bool-cases (leb capacity (length history))) [
  | inl many ↦
      (let bound = leb→le capacity (length history) many in
        let full : (length (newest capacity history) == capacity) ≡ true =
          ground (arith, length-drop (length history - capacity) history) in
        let longer : length (history ++ p ∷ []) - capacity ≡ suc (length history - capacity) =
          omega (arith, length-append history (p ∷ [])) in
        rw (full, longer, drop-drop_one (length history - capacity) history)
          (sym (
            drop-append (suc (length history - capacity)) history (p ∷ []) (omega (arith, bound)))))
  | inr few ↦
      (let none_dropped : length history - capacity ≡ 0 = ground arith in
        let room : (length (newest capacity history) == capacity) ≡ false =
          ground (arith, length-drop (length history - capacity) history) in
        let longer : length (history ++ p ∷ []) - capacity ≡ 0 =
          ground (arith, length-append history (p ∷ [])) in
        rw (room, none_dropped, longer) refl)
]

-- Samples, as seconds and counters.
unfoldable pub run : List (ℕ × Totals) → TimeSeriesWindow → TimeSeriesWindow
run [] w = w
run ((now, stats) ∷ samples) w = run samples (record_stats now stats w)

-- Every point that the samples give, as an unbounded log would hold them.
unfoldable pub log_of : List (ℕ × Totals) → TimeSeriesWindow → List MetricPoint
log_of [] w = []
log_of ((now, stats) ∷ samples) w =
    let rest = log_of samples (record_stats now stats w) in
    if is_repeated now w then rest else point_of w now stats ∷ rest

abbrev with_point : ℕ → Totals → TimeSeriesWindow → TimeSeriesWindow
with_point now stats w = record w {
  slots = push_bounded w.capacity w.slots (point_of w now stats);
  head_timestamp = now;
  last = stats;
}

record_again :
    (now : ℕ) (stats : Totals) (w : TimeSeriesWindow)
    → is_repeated now w ≡ true
    → record_stats now stats w ≡ w
unfolding record_stats
record_again now stats w h = rw h refl

record_new :
    (now : ℕ) (stats : Totals) (w : TimeSeriesWindow)
    → is_repeated now w ≡ false
    → record_stats now stats w ≡ with_point now stats w
unfolding record_stats
record_new now stats w h = rw h refl

log_again :
    (now : ℕ) (stats : Totals) (samples : List (ℕ × Totals)) (w : TimeSeriesWindow)
    → is_repeated now w ≡ true
    → log_of ((now, stats) ∷ samples) w ≡ log_of samples w
unfolding log_of
log_again now stats samples w h = rw (h, record_again now stats w h) refl

log_new :
    (now : ℕ) (stats : Totals) (samples : List (ℕ × Totals)) (w : TimeSeriesWindow)
    → is_repeated now w ≡ false
    → log_of ((now, stats) ∷ samples) w
      ≡ point_of w now stats ∷ log_of samples (with_point now stats w)
unfolding log_of
log_new now stats samples w h = rw (h, record_new now stats w h) refl

drop-nil {ℓ} : {A : Type ℓ} (k : ℕ) → [] ≡ drop {A = A} k []
drop-nil zero = refl
drop-nil (suc k) = refl

run_from :
    (samples : List (ℕ × Totals)) (w : TimeSeriesWindow) (history : List MetricPoint)
    → 0 < w.capacity
    → w.slots ≡ newest w.capacity history
    → (run samples w).slots ≡ newest w.capacity (history ++ log_of samples w)
unfolding run log_of
run_from [] w history h e = rw (append-nil history) e
run_from ((now, stats) ∷ samples) w history h e = elim (Bool-cases (is_repeated now w)) [
  | inl again ↦
      ap (λ v. (run samples v).slots) (record_again now stats w again)
      ∙ run_from samples w history h e
      ∙ ap (λ log. newest w.capacity (history ++ log)) (sym (log_again now stats samples w again))
  | inr new_second ↦
      (let p = point_of w now stats in
        let kept : push_bounded w.capacity w.slots p ≡ newest w.capacity (history ++ p ∷ []) =
          ap (λ slots. push_bounded w.capacity slots p) e ∙ push_newest w.capacity history p h in
        ap (λ v. (run samples v).slots) (record_new now stats w new_second)
        ∙ run_from samples (with_point now stats w) (history ++ p ∷ []) h kept
        ∙ ap (newest w.capacity)
            (append_assoc history (p ∷ []) (log_of samples (with_point now stats w)))
        ∙ ap (λ log. newest w.capacity (history ++ log))
            (sym (log_new now stats samples w new_second)))
]

-- A window of positive capacity that starts empty holds, after any samples, exactly the newest points
-- of the log that would keep every point, in their order, up to its capacity.
pub run-newest :
    (capacity interval_s : ℕ) (samples : List (ℕ × Totals))
    → 0 < capacity
    → (run samples (new capacity interval_s)).slots
      ≡ newest capacity (log_of samples (new capacity interval_s))
unfolding new
run-newest capacity interval_s samples h =
    run_from samples (new capacity interval_s) [] h (drop-nil (0 - capacity))
