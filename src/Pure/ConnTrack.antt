-- ===== src/Pure/ConnTrack.antt =====
-- eshield-common/src/pure.rs: `conn_track_step`, one update of a source's half-open count.
use e_shield.Base.{ℕ, ◌-◌, Bool, ◌&&◌, ltb, ◌!=◌, if◌then◌else◌, saturating_add32}

pub record ConnTrackStep : Type 0 where
  pub half_open : ℕ
  pub last_seen_ns : ℕ
  pub drop : Bool

-- The first `if`: a window without packets forgets the count.
abbrev pub in_window : ℕ → ℕ → ℕ → ℕ → ℕ
in_window half_open last_seen_ns now_ns window_ns =
    if window_ns != 0 && ltb window_ns (now_ns - last_seen_ns) then 0 else half_open

unfoldable pub conn_track_step : ℕ → ℕ → ℕ → Bool → Bool → ℕ → ℕ → ConnTrackStep
conn_track_step half_open last_seen_ns now_ns is_syn is_ack_or_rst threshold window_ns =
    let kept : ℕ = in_window half_open last_seen_ns now_ns window_ns in
    let counted : ℕ =
      if is_syn then saturating_add32 kept 1 else if is_ack_or_rst then kept - 1 else kept in
    record { half_open = counted; last_seen_ns = now_ns; drop = ltb threshold counted }
