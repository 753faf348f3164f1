-- ===== src/DataPlane/ConnTrack.antt =====
-- eshield-ebpf/src/conn_track.rs: the half-open connections of each source.
pub mod HalfOpen
use e_shield.Base.{ℕ, Bool, false, Option, none, some, ◌&&◌, not, ◌==◌, if◌then◌else◌}
use e_shield.Common.Ip.{IpKey}
use e_shield.Common.Entries.{ConnTrackEntry}
use e_shield.Pure.ConnTrack.{ConnTrackStep, conn_track_step}
use e_shield.DataPlane.Kernel.{Kernel}
use e_shield.DataPlane.State.{State}
use e_shield.DataPlane.Parser.Fields.{is_syn_flags, is_ack_or_rst_flags}
use e_shield.DataPlane.RateCounter.{ms_to_ns}

-- `(half_open, last_seen_ns)` of an entry, and (0, 0) where there is none.
abbrev pub tracked : Option ConnTrackEntry → ℕ × ℕ
tracked none = (0, 0)
tracked (some e) = (e.half_open, e.last_seen_ns)

module _ {κ : Kernel} where
  abbrev store_step : IpKey → ConnTrackStep → State κ → State κ
  store_step src step s =
      let entry : ConnTrackEntry = record {
        last_seen_ns = step.last_seen_ns;
        half_open = step.half_open;
      } in
      if step.half_open == 0
      then record s { conn_track = κ.conn_track.remove s.conn_track src }
      else record s { conn_track = κ.conn_track.insert s.conn_track src entry }

  unfoldable pub check_conn_track : IpKey → ℕ → ℕ → ℕ → ℕ → State κ → Bool × State κ
  check_conn_track src flags now_ns threshold window_ms s =
      let is_syn : Bool = is_syn_flags flags in
      let is_ack_or_rst : Bool = is_ack_or_rst_flags flags in
      let seen : ℕ × ℕ = tracked (κ.conn_track.get s.conn_track src) in
      let step : ConnTrackStep =
        conn_track_step seen.0 seen.1 now_ns is_syn is_ack_or_rst threshold (ms_to_ns window_ms) in
      if not is_syn && not is_ack_or_rst then (false, s) else (step.drop, store_step src step s)
