-- ===== src/DataPlane/ConnTrack/HalfOpen.antt =====
-- eshield-ebpf/src/conn_track.rs: the count of half-open connections across packets.
use e_shield.Base.{ℕ, ◌+◌, ◌-◌, ◌≤◌, ◌<◌, ◌≡◌, ◌≢◌, ◌⊎◌, ap, true, false, arith, ltb, u32_max}
use e_shield.Common.Ip.{IpKey}
use e_shield.Pure.ConnTrack.{conn_track_step, in_window}
use e_shield.DataPlane.Kernel.{Kernel}
use e_shield.DataPlane.State.{State}
use e_shield.DataPlane.Parser.Fields.{is_syn_flags, is_ack_or_rst_flags}
use e_shield.DataPlane.RateCounter.{ms_to_ns}
use e_shield.DataPlane.ConnTrack.{tracked, check_conn_track}

module _ {κ : Kernel} where
  -- The half-open connections that the map holds for a source.
  abbrev pub half_open_of : IpKey → State κ → ℕ
  half_open_of src s = (tracked (κ.conn_track.get s.conn_track src)).0

  -- The time of its last packet.
  abbrev pub last_seen_of : IpKey → State κ → ℕ
  last_seen_of src s = (tracked (κ.conn_track.get s.conn_track src)).1

  -- What the window keeps of them at a time.
  abbrev pub kept_of : IpKey → ℕ → ℕ → State κ → ℕ
  kept_of src now window_ms s =
      let seen : ℕ × ℕ = tracked (κ.conn_track.get s.conn_track src) in
      in_window seen.0 seen.1 now (ms_to_ns window_ms)

  syn_tracked :
      (src : IpKey) (flags now threshold window_ms : ℕ) (s : State κ)
      → is_syn_flags flags ≡ true
      → kept_of src now window_ms s < u32_max
      → let kept = kept_of src now window_ms s in
        let r = check_conn_track src flags now threshold window_ms s in
        (tracked (κ.conn_track.get r.1.conn_track src) ≡ (kept + 1, now))
        × (r.0 ≡ ltb threshold (kept + 1))
  unfolding check_conn_track conn_track_step
  syn_tracked src flags now threshold window_ms s h small =
      let seen : ℕ × ℕ = tracked (κ.conn_track.get s.conn_track src) in
      let kept : ℕ = in_window seen.0 seen.1 now (ms_to_ns window_ms) in
      ground (
        arith,
        h,
        κ.conn_track.get-insert_self s.conn_track src
            (record { half_open = kept + 1; last_seen_ns = now }),
      )

  ack_tracked :
      (src : IpKey) (flags now threshold window_ms : ℕ) (s : State κ)
      → is_syn_flags flags ≡ false
      → is_ack_or_rst_flags flags ≡ true
      → let seen = tracked (κ.conn_track.get s.conn_track src) in
        let kept = in_window seen.0 seen.1 now (ms_to_ns window_ms) in
        let r = check_conn_track src flags now threshold window_ms s in
        (tracked (κ.conn_track.get r.1.conn_track src)).0 ≡ kept - 1
  unfolding check_conn_track conn_track_step
  ack_tracked src flags now threshold window_ms s hs h =
      let seen : ℕ × ℕ = tracked (κ.conn_track.get s.conn_track src) in
      let kept : ℕ = in_window seen.0 seen.1 now (ms_to_ns window_ms) in
      ground (
        arith,
        h,
        hs,
        κ.conn_track.get-remove_self s.conn_track src,
        κ.conn_track.get-insert_self s.conn_track src
            (record { half_open = kept - 1; last_seen_ns = now }),
      )

  -- A SYN adds one half-open connection to those within the window, is refused exactly when that
  -- exceeds the threshold, and the count is stored either way.
  check_conn_track_syn :
      (src : IpKey) (flags now threshold window_ms : ℕ) (s : State κ)
      → is_syn_flags flags ≡ true
      → kept_of src now window_ms s < u32_max
      → let kept = kept_of src now window_ms s in
        let r = check_conn_track src flags now threshold window_ms s in
        (half_open_of src r.1 ≡ kept + 1) × (r.0 ≡ ltb threshold (kept + 1))
  check_conn_track_syn src flags now threshold window_ms s h small =
      let r = syn_tracked src flags now threshold window_ms s h small in (ap (λ p. p.0) r.0, r.1)

  -- A handshake that is completed within the window leaves the half-open count of its source as it was
  -- before the SYN, or at 0 if the source had been silent for longer than a window that is not 0.
  pub check_conn_track_handshake :
      (src : IpKey) (syn ack now later threshold window_ms : ℕ) (s : State κ)
      → is_syn_flags syn ≡ true
      → is_syn_flags ack ≡ false
      → is_ack_or_rst_flags ack ≡ true
      → later - now ≤ ms_to_ns window_ms
      → half_open_of src s < u32_max
      → let opened = (check_conn_track src syn now threshold window_ms s).1 in
        let closed = (check_conn_track src ack later threshold window_ms opened).1 in
        ((ms_to_ns window_ms ≢ 0)
          × (ms_to_ns window_ms < now - last_seen_of src s)
          × (half_open_of src closed ≡ 0))
        ⊎ (((ms_to_ns window_ms ≡ 0) ⊎ (now - last_seen_of src s ≤ ms_to_ns window_ms))
            × (half_open_of src closed ≡ half_open_of src s))
  check_conn_track_handshake src syn ack now later threshold window_ms s h hs ha w small =
      let opened = check_conn_track src syn now threshold window_ms s in
      let first = syn_tracked src syn now threshold window_ms s h (ground (arith, small)) in
      let second = ack_tracked src ack later threshold window_ms opened.1 hs ha in
      ground (arith, first.0, second)
