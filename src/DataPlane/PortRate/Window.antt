-- ===== src/DataPlane/PortRate/Window.antt =====
-- eshield-ebpf/src/port_rate.rs: what a window counts.
use e_shield.Base.{ℕ, ◌+◌, ◌-◌, ◌<◌, ◌≡◌, ◌∙◌, ap, some, List, [], ◌∷◌, length, arith, ltb, u64_max}
use e_shield.Common.Entries.{RateCounter, PortRateKey}
use e_shield.Common.Config.{RateLimitConfig}
use e_shield.DataPlane.Kernel.{Kernel}
use e_shield.DataPlane.State.{State}
use e_shield.DataPlane.RateCounter.{ms_to_ns}
use e_shield.DataPlane.PortRate.{next_window, check_port_rate}

-- Times less than a window after its start.
abbrev pub AllWithin : ℕ → ℕ → List ℕ → Type 0
AllWithin start window [] = Unit
AllWithin start window (t ∷ times) = (t - start < window) × AllWithin start window times

module _ {κ : Kernel} where
  -- The state after packets of one key at the given times.
  abbrev pub after_port_packets : PortRateKey → List ℕ → State κ → State κ
  after_port_packets key [] s = s
  after_port_packets key (t ∷ times) s = after_port_packets key times (check_port_rate key t s).1

  -- One packet in an open window.
  check_port_rate_step :
      (key : PortRateKey) (now : ℕ) (s : State κ) (cfg : RateLimitConfig) (e : RateCounter)
      → s.port_rate_limit_cfg ≡ some cfg
      → κ.port_rate_map.get s.port_rate_map key ≡ some e
      → now - e.last_decay_ns < ms_to_ns cfg.tick_ms
      → e.counter < u64_max
      → let r = check_port_rate key now s in
        (r.0 ≡ ltb cfg.threshold (e.counter + 1))
        × (κ.port_rate_map.get r.1.port_rate_map key ≡ some (record e { counter = e.counter + 1 }))
        × (r.1.port_rate_limit_cfg ≡ some cfg)
  unfolding check_port_rate next_window
  check_port_rate_step key now s cfg e hc he w small = ground (
    arith,
    hc,
    he,
    κ.port_rate_map.get-insert_self s.port_rate_map key (record e { counter = e.counter + 1 }),
  )

  -- In an open window every packet of the key is counted, as long as the count stays below the
  -- largest number, and the packet after any number of them is refused exactly when the count with
  -- it exceeds the threshold.
  pub check_port_rate_counts :
      (key : PortRateKey) (times : List ℕ) (now : ℕ) (s : State κ) (cfg : RateLimitConfig)
      (e : RateCounter)
      → s.port_rate_limit_cfg ≡ some cfg
      → κ.port_rate_map.get s.port_rate_map key ≡ some e
      → AllWithin e.last_decay_ns (ms_to_ns cfg.tick_ms) times
      → now - e.last_decay_ns < ms_to_ns cfg.tick_ms
      → e.counter + length times < u64_max
      → (check_port_rate key now (after_port_packets key times s)).0
        ≡ ltb cfg.threshold (e.counter + length times + 1)
  check_port_rate_counts key [] now s cfg e hc he all w small =
      (check_port_rate_step key now s cfg e hc he w (omega arith)).0
      ∙ ap (ltb cfg.threshold) (omega arith)
  check_port_rate_counts key (t ∷ times) now s cfg e hc he (first, all) w small =
      let step = check_port_rate_step key t s cfg e hc he first (omega arith) in
      check_port_rate_counts key times now (check_port_rate key t s).1 cfg
        (record e { counter = e.counter + 1 }) step.2 step.1 all w (omega arith)
      ∙ ap (ltb cfg.threshold) (omega arith)
