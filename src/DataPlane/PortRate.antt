-- ===== src/DataPlane/PortRate.antt =====
-- eshield-ebpf/src/port_rate.rs: packets per protocol and destination port in a fixed window.
pub mod Window
use e_shield.Base.{
  ℕ, ◌-◌, Bool, false, Option, none, some, ltb, ◌==◌, if◌then◌else◌, saturating_add64,
}
use e_shield.Common.Entries.{RateCounter, PortRateKey}
use e_shield.Common.Config.{RateLimitConfig}
use e_shield.DataPlane.Kernel.{Kernel}
use e_shield.DataPlane.State.{State}
use e_shield.DataPlane.RateCounter.{ms_to_ns}

-- The counter written for a packet: one more in the same window, or the first of a new one.
unfoldable pub next_window : Option RateCounter → ℕ → ℕ → RateCounter
next_window none now_ns window_ns = record { counter = 1; last_decay_ns = now_ns }
next_window (some entry) now_ns window_ns =
    if ltb (now_ns - entry.last_decay_ns) window_ns
    then record { counter = saturating_add64 entry.counter 1; last_decay_ns = entry.last_decay_ns }
    else record { counter = 1; last_decay_ns = now_ns }

module _ {κ : Kernel} where
  abbrev count_port : PortRateKey → ℕ → RateLimitConfig → State κ → Bool × State κ
  count_port key now_ns cfg s =
      let updated : RateCounter =
        next_window (κ.port_rate_map.get s.port_rate_map key) now_ns (ms_to_ns cfg.tick_ms) in
      if ms_to_ns cfg.tick_ms == 0 then (false, s) else (
        ltb cfg.threshold updated.counter,
        record s { port_rate_map = κ.port_rate_map.insert s.port_rate_map key updated },
      )

  unfoldable pub check_port_rate : PortRateKey → ℕ → State κ → Bool × State κ
  check_port_rate key now_ns s = elim s.port_rate_limit_cfg [
    | none ↦ (false, s)
    | some cfg ↦ count_port key now_ns cfg s
  ]
