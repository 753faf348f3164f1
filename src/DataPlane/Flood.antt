-- ===== src/DataPlane/Flood.antt =====
-- eshield-ebpf/src/syn_flood.rs, udp_flood.rs and icmp_flood.rs: the flood detectors, which share
-- the counters of the global rate limit.
pub mod Modes
use e_shield.Base.{ℕ, Bool, false, Option, none, some, ◌==◌, if◌then◌else◌}
use e_shield.Common.Ip.{IpKey}
use e_shield.Common.Config.{RuntimeConfig}
use e_shield.Common.Rules
use e_shield.DataPlane.Kernel.{Kernel}
use e_shield.DataPlane.State.{State}
use e_shield.DataPlane.Parser.Fields.{is_syn_flags}
use e_shield.DataPlane.RateCounter.{RateUpdate, update_rate_counter}
use e_shield.DataPlane.RateLimit.{enforce}

module _ {κ : Kernel} where
  -- This detector blocks its source in every mode: it does not read `rate_limit_soft`.
  unfoldable pub handle_syn_flood : IpKey → ℕ → ℕ → State κ → Bool × State κ
  handle_syn_flood src flags now_ns s =
      if is_syn_flags flags
      then enforce src now_ns Rules.syn_flood 0 (update_rate_counter src now_ns s)
      else (false, s)

  abbrev udp_with : IpKey → ℕ → RuntimeConfig → State κ → Bool × State κ
  udp_with src now_ns runtime s =
      if runtime.udp_flood_enabled == 0
      then (false, s)
      else enforce src now_ns Rules.udp_flood runtime.rate_limit_soft
          (update_rate_counter src now_ns s)

  unfoldable pub handle_udp_flood : IpKey → ℕ → State κ → Bool × State κ
  handle_udp_flood src now_ns s = elim s.config [
    | none ↦ (false, s)
    | some runtime ↦ udp_with src now_ns runtime s
  ]

  abbrev icmp_with : IpKey → ℕ → RuntimeConfig → State κ → Bool × State κ
  icmp_with src now_ns runtime s =
      if runtime.icmp_flood_enabled == 0
      then (false, s)
      else enforce src now_ns Rules.icmp_flood runtime.rate_limit_soft
          (update_rate_counter src now_ns s)

  unfoldable pub handle_icmp_flood : IpKey → ℕ → State κ → Bool × State κ
  handle_icmp_flood src now_ns s = elim s.config [
    | none ↦ (false, s)
    | some runtime ↦ icmp_with src now_ns runtime s
  ]
