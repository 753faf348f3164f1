-- ===== src/DataPlane/RateLimit.antt =====
-- eshield-ebpf/src/rate_limit.rs: the global rate limit.
use e_shield.Base.{ℕ, Bool, true, false, Option, none, some, ltb, ◌==◌, ◌!=◌, if◌then◌else◌}
use e_shield.Common.Ip.{IpKey}
use e_shield.Common.Config.{RuntimeConfig}
use e_shield.Common.Rules
use e_shield.DataPlane.Kernel.{Kernel}
use e_shield.DataPlane.State.{State}
use e_shield.DataPlane.RateCounter.{RateUpdate, update_rate_counter, update_rate_counter_port}
use e_shield.DataPlane.Blacklist.{add_to_blacklist}

module _ {κ : Kernel} where
  -- The end of each detector: over the threshold the packet is dropped, and in hard mode
  -- (`soft == 0`) its source is blocked.
  unfoldable pub enforce : IpKey → ℕ → ℕ → ℕ → Option RateUpdate × State κ → Bool × State κ
  enforce src now_ns reason soft (none, s) = (false, s)
  enforce src now_ns reason soft (some update, s) =
      if ltb update.threshold update.counter
      then (
        true,
        if soft == 0 then add_to_blacklist src now_ns update.block_duration_s reason s else s,
      )
      else (false, s)

  abbrev limit_with : IpKey → ℕ → ℕ → RuntimeConfig → State κ → Bool × State κ
  limit_with src dport now_ns runtime s =
      if runtime.rate_limit_enabled == 0
      then (false, s)
      else enforce src now_ns Rules.rate_limit runtime.rate_limit_soft (
          if runtime.rate_limit_dport_grouping != 0
          then update_rate_counter_port src dport now_ns s
          else update_rate_counter src now_ns s)

  unfoldable pub check_rate_limit : IpKey → ℕ → ℕ → State κ → Bool × State κ
  check_rate_limit src dport now_ns s = elim s.config [
    | none ↦ (false, s)
    | some runtime ↦ limit_with src dport now_ns runtime s
  ]
