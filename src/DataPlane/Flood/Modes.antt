-- ===== src/DataPlane/Flood/Modes.antt =====
-- eshield-ebpf/src/rate_limit.rs, syn_flood.rs, udp_flood.rs, icmp_flood.rs: hard and soft mode.
use e_shield.Base.{
  ℕ, ◌+◌, ◌<◌, ◌≡◌, ◌≢◌, ◌⊎◌, ◌*◌, refl, Bool, true, false, ◌==◌, if◌then◌else◌, Option, none, some,
  arith, u64_max,
}
use e_shield.Common.Ip.{IpKey}
use e_shield.Common.Config.{RuntimeConfig, RateLimitConfig}
use e_shield.Common.Rules
use e_shield.DataPlane.Kernel.{Kernel}
use e_shield.DataPlane.State.{State}
use e_shield.DataPlane.RateCounter.{
  RateUpdate, ms_to_ns, report, count_source, count_source_port, update_rate_counter,
  update_rate_counter_port,
}
use e_shield.DataPlane.Blacklist.{is_blacklisted}
use e_shield.DataPlane.Blacklist.Blocking.{add_to_blacklist_lasts}
use e_shield.DataPlane.RateLimit.{enforce, check_rate_limit}
use e_shield.DataPlane.Flood.{handle_udp_flood, handle_icmp_flood}

module _ {κ : Kernel} where
  -- The block that an update asks for takes so many seconds.
  abbrev Lasts : ℕ → Option RateUpdate × State κ → Type 0
  Lasts d (none, s) = Unit
  Lasts d (some u, s) = u.block_duration_s ≡ d

  -- A source over its threshold is blacklisted in hard mode for as long as the update says.
  enforce_blocks :
      (src : IpKey) (now reason d t : ℕ) (r : Option RateUpdate × State κ)
      → now < u64_max
      → t < u64_max
      → Lasts d r
      → (t < now + d * 1_000_000_000) ⊎ (d ≡ 0)
      → (enforce src now reason 0 r).0 ≡ true
      → (is_blacklisted src t (enforce src now reason 0 r).1).0 ≡ true
  unfolding enforce
  enforce_blocks src now reason d t (none, s) hn ht same within over = absurd (cc)
  enforce_blocks src now reason d t (some u, s) hn ht same within over =
      let end = add_to_blacklist_lasts src now u.block_duration_s reason t s (omega arith) ht in
      ground (arith, end, same, within, over)

  report-Lasts :
      (still : Bool) (src : IpKey) (cfg : RateLimitConfig) (counter : ℕ) (c : Option RuntimeConfig)
      (s s' : State κ)
      → Lasts cfg.block_duration_s (if still then (none, s) else (report src cfg counter c s', s'))
  report-Lasts true src cfg counter c s s' = tt
  report-Lasts false src cfg counter none s s' = tt
  report-Lasts false src cfg counter (some runtime) s s' = refl

  update_rate_counter-Lasts :
      (src : IpKey) (now : ℕ) (s : State κ) (cfg : RateLimitConfig)
      → s.rate_limit_cfg ≡ some cfg
      → Lasts cfg.block_duration_s (update_rate_counter src now s)
  unfolding update_rate_counter
  update_rate_counter-Lasts src now s cfg h = go s.rate_limit_cfg h
    where
      go :
          (o : Option RateLimitConfig)
          → o ≡ some cfg
          → Lasts cfg.block_duration_s
              (elim o [ none ↦ (none, s) | some c ↦ count_source src now c s ])
      go none e = absurd (cc)
      go (some c) e =
          (let same : c ≡ cfg = cc in
            rw (← same) (report-Lasts (ms_to_ns c.tick_ms == 0) src c _ s.config s _))

  update_rate_counter_port-Lasts :
      (src : IpKey) (dport now : ℕ) (s : State κ) (cfg : RateLimitConfig)
      → s.rate_limit_cfg ≡ some cfg
      → Lasts cfg.block_duration_s (update_rate_counter_port src dport now s)
  unfolding update_rate_counter_port
  update_rate_counter_port-Lasts src dport now s cfg h = go s.rate_limit_cfg h
    where
      go :
          (o : Option RateLimitConfig)
          → o ≡ some cfg
          → Lasts cfg.block_duration_s
              (elim o [ none ↦ (none, s) | some c ↦ count_source_port src dport now c s ])
      go none e = absurd (cc)
      go (some c) e =
          (let same : c ≡ cfg = cc in
            rw (← same) (report-Lasts (ms_to_ns c.tick_ms == 0) src c _ s.config s _))

  -- In soft mode the blacklist is not written.
  enforce_soft :
      (src : IpKey) (now reason soft : ℕ) (r : Option RateUpdate × State κ)
      → soft ≢ 0
      → (enforce src now reason soft r).1.blacklist ≡ r.1.blacklist
  unfolding enforce
  enforce_soft src now reason soft (none, s) h = refl
  enforce_soft src now reason soft (some u, s) h = ground arith

  update_rate_counter-blacklist :
      (src : IpKey) (now : ℕ) (s : State κ)
      → (update_rate_counter src now s).1.blacklist ≡ s.blacklist
  unfolding update_rate_counter
  update_rate_counter-blacklist src now s = ground arith

  update_rate_counter_port-blacklist :
      (src : IpKey) (dport now : ℕ) (s : State κ)
      → (update_rate_counter_port src dport now s).1.blacklist ≡ s.blacklist
  unfolding update_rate_counter_port
  update_rate_counter_port-blacklist src dport now s = ground arith

  -- In hard mode the UDP and ICMP detectors and the global limit blacklist a source that they refuse:
  -- at every time below the largest of the clock that comes before the configured duration has passed,
  -- or at every time if the duration is 0, the source is found blacklisted.
  pub hard_mode_blocks :
      (src : IpKey) (dport now t : ℕ) (s : State κ) (runtime : RuntimeConfig)
      (cfg : RateLimitConfig)
      → now < u64_max
      → t < u64_max
      → s.config ≡ some runtime
      → s.rate_limit_cfg ≡ some cfg
      → runtime.rate_limit_soft ≡ 0
      → (t < now + cfg.block_duration_s * 1_000_000_000) ⊎ (cfg.block_duration_s ≡ 0)
      → let udp = handle_udp_flood src now s in
        let icmp = handle_icmp_flood src now s in
        let limit = check_rate_limit src dport now s in
        (udp.0 ≡ true → (is_blacklisted src t udp.1).0 ≡ true)
        × (icmp.0 ≡ true → (is_blacklisted src t icmp.1).0 ≡ true)
        × (limit.0 ≡ true → (is_blacklisted src t limit.1).0 ≡ true)
  unfolding handle_udp_flood handle_icmp_flood check_rate_limit
  hard_mode_blocks src dport now t s runtime cfg hn ht hc hr hard within =
      let one = update_rate_counter src now s in
      let grouped = update_rate_counter_port src dport now s in
      let lasts = update_rate_counter-Lasts src now s cfg hr in
      let lasts_port = update_rate_counter_port-Lasts src dport now s cfg hr in
      let d = cfg.block_duration_s in
      let udp = enforce_blocks src now Rules.udp_flood d t one hn ht lasts within in
      let icmp = enforce_blocks src now Rules.icmp_flood d t one hn ht lasts within in
      let all = enforce_blocks src now Rules.rate_limit d t one hn ht lasts within in
      let port = enforce_blocks src now Rules.rate_limit d t grouped hn ht lasts_port within in
      ground (arith, hc, hard, udp, icmp, all, port)

  -- In soft mode the UDP and ICMP detectors and the global limit never write the blacklist.
  soft_mode_only_drops :
      (src : IpKey) (dport now : ℕ) (s : State κ) (runtime : RuntimeConfig)
      → s.config ≡ some runtime
      → runtime.rate_limit_soft ≢ 0
      → ((handle_udp_flood src now s).1.blacklist ≡ s.blacklist)
        × ((handle_icmp_flood src now s).1.blacklist ≡ s.blacklist)
        × ((check_rate_limit src dport now s).1.blacklist ≡ s.blacklist)
  unfolding handle_udp_flood handle_icmp_flood check_rate_limit
  soft_mode_only_drops src dport now s runtime hc soft =
      let keep : (reason : ℕ) (r : Option RateUpdate × State κ)
          → (enforce src now reason runtime.rate_limit_soft r).1.blacklist ≡ r.1.blacklist =
        λ reason r. enforce_soft src now reason runtime.rate_limit_soft r soft in
      grind (
        arith,
        hc,
        keep,
        update_rate_counter-blacklist src now s,
        update_rate_counter_port-blacklist src dport now s,
      )
