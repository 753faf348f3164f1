-- ===== src/DataPlane/Ledger/Modules.antt =====
-- Each module of the main program enters nothing if it leaves the packet to the next one, and one
-- entry, of the right kind, if it acts.
use e_shield.Base.{
  ℕ, ◌≡◌, ◌≢◌, ◌⊎◌, refl, ◌∙◌, inl, inr, Bool, true, false, Option, none, some, List, arith,
  if◌then◌else◌,
}
use e_shield.Common.Ip.{IpFamily}
use e_shield.Common.Config.{RuntimeConfig}
use e_shield.Common.Entries.{PortRateKey, ProjectPolicy}
use e_shield.Common.Stats.{GlobalStats}
use e_shield.DataPlane.Kernel.{Kernel}
use e_shield.DataPlane.State.{State, with_stats}
use e_shield.DataPlane.Action.{Action}
use e_shield.DataPlane.Drop.{PacketCtx, now_of, drop_for, count_passed, trust_pass_sampled}
use e_shield.DataPlane.PortRate.{check_port_rate}
use e_shield.DataPlane.Checks.Tables.{
  check_port_acl_drop, check_blacklist_drop, check_project_policy, check_geoip_drop,
  check_conn_track_drop, check_l7_drop, obey, obey_at, obey_family, obey_config, track,
}
use e_shield.DataPlane.Checks.Floods.{
  limit_port, check_fragment_drop, check_udp_drop, check_icmp_drop, check_rate_limit_drop,
}
use e_shield.DataPlane.Ledger.Parts.{
  Tally, tally, one_passed, one_dropped, Quiet, IsDrop, IsOther, drop_for_lem,
  trust_pass_sampled-Quiet, is_blacklisted-Quiet, check_rate_limit-Quiet, handle_udp_flood-Quiet,
  handle_icmp_flood-Quiet, check_conn_track-Quiet, check_port_rate-Quiet,
}

-- The entry that an action stands for. A frame sent back is a RST, which is a drop, or a challenge
-- of the SYN proxy, which is neither passed nor dropped.
abbrev pub Settled : Action → Option Tally → Option Tally → Type 0
Settled Action.no_action before after = after ≡ before
Settled Action.xdp_drop before after = after ≡ one_dropped before
Settled Action.xdp_pass before after = after ≡ one_passed before
Settled Action.xdp_tx before after = (after ≡ one_dropped before) ⊎ (after ≡ before)

IsDrop-Settled :
    (action : Action) (before after : Option Tally)
    → IsDrop action
    → after ≡ one_dropped before
    → Settled action before after
IsDrop-Settled Action.no_action b a h e = ground arith
IsDrop-Settled Action.xdp_drop b a h e = e
IsDrop-Settled Action.xdp_pass b a h e = ground arith
IsDrop-Settled Action.xdp_tx b a h e = inl e

IsDrop-acts : (action : Action) → IsDrop action → action ≢ Action.no_action
IsDrop-acts _ (inl h) e = cc
IsDrop-acts _ (inr h) e = cc

module _ {κ : Kernel} where
  abbrev pub Settles : State κ → Action × PacketCtx × State κ → Type 0
  Settles s r =
      Settled r.0 (tally s.stats) (tally r.2.stats)
      × (r.2.cookie_secrets ≡ s.cookie_secrets)
      × (r.0 ≡ Action.no_action → r.2.frame ≡ s.frame)

  pub no_action-Settles :
      (pc : PacketCtx) (s s' : State κ) → Quiet s s' → Settles s (Action.no_action, pc, s')
  no_action-Settles pc s s' h = (h.0, h.1, λ _. h.2)

  pub drop_for-Settles :
      (rule : ℕ) (blocked : GlobalStats → GlobalStats) (pc : PacketCtx) (s s' : State κ)
      → IsOther blocked
      → Quiet s s'
      → Settles s (drop_for rule blocked pc s')
  drop_for-Settles rule blocked pc s s' other quiet =
      let dropped = drop_for_lem rule blocked pc s' other in
      (
        rw (← quiet.0) (IsDrop-Settled (drop_for rule blocked pc s').0 _ _ dropped.2 dropped.0),
        dropped.1 ∙ quiet.1,
        λ e. absurd (IsDrop-acts (drop_for rule blocked pc s').0 dropped.2 e),
      )

  pub if-Settles :
      (b : Bool) (s : State κ) (x y : Action × PacketCtx × State κ)
      → Settles s x
      → Settles s y
      → Settles s (if b then x else y)
  if-Settles true s x y hx hy = hx
  if-Settles false s x y hx hy = hy

  pub Quiet-trans : (s t u : State κ) → Quiet s t → Quiet t u → Quiet s u
  Quiet-trans s t u h k = (k.0 ∙ h.0, k.1 ∙ h.1, k.2 ∙ h.2)

  pub check_port_acl_drop-Settles :
      (count : ℕ) (pc : PacketCtx) (s : State κ) → Settles s (check_port_acl_drop count pc s)
  unfolding check_port_acl_drop
  check_port_acl_drop-Settles count pc s = search (if-Settles, no_action-Settles, drop_for-Settles)

  pub check_blacklist_drop-Settles :
      (pc : PacketCtx) (s : State κ) → Settles s (check_blacklist_drop pc s)
  unfolding check_blacklist_drop
  check_blacklist_drop-Settles pc s =
      search (if-Settles, no_action-Settles, drop_for-Settles, is_blacklisted-Quiet)

  pub check_geoip_drop-Settles :
      (enabled default_action : ℕ) (pc : PacketCtx) (s : State κ)
      → Settles s (check_geoip_drop enabled default_action pc s)
  unfolding check_geoip_drop
  check_geoip_drop-Settles enabled default_action pc s =
      search (if-Settles, no_action-Settles, drop_for-Settles)

  pub check_l7_drop-Settles :
      (count : ℕ) (pc : PacketCtx) (s : State κ) → Settles s (check_l7_drop count pc s)
  unfolding check_l7_drop
  check_l7_drop-Settles count pc s = search (if-Settles, no_action-Settles, drop_for-Settles)

  pub check_rate_limit_drop-Settles :
      (pc : PacketCtx) (s : State κ) → Settles s (check_rate_limit_drop pc s)
  unfolding check_rate_limit_drop
  check_rate_limit_drop-Settles pc s =
      search (if-Settles, no_action-Settles, drop_for-Settles, check_rate_limit-Quiet)

  pub limit_port-Settles :
      (rule : ℕ) (blocked : GlobalStats → GlobalStats) (key : PortRateKey) (pc : PacketCtx)
      (s s' : State κ)
      → IsOther blocked
      → Quiet s s'
      → Settles s (limit_port rule blocked key pc s')
  unfolding limit_port
  limit_port-Settles rule blocked key pc s s' other quiet =
      let next : State κ = (check_port_rate key (now_of pc) s').1 in
      let counted : Quiet s next =
        Quiet-trans s s' next quiet (check_port_rate-Quiet key (now_of pc) s') in
      search (if-Settles, no_action-Settles, drop_for-Settles)

  pub check_fragment_drop-Settles :
      (policy port : ℕ) (pc : PacketCtx) (s : State κ)
      → Settles s (check_fragment_drop policy port pc s)
  unfolding check_fragment_drop
  check_fragment_drop-Settles policy port pc s =
      search (if-Settles, no_action-Settles, drop_for-Settles, limit_port-Settles)

  pub check_udp_drop-Settles :
      (flood port : ℕ) (pc : PacketCtx) (s : State κ) → Settles s (check_udp_drop flood port pc s)
  unfolding check_udp_drop
  check_udp_drop-Settles flood port pc s =
      search
        (
          if-Settles, no_action-Settles, drop_for-Settles, limit_port-Settles,
          handle_udp_flood-Quiet,
        )
        depth 8

  pub check_icmp_drop-Settles :
      (flood port : ℕ) (pc : PacketCtx) (s : State κ) → Settles s (check_icmp_drop flood port pc s)
  unfolding check_icmp_drop
  check_icmp_drop-Settles flood port pc s =
      search
        (
          if-Settles, no_action-Settles, drop_for-Settles, limit_port-Settles,
          handle_icmp_flood-Quiet,
        )
        depth 8

  -- A pass is entered once, with the sample of trust that goes with it.
  pub passed-Settles :
      (pc pc' : PacketCtx) (s s' : State κ)
      → Quiet s s'
      → Settles s (
        Action.xdp_pass,
        pc',
        trust_pass_sampled pc.src (now_of pc) pc.trust_add_divisor (with_stats count_passed s'),
      )
  passed-Settles pc pc' s s' quiet =
      let sampled =
        trust_pass_sampled-Quiet pc.src (now_of pc) pc.trust_add_divisor
          (with_stats count_passed s') in
      ground (arith, sampled, quiet)

  obey-Settles :
      (policy : Option ProjectPolicy) (pc : PacketCtx) (s : State κ) → Settles s (obey policy pc s)
  obey-Settles none pc s = (refl, refl, λ _. refl)
  obey-Settles (some policy) pc s =
      search (if-Settles, no_action-Settles, drop_for-Settles, passed-Settles)

  obey_at-Settles :
      (ip : Option (List ℕ)) (pc : PacketCtx) (s : State κ) → Settles s (obey_at ip pc s)
  obey_at-Settles none pc s = (refl, refl, λ _. refl)
  obey_at-Settles (some ip) pc s = search obey-Settles

  obey_family-Settles :
      (family : Option IpFamily) (pc : PacketCtx) (s : State κ)
      → Settles s (obey_family family pc s)
  obey_family-Settles none pc s = (refl, refl, λ _. refl)
  obey_family-Settles (some IpFamily.ipv4) pc s = search obey_at-Settles
  obey_family-Settles (some IpFamily.ipv6) pc s = (refl, refl, λ _. refl)

  obey_config-Settles :
      (config : Option RuntimeConfig) (pc : PacketCtx) (s : State κ)
      → Settles s (obey_config config pc s)
  obey_config-Settles none pc s = (refl, refl, λ _. refl)
  obey_config-Settles (some runtime) pc s =
      search (if-Settles, no_action-Settles, obey_family-Settles)

  pub check_project_policy-Settles :
      (pc : PacketCtx) (s : State κ) → Settles s (check_project_policy pc s)
  unfolding check_project_policy
  check_project_policy-Settles pc s = obey_config-Settles s.config pc s

  track-Settles :
      (threshold window : ℕ) (tcp : Option (List ℕ)) (pc : PacketCtx) (s : State κ)
      → Settles s (track threshold window tcp pc s)
  track-Settles threshold window none pc s = (refl, refl, λ _. refl)
  track-Settles threshold window (some tcp) pc s =
      search (if-Settles, no_action-Settles, drop_for-Settles, check_conn_track-Quiet)

  pub check_conn_track_drop-Settles :
      (enabled threshold window : ℕ) (pc : PacketCtx) (s : State κ)
      → Settles s (check_conn_track_drop enabled threshold window pc s)
  unfolding check_conn_track_drop
  check_conn_track_drop-Settles enabled threshold window pc s =
      search (if-Settles, no_action-Settles, track-Settles)
