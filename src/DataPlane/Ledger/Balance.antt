-- ===== src/DataPlane/Ledger/Balance.antt =====
-- eshield-ebpf/src/main.rs: `try_eshield` counts every packet that it parses, and enters it exactly
-- once as passed, dropped or challenged.
use e_shield.Base.{
  ℕ, ◌≡◌, ◌≢◌, refl, ◌∙◌, sym, ap, Bool, true, false, Option, none, some, List, [], ◌∷◌, arith,
  if◌then◌else◌,
}
use e_shield.Common.Config.{RuntimeConfig}
use e_shield.Common.Stats.{GlobalStats}
use e_shield.DataPlane.Kernel.{Kernel}
use e_shield.DataPlane.State.{State, on_stats, with_stats, inc}
use e_shield.DataPlane.Action.{Action}
use e_shield.DataPlane.Parser.Fields.{ip_hdr_len, eth_hdr_len, ptr_at}
use e_shield.DataPlane.Parser.Headers.{Parsed, parse_ipv4, parse_ipv6}
use e_shield.DataPlane.Drop.{Helpers, PacketCtx}
use e_shield.DataPlane.Checks.Tables.{is_whitelisted}
use e_shield.DataPlane.Sample.{log_packet_sample}
use e_shield.DataPlane.Run.{
  Check, parse_frame, checks, run_checks, settle, try_eshield, configured, context, count_packet,
}
use e_shield.DataPlane.Ledger.Parts.{Tally, tally}
use e_shield.DataPlane.Ledger.Modules.{
  Settled, Settles, if-Settles, no_action-Settles, passed-Settles, check_port_acl_drop-Settles,
  check_blacklist_drop-Settles, check_fragment_drop-Settles, check_project_policy-Settles,
  check_geoip_drop-Settles, check_conn_track_drop-Settles, check_udp_drop-Settles,
  check_icmp_drop-Settles, check_l7_drop-Settles, check_rate_limit_drop-Settles,
}
use e_shield.DataPlane.Ledger.Proxy.{check_tcp_drop-Settles}

abbrev pub one_packet : Option Tally → Option Tally
one_packet none = none
one_packet (some (packets, passed, dropped)) = some (inc packets, passed, dropped)

-- An action that ends the program, with its entry.
abbrev pub Entered : Action → Option Tally → Option Tally → Type 0
Entered action before after = (action ≢ Action.no_action) × Settled action before after

module _ {κ : Kernel} where
  -- What a parsed IPv4 or IPv6 packet and an installed cookie secret provide.
  abbrev Ready : State κ → Type 0
  Ready s = (s.cookie_secrets ≢ none) × (ptr_at ip_hdr_len s.frame eth_hdr_len ≢ none)

  abbrev SettlesWhenReady : Check κ → Type 0
  SettlesWhenReady check = (pc : PacketCtx) (s : State κ) → Ready s → Settles s (check pc s)

  abbrev AllSettle : List (Check κ) → Type 0
  AllSettle [] = Unit
  AllSettle (check ∷ rest) = SettlesWhenReady check × AllSettle rest

  log_packet_sample-stats :
      (pc : PacketCtx) (a : Action) (s : State κ) → (log_packet_sample pc a s).stats ≡ s.stats
  unfolding log_packet_sample
  log_packet_sample-stats pc a s = ground arith

  abbrev Enters : State κ → Action × State κ → Type 0
  Enters s r = Entered r.0 (tally s.stats) (tally r.1.stats)

  settle-Enters :
      (rest : PacketCtx → State κ → Action × State κ) (s : State κ)
      (r : Action × PacketCtx × State κ)
      → Ready s
      → ((pc : PacketCtx) (t : State κ) → Ready t → Enters t (rest pc t))
      → Settles s r
      → Enters s (settle rest r)
  settle-Enters rest s (Action.no_action, pc, t) ready later h =
      let still : Ready t = (
        λ e. ready.0 (sym h.1 ∙ e),
        λ e. ready.1 (sym (ap (λ f. ptr_at ip_hdr_len f eth_hdr_len) (h.2 refl)) ∙ e),
      ) in
      rw (← h.0) (later pc t still)
  settle-Enters rest s (Action.xdp_pass, pc, t) ready later h =
      (λ e. cc, ap tally (log_packet_sample-stats pc Action.xdp_pass t) ∙ h.0)
  settle-Enters rest s (Action.xdp_drop, pc, t) ready later h =
      (λ e. cc, ap tally (log_packet_sample-stats pc Action.xdp_drop t) ∙ h.0)
  settle-Enters rest s (Action.xdp_tx, pc, t) ready later h =
      (λ e. cc, rw (log_packet_sample-stats pc Action.xdp_tx t) h.0)

  run_checks-Enters :
      (cs : List (Check κ)) (pc : PacketCtx) (s : State κ)
      → AllSettle cs
      → Ready s
      → Enters s (run_checks cs pc s)
  unfolding run_checks
  run_checks-Enters [] pc s _ ready = (λ e. cc, (passed-Settles pc pc s s (refl, refl, refl)).0)
  run_checks-Enters (check ∷ rest) pc s (first, others) ready =
      settle-Enters (run_checks rest) s (check pc s) ready
        (λ pc' t. run_checks-Enters rest pc' t others) (first pc s ready)

  checks-Settle : (runtime : RuntimeConfig) → AllSettle (checks runtime)
  checks-Settle runtime = (
    λ pc s _. check_port_acl_drop-Settles _ pc s,
    ((
      λ pc s _. check_blacklist_drop-Settles pc s,
      ((
        λ pc s _. check_fragment_drop-Settles _ _ pc s,
        ((
          λ pc s _. check_project_policy-Settles pc s,
          ((
            λ pc s _. check_geoip_drop-Settles _ _ pc s,
            ((
              λ pc s _. check_conn_track_drop-Settles _ _ _ pc s,
              ((
                λ pc s ready. search (if-Settles, no_action-Settles, check_tcp_drop-Settles),
                ((
                  λ pc s _. check_udp_drop-Settles _ _ pc s,
                  ((
                    λ pc s _. check_icmp_drop-Settles _ _ pc s,
                    ((
                      λ pc s ready. search (if-Settles, no_action-Settles, check_l7_drop-Settles),
                      ((λ pc s _. check_rate_limit_drop-Settles pc s, (tt))),
                    )),
                  )),
                )),
              )),
            )),
          )),
        )),
      )),
    )),
  )

  if-Enters :
      (b : Bool) (s : State κ) (x y : Action × State κ)
      → Enters s x
      → Enters s y
      → Enters s (if b then x else y)
  if-Enters true s x y hx hy = hx
  if-Enters false s x y hx hy = hy

  configured-Enters :
      (helpers : Helpers) (p : Parsed) (config : Option RuntimeConfig) (s : State κ)
      → Ready s
      → config ≢ none
      → Enters s (configured helpers p config s)
  configured-Enters helpers p none s ready installed = absurd (installed refl)
  configured-Enters helpers p (some runtime) s ready _ =
      let pc : PacketCtx = context helpers runtime p in
      if-Enters (is_whitelisted p.src s) s _ _
        (λ e. cc, (passed-Settles pc pc s s (refl, refl, refl)).0)
        (run_checks-Enters (checks runtime) pc s (checks-Settle runtime) ready)

one_packet-tally : (o : Option GlobalStats) → tally (on_stats count_packet o) ≡ one_packet (tally o)
one_packet-tally none = refl
one_packet-tally (some g) = refl

-- A frame that parses holds an IPv4 header's worth of bytes after the Ethernet header.
parse_frame-reaches :
    (frame : List ℕ) (p : Parsed)
    → parse_frame frame ≡ some p
    → ptr_at ip_hdr_len frame eth_hdr_len ≢ none
unfolding parse_frame parse_ipv4 parse_ipv6 ptr_at
parse_frame-reaches frame p e = ground arith

-- With a configuration and a cookie secret installed, a frame that parses is counted as one packet,
-- and the program ends it with exactly one entry: one more passed if it passes, one more dropped if
-- it drops, and if a frame is sent back, one more dropped (a RST) or neither (a challenge).
pub try_eshield-Entered :
    {κ : Kernel} (helpers : Helpers) (p : Parsed) (s : State κ)
    → parse_frame s.frame ≡ some p
    → s.config ≢ none
    → s.cookie_secrets ≢ none
    → let r = try_eshield helpers s in Entered r.0 (one_packet (tally s.stats)) (tally r.1.stats)
unfolding try_eshield
try_eshield-Entered {κ = κ} helpers p s e installed secrets =
    let t : State κ = with_stats count_packet s in
    rw (e, ← one_packet-tally s.stats)
      (configured-Enters helpers p s.config t (secrets, parse_frame-reaches s.frame p e) installed)
