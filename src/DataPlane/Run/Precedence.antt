-- ===== src/DataPlane/Run/Precedence.antt =====
-- eshield-ebpf/src/main.rs: the whitelist comes before every module, the blacklist before every one
-- but the port rules.
use e_shield.Base.{ℕ, ◌≡◌, ◌≢◌, refl, true, false, Option, none, some, List, ◌∷◌, arith}
use e_shield.Common.Config.{RuntimeConfig}
use e_shield.Common.Rules
use e_shield.Common.Entries.{BlockEntry}
use e_shield.Pure.Block.{is_active}
use e_shield.DataPlane.Kernel.{Kernel}
use e_shield.DataPlane.State.{State, with_stats}
use e_shield.DataPlane.Action.{Action}
use e_shield.DataPlane.Parser.Headers.{Parsed}
use e_shield.DataPlane.Drop.{Helpers, PacketCtx, now_of, trust_pass_sampled}
use e_shield.DataPlane.Trust.{trust_pass}
use e_shield.DataPlane.Blacklist.{is_blacklisted}
use e_shield.DataPlane.Blacklist.Blocking.{is_blacklisted_stays}
use e_shield.DataPlane.Checks.Tables.{
  is_whitelisted, check_port_acl_drop, check_blacklist_drop, count_blacklist, no_block,
}
use e_shield.DataPlane.Run.{
  Check, count_packet, parse_frame, run_checks, settle, try_eshield, context, configured,
}
use e_shield.DataPlane.Ledger.Parts.{IsDrop, drop_for_lem}

-- With a configuration installed, a parsed packet of a whitelisted source passes, whatever the
-- blacklist and the modules say of it, and the blacklist, the rate counters per source, the
-- challenge marks and the frame are not touched.
pub whitelisted_passes :
    {κ : Kernel} (helpers : Helpers) (p : Parsed) (s : State κ) (runtime : RuntimeConfig)
    → parse_frame s.frame ≡ some p
    → s.config ≡ some runtime
    → is_whitelisted p.src s ≡ true
    → let r = try_eshield helpers s in
      (r.0 ≡ Action.xdp_pass)
      × (r.1.blacklist ≡ s.blacklist)
      × (r.1.rate_map ≡ s.rate_map)
      × (r.1.syn_proxy_conn ≡ s.syn_proxy_conn)
      × (r.1.frame ≡ s.frame)
unfolding try_eshield trust_pass_sampled trust_pass is_whitelisted
whitelisted_passes helpers p s runtime hp hc hw = ground (arith, hp, hc, hw)

module _ {κ : Kernel} where
  settle-IsDrop :
      (rest : PacketCtx → State κ → Action × State κ) (r : Action × PacketCtx × State κ)
      → IsDrop r.0
      → IsDrop (settle rest r).0
  settle-IsDrop rest (Action.no_action, pc, s) h = ground arith
  settle-IsDrop rest (Action.xdp_drop, pc, s) h = h
  settle-IsDrop rest (Action.xdp_pass, pc, s) h = ground arith
  settle-IsDrop rest (Action.xdp_tx, pc, s) h = h

  -- An active entry for the packet's source.
  abbrev pub Blocked : PacketCtx → State κ → Type 0
  Blocked pc s =
      (e : BlockEntry) × (κ.blacklist.get s.blacklist pc.src ≡ some e)
      × (is_active (now_of pc) e ≡ true)

  blacklist_stops :
      (rest : List (Check κ)) (pc : PacketCtx) (s : State κ)
      → Blocked pc s
      → IsDrop (run_checks (check_blacklist_drop ∷ rest) pc s).0
  unfolding run_checks check_blacklist_drop
  blacklist_stops rest pc s (e, found, on) =
      let hit = is_blacklisted_stays pc.src (now_of pc) (now_of pc) s e found on on in
      settle-IsDrop (run_checks rest) _ (
        ground (
          arith,
          hit,
          drop_for_lem Rules.blacklist count_blacklist pc (is_blacklisted pc.src (now_of pc) s).1
              (λ g. refl),
        ))

  acl_then_blacklist :
      (count : ℕ) (rest : List (Check κ)) (pc : PacketCtx) (s : State κ)
      → Blocked pc s
      → IsDrop (run_checks (check_port_acl_drop count ∷ check_blacklist_drop ∷ rest) pc s).0
  unfolding run_checks check_port_acl_drop
  acl_then_blacklist count rest pc s blocked = ground (
    arith,
    drop_for_lem Rules.port_acl no_block pc s (λ g. refl),
    blacklist_stops rest pc s blocked,
  )

  configured_stops :
      (helpers : Helpers) (p : Parsed) (config : Option RuntimeConfig) (s : State κ)
      → config ≢ none
      → is_whitelisted p.src s ≡ false
      → ((e : BlockEntry) × (κ.blacklist.get s.blacklist p.src ≡ some e)
          × (is_active helpers.ktime_ns e ≡ true))
      → IsDrop (configured helpers p config s).0
  configured_stops helpers p none s installed hw blocked = absurd (installed refl)
  configured_stops helpers p (some runtime) s installed hw blocked =
      rw hw (acl_then_blacklist _ _ (context helpers runtime p) s blocked)

-- With a configuration installed, a parsed packet of a source that has an active blacklist entry
-- and is not whitelisted never passes: it is dropped or answered with a RST, whatever the project
-- policies, the SYN proxy or any other module say.
pub blacklisted_never_passes :
    {κ : Kernel} (helpers : Helpers) (p : Parsed) (s : State κ) (runtime : RuntimeConfig)
    (e : BlockEntry)
    → parse_frame s.frame ≡ some p
    → s.config ≡ some runtime
    → is_whitelisted p.src s ≡ false
    → κ.blacklist.get s.blacklist p.src ≡ some e
    → is_active helpers.ktime_ns e ≡ true
    → IsDrop (try_eshield helpers s).0
unfolding try_eshield is_whitelisted
blacklisted_never_passes helpers p s runtime e hp hc hw found on =
    rw hp
      (configured_stops helpers p s.config (with_stats count_packet s) (λ h. cc) hw (e, found, on))
