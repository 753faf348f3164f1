-- ===== src/DataPlane/Ledger/Parts.antt =====
-- The functions below the modules: they leave the ledger and the cookie secrets alone, or enter a
-- drop.
use e_shield.Base.{ℕ, ◌≡◌, ◌⊎◌, refl, ◌∙◌, Option, none, some, arith}
use e_shield.Common.Ip.{IpKey}
use e_shield.Common.Entries.{PortRateKey}
use e_shield.Common.Stats.{GlobalStats}
use e_shield.DataPlane.Kernel.{Kernel}
use e_shield.DataPlane.State.{State, on_stats, with_stats, inc}
use e_shield.DataPlane.Action.{Action}
use e_shield.DataPlane.Trust.{trust_pass, trust_drop}
use e_shield.DataPlane.RateCounter.{update_rate_counter, update_rate_counter_port, RateUpdate}
use e_shield.DataPlane.Blacklist.{is_blacklisted, add_to_blacklist}
use e_shield.DataPlane.RateLimit.{enforce, check_rate_limit}
use e_shield.DataPlane.Flood.{handle_syn_flood, handle_udp_flood, handle_icmp_flood}
use e_shield.DataPlane.ConnTrack.{check_conn_track}
use e_shield.DataPlane.PortRate.{check_port_rate}
use e_shield.DataPlane.TcpReset.{reply_tcp_rst}
use e_shield.DataPlane.Drop.{
  PacketCtx, trust_pass_sampled, emit_drop_event, account_drop, drop_packet, inc_protocol_dropped,
  drop_for, count_dropped,
}

-- Packets seen, passed and dropped.
abbrev pub Tally : Type 0
Tally = ℕ × ℕ × ℕ

abbrev pub tally : Option GlobalStats → Option Tally
tally none = none
tally (some g) = some (g.total_packets, g.total_passed, g.total_dropped)

abbrev pub one_passed : Option Tally → Option Tally
one_passed none = none
one_passed (some (packets, passed, dropped)) = some (packets, inc passed, dropped)

abbrev pub one_dropped : Option Tally → Option Tally
one_dropped none = none
one_dropped (some (packets, passed, dropped)) = some (packets, passed, inc dropped)

-- An answer that drops or sends a RST.
abbrev pub IsDrop : Action → Type 0
IsDrop action = (action ≡ Action.xdp_drop) ⊎ (action ≡ Action.xdp_tx)

module _ {κ : Kernel} where
  -- The ledger is as before, and so are the secrets, which the SYN proxy's verdict depends on.
  abbrev pub Kept : State κ → State κ → Type 0
  Kept s s' = (tally s'.stats ≡ tally s.stats) × (s'.cookie_secrets ≡ s.cookie_secrets)

  -- The frame is as before too.
  abbrev pub Quiet : State κ → State κ → Type 0
  Quiet s s' =
      (tally s'.stats ≡ tally s.stats)
      × (s'.cookie_secrets ≡ s.cookie_secrets)
      × (s'.frame ≡ s.frame)

  pub trust_pass-Quiet :
      (src : IpKey) (now d w : ℕ) (s : State κ) → Quiet s (trust_pass src now d w s)
  unfolding trust_pass
  trust_pass-Quiet src now d w s = (refl, refl, refl)

  pub trust_drop-Quiet : (src : IpKey) (now d : ℕ) (s : State κ) → Quiet s (trust_drop src now d s)
  unfolding trust_drop
  trust_drop-Quiet src now d s = ground arith

  pub trust_pass_sampled-Quiet :
      (src : IpKey) (now d : ℕ) (s : State κ) → Quiet s (trust_pass_sampled src now d s)
  unfolding trust_pass_sampled trust_pass
  trust_pass_sampled-Quiet src now d s = ground arith

  pub add_to_blacklist-Quiet :
      (src : IpKey) (now d r : ℕ) (s : State κ) → Quiet s (add_to_blacklist src now d r s)
  unfolding add_to_blacklist
  add_to_blacklist-Quiet src now d r s = ground arith

  pub is_blacklisted-Quiet :
      (src : IpKey) (now : ℕ) (s : State κ) → Quiet s (is_blacklisted src now s).1
  unfolding is_blacklisted
  is_blacklisted-Quiet src now s = ground arith

  pub update_rate_counter-Quiet :
      (src : IpKey) (now : ℕ) (s : State κ) → Quiet s (update_rate_counter src now s).1
  unfolding update_rate_counter
  update_rate_counter-Quiet src now s = ground arith

  pub update_rate_counter_port-Quiet :
      (src : IpKey) (dport now : ℕ) (s : State κ)
      → Quiet s (update_rate_counter_port src dport now s).1
  unfolding update_rate_counter_port
  update_rate_counter_port-Quiet src dport now s = ground arith

  pub enforce-Quiet :
      (src : IpKey) (now reason soft : ℕ) (r : Option RateUpdate × State κ)
      → Quiet r.1 (enforce src now reason soft r).1
  unfolding enforce
  enforce-Quiet src now reason soft (none, s) = (refl, refl, refl)
  enforce-Quiet src now reason soft (some u, s) =
      ground (arith, add_to_blacklist-Quiet src now u.block_duration_s reason s)

  pub check_rate_limit-Quiet :
      (src : IpKey) (dport now : ℕ) (s : State κ) → Quiet s (check_rate_limit src dport now s).1
  unfolding check_rate_limit
  check_rate_limit-Quiet src dport now s = grind (
    arith,
    enforce-Quiet,
    update_rate_counter-Quiet src now s,
    update_rate_counter_port-Quiet src dport now s,
  )

  pub handle_syn_flood-Quiet :
      (src : IpKey) (flags now : ℕ) (s : State κ) → Quiet s (handle_syn_flood src flags now s).1
  unfolding handle_syn_flood
  handle_syn_flood-Quiet src flags now s =
      grind (arith, enforce-Quiet, update_rate_counter-Quiet src now s)

  pub handle_udp_flood-Quiet :
      (src : IpKey) (now : ℕ) (s : State κ) → Quiet s (handle_udp_flood src now s).1
  unfolding handle_udp_flood
  handle_udp_flood-Quiet src now s =
      grind (arith, enforce-Quiet, update_rate_counter-Quiet src now s)

  pub handle_icmp_flood-Quiet :
      (src : IpKey) (now : ℕ) (s : State κ) → Quiet s (handle_icmp_flood src now s).1
  unfolding handle_icmp_flood
  handle_icmp_flood-Quiet src now s =
      grind (arith, enforce-Quiet, update_rate_counter-Quiet src now s)

  pub check_conn_track-Quiet :
      (src : IpKey) (flags now t w : ℕ) (s : State κ)
      → Quiet s (check_conn_track src flags now t w s).1
  unfolding check_conn_track
  check_conn_track-Quiet src flags now t w s = ground arith

  pub check_port_rate-Quiet :
      (key : PortRateKey) (now : ℕ) (s : State κ) → Quiet s (check_port_rate key now s).1
  unfolding check_port_rate
  check_port_rate-Quiet key now s = ground arith

  pub reply_tcp_rst-Kept :
      (hdr_len : ℕ) (s : State κ)
      → Kept s (reply_tcp_rst hdr_len s).1 × IsDrop (reply_tcp_rst hdr_len s).0
  unfolding reply_tcp_rst
  reply_tcp_rst-Kept hdr_len s = ground arith

  pub account_drop-Quiet : (pc : PacketCtx) (s : State κ) → Quiet s (account_drop pc s)
  unfolding account_drop emit_drop_event
  account_drop-Quiet pc s = grind (arith, trust_drop-Quiet)

  pub drop_packet-Kept :
      (pc : PacketCtx) (s : State κ) → Kept s (drop_packet pc s).1 × IsDrop (drop_packet pc s).0
  unfolding drop_packet
  drop_packet-Kept pc s =
      ground (arith, account_drop-Quiet pc s, reply_tcp_rst-Kept pc.hdr_len (account_drop pc s))

-- A module's own counter, which is none of the three.
abbrev pub IsOther : (GlobalStats → GlobalStats) → Type 0
IsOther f = (g : GlobalStats) → tally (some (f g)) ≡ tally (some g)

pub inc_protocol_dropped-IsOther : (p : ℕ) → IsOther (inc_protocol_dropped p)
unfolding inc_protocol_dropped
inc_protocol_dropped-IsOther p g = ground arith

pub tally-drop :
    (p : ℕ) (blocked : GlobalStats → GlobalStats) (o : Option GlobalStats)
    → IsOther blocked
    → tally (on_stats (λ g. inc_protocol_dropped p (blocked (count_dropped g))) o)
      ≡ one_dropped (tally o)
tally-drop p blocked none other = refl
tally-drop p blocked (some g) other =
    inc_protocol_dropped-IsOther p (blocked (count_dropped g)) ∙ other (count_dropped g)

module _ {κ : Kernel} where
  -- Every module that drops enters exactly one drop, and keeps the secrets.
  pub drop_for_lem :
      (rule : ℕ) (blocked : GlobalStats → GlobalStats) (pc : PacketCtx) (s : State κ)
      → IsOther blocked
      → let (action, pc', s') = drop_for rule blocked pc s in
        (tally s'.stats ≡ one_dropped (tally s.stats))
        × (s'.cookie_secrets ≡ s.cookie_secrets)
        × IsDrop action
  unfolding drop_for
  drop_for_lem rule blocked pc s other =
      let marked : PacketCtx = record pc { rule_id = rule } in
      let counted : State κ =
        with_stats (λ g. inc_protocol_dropped pc.protocol (blocked (count_dropped g))) s in
      let dropped = drop_packet-Kept marked counted in
      (dropped.0.0 ∙ tally-drop pc.protocol blocked s.stats other, dropped.0.1, dropped.1)
