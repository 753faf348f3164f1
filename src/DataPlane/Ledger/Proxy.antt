-- ===== src/DataPlane/Ledger/Proxy.antt =====
-- The SYN proxy in the ledger: a challenge is neither passed nor dropped, and with secrets in place
-- a SYN is never passed by the proxy itself.
use e_shield.Base.{ℕ, ◌*◌, ◌≡◌, ◌≢◌, ◌⊎◌, refl, ◌∙◌, inr, Option, none, some, List, arith, ap}
use e_shield.Common.Ip.{IpKey}
use e_shield.Common.Entries.{CookieSecret}
use e_shield.Common.Stats.{GlobalStats}
use e_shield.DataPlane.Kernel.{Kernel}
use e_shield.DataPlane.State.{State, on_stats}
use e_shield.DataPlane.Action.{Action}
use e_shield.DataPlane.Parser.Fields.{ip_hdr_len, eth_hdr_len, ipproto_tcp, ptr_at, doff, is_syn}
use e_shield.DataPlane.SynCookie.{
  trigger, challenged, is_challenged_or_trigger, sign, syn_challenge, handle_syn, handle_ack,
  source_of,
}
use e_shield.DataPlane.Drop.{PacketCtx, now_of}
use e_shield.DataPlane.Checks.Floods.{
  count_challenge, mark_counted, proxy_acked, proxy_verdict, proxy_tcp, limit_tcp_port, detect_tcp,
  check_tcp_drop,
}
use e_shield.DataPlane.Ledger.Parts.{
  tally, one_dropped, inc_protocol_dropped-IsOther, Kept, Quiet, update_rate_counter-Quiet,
  handle_syn_flood-Quiet,
}
use e_shield.DataPlane.Ledger.Modules.{
  Settles, Quiet-trans, if-Settles, no_action-Settles, drop_for-Settles, limit_port-Settles,
  passed-Settles,
}

tally-challenge :
    (o : Option GlobalStats) → tally (on_stats (count_challenge Action.xdp_tx) o) ≡ tally o
tally-challenge none = refl
tally-challenge (some g) = refl

tally-challenged :
    (o : Option GlobalStats)
    → tally (on_stats (count_challenge Action.xdp_drop) o) ≡ one_dropped (tally o)
tally-challenged none = refl
tally-challenged (some g) = inc_protocol_dropped-IsOther ipproto_tcp _

module _ {κ : Kernel} where
  trigger-Quiet : (src : IpKey) (now : ℕ) (s : State κ) → Quiet s (trigger src now s).1
  unfolding trigger
  trigger-Quiet src now s = ground (arith, update_rate_counter-Quiet src now s)

  challenged-Quiet :
      (src : IpKey) (now : ℕ) (mark : Option ℕ) (s : State κ)
      → Quiet s (challenged src now mark s).1
  challenged-Quiet src now none s = trigger-Quiet src now s
  challenged-Quiet src now (some ts) s = ground (
    arith,
    trigger-Quiet src now
        (record s { syn_proxy_conn = κ.syn_proxy_conn.remove s.syn_proxy_conn src }),
  )

  is_challenged_or_trigger-Quiet :
      (src : IpKey) (now : ℕ) (s : State κ) → Quiet s (is_challenged_or_trigger src now s).1
  unfolding is_challenged_or_trigger
  is_challenged_or_trigger-Quiet src now s =
      challenged-Quiet src now (κ.syn_proxy_conn.get s.syn_proxy_conn src) s

  -- The proxy's answer to a SYN keeps the ledger; it is no pass, and one that leaves the packet to
  -- the next module leaves the frame alone.
  abbrev Answers : State κ → Action × State κ → Type 0
  Answers s r =
      Kept s r.1
      × (s.cookie_secrets ≢ none → r.0 ≢ Action.xdp_pass)
      × (r.0 ≡ Action.no_action → r.1.frame ≡ s.frame)

  sign-Answers :
      (hdr_len now : ℕ) (ip tcp : List ℕ) (tcp_len : ℕ) (secret : Option CookieSecret) (s : State κ)
      → secret ≡ s.cookie_secrets
      → Answers s (sign hdr_len now ip tcp tcp_len secret s)
  sign-Answers hdr_len now ip tcp tcp_len none s e = ground arith
  sign-Answers hdr_len now ip tcp tcp_len (some k) s e = ground arith

  syn_challenge-Answers :
      (hdr_len now : ℕ) (ip tcp : List ℕ) (tcp_len : ℕ) (s : State κ)
      → Answers s (syn_challenge hdr_len now ip tcp tcp_len s)
  unfolding syn_challenge
  syn_challenge-Answers hdr_len now ip tcp tcp_len s =
      ground (arith, sign-Answers hdr_len now ip tcp tcp_len s.cookie_secrets s refl)

  handle_syn-Answers :
      (hdr_len now : ℕ) (ip tcp : List ℕ) (s : State κ)
      → Answers s (handle_syn hdr_len now ip tcp s)
  unfolding handle_syn
  handle_syn-Answers hdr_len now ip tcp s =
      let s' : State κ = (is_challenged_or_trigger (source_of ip) now s).1 in
      ground (
        arith,
        is_challenged_or_trigger-Quiet (source_of ip) now s,
        syn_challenge-Answers hdr_len now ip tcp (doff tcp * 4) s',
      )

  -- The answer to an ACK is a pass or nothing.
  handle_ack_lem :
      (now : ℕ) (ip tcp : List ℕ) (s : State κ)
      → let r = handle_ack now ip tcp s in
        Quiet s r.1 × ((r.0 ≡ Action.no_action) ⊎ (r.0 ≡ Action.xdp_pass))
  unfolding handle_ack
  handle_ack_lem now ip tcp s = ground arith

  proxy_acked-Settles :
      (pc : PacketCtx) (s : State κ) (r : Action × State κ)
      → Quiet s r.1 × ((r.0 ≡ Action.no_action) ⊎ (r.0 ≡ Action.xdp_pass))
      → Settles s (proxy_acked pc r)
  proxy_acked-Settles pc s (Action.no_action, s') h = no_action-Settles pc s s' h.0
  proxy_acked-Settles pc s (Action.xdp_pass, s') h = passed-Settles pc pc s s' h.0
  proxy_acked-Settles pc s (Action.xdp_drop, s') h = ground arith
  proxy_acked-Settles pc s (Action.xdp_tx, s') h = ground arith

  -- The part of `proxy_verdict` after `handle_syn`.
  proxy_verdict-Settles :
      (ip tcp : List ℕ) (pc : PacketCtx) (s : State κ) (r : Action × State κ)
      → s.cookie_secrets ≢ none
      → Answers s r
      → Settles s (proxy_verdict ip tcp pc r)
  proxy_verdict-Settles ip tcp pc s (Action.no_action, s') ready h =
      let left : Quiet s s' = (h.0.0, h.0.1, h.2 refl) in
      let acked = handle_ack_lem (now_of pc) ip tcp s' in
      proxy_acked-Settles pc s (handle_ack (now_of pc) ip tcp s')
        (Quiet-trans s s' (handle_ack (now_of pc) ip tcp s').1 left acked.0, acked.1)
  proxy_verdict-Settles ip tcp pc s (Action.xdp_pass, s') ready h = absurd (h.1 ready refl)
  proxy_verdict-Settles ip tcp pc s (Action.xdp_drop, s') ready h =
      (tally-challenged s'.stats ∙ ap one_dropped h.0.0, h.0.1, λ e. cc)
  proxy_verdict-Settles ip tcp pc s (Action.xdp_tx, s') ready h =
      (inr (tally-challenge s'.stats ∙ h.0.0), h.0.1, λ e. cc)

  proxy_tcp-Settles :
      (ip tcp : Option (List ℕ)) (pc : PacketCtx) (s : State κ)
      → s.cookie_secrets ≢ none
      → ip ≢ none
      → Settles s (proxy_tcp ip tcp pc s)
  proxy_tcp-Settles none tcp pc s ready reach = absurd (reach refl)
  proxy_tcp-Settles (some ip) none pc s ready reach = (refl, refl, λ _. refl)
  proxy_tcp-Settles (some ip) (some tcp) pc s ready reach =
      proxy_verdict-Settles ip tcp (mark_counted (is_syn tcp) pc) s _ ready
        (handle_syn-Answers pc.hdr_len (now_of pc) ip tcp s)

  limit_tcp_port-Settles :
      (port : ℕ) (pc : PacketCtx) (s s' : State κ)
      → Quiet s s'
      → Settles s (limit_tcp_port port pc s')
  limit_tcp_port-Settles port pc s s' quiet =
      search (if-Settles, no_action-Settles, limit_port-Settles)

  detect_tcp-Settles :
      (port : ℕ) (tcp : Option (List ℕ)) (pc : PacketCtx) (s : State κ)
      → Settles s (detect_tcp port tcp pc s)
  detect_tcp-Settles port none pc s = limit_tcp_port-Settles port pc s s (refl, refl, refl)
  detect_tcp-Settles port (some tcp) pc s =
      search (if-Settles, drop_for-Settles, limit_tcp_port-Settles, handle_syn_flood-Quiet) depth 8

  pub check_tcp_drop-Settles :
      (proxy port : ℕ) (pc : PacketCtx) (s : State κ)
      → s.cookie_secrets ≢ none
      → ptr_at ip_hdr_len s.frame eth_hdr_len ≢ none
      → Settles s (check_tcp_drop proxy port pc s)
  unfolding check_tcp_drop
  check_tcp_drop-Settles proxy port pc s ready reach =
      search (if-Settles, no_action-Settles, proxy_tcp-Settles, detect_tcp-Settles)
