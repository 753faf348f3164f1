-- ===== src/DataPlane/SynCookie.antt =====
-- eshield-ebpf/src/syn_cookie.rs: the SYN proxy. A source over the rate is challenged with a
-- SYN-ACK whose sequence number is a cookie; the ACK that returns it lifts the challenge.
pub mod Cookie
pub mod RoundTrip
pub mod Header
pub mod Challenged
pub mod Synack
use e_shield.Base.{
  ℕ, ◌+◌, ◌-◌, ◌*◌, Bool, true, false, Option, none, some, List, ◌&&◌, ◌||◌, not, ltb, leb, ◌==◌,
  ◌!=◌, if◌then◌else◌, length, swap16, swap32, wrapping_sub32, bit_and,
}
use e_shield.Common.Ip.{IpKey, from_ipv4}
use e_shield.Common.Entries.{CookieSecret}
use e_shield.Pure.Cookie.{mss_to_idx}
use e_shield.DataPlane.Kernel.{Kernel}
use e_shield.DataPlane.State.{State}
use e_shield.DataPlane.Action.{Action}
use e_shield.DataPlane.Parser.Fields.{
  eth_hdr_len, is_syn_flags, tcp_flag_syn, tcp_flag_ack, ip_tot_len, ip_saddr, ip_daddr, l4_source,
  l4_dest, tcp_seq, tcp_ack_seq, doff, tcp_flags, ne_bytes,
}
use e_shield.DataPlane.RateCounter.{RateUpdate, update_rate_counter}
use Cookie.{Flow, challenge_cookie, accepts}
use Synack.{Rewritten, parse_mss, send_synack}

abbrev pub challenge_timeout_ns : ℕ
challenge_timeout_ns = 30_000_000_000

abbrev pub flow_of : List ℕ → List ℕ → Flow
flow_of ip tcp = record {
  saddr = ip_saddr ip;
  daddr = ip_daddr ip;
  sport = swap16 (l4_source tcp);
  dport = swap16 (l4_dest tcp);
}

abbrev pub source_of : List ℕ → IpKey
source_of ip = from_ipv4 (ne_bytes (ip_saddr ip))

-- A challenge mark is live for 30 seconds.
abbrev pub is_live : ℕ → ℕ → Bool
is_live now_ns ts = ltb (now_ns - ts) challenge_timeout_ns

abbrev exceeds : Option RateUpdate → Bool
exceeds none = false
exceeds (some update) = ltb update.threshold update.counter

abbrev class_of : Option ℕ → ℕ
class_of none = 0
class_of (some mss) = mss_to_idx mss

module _ {κ : Kernel} where
  -- The rate check at the end of `is_challenged_or_trigger`.
  unfoldable pub trigger : IpKey → ℕ → State κ → Bool × State κ
  trigger src now_ns s =
      let (update, s') = update_rate_counter src now_ns s in
      if exceeds update
      then (
        true,
        record s' { syn_proxy_conn = κ.syn_proxy_conn.insert s'.syn_proxy_conn src now_ns },
      )
      else (false, s')

  abbrev pub challenged : IpKey → ℕ → Option ℕ → State κ → Bool × State κ
  challenged src now_ns none s = trigger src now_ns s
  challenged src now_ns (some ts) s =
      if is_live now_ns ts
      then (true, s)
      else trigger src now_ns
          (record s { syn_proxy_conn = κ.syn_proxy_conn.remove s.syn_proxy_conn src })

  unfoldable pub is_challenged_or_trigger : IpKey → ℕ → State κ → Bool × State κ
  is_challenged_or_trigger src now_ns s =
      challenged src now_ns (κ.syn_proxy_conn.get s.syn_proxy_conn src) s

  abbrev pub sent : Rewritten → State κ → Action × State κ
  sent r s = (if r.sent then Action.xdp_tx else Action.xdp_drop, record s { frame = r.frame })

  abbrev pub sign : ℕ → ℕ → List ℕ → List ℕ → ℕ → Option CookieSecret → State κ → Action × State κ
  sign hdr_len now_ns ip tcp tcp_len none s = (Action.xdp_pass, s)
  sign hdr_len now_ns ip tcp tcp_len (some secret) s =
      let mss_idx : ℕ = class_of (parse_mss s.frame (eth_hdr_len + hdr_len) tcp_len) in
      sent
        (send_synack κ.csum_diff κ.adjust_tail s.frame hdr_len tcp_len mss_idx
          (challenge_cookie (flow_of ip tcp) secret now_ns mss_idx) (swap32 (tcp_seq tcp)))
        s

  unfoldable pub syn_challenge : ℕ → ℕ → List ℕ → List ℕ → ℕ → State κ → Action × State κ
  syn_challenge hdr_len now_ns ip tcp tcp_len s =
      if ltb (length s.frame) 34
        || ltb (length s.frame) (eth_hdr_len + hdr_len + 20)
        || (tcp_len == 24 && ltb (length s.frame) (eth_hdr_len + hdr_len + 24))
      then (Action.no_action, s)
      else sign hdr_len now_ns ip tcp tcp_len s.cookie_secrets s

  unfoldable pub handle_syn : ℕ → ℕ → List ℕ → List ℕ → State κ → Action × State κ
  handle_syn hdr_len now_ns ip tcp s =
      let tcp_len : ℕ = doff tcp * 4 in
      let (challenge, s') = is_challenged_or_trigger (source_of ip) now_ns s in
      if not (is_syn_flags (tcp_flags tcp))
      then (Action.no_action, s)
      else if not challenge
      then (Action.no_action, s')
      else if hdr_len != 20
      then (Action.xdp_drop, s')
      else if ltb tcp_len 20 || ltb 60 tcp_len
      then (Action.xdp_drop, s')
      else if swap16 (ip_tot_len ip) != hdr_len + tcp_len
      then (Action.xdp_drop, s')
      else syn_challenge hdr_len now_ns ip tcp tcp_len s'

  abbrev pub verify : ℕ → List ℕ → List ℕ → Option CookieSecret → State κ → Action × State κ
  verify now_ns ip tcp none s = (Action.no_action, s)
  verify now_ns ip tcp (some secret) s =
      if accepts (flow_of ip tcp) secret now_ns (wrapping_sub32 (swap32 (tcp_ack_seq tcp)) 1)
      then (
        Action.xdp_pass,
        record s { syn_proxy_conn = κ.syn_proxy_conn.remove s.syn_proxy_conn (source_of ip) },
      )
      else (Action.no_action, s)

  abbrev pub acknowledge : ℕ → List ℕ → List ℕ → Option ℕ → State κ → Action × State κ
  acknowledge now_ns ip tcp none s = (Action.no_action, s)
  acknowledge now_ns ip tcp (some ts) s =
      if is_live now_ns ts then verify now_ns ip tcp s.cookie_secrets s else (
        Action.no_action,
        record s { syn_proxy_conn = κ.syn_proxy_conn.remove s.syn_proxy_conn (source_of ip) },
      )

  unfoldable pub handle_ack : ℕ → List ℕ → List ℕ → State κ → Action × State κ
  handle_ack now_ns ip tcp s =
      let flags : ℕ = tcp_flags tcp in
      if bit_and flags tcp_flag_ack == 0 || bit_and flags tcp_flag_syn != 0
      then (Action.no_action, s)
      else acknowledge now_ns ip tcp (κ.syn_proxy_conn.get s.syn_proxy_conn (source_of ip)) s
