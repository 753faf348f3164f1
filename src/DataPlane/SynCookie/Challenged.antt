-- ===== src/DataPlane/SynCookie/Challenged.antt =====
-- eshield-ebpf/src/syn_cookie.rs: a challenged source opens no connection past the proxy.
use e_shield.Base.{
  ℕ, ◌+◌, ◌*◌, ◌≤◌, ◌≡◌, ◌≢◌, ◌⊎◌, refl, true, Option, none, some, List, length, arith,
}
use e_shield.Common.Entries.{CookieSecret}
use e_shield.DataPlane.Kernel.{Kernel}
use e_shield.DataPlane.State.{State}
use e_shield.DataPlane.Action.{Action}
use e_shield.DataPlane.Parser.Fields.{eth_hdr_len, is_syn_flags, tcp_flags, doff}
use e_shield.DataPlane.SynCookie.{
  source_of, is_live, is_challenged_or_trigger, sign, syn_challenge, handle_syn,
}

-- The two answers that keep a SYN from the server.
abbrev pub Stopped : Action → Type 0
Stopped a = (a ≡ Action.xdp_drop) ⊎ (a ≡ Action.xdp_tx)

module _ {κ : Kernel} where
  sign_stops :
      (hdr_len now : ℕ) (ip tcp : List ℕ) (tcp_len : ℕ) (secret : Option CookieSecret) (s : State κ)
      → secret ≢ none
      → Stopped (sign hdr_len now ip tcp tcp_len secret s).0
  sign_stops hdr_len now ip tcp tcp_len none s installed = absurd (installed refl)
  sign_stops hdr_len now ip tcp tcp_len (some k) s installed = ground arith

  -- While the challenge of a source is live and a cookie secret is installed, every SYN of the
  -- source whose headers lie within the frame is dropped or answered by the proxy: none is passed
  -- and none is left to the later modules.
  pub handle_syn_stops :
      (hdr_len now ts : ℕ) (ip tcp : List ℕ) (s : State κ)
      → is_syn_flags (tcp_flags tcp) ≡ true
      → κ.syn_proxy_conn.get s.syn_proxy_conn (source_of ip) ≡ some ts
      → is_live now ts ≡ true
      → s.cookie_secrets ≢ none
      → eth_hdr_len + hdr_len + doff tcp * 4 ≤ length s.frame
      → Stopped (handle_syn hdr_len now ip tcp s).0
  unfolding handle_syn is_challenged_or_trigger syn_challenge
  handle_syn_stops hdr_len now ts ip tcp s syn marked live installed fits = ground (
    arith,
    syn,
    marked,
    live,
    fits,
    sign_stops hdr_len now ip tcp (doff tcp * 4) s.cookie_secrets s installed,
  )
