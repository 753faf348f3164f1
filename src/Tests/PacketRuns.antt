-- ===== src/Tests/PacketRuns.antt =====
-- The theorems on whole packets at concrete inputs.
use e_shield.Base.{
  ◌/◌, length, swap16, swap32, wrapping_add32, replicate, ◌++◌, ℕ, ◌≡◌, ◌⊎◌, ◌↔◌, refl, inl, true,
  false, none, some, List, [], ◌∷◌, arith, bit_and,
}
use e_shield.Common.Ip.{from_ipv4, family_of, from_u8, ipv4_of}
use e_shield.Pure.Cookie.{
  build_cookie_runtime, build_cookie_words, cookie_hash, mix_all, secret_words,
}
use e_shield.DataPlane.State.{State}
use e_shield.DataPlane.Action.{Action}
use e_shield.DataPlane.Parser.Fields.{
  u16_at, u32_at, is_syn_flags, doff, ptr_at, tcp_flags, tcp_flag_ack, tcp_flag_syn,
}
use e_shield.DataPlane.Parser.Headers.{Parsed, read_ports, parse_ipv4}
use e_shield.DataPlane.Drop.{Helpers}
use e_shield.DataPlane.Checks.Tables.{in_tries, is_whitelisted}
use e_shield.DataPlane.Run.{parse_frame, try_eshield}
use e_shield.DataPlane.Run.Precedence.{whitelisted_passes, blacklisted_never_passes}
use e_shield.DataPlane.Ledger.Parts.{tally, IsDrop}
use e_shield.DataPlane.Ledger.Balance.{Entered, one_packet, try_eshield-Entered}
use e_shield.DataPlane.SynCookie.{handle_syn, handle_ack, source_of}
use e_shield.DataPlane.SynCookie.Cookie.{Flow, secret_for, flow_cookie, challenge_cookie, accepts}
use e_shield.DataPlane.SynCookie.RoundTrip.{Issued, accepts_iff, handle_ack_answers}
use e_shield.DataPlane.SynCookie.Challenged.{Stopped, handle_syn_stops}
use e_shield.DataPlane.TcpReset.{rst_headers}
use e_shield.DataPlane.TcpReset.Header.{rst_headers_fields}
use e_shield.DataPlane.SynCookie.Synack.{synack_headers}
use e_shield.DataPlane.SynCookie.Header.{synack_headers_fields}
use e_shield.Tests.Machine.{
  machine, attacker, settings, idle, one_blocked, blocked_for_good, secrets, udp_frame,
}

abbrev clock : Helpers
clock = record { ktime_ns = 6; event_ktime_ns = 7; prandom = 3 }

abbrev udp_packet : Parsed
udp_packet = record {
  src = attacker;
  protocol = 17;
  hdr_len = 20;
  sport = 53;
  dport = 80;
  fragment = false;
}

udp_frame_parses : parse_frame udp_frame ≡ some udp_packet
unfolding parse_frame ptr_at parse_ipv4 read_ports from_ipv4
udp_frame_parses = refl

try_eshield-Entered_example :
    let r = try_eshield clock idle in Entered r.0 (one_packet (tally idle.stats)) (tally r.1.stats)
try_eshield-Entered_example =
    try_eshield-Entered clock udp_packet idle udp_frame_parses (λ h. cc) (λ h. cc)

not_listed : is_whitelisted attacker (one_blocked blocked_for_good) ≡ false
unfolding is_whitelisted in_tries family_of from_u8 ipv4_of
not_listed = refl

blacklisted_never_passes_example : IsDrop (try_eshield clock (one_blocked blocked_for_good)).0
blacklisted_never_passes_example =
    blacklisted_never_passes clock udp_packet (one_blocked blocked_for_good) (settings 0)
      blocked_for_good udp_frame_parses refl not_listed refl refl

abbrev listed : State machine
listed = record (one_blocked blocked_for_good) { whitelist_v4 = λ _. true }

whitelist_holds : is_whitelisted attacker listed ≡ true
unfolding is_whitelisted in_tries family_of from_u8 ipv4_of
whitelist_holds = refl

whitelisted_passes_example :
    let r = try_eshield clock listed in
    (r.0 ≡ Action.xdp_pass)
    × (r.1.blacklist ≡ listed.blacklist)
    × (r.1.rate_map ≡ listed.rate_map)
    × (r.1.syn_proxy_conn ≡ listed.syn_proxy_conn)
    × (r.1.frame ≡ listed.frame)
whitelisted_passes_example =
    whitelisted_passes clock udp_packet listed (settings 0) udp_frame_parses refl whitelist_holds

abbrev flow : Flow
flow = record { saddr = 0x100_000a; daddr = 0x200_000a; sport = 4000; dport = 443 }

accepts_iff_example :
    (accepts flow (secrets 1) 65_000_000_000 77 ≡ true)
    ↔ (Issued flow (secrets 1) 77 1 ⊎ Issued flow (secrets 1) 77 0)
accepts_iff_example = accepts_iff flow (secrets 1) 65_000_000_000 77 (omega arith)

cookie_of_flow : challenge_cookie flow (secrets 1) 65_000_000_000 2 ≡ 2_753_906_444
unfolding challenge_cookie secret_for flow_cookie build_cookie_runtime build_cookie_words
    cookie_hash mix_all secret_words
cookie_of_flow = refl

abbrev ip_header : List ℕ
ip_header = 69 ∷ 0 ∷ 0 ∷ 40 ∷ 0 ∷ 0 ∷ 0 ∷ 0 ∷ 64 ∷ 6 ∷ 0 ∷ 0 ∷ 10 ∷ 0 ∷ 0 ∷ 1 ∷ 10 ∷ 0 ∷ 0 ∷ 2 ∷ []

-- The client's ACK of the cookie above: 164, 37, 71, 13 are the bytes of 2753906445.
abbrev ack_header : List ℕ
ack_header =
    15 ∷ 160 ∷ 1 ∷ 187 ∷ 0 ∷ 0 ∷ 0 ∷ 1 ∷ 164 ∷ 37 ∷ 71 ∷ 13 ∷ 80 ∷ 16 ∷ 0 ∷ 0 ∷ 0 ∷ 0 ∷ 0 ∷ 0 ∷ []

abbrev challenging : State machine
challenging = record idle {
  cookie_secrets = some (secrets 1);
  syn_proxy_conn = λ _. some 65_000_000_000;
}

ack_set : bit_and (tcp_flags ack_header) tcp_flag_ack ≡ 16
unfolding tcp_flags
ack_set = refl

syn_clear : bit_and (tcp_flags ack_header) tcp_flag_syn ≡ 0
unfolding tcp_flags
syn_clear = refl

handle_ack_answers_example :
    let r = handle_ack 66_000_000_000 ip_header ack_header challenging in
    (r.0 ≡ Action.xdp_pass)
    × (machine.syn_proxy_conn.get r.1.syn_proxy_conn (source_of ip_header) ≡ none)
    × ((handle_ack 66_000_000_000 ip_header ack_header r.1).0 ≡ Action.no_action)
handle_ack_answers_example =
    handle_ack_answers 65_000_000_000 66_000_000_000 65_000_000_000 2 ip_header ack_header
      (secrets 1) (secrets 1) challenging (omega (arith, ack_set)) syn_clear refl refl refl
      (omega arith) refl (inl refl) (inl refl) (omega (arith, cookie_of_flow))

abbrev syn_header : List ℕ
syn_header =
    15 ∷ 160 ∷ 1 ∷ 187 ∷ 0 ∷ 0 ∷ 0 ∷ 1 ∷ 0 ∷ 0 ∷ 0 ∷ 0 ∷ 80 ∷ 2 ∷ 0 ∷ 0 ∷ 0 ∷ 0 ∷ 0 ∷ 0 ∷ []

abbrev syn_arrives : State machine
syn_arrives = record challenging { frame = replicate 14 0 ++ ip_header ++ syn_header }

syn_header_opens : is_syn_flags (tcp_flags syn_header) ≡ true
unfolding is_syn_flags tcp_flags
syn_header_opens = refl

syn_header_words : doff syn_header ≡ 5
unfolding doff
syn_header_words = refl

handle_syn_stops_example : Stopped (handle_syn 20 66_000_000_000 ip_header syn_header syn_arrives).0
handle_syn_stops_example =
    handle_syn_stops 20 66_000_000_000 65_000_000_000 ip_header syn_header syn_arrives
      syn_header_opens refl refl (λ h. cc) (omega (arith, syn_header_words))

abbrev syn_frame : List ℕ
syn_frame = replicate 12 0 ++ 8 ∷ 0 ∷ ip_header ++ syn_header

rst_headers_fields_example :
    let answer = rst_headers syn_frame in
    (u32_at answer 26 ≡ u32_at syn_frame 30)
    × (u32_at answer 30 ≡ u32_at syn_frame 26)
    × (u16_at answer 34 ≡ u16_at syn_frame 36)
    × (u16_at answer 36 ≡ u16_at syn_frame 34)
    × (swap32 (u32_at answer 42) ≡ wrapping_add32 (swap32 (u32_at syn_frame 38)) 1)
    × (bit_and (swap16 (u16_at answer 46)) 0x3f ≡ 0x14)
    × (swap16 (u16_at answer 46) / 0x1000 ≡ 5)
    × (swap16 (u16_at answer 16) ≡ 40)
    × (length answer ≡ length syn_frame)
rst_headers_fields_example = rst_headers_fields syn_frame (omega arith)

synack_headers_fields_example :
    let answer = synack_headers syn_frame 20 20 2_753_906_444 1 in
    (u32_at answer 26 ≡ u32_at syn_frame 30)
    × (u32_at answer 30 ≡ u32_at syn_frame 26)
    × (u16_at answer 34 ≡ u16_at syn_frame 36)
    × (u16_at answer 36 ≡ u16_at syn_frame 34)
    × (swap32 (u32_at answer 38) ≡ 2_753_906_444)
    × (swap32 (u32_at answer 42) ≡ wrapping_add32 1 1)
    × (bit_and (swap16 (u16_at answer 46)) 0x02 ≡ 0)
    × (swap16 (u16_at answer 46) / 0x1000 ≡ 1)
synack_headers_fields_example =
    synack_headers_fields syn_frame 20 2_753_906_444 1 (omega arith) (omega arith) (inl refl)
