-- ===== src/Tests/ModuleRuns.antt =====
-- The theorems on the modules of eshield-ebpf at concrete inputs.
use e_shield.Base.{
  ◌-◌, ◌*◌, ◌<◌, ◌≢◌, ◌⊎◌, ◌↔◌, ℕ, ◌+◌, ◌≤◌, ◌≡◌, refl, inl, true, false, some, [], ◌∷◌, arith, ltb,
}
use e_shield.Common.Entries.{RateCounter, PortRateKey}
use e_shield.Common.Config.{default_rate_limit}
use e_shield.DataPlane.State.{State}
use e_shield.DataPlane.Blacklist.{block_until, is_blacklisted, add_to_blacklist}
use e_shield.DataPlane.Blacklist.Blocking.{
  add_to_blacklist-is_blacklisted, Held, add_to_blacklist_lasts,
}
use e_shield.DataPlane.Flood.{handle_udp_flood, handle_icmp_flood}
use e_shield.DataPlane.RateLimit.{check_rate_limit}
use e_shield.DataPlane.Flood.Modes.{hard_mode_blocks}
use e_shield.DataPlane.RateCounter.{ms_to_ns}
use e_shield.DataPlane.RateCounter.Advance.{after_packets, after_packets-le}
use e_shield.DataPlane.PortRate.{check_port_rate}
use e_shield.DataPlane.PortRate.Window.{after_port_packets, check_port_rate_counts}
use e_shield.DataPlane.Parser.Fields.{is_syn_flags, is_ack_or_rst_flags}
use e_shield.DataPlane.ConnTrack.{check_conn_track}
use e_shield.DataPlane.ConnTrack.HalfOpen.{half_open_of, last_seen_of, check_conn_track_handshake}
use e_shield.DataPlane.Trust.{score_of}
use e_shield.Tests.Machine.{machine, attacker, settings, idle, one_blocked, blocked_till_9}

for_good : block_until 6 0 ≡ 0
unfolding block_until
for_good = refl

add_to_blacklist-is_blacklisted_example :
    let s' = add_to_blacklist attacker 6 0 3 idle in
    ((is_blacklisted attacker 9 s').0 ≡ true)
    × (score_of (machine.trust_map.get s'.trust_map attacker) ≡ 0)
add_to_blacklist-is_blacklisted_example =
    add_to_blacklist-is_blacklisted attacker 6 0 3 9 idle (inl for_good) (inl for_good)

add_to_blacklist_lasts_example :
    let seconds : ℕ = 60 in
    ((is_blacklisted attacker 9
        (add_to_blacklist attacker 6 seconds 3 (one_blocked blocked_till_9))).0
      ≡ true)
    ↔ ((seconds ≡ 0)
        ⊎ ((9 < 6 + seconds * 1_000_000_000)
            ⊎ Held (machine.blacklist.get (one_blocked blocked_till_9).blacklist attacker) 6 9))
add_to_blacklist_lasts_example =
    add_to_blacklist_lasts attacker 6 60 3 9 (one_blocked blocked_till_9) (omega arith)
      (omega arith)

-- A counter of 5000 packets, far over every threshold.
abbrev flooding : State machine
flooding = record idle {
  rate_map = λ _. some (record { counter = 5000; last_decay_ns = 1 });
  rate_map_port = λ _. some (record { counter = 5000; last_decay_ns = 1 });
}

hard_mode_blocks_example :
    let udp = handle_udp_flood attacker 6 flooding in
    let icmp = handle_icmp_flood attacker 6 flooding in
    let limit = check_rate_limit attacker 80 6 flooding in
    (udp.0 ≡ true → (is_blacklisted attacker 7_000_000_000 udp.1).0 ≡ true)
    × (icmp.0 ≡ true → (is_blacklisted attacker 7_000_000_000 icmp.1).0 ≡ true)
    × (limit.0 ≡ true → (is_blacklisted attacker 7_000_000_000 limit.1).0 ≡ true)
hard_mode_blocks_example =
    hard_mode_blocks attacker 80 6 7_000_000_000 flooding (settings 0) default_rate_limit
      (omega arith) (omega arith) refl refl refl (inl (omega arith))

abbrev soft : State machine
soft = record flooding { config = some (settings 1) }

abbrev first_packet : RateCounter
first_packet = record { counter = 1; last_decay_ns = 10 }

after_packets-le_example :
    (after_packets default_rate_limit 100 first_packet (110 ∷ 250 ∷ 350 ∷ [])).counter ≤ 8
after_packets-le_example =
    after_packets-le (110 ∷ 250 ∷ 350 ∷ []) first_packet 10 100 8 default_rate_limit
      (omega arith, omega arith, (omega arith, omega arith, (omega arith, omega arith, tt)))
      (omega arith) (omega arith) (omega arith) (omega arith) (omega arith) (omega arith)

ms_to_ns_100 : ms_to_ns 100 ≡ 100_000_000
unfolding ms_to_ns
ms_to_ns_100 = refl

abbrev http : PortRateKey
http = record { dport = 80; protocol = 6 }

abbrev counting : State machine
counting = record idle { port_rate_map = λ _. some first_packet }

check_port_rate_counts_example :
    (check_port_rate http 30 (after_port_packets http (11 ∷ 20 ∷ []) counting)).0
    ≡ ltb 200 (1 + 2 + 1)
check_port_rate_counts_example =
    check_port_rate_counts http (11 ∷ 20 ∷ []) 30 counting default_rate_limit first_packet refl refl
      (omega (arith, ms_to_ns_100), (omega (arith, ms_to_ns_100), tt)) (omega (arith, ms_to_ns_100))
      (omega arith)

is_syn_2 : is_syn_flags 2 ≡ true
unfolding is_syn_flags
is_syn_2 = refl

is_syn_16 : is_syn_flags 16 ≡ false
unfolding is_syn_flags
is_syn_16 = refl

is_ack_16 : is_ack_or_rst_flags 16 ≡ true
unfolding is_ack_or_rst_flags
is_ack_16 = refl

ms_to_ns_60 : ms_to_ns 60 ≡ 60_000_000
unfolding ms_to_ns
ms_to_ns_60 = refl

check_conn_track_handshake_example :
    let opened = (check_conn_track attacker 2 50 100 60 idle).1 in
    let closed = (check_conn_track attacker 16 70 100 60 opened).1 in
    ((ms_to_ns 60 ≢ 0)
      × (ms_to_ns 60 < 50 - last_seen_of attacker idle)
      × (half_open_of attacker closed ≡ 0))
    ⊎ (((ms_to_ns 60 ≡ 0) ⊎ (50 - last_seen_of attacker idle ≤ ms_to_ns 60))
        × (half_open_of attacker closed ≡ half_open_of attacker idle))
check_conn_track_handshake_example =
    check_conn_track_handshake attacker 2 16 50 70 100 60 idle is_syn_2 is_syn_16 is_ack_16
      (omega (arith, ms_to_ns_60)) (ground arith)
