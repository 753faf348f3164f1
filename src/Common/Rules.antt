-- ===== src/Common/Rules.antt =====
-- eshield-common/src/lib.rs: rule numbers, the module bits of a project policy and its actions.
use e_shield.Base.{ℕ}
pub mod Modules
pub mod Project

abbrev pub unknown : ℕ
unknown = 0

abbrev pub blacklist : ℕ
blacklist = 1

abbrev pub rate_limit : ℕ
rate_limit = 2

abbrev pub syn_flood : ℕ
syn_flood = 3

abbrev pub l7_pattern : ℕ
l7_pattern = 4

abbrev pub adaptive : ℕ
adaptive = 5

abbrev pub api_block : ℕ
api_block = 6

abbrev pub port_acl : ℕ
port_acl = 7

abbrev pub udp_flood : ℕ
udp_flood = 8

abbrev pub icmp_flood : ℕ
icmp_flood = 9

abbrev pub geoip : ℕ
geoip = 10

abbrev pub threat_intel : ℕ
threat_intel = 11

abbrev pub project_policy : ℕ
project_policy = 12

abbrev pub conn_track : ℕ
conn_track = 13

abbrev pub fragment : ℕ
fragment = 14

abbrev pub port_rate : ℕ
port_rate = 15
