-- ===== src/Common/Rules/Modules.antt =====
-- eshield-common/src/lib.rs: `project_modules`, the bits of `ProjectPolicy.flags`.
use e_shield.Base.{ℕ}

abbrev pub syn_flood : ℕ
syn_flood = 1

abbrev pub udp_flood : ℕ
udp_flood = 2

abbrev pub icmp_flood : ℕ
icmp_flood = 4

abbrev pub rate_limit : ℕ
rate_limit = 8

abbrev pub l7_scan : ℕ
l7_scan = 32

abbrev pub geoip : ℕ
geoip = 64

abbrev pub conn_track : ℕ
conn_track = 512

-- `PROJECT_FLAGS_ALL`: no project restricts the modules.
abbrev pub all : ℕ
all = 0xffff
