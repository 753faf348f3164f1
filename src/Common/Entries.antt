-- ===== src/Common/Entries.antt =====
-- eshield-common/src/lib.rs: the values and the compound keys of the eBPF maps.
use e_shield.Base.{ℕ, List}
use e_shield.Common.Ip.{IpKey}

-- `block_reason` is the first or authoritative reason, `last_reason` the latest one laid over it.
pub record BlockEntry : Type 0 where
  pub blocked_until_ns : ℕ
  pub first_seen_ns : ℕ
  pub hit_count : ℕ
  pub block_reason : ℕ
  pub last_reason : ℕ

-- `blocked_until_ns == 0` stands for a permanent block.
abbrev pub block_permanent : ℕ
block_permanent = 0

pub record TrustEntry : Type 0 where
  pub last_update_ns : ℕ
  pub trust_score : ℕ
  pub pass_count : ℕ
  pub drop_count : ℕ
  pub level : ℕ

abbrev pub trust_max : ℕ
trust_max = 1000

abbrev pub trust_min : ℕ
trust_min = 0

abbrev pub trust_add_divisor : ℕ
trust_add_divisor = 100

abbrev pub trust_sub_divisor : ℕ
trust_sub_divisor = 3

abbrev pub trust_default : ℕ
trust_default = 500

-- `TrustEntry { trust_score, ..TrustEntry::default() }`.
abbrev pub trust_entry : ℕ → TrustEntry
trust_entry score = record {
  last_update_ns = 0;
  trust_score = score;
  pass_count = 0;
  drop_count = 0;
  level = 0;
}

pub record ConnTrackEntry : Type 0 where
  pub last_seen_ns : ℕ
  pub half_open : ℕ

pub record RateCounter : Type 0 where
  pub counter : ℕ
  pub last_decay_ns : ℕ

-- What the kernel reports to the user side about a dropped packet.
pub record DropEvent : Type 0 where
  pub timestamp_ns : ℕ
  pub src_ip : List ℕ
  pub family : ℕ
  pub protocol : ℕ
  pub rule_id : ℕ
  pub dst_port : ℕ

pub record PacketSample : Type 0 where
  pub timestamp_ns : ℕ
  pub src_ip : List ℕ
  pub dst_ip : List ℕ
  pub family : ℕ
  pub protocol : ℕ
  pub src_port : ℕ
  pub dst_port : ℕ
  pub action : ℕ
  pub rule_id : ℕ
  pub packet_len : ℕ
  pub payload_bytes : ℕ
  pub payload_sample : List ℕ

pub record L7Pattern : Type 0 where
  pub signature : ℕ
  pub mask : ℕ
  pub pattern_length : ℕ
  pub action : ℕ

pub record PortAclEntry : Type 0 where
  pub protocol : ℕ
  pub dport_low : ℕ
  pub dport_high : ℕ
  pub action : ℕ

pub record ProjectPolicyKey : Type 0 where
  pub addr : ℕ
  pub dport : ℕ
  pub protocol : ℕ

pub record ProjectPolicy : Type 0 where
  pub flags : ℕ
  pub action : ℕ

pub record RateLimitPortKey : Type 0 where
  pub ip : IpKey
  pub dport : ℕ

pub record PortRateKey : Type 0 where
  pub dport : ℕ
  pub protocol : ℕ

pub record CookieSecret : Type 0 where
  pub current : List ℕ
  pub previous : List ℕ
  pub bucket_index : ℕ
