-- ===== src/Common/Ip.antt =====
-- eshield-common/src/lib.rs: address families and the key of the per-source maps.
use e_shield.Base.{
  ℕ, ◌+◌, ◌*◌, Option, none, some, List, [], ◌∷◌, ◌++◌, ◌==◌, ◌&&◌, ◌≡◌, ◌↔◌, Bool, true,
  if◌then◌else◌, get_or, replicate, arith,
}
use e_shield.Base.Dicts.{Key, same_list, same_list_iff}

pub data IpFamily : Type 0 where
  ipv4 ipv6 : IpFamily

unfoldable pub from_u8 : ℕ → Option IpFamily
from_u8 v = if v == 4 then some IpFamily.ipv4 else if v == 6 then some IpFamily.ipv6 else none

-- The octets of an address are a list of 16 numbers below 256.
pub record IpKey : Type 0 where
  pub family : ℕ
  pub addr : List ℕ

-- Takes the four octets one by one.
unfoldable pub from_ipv4 : List ℕ → IpKey
from_ipv4 octets = record {
  family = 4;
  addr =
      replicate 12 0
      ++ get_or octets 0 0 ∷ get_or octets 1 0 ∷ get_or octets 2 0 ∷ get_or octets 3 0 ∷ [];
}

unfoldable pub from_ipv6 : List ℕ → IpKey
from_ipv6 octets = record { family = 6; addr = octets }

unfoldable pub family_of : IpKey → Option IpFamily
unfolding from_u8
family_of key = from_u8 key.family

-- `u32::from_be_bytes` of the last four octets.
unfoldable pub ipv4_of : IpKey → ℕ
ipv4_of key =
    get_or key.addr 12 0 * 0x100_0000
    + get_or key.addr 13 0 * 0x1_0000
    + get_or key.addr 14 0 * 0x100
    + get_or key.addr 15 0

abbrev pub same_ip : IpKey → IpKey → Bool
same_ip a b = a.family == b.family && same_list a.addr b.addr

pub same_ip_iff : (a b : IpKey) → (same_ip a b ≡ true) ↔ (a ≡ b)
same_ip_iff a b = ground (arith, same_list_iff a.addr b.addr)

instance abbrev pub ip_key : Key IpKey
ip_key = record { beq = same_ip; beq_iff = same_ip_iff }
