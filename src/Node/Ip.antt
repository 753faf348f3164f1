-- ===== src/Node/Ip.antt =====
-- eshield/src/ip.rs: addresses and networks as text. The parser of `std::net::IpAddr` is a parameter.
pub mod Octets
use e_shield.Base.{
  ℕ, zero, suc, ◌+◌, ◌-◌, ◌*◌, ◌/◌, ◌%◌, ◌^◌, Option, none, some, List, [], ◌∷◌, ltb, leb, ◌==◌,
  ◌!=◌, if◌then◌else◌, get_or, set, take, replicate, length, ◌++◌, bit_and, u32_max, u32_mod,
}
use e_shield.Base.Text.{Text, split_once, parse_unsigned}
use e_shield.Base.Results.{Result, ok, err, ◌>>=◌, ◌>>◌, ensure, or_err}
use e_shield.Common.Ip.{IpKey, IpFamily, from_ipv4, from_ipv6, family_of}

-- `std::net::IpAddr`, as its octets.
pub data IpAddr : Type 0 where
  v4 v6 : List ℕ → IpAddr

pub data IpError : Type 0 where
  invalid_address invalid_cidr invalid_prefix prefix_too_long unknown_family exact_host_required :
      IpError

unfoldable key_of : IpAddr → IpKey
unfolding from_ipv4 from_ipv6
key_of (v4 octets) = from_ipv4 octets
key_of (v6 octets) = from_ipv6 octets

-- `split('/')` into exactly two parts.
abbrev two_parts : Option (Text × Text) → Option (Text × Text)
two_parts none = none
two_parts (some (before, after)) = elim (split_once b'/' after) [
  | none ↦ some (before, after)
  | some _ ↦ none
]

-- `u32::from_be_bytes` and `to_be_bytes` on four octets.
abbrev from_be : List ℕ → ℕ
from_be o =
    get_or o 0 0 * 0x100_0000 + get_or o 1 0 * 0x1_0000 + get_or o 2 0 * 0x100 + get_or o 3 0

abbrev to_be : ℕ → List ℕ
to_be x = x / 0x100_0000 ∷ x / 0x1_0000 % 256 ∷ x / 0x100 % 256 ∷ x % 256 ∷ []

-- `u32::MAX << (32 - prefix)`, or 0.
abbrev mask_v4 : ℕ → ℕ
mask_v4 prefix = if prefix == 0 then 0 else u32_max * 2 ^ (32 - prefix) % u32_mod

-- `iter_mut().skip(n)`, each set to 0.
abbrev pub clear_from : ℕ → List ℕ → List ℕ
clear_from n [] = []
clear_from zero (o ∷ octets) = 0 ∷ clear_from zero octets
clear_from (suc n) (o ∷ octets) = o ∷ clear_from n octets

-- `addr[byte] &= 0xff << (8 - bit)`, if there are bits.
abbrev pub mask_octet : ℕ → ℕ → List ℕ → List ℕ
mask_octet byte bit addr =
    if ltb 0 bit
    then set addr byte (bit_and (get_or addr byte 0) (0xff * 2 ^ (8 - bit) % 256))
    else addr

unfoldable pub network_v6 : List ℕ → ℕ → List ℕ
network_v6 octets prefix =
    if prefix == 0
    then clear_from 0 octets
    else clear_from (prefix / 8 + 1) (mask_octet (prefix / 8) (prefix % 8) octets)

unfoldable pub network : IpAddr → ℕ → Result (IpKey × ℕ) IpError
unfolding network_v6 from_ipv4 from_ipv6
network (v4 octets) prefix = do
  ensure (leb prefix 32) prefix_too_long
  ok (from_ipv4 (to_be (bit_and (from_be octets) (mask_v4 prefix))), prefix)
network (v6 octets) prefix = do
  ensure (leb prefix 128) prefix_too_long
  ok (from_ipv6 (network_v6 octets prefix), prefix)

abbrev exact_prefix : Option IpFamily → Result ℕ IpError
exact_prefix (some IpFamily.ipv4) = ok 32
exact_prefix (some IpFamily.ipv6) = ok 128
exact_prefix none = err unknown_family

-- The fall-back of `parse_ip_or_cidr`.
abbrev or_else : Result IpKey IpError → Result IpKey IpError → Result IpKey IpError
or_else (ok key) other = ok key
or_else (err e) other = other

module _ (parse_addr : Text → Option IpAddr) where
  unfoldable pub parse_ip : Text → Result IpKey IpError
  unfolding key_of
  parse_ip s = do addr ← or_err (parse_addr s) invalid_address; ok (key_of addr)

  unfoldable pub parse_cidr : Text → Result (IpKey × ℕ) IpError
  unfolding network
  parse_cidr s = do
    parts ← or_err (two_parts (split_once b'/' s)) invalid_cidr
    addr ← or_err (parse_addr parts.0) invalid_address
    prefix ← or_err (parse_unsigned u32_max parts.1) invalid_prefix
    network addr prefix

  unfoldable pub parse_ip_or_cidr : Text → Result IpKey IpError
  unfolding parse_ip parse_cidr family_of
  parse_ip_or_cidr s = or_else (parse_ip s) (do
    cidr ← parse_cidr s
    expected ← exact_prefix (family_of cidr.0)
    ensure (cidr.1 == expected) exact_host_required
    ok cidr.0)
