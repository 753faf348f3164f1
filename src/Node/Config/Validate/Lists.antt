-- ===== src/Node/Config/Validate/Lists.antt =====
-- eshield/src/config.rs: the checks of the pattern and project lists, which the management interface
-- and the rules from the hub share. One error stands for the messages about one part of the file.
use e_shield.Base.{
  ℕ, Bool, true, false, ◌&&◌, ◌||◌, not, Option, none, some, List, [], ◌∷◌, ltb, leb, ◌==◌,
  if◌then◌else◌, length, u16_max,
}
use e_shield.Base.Dicts.{same_list}
use e_shield.Base.Text.{Text, bytes, parse_unsigned}
use e_shield.Base.Results.{Result, ok, err, ◌>>=◌, ◌>>◌, ensure}
use e_shield.Common.Ip.{IpKey, IpFamily, family_of}
use e_shield.Common.Config.{max_l7_patterns}
use e_shield.Node.Ip.{IpAddr, IpError, parse_ip, parse_cidr}
use e_shield.Node.Config.Sections.{L7PatternConfig, ProtectionProject}

pub data ConfigError : Type 0 where
  bad_interface bad_mode bad_cidr bad_store bad_port_acl bad_number : ConfigError
  bad_pattern bad_web bad_country bad_feed bad_project bad_hub : ConfigError

abbrev pub is_list_empty {ℓ} : {A : Type ℓ} → List A → Bool
is_list_empty [] = true
is_list_empty (x ∷ xs) = false

abbrev pub is_empty : Text → Bool
is_empty s = is_list_empty s

abbrev pub is_one_of : Text → List Text → Bool
is_one_of s [] = false
is_one_of s (t ∷ ts) = same_list s t || is_one_of s ts

abbrev pub is_some {ℓ} : {A : Type ℓ} → Option A → Bool
is_some none = false
is_some (some a) = true

abbrev pub all_pass {ℓ} : {A : Type ℓ} → (A → Bool) → List A → Bool
all_pass test [] = true
all_pass test (x ∷ xs) = test x && all_pass test xs

abbrev pub mask_fits : L7PatternConfig → Option Text → Bool
mask_fits pat none = true
mask_fits pat (some mask) = length mask == length pat.pattern

abbrev pub pattern_passes : L7PatternConfig → Bool
pattern_passes pat =
    not (is_empty pat.pattern) && leb (length pat.pattern) 8 && mask_fits pat pat.mask

unfoldable pub validate_l7_patterns : List L7PatternConfig → Result (Unit {0}) ConfigError
validate_l7_patterns patterns = do
  ensure (leb (length patterns) max_l7_patterns) bad_pattern
  ensure (all_pass pattern_passes patterns) bad_pattern

abbrev valid_modules : List Text
valid_modules =
    bytes "syn_flood"
    ∷ bytes "udp_flood"
    ∷ bytes "icmp_flood"
    ∷ bytes "rate_limit"
    ∷ bytes "adaptive"
    ∷ bytes "l7_scan"
    ∷ bytes "geoip"
    ∷ bytes "tcp_reset"
    ∷ bytes "port_acl"
    ∷ bytes "conn_track"
    ∷ []

abbrev is_ipv4 : Option IpFamily → Bool
is_ipv4 (some IpFamily.ipv4) = true
is_ipv4 (some IpFamily.ipv6) = false
is_ipv4 none = false

module _ (to_lowercase : Text → Text) (parse_addr : Text → Option IpAddr) where
  abbrev network_target : IpKey × ℕ → Result Bool ConfigError
  network_target (key, prefix) =
      if is_ipv4 (family_of key)
      then if ltb prefix 24 then err bad_project else ok true
      else ok false

  -- Whether a target is IPv4, if it is one at all: an address, or a network that is not too wide.
  abbrev cidr_target : Result (IpKey × ℕ) IpError → Result Bool ConfigError
  cidr_target (ok network) = network_target network
  cidr_target (err e) = err bad_project

  abbrev ip_target : Result IpKey IpError → Result Bool ConfigError → Result Bool ConfigError
  ip_target (ok key) other = ok (is_ipv4 (family_of key))
  ip_target (err e) other = other

  unfoldable target_passes : Text → Result Bool ConfigError
  target_passes ip = ip_target (parse_ip parse_addr ip) (cidr_target (parse_cidr parse_addr ip))

  -- The loop over the targets, with its `has_ipv4_target`.
  unfoldable validate_targets : Bool → List Text → Result Bool ConfigError
  unfolding target_passes
  validate_targets has_ipv4 [] = ok has_ipv4
  validate_targets has_ipv4 (ip ∷ ips) = do
    found ← target_passes ip
    validate_targets (has_ipv4 || found) ips

  abbrev dport_passes : Text → Bool
  dport_passes dport =
      if same_list dport (bytes "any") then true else is_some (parse_unsigned u16_max dport)

  unfoldable validate_project : ProtectionProject → Result (Unit {0}) ConfigError
  unfolding validate_targets
  validate_project proj = do
    ensure (not (is_empty proj.name)) bad_project
    ensure
        (is_one_of (to_lowercase proj.protocol)
          (bytes "tcp" ∷ bytes "udp" ∷ bytes "icmp" ∷ bytes "icmpv6" ∷ bytes "any" ∷ []))
        bad_project
    ensure (not (is_empty proj.dport)) bad_project
    ensure (dport_passes proj.dport) bad_project
    ensure
        (is_one_of (to_lowercase proj.action) (bytes "pass" ∷ bytes "drop" ∷ bytes "defend" ∷ []))
        bad_project
    ensure (all_pass (λ m. is_one_of m valid_modules) proj.enabled_modules) bad_project
    ensure (not (is_list_empty proj.target_ips)) bad_project
    has_ipv4 ← validate_targets false proj.target_ips
    ensure has_ipv4 bad_project

  unfoldable validate_each : List ProtectionProject → Result (Unit {0}) ConfigError
  unfolding validate_project
  validate_each [] = ok tt
  validate_each (proj ∷ projects) = do validate_project proj; validate_each projects

  unfoldable pub validate_projects : List ProtectionProject → Result (Unit {0}) ConfigError
  unfolding validate_each
  validate_projects projects = do
    ensure (leb (length projects) 256) bad_project
    validate_each projects
