-- ===== src/Fetch/Address.antt =====
-- The address rules of crates/mh-fetch/src/lib.rs, and the tests of Rust's `std::net` that they
-- use.
pub mod Blocks
use magazine_core.Base.{
  ℕ, ◌/◌, ◌%◌, ◌*◌, ◌+◌, Bool, true, false, not, ◌&&◌, ◌||◌, Option, none, some, ◌==◌, in_range,
  if◌then◌else◌,
}

-- The four octets.
pub record Ipv4Addr : Type 0 where
  pub a : ℕ
  pub b : ℕ
  pub c : ℕ
  pub d : ℕ

-- The eight segments of 16 bits.
pub record Ipv6Addr : Type 0 where
  pub s0 : ℕ
  pub s1 : ℕ
  pub s2 : ℕ
  pub s3 : ℕ
  pub s4 : ℕ
  pub s5 : ℕ
  pub s6 : ℕ
  pub s7 : ℕ

pub data IpAddr : Type 0 where
  v4 : Ipv4Addr → IpAddr
  v6 : Ipv6Addr → IpAddr

pub record SocketAddr : Type 0 where
  pub ip : IpAddr
  pub port : ℕ

abbrev is_private : Ipv4Addr → Bool
is_private ip = ip.a == 10 || (ip.a == 172 && in_range 16 31 ip.b) || (ip.a == 192 && ip.b == 168)

abbrev is_loopback_v4 : Ipv4Addr → Bool
is_loopback_v4 ip = ip.a == 127

abbrev is_link_local : Ipv4Addr → Bool
is_link_local ip = ip.a == 169 && ip.b == 254

abbrev is_unspecified_v4 : Ipv4Addr → Bool
is_unspecified_v4 ip = ip.a == 0 && ip.b == 0 && ip.c == 0 && ip.d == 0

abbrev is_broadcast : Ipv4Addr → Bool
is_broadcast ip = ip.a == 255 && ip.b == 255 && ip.c == 255 && ip.d == 255

abbrev is_multicast_v4 : Ipv4Addr → Bool
is_multicast_v4 ip = in_range 224 239 ip.a

-- The first six segments of `ip`, against five zeros and this one.
abbrev has_prefix : ℕ → Ipv6Addr → Bool
has_prefix last ip =
    ip.s0 == 0 && ip.s1 == 0 && ip.s2 == 0 && ip.s3 == 0 && ip.s4 == 0 && ip.s5 == last

-- `Ipv6Addr::to_ipv4_mapped`: `::ffff:a.b.c.d`.
unfoldable pub to_ipv4_mapped : Ipv6Addr → Option Ipv4Addr
to_ipv4_mapped ip =
    if has_prefix 0xffff ip
    then some (record { a = ip.s6 / 256; b = ip.s6 % 256; c = ip.s7 / 256; d = ip.s7 % 256 })
    else none

abbrev is_loopback_v6 : Ipv6Addr → Bool
is_loopback_v6 ip = has_prefix 0 ip && ip.s6 == 0 && ip.s7 == 1

abbrev is_unspecified_v6 : Ipv6Addr → Bool
is_unspecified_v6 ip = has_prefix 0 ip && ip.s6 == 0 && ip.s7 == 0

abbrev is_multicast_v6 : Ipv6Addr → Bool
is_multicast_v6 ip = ip.s0 / 256 == 0xff

abbrev is_unique_local : Ipv6Addr → Bool
is_unique_local ip = ip.s0 / 512 == 0xfc00 / 512

abbrev is_unicast_link_local : Ipv6Addr → Bool
is_unicast_link_local ip = ip.s0 / 64 == 0xfe80 / 64

unfoldable pub shared_carrier_grade_nat : Ipv4Addr → Bool
shared_carrier_grade_nat ip = ip.a == 100 && in_range 64 127 ip.b

-- The `V4` case of `forbidden_ip`.
unfoldable pub forbidden_v4 : Ipv4Addr → Bool
forbidden_v4 ip =
    is_private ip
    || is_loopback_v4 ip
    || is_link_local ip
    || is_unspecified_v4 ip
    || is_broadcast ip
    || is_multicast_v4 ip
    || shared_carrier_grade_nat ip

unfoldable pub forbidden_ip : IpAddr → Bool
forbidden_ip (v4 ip) = forbidden_v4 ip
forbidden_ip (v6 ip) = elim (to_ipv4_mapped ip) [
  | some mapped ↦ forbidden_v4 mapped
  | none ↦
      is_loopback_v6 ip
      || is_unspecified_v6 ip
      || is_multicast_v6 ip
      || is_unique_local ip
      || is_unicast_link_local ip
]

unfoldable pub loopback_ip : IpAddr → Bool
loopback_ip (v4 ip) = is_loopback_v4 ip
loopback_ip (v6 ip) =
    is_loopback_v6 ip
    || elim (to_ipv4_mapped ip) [ some mapped ↦ is_loopback_v4 mapped | none ↦ false ]

pub data ResolvedAddressPolicy : Type 0 where
  default dev_allow_loopback : ResolvedAddressPolicy

unfoldable pub forbidden_ip_for_policy : IpAddr → ResolvedAddressPolicy → Bool
unfolding forbidden_ip loopback_ip
forbidden_ip_for_policy ip default = forbidden_ip ip
forbidden_ip_for_policy ip dev_allow_loopback = forbidden_ip ip && not (loopback_ip ip)
