-- ===== src/Gateway/Ssrf.antt =====
-- af/crates/af-web-gateway/src/ssrf.rs: the addresses that are never fetched from; and the CIDR
-- test of rules.rs. `x & m`, for a mask `m` of high bits, clears the low bits of `x`.
pub mod Ranges
pub mod Embedded
pub mod Examples
use arbeiterfarm.Base.{
  ℕ, ◌+◌, ◌-◌, ◌*◌, ◌/◌, ◌%◌, ◌^◌, Bool, true, false, ◌&&◌, ◌||◌, not, ltb, ◌==◌, if◌then◌else◌,
}

pub record Ipv4Addr : Type 0 where
  pub a : ℕ
  pub b : ℕ
  pub c : ℕ
  pub d : ℕ

pub record Ipv6Addr : Type 0 where
  pub s0 : ℕ
  pub s1 : ℕ
  pub s2 : ℕ
  pub s3 : ℕ
  pub s4 : ℕ
  pub s5 : ℕ
  pub s6 : ℕ
  pub s7 : ℕ

pub data IpAddr : Type 0 where
  v4 : Ipv4Addr → IpAddr
  v6 : Ipv6Addr → IpAddr

-- `x & (!0 << k)`
abbrev pub high_bits : ℕ → ℕ → ℕ
high_bits x k = x / 2 ^ k * 2 ^ k

unfoldable pub is_private_ipv4 : Ipv4Addr → Bool
is_private_ipv4 ip =
    if a == 0
    then true
    else if a == 10
    then true
    else if a == 100 && high_bits b 6 == 64
    then true
    else if a == 127
    then true
    else if a == 169 && b == 254
    then true
    else if a == 172 && high_bits b 4 == 16
    then true
    else if a == 192 && b == 0 && c == 0
    then true
    else if a == 192 && b == 0 && c == 2
    then true
    else if a == 192 && b == 168
    then true
    else if a == 198 && (b == 18 || b == 19)
    then true
    else if a == 198 && b == 51 && c == 100
    then true
    else if a == 203 && b == 0 && c == 113
    then true
    else if high_bits a 4 == 224
    then true
    else if high_bits a 4 == 240
    then true
    else if a == 255 && b == 255 && c == 255 && d == 255
    then true
    else false
  where
    open ip use {a, b, c, d}

-- `Ipv4Addr::new((hi >> 8) as u8, (hi & 0xFF) as u8, (lo >> 8) as u8, (lo & 0xFF) as u8)`
abbrev pub inner_v4 : ℕ → ℕ → Ipv4Addr
inner_v4 hi lo = record { a = hi / 256; b = hi % 256; c = lo / 256; d = lo % 256 }

-- `!x as u8`, for a segment `x`.
abbrev pub not8 : ℕ → ℕ
not8 x = (65535 - x) % 256

abbrev pub inverted_v4 : ℕ → ℕ → Ipv4Addr
inverted_v4 hi lo = record {
  a = not8 (hi / 256);
  b = not8 (hi % 256);
  c = not8 (lo / 256);
  d = not8 (lo % 256);
}

-- `segments[0..5] == [0, 0, 0, 0, 0]`
abbrev pub five_zeros : Ipv6Addr → Bool
five_zeros ip = ip.s0 == 0 && ip.s1 == 0 && ip.s2 == 0 && ip.s3 == 0 && ip.s4 == 0

unfoldable pub is_localhost : Ipv6Addr → Bool
is_localhost ip = five_zeros ip && ip.s5 == 0 && ip.s6 == 0 && ip.s7 == 1

unfoldable pub is_unspecified : Ipv6Addr → Bool
is_unspecified ip = five_zeros ip && ip.s5 == 0 && ip.s6 == 0 && ip.s7 == 0

-- The tests behind those of the embedded addresses.
unfoldable pub is_reserved_ipv6 : Ipv6Addr → Bool
is_reserved_ipv6 ip =
    if ip.s0 == 0x2001 && ip.s1 == 0x0db8
    then true
    else if ip.s0 == 0x0100 && ip.s1 == 0 && ip.s2 == 0 && ip.s3 == 0
    then true
    else if high_bits ip.s0 8 == 0xff00
    then true
    else false

unfoldable pub is_private_ipv6 : Ipv6Addr → Bool
is_private_ipv6 ip =
    if is_localhost ip
    then true
    else if is_unspecified ip
    then true
    else if high_bits ip.s0 6 == 0xfe80
    then true
    else if high_bits ip.s0 9 == 0xfc00
    then true
    else if five_zeros ip && ip.s5 == 0xffff
    then is_private_ipv4 (inner_v4 ip.s6 ip.s7)
    else if five_zeros ip && ip.s5 == 0 && not (is_unspecified ip) && not (is_localhost ip)
    then is_private_ipv4 (inner_v4 ip.s6 ip.s7)
    else if ip.s0 == 0x2002
    then is_private_ipv4 (inner_v4 ip.s1 ip.s2)
    else if ip.s0 == 0x2001 && ip.s1 == 0
    then is_private_ipv4 (inverted_v4 ip.s6 ip.s7)
    else if ip.s0 == 0x64 && ip.s1 == 0xff9b && ip.s2 == 0 && ip.s3 == 0 && ip.s4 == 0 && ip.s5 == 0
    then is_private_ipv4 (inner_v4 ip.s6 ip.s7)
    else is_reserved_ipv6 ip

unfoldable pub is_private_ip : IpAddr → Bool
is_private_ip (v4 ip) = is_private_ipv4 ip
is_private_ip (v6 ip) = is_private_ipv6 ip

-- `u32::from` and `u128::from`
abbrev pub bits_v4 : Ipv4Addr → ℕ
bits_v4 ip = ((ip.a * 256 + ip.b) * 256 + ip.c) * 256 + ip.d

abbrev pub bits_v6 : Ipv6Addr → ℕ
bits_v6 ip =
    ((((((ip.s0 * 2 ^ 16 + ip.s1) * 2 ^ 16 + ip.s2) * 2 ^ 16 + ip.s3) * 2 ^ 16 + ip.s4) * 2 ^ 16
            + ip.s5)
          * 2 ^ 16
        + ip.s6)
      * 2 ^ 16
    + ip.s7

-- The mask is `0` where the prefix is empty.
unfoldable pub same_prefix : ℕ → ℕ → ℕ → ℕ → Bool
same_prefix width prefix_len x y =
    if ltb width prefix_len
    then false
    else if prefix_len == 0
    then true
    else high_bits x (width - prefix_len) == high_bits y (width - prefix_len)

unfoldable pub ip_in_cidr : IpAddr → IpAddr → ℕ → Bool
ip_in_cidr (v4 ip) (v4 net) prefix_len = same_prefix 32 prefix_len (bits_v4 ip) (bits_v4 net)
ip_in_cidr (v6 ip) (v6 net) prefix_len = same_prefix 128 prefix_len (bits_v6 ip) (bits_v6 net)
ip_in_cidr _ _ prefix_len = false
