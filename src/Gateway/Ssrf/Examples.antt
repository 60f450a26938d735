-- ===== src/Gateway/Ssrf/Examples.antt =====
-- Addresses of the unit tests, and the theorems at them.
use arbeiterfarm.Base.{◌≡◌, refl, true, false, arith}
use arbeiterfarm.Gateway.Ssrf.{
  is_private_ipv4, is_localhost, is_unspecified, is_private_ipv6, is_private_ip, same_prefix,
  ip_in_cidr, v4, v6,
}
use arbeiterfarm.Gateway.Ssrf.Ranges.{octets, in_reserved_v4, is_private_ipv4-ranges}
use arbeiterfarm.Gateway.Ssrf.Embedded.{segments, embed, is_private_ipv6-embed, teredo}

public_dns : is_private_ip (v4 (octets 8 8 8 8)) ≡ false
unfolding is_private_ip is_private_ipv4
public_dns = refl

-- 2002:7f00:0001::, which carries 127.0.0.1
loopback_in_six_to_four : is_private_ip (v6 (segments 0x2002 0x7f00 0x0001 0 0 0 0 0)) ≡ true
unfolding is_private_ip is_private_ipv6 is_private_ipv4 is_localhost is_unspecified
loopback_in_six_to_four = refl

in_network : ip_in_cidr (v4 (octets 192 168 7 9)) (v4 (octets 192 168 4 0)) 22 ≡ true
unfolding ip_in_cidr same_prefix
in_network = refl

is_private_ipv4-ranges_example :
    is_private_ipv4 (octets 172 20 0 1) ≡ in_reserved_v4 (octets 172 20 0 1)
is_private_ipv4-ranges_example =
    is_private_ipv4-ranges (octets 172 20 0 1) (omega arith, omega arith, omega arith, omega arith)

is_private_ipv6-embed_example :
    is_private_ip (v6 (embed (teredo 1 2 3 4) (octets 10 0 0 1)))
    ≡ is_private_ip (v4 (octets 10 0 0 1))
is_private_ipv6-embed_example =
    is_private_ipv6-embed (teredo 1 2 3 4) (octets 10 0 0 1)
      (omega arith, omega arith, omega arith, omega arith)
