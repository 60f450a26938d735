-- ===== src/Gateway/Ssrf/Embedded.antt =====
-- IPv4 addresses inside IPv6 addresses.
use arbeiterfarm.Base.{ℕ, ◌+◌, ◌-◌, ◌*◌, ◌≡◌, refl, ap, true, arith}
use arbeiterfarm.Gateway.Ssrf.{
  Ipv4Addr, Ipv6Addr, is_private_ipv4, inner_v4, inverted_v4, is_localhost, is_unspecified,
  is_private_ipv6, is_private_ip, v4, v6,
}
use arbeiterfarm.Gateway.Ssrf.Ranges.{IsIpv4}

-- The five forms, with the segments that they leave free.
pub data Embedding : Type 0 where
  mapped compatible nat64 : Embedding
  six_to_four : ℕ → ℕ → ℕ → ℕ → ℕ → Embedding
  teredo : ℕ → ℕ → ℕ → ℕ → Embedding

abbrev pub segments : ℕ → ℕ → ℕ → ℕ → ℕ → ℕ → ℕ → ℕ → Ipv6Addr
segments s0 s1 s2 s3 s4 s5 s6 s7 = record {
  s0 = s0;
  s1 = s1;
  s2 = s2;
  s3 = s3;
  s4 = s4;
  s5 = s5;
  s6 = s6;
  s7 = s7;
}

abbrev pub embed : Embedding → Ipv4Addr → Ipv6Addr
embed mapped ip = segments 0 0 0 0 0 0xffff (ip.a * 256 + ip.b) (ip.c * 256 + ip.d)
embed compatible ip = segments 0 0 0 0 0 0 (ip.a * 256 + ip.b) (ip.c * 256 + ip.d)
embed nat64 ip = segments 0x64 0xff9b 0 0 0 0 (ip.a * 256 + ip.b) (ip.c * 256 + ip.d)
embed (six_to_four s3 s4 s5 s6 s7) ip =
    segments 0x2002 (ip.a * 256 + ip.b) (ip.c * 256 + ip.d) s3 s4 s5 s6 s7
embed (teredo s2 s3 s4 s5) ip =
    segments 0x2001 0 s2 s3 s4 s5 (65535 - (ip.a * 256 + ip.b)) (65535 - (ip.c * 256 + ip.d))

same_octets : (x y : Ipv4Addr) → x.a ≡ y.a → x.b ≡ y.b → x.c ≡ y.c → x.d ≡ y.d → x ≡ y
same_octets x y p q r s i = record { a = p i; b = q i; c = r i; d = s i }

inner-pair : (ip : Ipv4Addr) → IsIpv4 ip → inner_v4 (ip.a * 256 + ip.b) (ip.c * 256 + ip.d) ≡ ip
inner-pair ip (ha, hb, hc, hd) =
    same_octets _ ip (omega arith) (omega arith) (omega arith) (omega arith)

inverted-pair :
    (ip : Ipv4Addr)
    → IsIpv4 ip
    → inverted_v4 (65535 - (ip.a * 256 + ip.b)) (65535 - (ip.c * 256 + ip.d)) ≡ ip
inverted-pair ip (ha, hb, hc, hd) =
    same_octets _ ip (omega arith) (omega arith) (omega arith) (omega arith)

zero_net-private : (ip : Ipv4Addr) → ip.a ≡ 0 → is_private_ipv4 ip ≡ true
unfolding is_private_ipv4
zero_net-private ip h = rw h refl

compatible-private :
    (ip : Ipv4Addr) → IsIpv4 ip → is_private_ipv6 (embed compatible ip) ≡ is_private_ipv4 ip
unfolding is_private_ipv6 is_localhost is_unspecified
compatible-private ip v =
    ground (arith, inner-pair ip v, ap is_private_ipv4 (inner-pair ip v), zero_net-private ip)

-- An IPv6 address that carries an IPv4 address, in any of the five forms, is blocked exactly if the
-- IPv4 address is, whatever stands in the segments that the form leaves free.
pub is_private_ipv6-embed :
    (e : Embedding) (ip : Ipv4Addr)
    → IsIpv4 ip
    → is_private_ip (v6 (embed e ip)) ≡ is_private_ip (v4 ip)
unfolding is_private_ip is_private_ipv6 is_localhost is_unspecified
is_private_ipv6-embed mapped ip v = ap is_private_ipv4 (inner-pair ip v)
is_private_ipv6-embed compatible ip v = compatible-private ip v
is_private_ipv6-embed nat64 ip v = ap is_private_ipv4 (inner-pair ip v)
is_private_ipv6-embed (six_to_four s3 s4 s5 s6 s7) ip v = ap is_private_ipv4 (inner-pair ip v)
is_private_ipv6-embed (teredo s2 s3 s4 s5) ip v = ap is_private_ipv4 (inverted-pair ip v)
