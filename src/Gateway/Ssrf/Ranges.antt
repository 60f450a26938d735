-- ===== src/Gateway/Ssrf/Ranges.antt =====
-- The octet tests of `is_private_ipv4` against the networks that its comments name.
use arbeiterfarm.Base.{
  ℕ, ◌*◌, ◌<◌, ◌≡◌, refl, Bool, true, false, ◌&&◌, ◌||◌, List, [], ◌∷◌, arith, ◌==◌, if◌then◌else◌,
  any,
}
use arbeiterfarm.Gateway.Ssrf.{Ipv4Addr, high_bits, is_private_ipv4, same_prefix, ip_in_cidr, v4}

abbrev pub octets : ℕ → ℕ → ℕ → ℕ → Ipv4Addr
octets a b c d = record { a = a; b = b; c = c; d = d }

abbrev pub IsIpv4 : Ipv4Addr → Type 0
IsIpv4 ip = (ip.a < 256) × (ip.b < 256) × (ip.c < 256) × (ip.d < 256)

-- The networks of the comments, in their order, each with its prefix length.
abbrev pub reserved_v4 : List (Ipv4Addr × ℕ)
reserved_v4 =
    (octets 0 0 0 0, 8)
    ∷ (octets 10 0 0 0, 8)
    ∷ (octets 100 64 0 0, 10)
    ∷ (octets 127 0 0 0, 8)
    ∷ (octets 169 254 0 0, 16)
    ∷ (octets 172 16 0 0, 12)
    ∷ (octets 192 0 0 0, 24)
    ∷ (octets 192 0 2 0, 24)
    ∷ (octets 192 168 0 0, 16)
    ∷ (octets 198 18 0 0, 15)
    ∷ (octets 198 51 100 0, 24)
    ∷ (octets 203 0 113 0, 24)
    ∷ (octets 224 0 0 0, 4)
    ∷ (octets 240 0 0 0, 4)
    ∷ (octets 255 255 255 255, 32)
    ∷ []

abbrev pub in_reserved_v4 : Ipv4Addr → Bool
in_reserved_v4 ip = any (λ r. ip_in_cidr (v4 ip) (v4 r.0) r.1) reserved_v4

test8 :
    (a b c d n : ℕ)
    → b < 256
    → c < 256
    → d < 256
    → ip_in_cidr (v4 (octets a b c d)) (v4 (octets n 0 0 0)) 8 ≡ (a == n)
unfolding ip_in_cidr same_prefix
test8 a b c d n hb hc hd = ground arith

test4 :
    (a b c d n : ℕ)
    → b < 256
    → c < 256
    → d < 256
    → ip_in_cidr (v4 (octets a b c d)) (v4 (octets (n * 16) 0 0 0)) 4 ≡ (high_bits a 4 == n * 16)
unfolding ip_in_cidr same_prefix
test4 a b c d n hb hc hd = ground arith

test16 :
    (a b c d n m : ℕ)
    → b < 256
    → c < 256
    → d < 256
    → m < 256
    → ip_in_cidr (v4 (octets a b c d)) (v4 (octets n m 0 0)) 16 ≡ (a == n && b == m)
unfolding ip_in_cidr same_prefix
test16 a b c d n m hb hc hd hm = ground arith

test24 :
    (a b c d n m k : ℕ)
    → b < 256
    → c < 256
    → d < 256
    → m < 256
    → k < 256
    → ip_in_cidr (v4 (octets a b c d)) (v4 (octets n m k 0)) 24 ≡ (a == n && b == m && c == k)
unfolding ip_in_cidr same_prefix
test24 a b c d n m k hb hc hd hm hk = ground arith

test10 :
    (a b c d : ℕ)
    → b < 256
    → c < 256
    → d < 256
    → ip_in_cidr (v4 (octets a b c d)) (v4 (octets 100 64 0 0)) 10
      ≡ (a == 100 && high_bits b 6 == 64)
unfolding ip_in_cidr same_prefix
test10 a b c d hb hc hd = ground arith

test12 :
    (a b c d : ℕ)
    → b < 256
    → c < 256
    → d < 256
    → ip_in_cidr (v4 (octets a b c d)) (v4 (octets 172 16 0 0)) 12
      ≡ (a == 172 && high_bits b 4 == 16)
unfolding ip_in_cidr same_prefix
test12 a b c d hb hc hd = ground arith

test15 :
    (a b c d : ℕ)
    → b < 256
    → c < 256
    → d < 256
    → ip_in_cidr (v4 (octets a b c d)) (v4 (octets 198 18 0 0)) 15
      ≡ (a == 198 && (b == 18 || b == 19))
unfolding ip_in_cidr same_prefix
test15 a b c d hb hc hd = ground arith

test32 :
    (a b c d : ℕ)
    → a < 256
    → b < 256
    → c < 256
    → d < 256
    → ip_in_cidr (v4 (octets a b c d)) (v4 (octets 255 255 255 255)) 32
      ≡ (a == 255 && b == 255 && c == 255 && d == 255)
unfolding ip_in_cidr same_prefix
test32 a b c d ha hb hc hd = ground arith

or-if : (b r : Bool) → (if b then true else r) ≡ (b || r)
or-if true r = refl
or-if false r = refl

-- For the four octets of an IPv4 address, the address is private exactly if it lies in one of the
-- fifteen networks that the comments of the function name, by the CIDR test of the URL rules.
pub is_private_ipv4-ranges : (ip : Ipv4Addr) → IsIpv4 ip → is_private_ipv4 ip ≡ in_reserved_v4 ip
unfolding is_private_ipv4
is_private_ipv4-ranges ip (ha, hb, hc, hd) =
    rw
      (
        test8 a b c d 0 hb hc hd,
        test8 a b c d 10 hb hc hd,
        test10 a b c d hb hc hd,
        test8 a b c d 127 hb hc hd,
        test16 a b c d 169 254 hb hc hd (omega arith),
        test12 a b c d hb hc hd,
        test24 a b c d 192 0 0 hb hc hd (omega arith) (omega arith),
        test24 a b c d 192 0 2 hb hc hd (omega arith) (omega arith),
        test16 a b c d 192 168 hb hc hd (omega arith),
        test15 a b c d hb hc hd,
        test24 a b c d 198 51 100 hb hc hd (omega arith) (omega arith),
        test24 a b c d 203 0 113 hb hc hd (omega arith) (omega arith),
        test4 a b c d 14 hb hc hd,
        test4 a b c d 15 hb hc hd,
        test32 a b c d ha hb hc hd,
      )
      (simp or-if)
  where
    open ip use {a, b, c, d}
