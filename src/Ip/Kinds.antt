-- ===== src/Ip/Kinds.antt =====
-- src/ipaddress.cpp: the kinds of address, and the precedence of RFC 3484.
use Prim.Native.Nat.{bit_and}
use ashe.Base.{
  ℕ, ◌+◌, ◌*◌, ◌/◌, ◌^◌, ◌<◌, ◌≡◌, Bool, false, not, ◌&&◌, ◌||◌, List, [], ◌∷◌, ◌++◌, leb, ◌==◌,
  if◌then◌else◌, get_or, replicate, arith,
}
use ashe.Ip.{
  Family, unspec, inet, inet6, IpAddress, of_ipv6, of_host_order, empty_ip,
  v4_address_as_host_order_integer, ip_equal, ip_is_helper, v4_mapped_prefix, ip_is_v4_mapped,
}

unfoldable pub is_private_v4 : ℕ → Bool
is_private_v4 n =
    n / 2 ^ 24 == 127
    || n / 2 ^ 24 == 10
    || n / 2 ^ 20 == 172 * 16 + 1
    || n / 2 ^ 16 == 192 * 256 + 168
    || n / 2 ^ 16 == 169 * 256 + 254

abbrev pub byte_of : IpAddress → ℕ → ℕ
byte_of ip i = get_or ip.raw i 0

unfoldable pub ip_is_any : IpAddress → Bool
unfolding ip_equal of_host_order of_ipv6
ip_is_any ip = elim ip.family [
  | inet ↦ ip_equal ip (of_host_order 0)
  | inet6 ↦ ip_equal ip (of_ipv6 (replicate 16 0)) || ip_equal ip (of_ipv6 v4_mapped_prefix)
  | unspec ↦ false
]

abbrev pub in6addr_loopback : List ℕ
in6addr_loopback = replicate 15 0 ++ 1 ∷ []

unfoldable pub ip_is_loopback : IpAddress → Bool
unfolding ip_equal of_ipv6 v4_address_as_host_order_integer
ip_is_loopback ip = elim ip.family [
  | inet ↦ v4_address_as_host_order_integer ip / 2 ^ 24 == 127
  | inet6 ↦ ip_equal ip (of_ipv6 in6addr_loopback)
  | unspec ↦ false
]

unfoldable pub ip_is_link_local : IpAddress → Bool
ip_is_link_local ip = byte_of ip 0 == 0xfe && byte_of ip 1 == 0x80

unfoldable pub ip_is_private : IpAddress → Bool
unfolding is_private_v4 ip_is_link_local ip_is_loopback v4_address_as_host_order_integer
ip_is_private ip = elim ip.family [
  | inet ↦ is_private_v4 (v4_address_as_host_order_integer ip)
  | inet6 ↦ ip_is_link_local ip || ip_is_loopback ip
  | unspec ↦ false
]

unfoldable pub ip_is_6bone : IpAddress → Bool
unfolding ip_is_helper
ip_is_6bone ip = ip_is_helper ip (0x3f ∷ 0xfe ∷ replicate 14 0) 16

unfoldable pub ip_is_6to4 : IpAddress → Bool
unfolding ip_is_helper
ip_is_6to4 ip = ip_is_helper ip (0x20 ∷ 0x02 ∷ replicate 14 0) 16

unfoldable pub ip_is_mac_based : IpAddress → Bool
ip_is_mac_based ip =
    not (bit_and (byte_of ip 8) 0x02 == 0) && byte_of ip 11 == 0xff && byte_of ip 12 == 0xfe

unfoldable pub ip_is_site_local : IpAddress → Bool
ip_is_site_local ip = byte_of ip 0 == 0xfe && bit_and (byte_of ip 1) 0xc0 == 0xc0

unfoldable pub ip_is_ula : IpAddress → Bool
ip_is_ula ip = bit_and (byte_of ip 0) 0xfe == 0xfc

unfoldable pub ip_is_teredo : IpAddress → Bool
unfolding ip_is_helper
ip_is_teredo ip = ip_is_helper ip (0x20 ∷ 0x01 ∷ replicate 14 0) 32

unfoldable pub ip_is_v4_compatibility : IpAddress → Bool
unfolding ip_is_helper
ip_is_v4_compatibility ip = ip_is_helper ip (replicate 16 0) 96

unfoldable pub ip_address_precedence : IpAddress → ℕ
ip_address_precedence ip = elim ip.family [
  | inet ↦ 30
  | inet6 ↦
      if ip_is_loopback ip
      then 60
      else if ip_is_ula ip
      then 50
      else if ip_is_v4_mapped ip
      then 30
      else if ip_is_6to4 ip
      then 20
      else if ip_is_teredo ip
      then 10
      else if ip_is_v4_compatibility ip || ip_is_site_local ip || ip_is_6bone ip
      then 1
      else 40
  | unspec ↦ 0
]

unfoldable pub get_loopback_ip : Family → IpAddress
unfolding of_host_order of_ipv6 empty_ip
get_loopback_ip inet = of_host_order (127 * 2 ^ 24 + 1)
get_loopback_ip inet6 = of_ipv6 in6addr_loopback
get_loopback_ip unspec = empty_ip

unfoldable pub get_any_ip : Family → IpAddress
unfolding of_host_order of_ipv6 empty_ip
get_any_ip inet = of_host_order 0
get_any_ip inet6 = of_ipv6 (replicate 16 0)
get_any_ip unspec = empty_ip

-- Of the addresses made of four bytes, the highest first, the private ones are 10/8, 127/8,
-- 172.16/12, 192.168/16 and 169.254/16, and no others.
is_private_v4-dotted :
    (a b c d : ℕ)
    → a < 256
    → b < 256
    → c < 256
    → d < 256
    → is_private_v4 (a * 2 ^ 24 + b * 2 ^ 16 + c * 2 ^ 8 + d) ≡ (
        a == 127
        || a == 10
        || (a == 172 && (leb 16 b && leb b 31))
        || (a == 192 && b == 168)
        || (a == 169 && b == 254))
unfolding is_private_v4
is_private_v4-dotted a b c d ha hb hc hd = ground arith

-- An address whose first byte is fe, and whose second lies between 80 and c0 without them, has the
-- ten bits of fe80::/10 in front, yet is not seen as link-local.
ip_is_link_local_misses :
    (ip : IpAddress)
    → byte_of ip 0 ≡ 0xfe
    → 0x80 < byte_of ip 1
    → byte_of ip 1 < 0xc0
    → (byte_of ip 1 / 64 ≡ 2) × (ip_is_link_local ip ≡ false)
unfolding ip_is_link_local
ip_is_link_local_misses ip h lo hi = (omega arith, ground arith)
