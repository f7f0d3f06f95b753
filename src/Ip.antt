-- ===== src/Ip.antt =====
-- src/ipaddress.cpp and include/ashe/ipaddress.h. An address is its family and the 16 bytes of the
-- union `u_`, of which the first four are `ip4`; bytes stand in network order, so the conversions
-- of byteorder.cpp are reading and writing four bytes, the highest first.
pub mod Kinds
pub mod Mask
pub mod Order
pub mod Mapping
pub mod Examples
use Prim.Native.Nat.{bit_and, bit_xor}
use ashe.Base.{
  ℕ, ◌+◌, ◌-◌, ◌*◌, ◌/◌, ◌%◌, ◌^◌, Bool, true, false, not, ◌&&◌, ◌||◌, List, [], ◌∷◌, ◌++◌, Option,
  none, some, ltb, leb, ◌==◌, if◌then◌else◌, length, get_or, take, drop, replicate,
}

pub data Family : Type 0 where
  unspec inet inet6 : Family

pub record IpAddress : Type 0 where
  pub family : Family
  pub raw : List ℕ

-- `HostToNetwork32`: the bytes in memory.
abbrev pub be_bytes : ℕ → List ℕ
be_bytes n = n / 2 ^ 24 % 256 ∷ n / 2 ^ 16 % 256 ∷ n / 2 ^ 8 % 256 ∷ n % 256 ∷ []

-- `NetworkToHost32` of the four bytes from `i` on.
abbrev pub be_value : List ℕ → ℕ → ℕ
be_value r i =
    get_or r i 0 * 2 ^ 24
    + get_or r (i + 1) 0 * 2 ^ 16
    + get_or r (i + 2) 0 * 2 ^ 8
    + get_or r (i + 3) 0

unfoldable pub empty_ip : IpAddress
empty_ip = record { family = unspec; raw = replicate 16 0 }

-- From `in_addr`: the union is cleared, then its first four bytes are set.
unfoldable pub of_ipv4 : List ℕ → IpAddress
of_ipv4 ip4 = record { family = inet; raw = ip4 ++ replicate 12 0 }

unfoldable pub of_ipv6 : List ℕ → IpAddress
of_ipv6 ip6 = record { family = inet6; raw = ip6 }

unfoldable pub of_host_order : ℕ → IpAddress
of_host_order n = record { family = inet; raw = be_bytes n ++ replicate 12 0 }

-- `inet_pton`, as two parsers that give the bytes of an address.
module _ (pton4 pton6 : List ℕ → Option (List ℕ)) where
  -- The constructor from a string.
  unfoldable pub of_string : List ℕ → IpAddress
  unfolding of_ipv4 of_ipv6
  of_string str = elim str [
    | [] ↦ of_ipv4 (replicate 4 0)
    | c ∷ s ↦ elim (pton4 (c ∷ s)) [
      | some addr ↦ of_ipv4 addr
      | none ↦ elim (pton6 (c ∷ s)) [ some addr6 ↦ of_ipv6 addr6 | none ↦ of_ipv4 (replicate 4 0) ]
    ]
  ]

  -- `IPFromString`: the result, and what `*out` is set to.
  unfoldable pub ip_from_string : List ℕ → Bool × IpAddress
  unfolding of_ipv4 of_ipv6 empty_ip
  ip_from_string str = elim (pton4 str) [
    | some addr ↦ (true, of_ipv4 addr)
    | none ↦ elim (pton6 str) [ some addr6 ↦ (true, of_ipv6 addr6) | none ↦ (false, empty_ip) ]
  ]

unfoldable pub v4_address_as_host_order_integer : IpAddress → ℕ
v4_address_as_host_order_integer ip = elim ip.family [ inet ↦ be_value ip.raw 0 | _ ↦ 0 ]

unfoldable pub get_ipv6_address : IpAddress → List ℕ
get_ipv6_address ip = ip.raw

unfoldable pub get_ipv4_address : IpAddress → List ℕ
get_ipv4_address ip = take 4 ip.raw

unfoldable pub ip_is_unspec : IpAddress → Bool
ip_is_unspec ip = elim ip.family [ unspec ↦ true | _ ↦ false ]

unfoldable pub is_unspecified_ip : IpAddress → Bool
unfolding ip_is_unspec
is_unspecified_ip ip = ip_is_unspec ip

unfoldable pub size : IpAddress → ℕ
size ip = elim ip.family [ inet ↦ 4 | inet6 ↦ 16 | unspec ↦ 0 ]

-- `memcmp(a, b, n) == 0` and `memcmp(a, b, n) < 0`.
unfoldable pub same_bytes : ℕ → List ℕ → List ℕ → Bool
same_bytes n [] [] = true
same_bytes n [] (b ∷ bs) = n == 0
same_bytes n (a ∷ as') [] = n == 0
same_bytes n (a ∷ as') (b ∷ bs) = n == 0 || (a == b && same_bytes (n - 1) as' bs)

unfoldable pub less_bytes : ℕ → List ℕ → List ℕ → Bool
less_bytes n [] bs = false
less_bytes n (a ∷ as') [] = false
less_bytes n (a ∷ as') (b ∷ bs) = not (n == 0) && (ltb a b || (a == b && less_bytes (n - 1) as' bs))

-- `operator==`, over the families and then the bytes.
unfoldable pub equal_as : Family → Family → List ℕ → List ℕ → Bool
unfolding same_bytes
equal_as inet inet r s = same_bytes 4 r s
equal_as inet6 inet6 r s = same_bytes 16 r s
equal_as unspec unspec r s = true
equal_as _ _ r s = false

unfoldable pub ip_equal : IpAddress → IpAddress → Bool
unfolding equal_as
ip_equal a b = equal_as a.family b.family a.raw b.raw

unfoldable pub ip_not_equal : IpAddress → IpAddress → Bool
unfolding ip_equal
ip_not_equal a b = not (ip_equal a b)

-- `operator<`: IPv4 is less than IPv6, and no family less than either.
unfoldable pub less_as : Family → Family → List ℕ → List ℕ → Bool
unfolding less_bytes
less_as unspec unspec r s = false
less_as unspec _ r s = true
less_as inet inet r s = ltb (be_value r 0) (be_value s 0)
less_as inet inet6 r s = true
less_as inet unspec r s = false
less_as inet6 inet6 r s = less_bytes 16 r s
less_as inet6 _ r s = false

unfoldable pub ip_less : IpAddress → IpAddress → Bool
unfolding less_as
ip_less a b = less_as a.family b.family a.raw b.raw

unfoldable pub ip_greater : IpAddress → IpAddress → Bool
unfolding ip_not_equal ip_less
ip_greater a b = ip_not_equal a b && not (ip_less a b)

unfoldable pub ip_is_helper : IpAddress → List ℕ → ℕ → Bool
unfolding same_bytes
ip_is_helper ip tomatch length' = same_bytes (length' / 8) ip.raw tomatch

abbrev pub v4_mapped_prefix : List ℕ
v4_mapped_prefix = replicate 10 0 ++ 0xff ∷ 0xff ∷ replicate 4 0

unfoldable pub ip_is_v4_mapped : IpAddress → Bool
unfolding ip_is_helper
ip_is_v4_mapped ip = ip_is_helper ip v4_mapped_prefix 96

unfoldable pub extract_mapped_address : List ℕ → List ℕ
extract_mapped_address in6 = take 4 (drop 12 in6)

unfoldable pub normalized : IpAddress → IpAddress
unfolding ip_is_v4_mapped extract_mapped_address of_ipv4
normalized ip = elim ip.family [
  | inet6 ↦ if ip_is_v4_mapped ip then of_ipv4 (extract_mapped_address ip.raw) else ip
  | _ ↦ ip
]

unfoldable pub as_ipv6_address : IpAddress → IpAddress
unfolding of_ipv6
as_ipv6_address ip = elim ip.family [
  | inet ↦ of_ipv6 (take 12 v4_mapped_prefix ++ take 4 ip.raw)
  | _ ↦ ip
]

-- `HashIP`: the four words of an address, as the host reads them from memory.
unfoldable pub hash_ip : (List ℕ → ℕ → ℕ) → IpAddress → ℕ
hash_ip host_word ip = elim ip.family [
  | inet ↦ host_word ip.raw 0
  | inet6 ↦
      bit_xor (bit_xor (bit_xor (host_word ip.raw 0) (host_word ip.raw 4)) (host_word ip.raw 8))
        (host_word ip.raw 12)
  | unspec ↦ 0
]
