-- ===== src/Ip/Examples.antt =====
-- Concrete addresses, on which the theorems about src/ipaddress.cpp apply.
use ashe.Base.{
  ℕ, ◌≡◌, refl, List, [], ◌∷◌, Option, none, some, arith, if◌then◌else◌, ◌==◌, replicate, IsBytes,
}
use ashe.Ip.{IpAddress, of_ipv4, of_ipv6}
use ashe.Ip.Order.{IsAddress}
use ashe.Ip.Kinds.{byte_of}

-- fe90::, in fe80::/10.
abbrev fe90 : IpAddress
fe90 = of_ipv6 (0xfe ∷ 0x90 ∷ replicate 14 0)

fe90_0 : byte_of fe90 0 ≡ 0xfe
unfolding of_ipv6
fe90_0 = refl

fe90_1 : byte_of fe90 1 ≡ 0x90
unfolding of_ipv6
fe90_1 = refl

-- 127.0.0.1 and 10.0.0.1.
abbrev home : IpAddress
home = of_ipv4 (127 ∷ 0 ∷ 0 ∷ 1 ∷ [])

abbrev ten : IpAddress
ten = of_ipv4 (10 ∷ 0 ∷ 0 ∷ 1 ∷ [])

abbrev zeros_IsBytes : IsBytes (replicate 12 0)
zeros_IsBytes = (
  omega arith,
  (
    omega arith,
    (
      omega arith,
      (
        omega arith,
        (
          omega arith,
          (
            omega arith,
            (
              omega arith,
              (omega arith, (omega arith, (omega arith, (omega arith, (omega arith, tt))))),
            ),
          ),
        ),
      ),
    ),
  ),
)

home-IsAddress : IsAddress home
unfolding of_ipv4
home-IsAddress = record {
  sixteen = refl;
  bytes = (omega arith, (omega arith, (omega arith, (omega arith, zeros_IsBytes))));
}

ten-IsAddress : IsAddress ten
unfolding of_ipv4
ten-IsAddress = record {
  sixteen = refl;
  bytes = (omega arith, (omega arith, (omega arith, (omega arith, zeros_IsBytes))));
}

-- A parser that knows one IPv4 address, and one that knows none.
abbrev knows_zero : List ℕ → Option (List ℕ)
knows_zero [] = none
knows_zero (c ∷ s) = if c == b'0' then some (replicate 4 0) else none

abbrev knows_none : List ℕ → Option (List ℕ)
knows_none s = none
