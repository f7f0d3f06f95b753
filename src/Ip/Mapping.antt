-- ===== src/Ip/Mapping.antt =====
-- IPv4 addresses in IPv6 form, in host order, and from a string, of src/ipaddress.cpp.
use ashe.Base.{
  ℕ, ◌^◌, ◌<◌, ◌≡◌, refl, ap, sym, ◌∙◌, true, List, [], ◌∷◌, arith, if◌then◌else◌, Option,
  Bool-cases, inl, inr, replicate,
}
use ashe.Ip.{
  Family, unspec, inet, inet6, IpAddress, of_ipv4, of_host_order, of_string, ip_from_string,
  v4_address_as_host_order_integer, extract_mapped_address, ip_is_v4_mapped, normalized,
  as_ipv6_address,
}

-- An IPv4 address put into IPv6 form is recognised as mapped, and normalizing it gives the
-- IPv4 address back.
normalized-as_ipv6_address :
    (a b c d : ℕ)
    → let ip = of_ipv4 (a ∷ b ∷ c ∷ d ∷ []) in
      let mapped = as_ipv6_address ip in
      (mapped.family ≡ inet6) × (ip_is_v4_mapped mapped ≡ true) × (normalized mapped ≡ ip)
unfolding normalized as_ipv6_address of_ipv4
normalized-as_ipv6_address a b c d = (refl, refl, refl)

normalized_ipv4 : (ip4 : List ℕ) → normalized (of_ipv4 ip4) ≡ of_ipv4 ip4
unfolding normalized of_ipv4
normalized_ipv4 ip4 = refl

-- Normalizing twice changes no more than normalizing once.
normalized-normalized : (ip : IpAddress) → normalized (normalized ip) ≡ normalized ip
normalized-normalized ip = go ip.family refl
  where
    go : (f : Family) → ip.family ≡ f → normalized (normalized ip) ≡ normalized ip
    go unspec e = let n : normalized ip ≡ ip = unfold normalized in rw e refl in ap normalized n
    go inet e = let n : normalized ip ≡ ip = unfold normalized in rw e refl in ap normalized n
    go inet6 e = elim (Bool-cases (ip_is_v4_mapped ip)) [
      | inl t ↦
          let n : normalized ip ≡ of_ipv4 (extract_mapped_address ip.raw) =
            unfold normalized in rw (e, t) refl in
          ap normalized n ∙ normalized_ipv4 (extract_mapped_address ip.raw) ∙ sym n
      | inr f ↦ let n : normalized ip ≡ ip = unfold normalized in rw (e, f) refl in ap normalized n
    ]

-- A number of 32 bits that is made an IPv4 address in host order is read back from it.
host_order-of_host_order :
    (n : ℕ) → n < 2 ^ 32 → v4_address_as_host_order_integer (of_host_order n) ≡ n
unfolding v4_address_as_host_order_integer of_host_order
host_order-of_host_order n h = omega arith

-- The constructor from a string and `IPFromString` agree on every string that is not empty,
-- the first giving 0.0.0.0 where the second fails.
of_string-ip_from_string :
    (pton4 pton6 : List ℕ → Option (List ℕ)) (c : ℕ) (s : List ℕ)
    → let r = ip_from_string pton4 pton6 (c ∷ s) in
      of_string pton4 pton6 (c ∷ s) ≡ (if r.0 then r.1 else of_ipv4 (replicate 4 0))
unfolding of_string ip_from_string
of_string-ip_from_string p4 p6 c s = ground arith
