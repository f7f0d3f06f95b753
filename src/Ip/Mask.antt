-- ===== src/Ip/Mask.antt =====
-- src/ipaddress.cpp: `TruncateIP` and `CountIPMaskBits`. A negative length is `none`.
use Prim.Native.Nat.{bit_and}
use ashe.Base.{
  ℕ, zero, suc, ◌+◌, ◌-◌, ◌*◌, ◌/◌, ◌%◌, ◌^◌, ◌≡◌, refl, true, not, List, [], ◌++◌, Option, none,
  some, ltb, ◌==◌, if◌then◌else◌, take, drop, replicate, all_below,
}
use ashe.Ip.{
  unspec, inet, inet6, IpAddress, be_value, be_bytes, of_ipv4, of_ipv6, of_host_order, empty_ip,
}

abbrev pub all_ones : ℕ
all_ones = 0xffffffff

-- `0xFFFFFFFF << k` in 32 bits; the source's 64-bit shift by 32 loses all of them.
abbrev pub shifted_mask : ℕ → ℕ
shifted_mask k = all_ones * 2 ^ k % 2 ^ 32

-- The loop over the four words of an IPv6 address.
unfoldable pub truncate_words : ℕ → ℕ → ℕ → ℕ → List ℕ → List ℕ
truncate_words zero i position inner_mask r = []
truncate_words (suc left) i position inner_mask r =
    (if i == position
      then be_bytes (bit_and (be_value r 0) inner_mask)
      else if ltb position i
      then replicate 4 0
      else take 4 r)
    ++ truncate_words left (i + 1) position inner_mask (drop 4 r)

unfoldable pub truncate_v4 : IpAddress → ℕ → IpAddress
unfolding of_host_order of_ipv4
truncate_v4 ip len =
    if ltb 31 len
    then ip
    else if len == 0
    then of_host_order 0
    else of_ipv4 (be_bytes (bit_and (be_value ip.raw 0) (shifted_mask (32 - len))))

unfoldable pub truncate_v6 : IpAddress → ℕ → IpAddress
unfolding of_ipv6 truncate_words
truncate_v6 ip len =
    if ltb 127 len
    then ip
    else if len == 0
    then of_ipv6 (replicate 16 0)
    else let position = len / 32 in
      let inner_length = 32 - (len - position * 32) in
      of_ipv6 (truncate_words 4 0 position (shifted_mask inner_length) ip.raw)

unfoldable pub truncate_ip : IpAddress → Option ℕ → IpAddress
unfolding truncate_v4 truncate_v6 empty_ip
truncate_ip ip none = empty_ip
truncate_ip ip (some len) = elim ip.family [
  | inet ↦ truncate_v4 ip len
  | inet6 ↦ truncate_v6 ip len
  | unspec ↦ empty_ip
]

-- `zeroes`, after the lowest set bit `w` is isolated.
abbrev pub step_down : ℕ → ℕ → ℕ → ℕ
step_down w mask k = if not (bit_and w mask == 0) then k else 0

unfoldable pub trailing_zeroes : ℕ → ℕ
trailing_zeroes word =
    let w = bit_and word ((all_ones - word + 1) % 2 ^ 32) in
    32
    - (if not (w == 0) then 1 else 0)
    - step_down w 0x0000ffff 16
    - step_down w 0x00ff00ff 8
    - step_down w 0x0f0f0f0f 4
    - step_down w 0x33333333 2
    - step_down w 0x55555555 1

unfoldable pub bits_of_word : ℕ → ℕ → ℕ
unfolding trailing_zeroes
bits_of_word bits word = if word == 0 then bits else bits + (32 - trailing_zeroes word)

-- The search for the first word that is not all ones, then its bits.
unfoldable pub count_words : ℕ → ℕ → List ℕ → ℕ
unfolding bits_of_word
count_words zero i r = bits_of_word (i * 32) 0
count_words (suc left) i r =
    let rest = count_words left (i + 1) (drop 4 r) in
    if not (be_value r 0 == all_ones) then bits_of_word (i * 32) (be_value r 0) else rest

unfoldable pub count_ip_mask_bits : IpAddress → ℕ
unfolding bits_of_word count_words
count_ip_mask_bits mask = elim mask.family [
  | inet ↦ bits_of_word 0 (be_value mask.raw 0)
  | inet6 ↦ count_words 4 0 mask.raw
  | unspec ↦ 0
]

-- The IPv4 and the IPv6 address of all ones.
abbrev pub ones4 : IpAddress
ones4 = record { family = inet; raw = replicate 4 255 ++ replicate 12 0 }

abbrev pub ones6 : IpAddress
ones6 = record { family = inet6; raw = replicate 16 255 }

-- Tests: the masks that `TruncateIP` makes from these have the bits that `CountIPMaskBits` finds.
masks4 : all_below 33 (λ n. count_ip_mask_bits (truncate_ip ones4 (some n)) == n) ≡ true
unfolding all_below count_ip_mask_bits truncate_ip
masks4 = refl

masks6 : all_below 129 (λ n. count_ip_mask_bits (truncate_ip ones6 (some n)) == n) ≡ true
unfolding all_below count_ip_mask_bits truncate_ip
masks6 = refl
