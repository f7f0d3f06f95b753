-- ===== src/Codec/Url.antt =====
-- src/url_encode.cpp, over bytes; the wide overloads go through UTF-8 conversions of
-- string_encode.cpp.
pub mod RoundTrip
use Prim.Native.Nat.{bit_or}
use ashe.Base.{
  ℕ, zero, suc, ◌+◌, ◌-◌, ◌*◌, ◌/◌, ◌%◌, Bool, true, false, not, ◌&&◌, ◌||◌, List, [], ◌∷◌, ◌++◌,
  Option, none, some, ltb, leb, ◌==◌, if◌then◌else◌, length, get_or, codes,
}
use ashe.Codec.Hex.{hex_decode_digit, to_byte, to_size, decode_pair}

abbrev pub upper_hex : List ℕ
upper_hex = codes "0123456789ABCDEF"

unfoldable pub is_plain : ℕ → Bool
is_plain cc =
    leb b'A' cc && leb cc b'Z'
    || leb b'a' cc && leb cc b'z'
    || leb b'0' cc && leb cc b'9'
    || cc == b'.'
    || cc == b'_'
    || cc == b'-'
    || cc == b'*'
    || cc == b'~'

pub encode_byte : ℕ → List ℕ
unfolding is_plain
encode_byte cc =
    if is_plain cc
    then cc ∷ []
    else b'%' ∷ get_or upper_hex (cc / 16) 0 ∷ get_or upper_hex (cc % 16) 0 ∷ []

pub url_encode : List ℕ → List ℕ
unfolding encode_byte
url_encode [] = []
url_encode (cc ∷ str) = encode_byte cc ++ url_encode str

-- The decoding loop: what is written while more than one byte of the buffer is left.
pub decode_loop : ℕ → List ℕ → List ℕ
decode_loop room [] = []
decode_loop room (ch ∷ a ∷ b ∷ rest) =
    let plain = decode_loop (room - 1) (a ∷ b ∷ rest) in
    let coded = decode_loop (room - 1) rest in
    if not (ltb 1 room)
    then []
    else if ch == b'+'
    then b' ' ∷ plain
    else if ch == b'%'
    then elim (decode_pair a b) [ none ↦ ch ∷ plain | some v ↦ v ∷ coded ]
    else ch ∷ plain
decode_loop room (ch ∷ rest) =
    let plain = decode_loop (room - 1) rest in
    if not (ltb 1 room) then [] else if ch == b'+' then b' ' ∷ plain else ch ∷ plain

-- `UrlDecode` into a buffer; the result is what stands before the null byte.
pub url_decode_into : ℕ → List ℕ → List ℕ
unfolding decode_loop
url_decode_into buflen source = if buflen == 0 then [] else decode_loop buflen source

-- `UrlDecode` with no buffer: an upper bound of the size.
pub url_decode_size : List ℕ → ℕ
url_decode_size source = to_size (length source + 1)

-- `s_transform` with `UrlDecode`.
pub url_decode : Bool → List ℕ → List ℕ
unfolding url_decode_into url_decode_size
url_decode alloc_ok source =
    if not alloc_ok then [] else url_decode_into (url_decode_size source) source
