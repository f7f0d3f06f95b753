-- ===== src/Codec/Hex.antt =====
-- src/hex_encode.cpp. A delimiter of 0 means none; the source's `return 0` on malformed input is
-- `none`, and a caller that reads the length sees it as no bytes.
pub mod RoundTrip
use Prim.Native.Nat.{bit_and, bit_or}
use ashe.Base.{
  ℕ, ◌+◌, ◌-◌, ◌*◌, ◌/◌, ◌%◌, ◌^◌, Bool, true, false, not, ◌&&◌, List, [], ◌∷◌, ◌++◌, Option, none,
  some, ltb, leb, ◌==◌, if◌then◌else◌, ◌>>=◌, length, get_or, codes,
}

-- The arithmetic of `size_t` and of `unsigned char`.
abbrev pub to_size : ℕ → ℕ
to_size n = n % 2 ^ 64

abbrev pub to_byte : ℕ → ℕ
to_byte n = n % 256

abbrev pub hex_digits : List ℕ
hex_digits = codes "0123456789abcdef"

unfoldable pub hex_encode_digit : ℕ → ℕ
hex_encode_digit val = if ltb val 16 then get_or hex_digits val 0 else b'!'

-- `HexDecode(char, unsigned char*)`: the letters go up to Z.
unfoldable pub hex_decode_digit : ℕ → Option ℕ
hex_decode_digit ch =
    if leb b'0' ch && leb ch b'9'
    then some (ch - b'0')
    else if leb b'A' ch && leb ch b'Z'
    then some (ch - b'A' + 10)
    else if leb b'a' ch && leb ch b'z'
    then some (ch - b'a' + 10)
    else none

-- The bytes that the encoding loop writes.
pub encode_loop : ℕ → List ℕ → List ℕ
unfolding hex_encode_digit
encode_loop delimiter [] = []
encode_loop delimiter (ch ∷ rest) =
    hex_encode_digit (bit_and (ch / 16) 0xf)
    ∷ hex_encode_digit (bit_and ch 0xf)
    ∷ (if not (delimiter == 0) && ltb 0 (length rest)
        then delimiter ∷ encode_loop delimiter rest
        else encode_loop delimiter rest)

-- `HexEncodeWithDelimiter` into a buffer of `buflen` bytes: what stands before the null byte.
pub hex_encode_into : ℕ → List ℕ → ℕ → List ℕ
hex_encode_into buflen source delimiter =
    let needed =
      if not (delimiter == 0)
      then to_size (length source * 3)
      else to_size (length source * 2 + 1) in
    if buflen == 0 then [] else if ltb buflen needed then [] else encode_loop delimiter source

-- `HexEncodeWithDelimiter` and, with no delimiter, `HexEncode` to a string.
pub hex_encode_with_delimiter : Bool → List ℕ → ℕ → List ℕ
hex_encode_with_delimiter alloc_ok source delimiter =
    if not alloc_ok then [] else hex_encode_into (to_size (length source * 3)) source delimiter

pub hex_encode : Bool → List ℕ → List ℕ
hex_encode alloc_ok source = hex_encode_with_delimiter alloc_ok source 0

-- One byte from two digits.
unfoldable pub decode_pair : ℕ → ℕ → Option ℕ
unfolding hex_decode_digit
decode_pair a b = do
  h1 ← hex_decode_digit a
  h2 ← hex_decode_digit b
  some (to_byte (bit_or (h1 * 16) h2))

-- The decoding loop: after a pair, a delimiter is skipped if more than one byte is left.
pub decode_loop : ℕ → List ℕ → Option (List ℕ)
unfolding decode_pair
decode_loop delimiter [] = some []
decode_loop delimiter (a ∷ []) = none
decode_loop delimiter (a ∷ b ∷ []) = do v ← decode_pair a b; some (v ∷ [])
decode_loop delimiter (a ∷ b ∷ c ∷ []) = do
  v ← decode_pair a b
  w ← decode_loop delimiter (c ∷ [])
  some (v ∷ w)
decode_loop delimiter (a ∷ b ∷ c ∷ d ∷ rest) = do
  v ← decode_pair a b
  w ←
      (if not (delimiter == 0)
        then (if not (c == delimiter) then none else decode_loop delimiter (d ∷ rest))
        else decode_loop delimiter (c ∷ d ∷ rest))
  some (v ∷ w)

-- `HexDecodeWithDelimiter` into a buffer of `buflen` bytes.
pub hex_decode_into : ℕ → List ℕ → ℕ → Option (List ℕ)
hex_decode_into buflen source delimiter =
    let needed =
      if not (delimiter == 0) then to_size (length source + 1) / 3 else length source / 2 in
    if buflen == 0 then none else if ltb buflen needed then none else decode_loop delimiter source

-- `HexDecode` to a string.
pub hex_decode : Bool → List ℕ → List ℕ
hex_decode alloc_ok str =
    if length str == 0
    then []
    else if not alloc_ok
    then []
    else elim (hex_decode_into (length str) str 0) [ none ↦ [] | some out ↦ out ]
