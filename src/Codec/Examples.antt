-- ===== src/Codec/Examples.antt =====
-- Concrete bytes, on which the theorems about the codecs apply.
use ashe.Base.{
  ℕ, ◌+◌, ◌≤◌, ◌≡◌, true, false, List, [], ◌∷◌, some, arith, length, zero, suc, none, codes,
  IsBytes, ◌^◌,
}
use ashe.Codec.Hex.{hex_encode_with_delimiter, hex_decode_into}
use ashe.Codec.Hex.RoundTrip.{hex_decode_into-encode}
use ashe.Codec.Url.{url_encode, url_decode, url_decode_into}
use ashe.Codec.Url.RoundTrip.{url_decode-url_encode, url_decode_into-fits, length-url_encode_le}
use ashe.Codec.Base64.{encode_loop, encode, decode}
use ashe.Codec.Base64.RoundTrip.{decode-encode, encode_loop-endless}

-- A null byte, a space, a percent sign, a letter and the highest byte.
abbrev bytes : List ℕ
bytes = 0 ∷ b' ' ∷ b'%' ∷ b'a' ∷ 255 ∷ []

abbrev bytes-IsBytes : IsBytes bytes
bytes-IsBytes = (omega arith, (omega arith, (omega arith, (omega arith, (omega arith, tt)))))

hex_decode_into-encode_example :
    hex_decode_into 5 (hex_encode_with_delimiter true bytes b':') b':' ≡ some bytes
hex_decode_into-encode_example =
    hex_decode_into-encode bytes b':' 5 bytes-IsBytes (omega arith) (omega arith) (omega arith)

url_decode-url_encode_example : url_decode true (url_encode bytes) ≡ bytes
url_decode-url_encode_example =
    url_decode-url_encode bytes bytes-IsBytes (omega (arith, length-url_encode_le bytes))

url_decode_into-fits_example :
    (length (url_decode_into 3 (codes "a%2Gb%4")) + 1 ≤ 3)
    × (length (url_decode_into 3 (codes "a%2Gb%4")) ≤ length (codes "a%2Gb%4"))
url_decode_into-fits_example = url_decode_into-fits 3 (codes "a%2Gb%4") (omega arith)

decode-encode_example :
    (text : List ℕ) × (encode true bytes ≡ some text) × (decode text false ≡ bytes)
decode-encode_example = decode-encode true bytes bytes-IsBytes (omega arith)

-- A text of as many bytes as one likes.
long_text : (n : ℕ) → (bytes : List ℕ) × (n ≤ length bytes)
long_text zero = ([], omega arith)
long_text (suc n) = let (bytes, long) = long_text n in (65 ∷ bytes, omega (arith, long))

encode_loop-endless_example : encode_loop 7 true 0 (long_text (2 ^ 32)).0 ≡ none
encode_loop-endless_example =
    encode_loop-endless 7 true 0 (long_text (2 ^ 32)).0 (long_text (2 ^ 32)).1 (omega arith)
