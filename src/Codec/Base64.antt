-- ===== src/Codec/Base64.antt =====
-- src/base64.cpp and include/ashe/base64.h. A source's `int` position of -1 is `none`.
pub mod Bits
pub mod RoundTrip
use Prim.Native.Nat.{bit_and}
use ashe.Base.{
  ℕ, zero, suc, ◌+◌, ◌-◌, ◌*◌, ◌/◌, ◌%◌, ◌^◌, Bool, true, false, not, ◌&&◌, ◌||◌, List, [], ◌∷◌,
  ◌++◌, Option, none, some, ltb, leb, ◌==◌, if◌then◌else◌, ◌>>=◌, length, get_or, take, drop, codes,
}
use ashe.Codec.Hex.{to_byte}

-- `base64Chars(url ? 1 : 0)`.
abbrev pub base64_chars : Bool → List ℕ
base64_chars false = codes "ABCDEFGHIJKLMNOPQRSTUVWXYZabcdefghijklmnopqrstuvwxyz0123456789+/"
base64_chars true = codes "ABCDEFGHIJKLMNOPQRSTUVWXYZabcdefghijklmnopqrstuvwxyz0123456789-_"

unfoldable pub char_at : Bool → ℕ → ℕ
char_at url i = get_or (base64_chars url) i 0

abbrev pub trailing_char : Bool → ℕ
trailing_char true = b'.'
trailing_char false = b'='

unfoldable pub get_pos_of_char : ℕ → Option ℕ
get_pos_of_char chr =
    if leb b'A' chr && leb chr b'Z'
    then some (chr - b'A')
    else if leb b'a' chr && leb chr b'z'
    then some (chr - b'a' + (b'Z' - b'A') + 1)
    else if leb b'0' chr && leb chr b'9'
    then some (chr - b'0' + (b'Z' - b'A') + (b'z' - b'a') + 2)
    else if chr == b'+' || chr == b'-'
    then some 62
    else if chr == b'/' || chr == b'_'
    then some 63
    else none

-- What a round of the encoding loop gives for the bytes from its position on.
unfoldable pub encode_chunk : Bool → List ℕ → List ℕ
encode_chunk url [] = []
encode_chunk url (a ∷ []) =
    char_at url (bit_and a 0xfc / 4)
    ∷ char_at url (bit_and a 0x03 * 16)
    ∷ trailing_char url
    ∷ trailing_char url
    ∷ []
encode_chunk url (a ∷ b ∷ []) =
    char_at url (bit_and a 0xfc / 4)
    ∷ char_at url (bit_and a 0x03 * 16 + bit_and b 0xf0 / 16)
    ∷ char_at url (bit_and b 0x0f * 4)
    ∷ trailing_char url
    ∷ []
encode_chunk url (a ∷ b ∷ c ∷ rest) =
    char_at url (bit_and a 0xfc / 4)
    ∷ char_at url (bit_and a 0x03 * 16 + bit_and b 0xf0 / 16)
    ∷ char_at url (bit_and b 0x0f * 4 + bit_and c 0xc0 / 64)
    ∷ char_at url (bit_and c 0x3f)
    ∷ []

-- The loop at `pos`, an `unsigned int`, on fuel.
unfoldable pub encode_loop : ℕ → Bool → ℕ → List ℕ → Option (List ℕ)
unfolding encode_chunk
encode_loop zero url pos bytes = none
encode_loop (suc n) url pos bytes =
    let rest = (do
      out ← encode_loop n url ((pos + 3) % 2 ^ 32) bytes
      some (encode_chunk url (drop pos bytes) ++ out)) in
    if ltb pos (length bytes) then rest else some []

-- `none` is a loop that goes on, as with 4 GiB or more.
unfoldable pub encode : Bool → List ℕ → Option (List ℕ)
unfolding encode_loop
encode url bytes = encode_loop (length bytes + 3) url 0 bytes

-- The bytes that one chunk gives, from the positions of its characters.
abbrev pub first_byte : ℕ → ℕ → ℕ
first_byte p0 p1 = to_byte (p0 * 4 + bit_and p1 0x30 / 16)

abbrev pub second_byte : ℕ → ℕ → ℕ
second_byte p1 p2 = to_byte (bit_and p1 0x0f * 16 + bit_and p2 0x3c / 4)

abbrev pub third_byte : ℕ → ℕ → ℕ
third_byte p2 p3 = to_byte (bit_and p2 0x03 * 64 + p3)

abbrev pub is_padding : ℕ → Bool
is_padding c = c == b'=' || c == b'.'

-- A chunk of two characters, then its third, then its fourth.
pub decode_two : ℕ → ℕ → Option (List ℕ)
decode_two a b = do p1 ← get_pos_of_char b; p0 ← get_pos_of_char a; some (first_byte p0 p1 ∷ [])

pub decode_three : ℕ → ℕ → ℕ → Option (List ℕ)
decode_three a b c = if is_padding c then decode_two a b else (do
  p1 ← get_pos_of_char b
  p0 ← get_pos_of_char a
  p2 ← get_pos_of_char c
  some (first_byte p0 p1 ∷ second_byte p1 p2 ∷ []))

pub decode_four : ℕ → ℕ → ℕ → ℕ → Option (List ℕ)
decode_four a b c d = if is_padding c || is_padding d then decode_three a b c else (do
  p1 ← get_pos_of_char b
  p0 ← get_pos_of_char a
  p2 ← get_pos_of_char c
  p3 ← get_pos_of_char d
  some (first_byte p0 p1 ∷ second_byte p1 p2 ∷ third_byte p2 p3 ∷ []))

-- The loop of `_Decode`. A chunk of one character reads the null byte behind the string, which
-- has no position.
pub decode_loop : List ℕ → Option (List ℕ)
unfolding decode_two decode_three decode_four
decode_loop [] = some []
decode_loop (a ∷ []) = none
decode_loop (a ∷ b ∷ []) = decode_two a b
decode_loop (a ∷ b ∷ c ∷ []) = decode_three a b c
decode_loop (a ∷ b ∷ c ∷ d ∷ rest) = do v ← decode_four a b c d; w ← decode_loop rest; some (v ++ w)

-- `std::remove` of the line breaks.
pub remove_breaks : List ℕ → List ℕ
remove_breaks [] = []
remove_breaks (c ∷ s) = if c == 10 then remove_breaks s else c ∷ remove_breaks s

-- `Decode`: no bytes where `_Decode` fails.
abbrev pub bytes_of : Option (List ℕ) → List ℕ
bytes_of none = []
bytes_of (some out) = out

pub decode : List ℕ → Bool → List ℕ
unfolding decode_loop remove_breaks
decode s remove_linebreaks =
    if remove_linebreaks then bytes_of (decode_loop (remove_breaks s)) else bytes_of (decode_loop s)

-- The loop of `insertLineBreaks`, on fuel.
pub insert_loop : ℕ → ℕ → ℕ → List ℕ → Option (List ℕ)
insert_loop zero distance pos str = none
insert_loop (suc fuel) distance pos str =
    let rest =
      insert_loop fuel distance (pos + (distance + 1)) (take pos str ++ 10 ∷ drop pos str) in
    if ltb pos (length str) then rest else some str

pub insert_line_breaks : List ℕ → ℕ → Option (List ℕ)
unfolding insert_loop
insert_line_breaks str distance =
    if length str == 0 then some [] else insert_loop (suc (length str)) distance distance str

pub encode_with_pem : List ℕ → Option (List ℕ)
unfolding encode insert_line_breaks
encode_with_pem s = do ret ← encode false s; insert_line_breaks ret 64

pub encode_with_mime : List ℕ → Option (List ℕ)
unfolding encode insert_line_breaks
encode_with_mime s = do ret ← encode false s; insert_line_breaks ret 76
