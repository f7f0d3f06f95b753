-- ===== src/Codec/Url/RoundTrip.antt =====
-- `UrlDecode` of `UrlEncode`, the bounds of the decoder's buffer, and what encoded text holds.
use ashe.Base.{
  ℕ, ◌+◌, ◌-◌, ◌*◌, ◌/◌, ◌%◌, ◌≤◌, ◌<◌, ◌^◌, ◌≡◌, refl, ap, ◌∙◌, Bool, true, false, ◌||◌, List, [],
  ◌∷◌, ◌++◌, Option, none, some, ltb, ◌==◌, length, arith, IsBytes, All, All-append, all_below,
  all_below_sound, Bool-cases, inl, inr, get_or, length-append,
}
use ashe.Codec.Hex.{to_size, decode_pair}
use ashe.Codec.Url.{
  is_plain, encode_byte, upper_hex, url_encode, decode_loop, url_decode_into, url_decode_size,
  url_decode,
}

abbrev digit : ℕ → ℕ
digit n = get_or upper_hex n 0

abbrev is_value : ℕ → Option ℕ → Bool
is_value v none = false
is_value v (some w) = w == v

is_value-eq : (v : ℕ) (o : Option ℕ) → is_value v o ≡ true → o ≡ some v
is_value-eq v none h = cc
is_value-eq v (some w) h = ground arith

byte_table : all_below 256 (λ c. is_value c (decode_pair (digit (c / 16)) (digit (c % 16)))) ≡ true
unfolding all_below decode_pair
byte_table = refl

decode_pair-digits : (c : ℕ) → c < 256 → decode_pair (digit (c / 16)) (digit (c % 16)) ≡ some c
decode_pair-digits c h = is_value-eq c _ (
    all_below_sound 256 (λ x. is_value x (decode_pair (digit (x / 16)) (digit (x % 16)))) c
      byte_table h)

-- A plain character is copied, whatever follows.
decode_loop-plain :
    (room c : ℕ) (rest : List ℕ)
    → 1 < room
    → is_plain c ≡ true
    → decode_loop room (c ∷ rest) ≡ c ∷ decode_loop (room - 1) rest
unfolding decode_loop is_plain
decode_loop-plain room c [] h p = ground arith
decode_loop-plain room c (a ∷ []) h p = ground arith
decode_loop-plain room c (a ∷ b ∷ rest) h p = ground arith

decode_loop-coded :
    (room a b v : ℕ) (rest : List ℕ)
    → 1 < room
    → decode_pair a b ≡ some v
    → decode_loop room (b'%' ∷ a ∷ b ∷ rest) ≡ v ∷ decode_loop (room - 1) rest
unfolding decode_loop
decode_loop-coded room a b v rest h p = let t : ltb 1 room ≡ true = ground arith in rw (t, p)

decode_loop-byte :
    (room c : ℕ) (rest : List ℕ)
    → 1 < room
    → c < 256
    → decode_loop room (encode_byte c ++ rest) ≡ c ∷ decode_loop (room - 1) rest
unfolding encode_byte
decode_loop-byte room c rest h b = elim (Bool-cases (is_plain c)) [
  | inl t ↦ rw t (decode_loop-plain room c rest h t)
  | inr f ↦ rw f (decode_loop-coded room _ _ c rest h (decode_pair-digits c b))
]

url_encode-cons : (c : ℕ) (s : List ℕ) → url_encode (c ∷ s) ≡ encode_byte c ++ url_encode s
unfolding url_encode
url_encode-cons c s = refl

decode_loop-url_encode :
    (room : ℕ) (s : List ℕ) → IsBytes s → length s < room → decode_loop room (url_encode s) ≡ s
decode_loop-url_encode room [] b h = unfold url_encode decode_loop in refl
decode_loop-url_encode room (c ∷ s) b h =
    ap (decode_loop room) (url_encode-cons c s)
    ∙ decode_loop-byte room c (url_encode s) (omega arith) b.0
    ∙ ap (◌∷◌ c) (decode_loop-url_encode (room - 1) s b.1 (omega arith))

length-encode_byte : (c : ℕ) → 0 < length (encode_byte c)
unfolding encode_byte
length-encode_byte c = ground arith

length-url_encode : (s : List ℕ) → length s ≤ length (url_encode s)
unfolding url_encode
length-url_encode [] = omega arith
length-url_encode (c ∷ s) =
    omega (
      arith,
      length-url_encode s,
      length-append (encode_byte c) (url_encode s),
      length-encode_byte c,
    )

pub length-url_encode_le : (s : List ℕ) → length (url_encode s) ≤ 3 * length s
unfolding url_encode encode_byte
length-url_encode_le [] = omega arith
length-url_encode_le (c ∷ s) =
    ground (arith, length-url_encode_le s, length-append (encode_byte c) (url_encode s))

-- `UrlDecode` gives back what `UrlEncode` made from any bytes, where the allocation succeeds and
-- the encoded text with a null byte fits `size_t`.
pub url_decode-url_encode :
    (s : List ℕ)
    → IsBytes s
    → length (url_encode s) + 1 < 2 ^ 64
    → url_decode true (url_encode s) ≡ s
unfolding url_decode url_decode_into url_decode_size
url_decode-url_encode s b h =
    let n = length-url_encode s in
    let t : (to_size (length (url_encode s) + 1) == 0) ≡ false = ground arith in
    rw t (decode_loop-url_encode (to_size (length (url_encode s) + 1)) s b (omega (arith, n)))

decode_loop-fits : (room : ℕ) (s : List ℕ) → 0 < room → length (decode_loop room s) + 1 ≤ room
unfolding decode_loop
decode_loop-fits room [] h = omega arith
decode_loop-fits room (c ∷ []) h = ground arith
decode_loop-fits room (c ∷ a ∷ []) h = ground arith
decode_loop-fits room (c ∷ a ∷ b ∷ s) h =
    ground (arith, decode_loop-fits (room - 1) (a ∷ b ∷ s), decode_loop-fits (room - 1) s)

decode_loop-short : (room : ℕ) (s : List ℕ) → length (decode_loop room s) ≤ length s
unfolding decode_loop
decode_loop-short room [] = omega arith
decode_loop-short room (c ∷ []) = ground arith
decode_loop-short room (c ∷ a ∷ []) = ground arith
decode_loop-short room (c ∷ a ∷ b ∷ s) =
    ground (arith, decode_loop-short (room - 1) (a ∷ b ∷ s), decode_loop-short (room - 1) s)

digit_table : all_below 16 (λ n. is_plain (digit n)) ≡ true
unfolding all_below is_plain
digit_table = refl

byte_plain : (c : ℕ) → c < 256 → All (λ x. (is_plain x || x == b'%') ≡ true) (encode_byte c)
unfolding encode_byte
byte_plain c h = ground (
  arith,
  all_below_sound 16 (λ n. is_plain (digit n)) (c / 16) digit_table,
  all_below_sound 16 (λ n. is_plain (digit n)) (c % 16) digit_table,
)

-- Decoding to a buffer of at least one byte never writes past it, the null byte included, and the
-- text is never longer than the source.
pub url_decode_into-fits :
    (buflen : ℕ) (s : List ℕ)
    → 0 < buflen
    → (length (url_decode_into buflen s) + 1 ≤ buflen)
      × (length (url_decode_into buflen s) ≤ length s)
unfolding url_decode_into
url_decode_into-fits buflen s h =
    let t : (buflen == 0) ≡ false = ground arith in
    rw t (decode_loop-fits buflen s h, decode_loop-short buflen s)

-- The encoding of any bytes is made of characters that a URL may hold as they are, and the percent
-- sign.
url_encode-plain :
    (s : List ℕ) → IsBytes s → All (λ c. (is_plain c || c == b'%') ≡ true) (url_encode s)
unfolding url_encode
url_encode-plain [] b = tt
url_encode-plain (c ∷ s) b =
    All-append (λ x. (is_plain x || x == b'%') ≡ true) (encode_byte c) (url_encode s)
      (byte_plain c b.0) (url_encode-plain s b.1)
