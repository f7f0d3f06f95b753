-- ===== src/Codec/Hex/RoundTrip.antt =====
-- Decoding what was encoded, with and without a delimiter, and what fits the buffers.
use Prim.Native.Nat.{bit_and}
use ashe.Base.{
  ℕ, suc, ◌+◌, ◌-◌, ◌*◌, ◌/◌, ◌≤◌, ◌<◌, ◌^◌, ◌≡◌, refl, ap, sym, ◌∙◌, Bool, true, false, not, ◌&&◌,
  List, [], ◌∷◌, Option, none, some, ltb, ◌==◌, if◌then◌else◌, ◌>>=◌, length, arith, IsBytes,
  all_below, all_below_sound, Bool-cases, inl, inr,
}
use ashe.Codec.Hex.{
  to_size, hex_encode_digit, encode_loop, hex_encode_into, hex_encode_with_delimiter, hex_encode,
  decode_pair, decode_loop, hex_decode_into, hex_decode,
}

abbrev high : ℕ → ℕ
high ch = hex_encode_digit (bit_and (ch / 16) 0xf)

abbrev low : ℕ → ℕ
low ch = hex_encode_digit (bit_and ch 0xf)

abbrev is_value : ℕ → Option ℕ → Bool
is_value v none = false
is_value v (some w) = w == v

is_value-eq : (v : ℕ) (o : Option ℕ) → is_value v o ≡ true → o ≡ some v
is_value-eq v none h = cc
is_value-eq v (some w) h = ground arith

byte_table : all_below 256 (λ ch. is_value ch (decode_pair (high ch) (low ch))) ≡ true
unfolding all_below hex_encode_digit decode_pair
byte_table = refl

-- The two digits of a byte give the byte back.
decode_pair-digits : (ch : ℕ) → ch < 256 → decode_pair (high ch) (low ch) ≡ some ch
decode_pair-digits ch h =
    is_value-eq ch _
      (all_below_sound 256 (λ c. is_value c (decode_pair (high c) (low c))) ch byte_table h)

-- The length of the text.
encode_loop-length :
    (d : ℕ) (s : List ℕ)
    → length (encode_loop d s) ≡ (if not (d == 0) then length s * 3 - 1 else length s * 2)
unfolding encode_loop
encode_loop-length d [] = ground arith
encode_loop-length d (c ∷ []) = ground arith
encode_loop-length d (c ∷ e ∷ s) = ground (arith, encode_loop-length d (e ∷ s))

-- A pair that another pair follows, behind the delimiter if there is one.
decode_loop-pair :
    (d a b v x y : ℕ) (r : List ℕ)
    → decode_pair a b ≡ some v
    → decode_loop d (a ∷ b ∷ (if not (d == 0) then d ∷ x ∷ y ∷ r else x ∷ y ∷ r))
      ≡ (decode_loop d (x ∷ y ∷ r) >>= λ w. some (v ∷ w))
decode_loop-pair d a b v x y r h = elim (Bool-cases (d == 0)) [
  | inl t ↦ rw t (unfold decode_loop in rw (h, decode_loop) (rw t))
  | inr f ↦ rw f (unfold decode_loop in rw (h, decode_loop) (ground arith))
]

-- What follows the digits of a byte.
abbrev tail_of : ℕ → List ℕ → List ℕ
tail_of d s = if not (d == 0) && ltb 0 (length s) then d ∷ encode_loop d s else encode_loop d s

encode_loop-cons : (d c : ℕ) (s : List ℕ) → encode_loop d (c ∷ s) ≡ high c ∷ low c ∷ tail_of d s
unfolding encode_loop
encode_loop-cons d c s = refl

encode_loop-cons_cons :
    (d c e : ℕ) (s : List ℕ)
    → encode_loop d (c ∷ e ∷ s)
      ≡ high c
        ∷ low c
        ∷ (if not (d == 0) then d ∷ high e ∷ low e ∷ tail_of d s else high e ∷ low e ∷ tail_of d s)
unfolding encode_loop
encode_loop-cons_cons d c e s =
    let t : ltb 0 (suc (length s)) ≡ true = ground arith in
    elim (Bool-cases (d == 0)) [ inl z ↦ rw z | inr z ↦ rw (z, t) ]

decode_loop-encode_loop :
    (d : ℕ) (s : List ℕ) → IsBytes s → decode_loop d (encode_loop d s) ≡ some s
decode_loop-encode_loop d [] b = unfold decode_loop encode_loop in refl
decode_loop-encode_loop d (c ∷ []) b = ap (decode_loop d) last ∙ single
  where
    last : encode_loop d (c ∷ []) ≡ high c ∷ low c ∷ []
    last = unfold encode_loop in ground arith

    single : decode_loop d (high c ∷ low c ∷ []) ≡ some (c ∷ [])
    single = unfold decode_loop in rw (decode_pair-digits c b.0, decode_loop)
decode_loop-encode_loop d (c ∷ e ∷ s) b =
    ap (decode_loop d) (encode_loop-cons_cons d c e s)
    ∙ decode_loop-pair d (high c) (low c) c (high e) (low e) (tail_of d s)
        (decode_pair-digits c b.0)
    ∙ ap (λ (o : Option (List ℕ)). o >>= λ w. some (c ∷ w))
        (sym (ap (decode_loop d) (encode_loop-cons d e s)) ∙ decode_loop-encode_loop d (e ∷ s) b.1)

-- Encoding to a buffer of at least one byte never writes past it, the null byte included, whether
-- there is room for the text or nothing is written; three times the source is to fit `size_t`.
hex_encode_into-fits :
    (buflen : ℕ) (s : List ℕ) (d : ℕ)
    → 0 < buflen
    → length s * 3 < 2 ^ 64
    → length (hex_encode_into buflen s d) + 1 ≤ buflen
unfolding hex_encode_into
hex_encode_into-fits buflen s d pos h = ground (arith, encode_loop-length d s)

hex_encode_into-all :
    (s : List ℕ) (d : ℕ)
    → length s * 3 < 2 ^ 64
    → hex_encode_into (to_size (length s * 3)) s d ≡ encode_loop d s
unfolding hex_encode_into
hex_encode_into-all [] d h = unfold encode_loop in refl
hex_encode_into-all (c ∷ s) d h = ground arith

hex_decode_into-loop :
    (s : List ℕ) (d buflen : ℕ)
    → IsBytes s
    → length s * 3 < 2 ^ 64
    → 0 < buflen
    → length s ≤ buflen
    → hex_decode_into buflen (encode_loop d s) d ≡ some s
unfolding hex_decode_into
hex_decode_into-loop s d buflen b h pos fits =
    ground (arith, encode_loop-length d s, decode_loop-encode_loop d s b)

-- Bytes encoded with a delimiter, or with none where `d` is 0, are decoded with it to what they
-- were, into any buffer that is not empty and has room for them, where the allocation succeeds and
-- three times their number fits `size_t`.
pub hex_decode_into-encode :
    (s : List ℕ) (d buflen : ℕ)
    → IsBytes s
    → length s * 3 < 2 ^ 64
    → 0 < buflen
    → length s ≤ buflen
    → hex_decode_into buflen (hex_encode_with_delimiter true s d) d ≡ some s
unfolding hex_encode_with_delimiter
hex_decode_into-encode s d buflen b h pos fits =
    rw (hex_encode_into-all s d h) (hex_decode_into-loop s d buflen b h pos fits)

-- `HexDecode` of `HexEncode` gives any bytes back, where both allocations succeed and three times
-- their number fits `size_t`.
hex_decode-hex_encode :
    (s : List ℕ) → IsBytes s → length s * 3 < 2 ^ 64 → hex_decode true (hex_encode true s) ≡ s
unfolding hex_decode hex_encode hex_encode_with_delimiter
hex_decode-hex_encode s b h = rw (hex_encode_into-all s 0 h) (go s b h)
  where
    go : (s : List ℕ) → IsBytes s → length s * 3 < 2 ^ 64 → hex_decode true (encode_loop 0 s) ≡ s
    go [] b h = unfold hex_decode encode_loop in refl
    go (c ∷ s) b h =
        let n = encode_loop-length 0 (c ∷ s) in
        let f : (length (encode_loop 0 (c ∷ s)) == 0) ≡ false = ground (arith, n) in
        rw f (
          rw (
            hex_decode_into-loop (c ∷ s) 0 (length (encode_loop 0 (c ∷ s))) b h (omega (arith, n))
              (omega (arith, n))))
