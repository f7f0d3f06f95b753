-- ===== src/Codec/Base64/RoundTrip.antt =====
-- `Decode` of `Encode` with either alphabet, and through the line breaks of PEM and MIME.
use ashe.Base.{
  ℕ, zero, suc, ◌+◌, ◌-◌, ◌*◌, ◌/◌, ◌%◌, ◌<◌, ◌≡◌, refl, ap, ap₂, sym, ◌∙◌, Bool, true, false, List,
  [], ◌∷◌, ◌++◌, Option, some, ltb, ◌==◌, ◌>>=◌, length, arith, IsBytes, All, Bool-cases, inl, inr,
  length-append, drop-drop, drop_all, ltb→lt, ◌^◌, ◌≤◌, none, take, drop, take-append-drop,
  length-take, length-drop,
}
use ashe.Codec.Base64.{
  char_at, trailing_char, is_padding, encode_chunk, encode_loop, encode, decode_two, decode_three,
  decode_four, decode_loop, remove_breaks, decode, insert_loop, insert_line_breaks, encode_with_pem,
  encode_with_mime, first_byte, second_byte, third_byte,
}
use ashe.Codec.Base64.Bits.{
  IsChar, char_at-IsChar, mask_fc, mask_03, mask_f0, mask_0f, mask_c0, mask_3f, first_byte-eq,
  second_byte-eq, third_byte-eq,
}

-- The text of an encoding.
unfoldable encoded : Bool → List ℕ → List ℕ
unfolding encode_chunk
encoded url [] = []
encoded url (a ∷ []) = encode_chunk url (a ∷ [])
encoded url (a ∷ b ∷ []) = encode_chunk url (a ∷ b ∷ [])
encoded url (a ∷ b ∷ c ∷ rest) = encode_chunk url (a ∷ b ∷ c ∷ rest) ++ encoded url rest

encoded-chunk :
    (url : Bool) (d : List ℕ) → encode_chunk url d ++ encoded url (drop 3 d) ≡ encoded url d
unfolding encoded
encoded-chunk url [] = refl
encoded-chunk url (a ∷ []) = refl
encoded-chunk url (a ∷ b ∷ []) = refl
encoded-chunk url (a ∷ b ∷ c ∷ rest) = refl

-- A position is a multiple of three, so that it does not wrap around below 2 ^ 32 bytes.
encode_loop-encoded :
    (n : ℕ) (url : Bool) (pos : ℕ) (bytes : List ℕ)
    → length bytes < 2 ^ 32
    → pos % 3 ≡ 0
    → pos ≤ length bytes + 2
    → length bytes + 2 < pos + n
    → encode_loop n url pos bytes ≡ some (encoded url (drop pos bytes))
unfolding encode_loop
encode_loop-encoded zero url pos bytes small third near enough =
    absurd (omega (arith, near, enough))
encode_loop-encoded (suc n) url pos bytes small third near enough =
    elim (Bool-cases (ltb pos (length bytes))) [
      | inl more ↦
          let inside = ltb→lt pos (length bytes) more in
          let next : (pos + 3) % 2 ^ 32 ≡ pos + 3 = omega (arith, inside, small, third) in
          simp more (
            ap
              (λ k.
                encode_loop n url k bytes
                >>= (λ out. some (encode_chunk url (drop pos bytes) ++ out)))
              next
            ∙ ap (λ o. o >>= (λ out. some (encode_chunk url (drop pos bytes) ++ out)))
                (encode_loop-encoded n url (pos + 3) bytes small (omega (arith, third))
                  (omega (arith, inside)) (omega (arith, enough)))
            ∙ ap (λ d. some (encode_chunk url (drop pos bytes) ++ encoded url d))
                (sym (drop-drop 3 pos bytes))
            ∙ ap some (encoded-chunk url (drop pos bytes)))
      | inr done ↦
          let past : drop pos bytes ≡ [] = drop_all pos bytes (ground (arith, done)) in
          simp (done, past) (unfold encoded in refl)
    ]

encode-encoded :
    (url : Bool) (bytes : List ℕ)
    → length bytes < 2 ^ 32
    → encode url bytes ≡ some (encoded url bytes)
unfolding encode
encode-encoded url bytes small =
    encode_loop-encoded (length bytes + 3) url 0 bytes small refl (omega arith) (omega arith)

module _ (url : Bool) where
  abbrev char : ℕ → ℕ
  char = char_at url

  trailing_padding : is_padding (trailing_char url) ≡ true
  trailing_padding = elim url as (λ u. is_padding (trailing_char u) ≡ true) [
    | true ↦ refl
    | false ↦ refl
  ]

  trailing_line : (trailing_char url == 10) ≡ false
  trailing_line = elim url as (λ u. (trailing_char u == 10) ≡ false) [ true ↦ refl | false ↦ refl ]

  decode_four-chars :
      (p0 p1 p2 p3 : ℕ)
      → IsChar url p0
      → IsChar url p1
      → IsChar url p2
      → IsChar url p3
      → decode_four (char p0) (char p1) (char p2) (char p3)
        ≡ some (first_byte p0 p1 ∷ second_byte p1 p2 ∷ third_byte p2 p3 ∷ [])
  unfolding decode_four
  decode_four-chars p0 p1 p2 p3 c0 c1 c2 c3 =
      rw (c2.text, c3.text) (rw (c0.pos, c1.pos, c2.pos, c3.pos))

  decode_four-three :
      (p0 p1 p2 : ℕ)
      → IsChar url p0
      → IsChar url p1
      → IsChar url p2
      → decode_four (char p0) (char p1) (char p2) (trailing_char url)
        ≡ some (first_byte p0 p1 ∷ second_byte p1 p2 ∷ [])
  unfolding decode_four decode_three
  decode_four-three p0 p1 p2 c0 c1 c2 = rw (c2.text, trailing_padding) (rw (c0.pos, c1.pos, c2.pos))

  decode_four-two :
      (p0 p1 : ℕ)
      → IsChar url p0
      → IsChar url p1
      → decode_four (char p0) (char p1) (trailing_char url) (trailing_char url)
        ≡ some (first_byte p0 p1 ∷ [])
  unfolding decode_four decode_three decode_two
  decode_four-two p0 p1 c0 c1 = rw trailing_padding (rw (c0.pos, c1.pos))

  ch : (i : ℕ) → i < 64 → IsChar url i
  ch i h = char_at-IsChar url i h

  -- The characters of each round, by division.
  encode-one :
      (a : ℕ)
      → a < 256
      → encoded url (a ∷ [])
        ≡ char (a / 4) ∷ char (a % 4 * 16) ∷ trailing_char url ∷ trailing_char url ∷ []
  unfolding encoded
  encode-one a h = rw (mask_fc a h, mask_03 a h)

  encode-two :
      (a b : ℕ)
      → a < 256
      → b < 256
      → encoded url (a ∷ b ∷ [])
        ≡ char (a / 4) ∷ char (a % 4 * 16 + b / 16) ∷ char (b % 16 * 4) ∷ trailing_char url ∷ []
  unfolding encoded
  encode-two a b h k = rw (mask_fc a h, mask_03 a h, mask_f0 b k, mask_0f b k)

  encode-three :
      (a b c : ℕ) (rest : List ℕ)
      → a < 256
      → b < 256
      → c < 256
      → encoded url (a ∷ b ∷ c ∷ rest)
        ≡ char (a / 4)
          ∷ char (a % 4 * 16 + b / 16)
          ∷ char (b % 16 * 4 + c / 64)
          ∷ char (c % 64)
          ∷ encoded url rest
  unfolding encoded
  encode-three a b c rest h k l =
      rw (mask_fc a h, mask_03 a h, mask_f0 b k, mask_0f b k, mask_c0 c l, mask_3f c l)

  -- A chunk in front of the rest.
  decode_loop-chunk :
      (w x y z : ℕ) (rest v : List ℕ)
      → decode_four w x y z ≡ some v
      → decode_loop (w ∷ x ∷ y ∷ z ∷ rest) ≡ (decode_loop rest >>= λ u. some (v ++ u))
  decode_loop-chunk w x y z rest v h = unfold decode_loop in rw (h, decode_loop)

  decode_loop-encode : (s : List ℕ) → IsBytes s → decode_loop (encoded url s) ≡ some s
  decode_loop-encode [] v = unfold encoded decode_loop in refl
  decode_loop-encode (a ∷ []) v =
      ap decode_loop (encode-one a v.0)
      ∙ decode_loop-chunk _ _ _ _ [] _
          (decode_four-two (a / 4) (a % 4 * 16) (ch _ (omega arith)) (ch _ (omega arith)))
      ∙ done
    where
      last : first_byte (a / 4) (a % 4 * 16) ≡ a
      last =
          let e : a % 4 * 16 ≡ a % 4 * 16 + 0 = omega arith in
          rw e (first_byte-eq a 0 v.0 (omega arith))

      done :
          (decode_loop [] >>= λ u. some ((first_byte (a / 4) (a % 4 * 16) ∷ []) ++ u))
          ≡ some (a ∷ [])
      done = unfold decode_loop in ap (λ x. some (x ∷ [])) last
  decode_loop-encode (a ∷ b ∷ []) v =
      ap decode_loop (encode-two a b v.0 v.1.0)
      ∙ decode_loop-chunk _ _ _ _ [] _ (
          decode_four-three (a / 4) p1 (b % 16 * 4) (ch _ (omega arith)) (ch _ (omega arith))
            (ch _ (omega arith)))
      ∙ done
    where
      p1 : ℕ
      p1 = a % 4 * 16 + b / 16

      last : second_byte p1 (b % 16 * 4) ≡ b
      last =
          let e : b % 16 * 4 ≡ b % 16 * 4 + 0 = omega arith in
          rw e (second_byte-eq (a % 4) b 0 (omega arith) v.1.0 (omega arith))

      done :
          (decode_loop [] >>= λ u.
          some ((first_byte (a / 4) p1 ∷ second_byte p1 (b % 16 * 4) ∷ []) ++ u))
          ≡ some (a ∷ b ∷ [])
      done =
          unfold decode_loop in
          ap₂ (λ x y. some (x ∷ y ∷ [])) (first_byte-eq a (b / 16) v.0 (omega arith)) last
  decode_loop-encode (a ∷ b ∷ c ∷ rest) v =
      ap decode_loop (encode-three a b c rest v.0 v.1.0 v.1.1.0)
      ∙ decode_loop-chunk _ _ _ _ (encoded url rest) _ (
          decode_four-chars (a / 4) p1 p2 (c % 64) (ch _ (omega arith)) (ch _ (omega arith))
            (ch _ (omega arith)) (ch _ (omega arith)))
      ∙ rw (decode_loop-encode rest v.1.1.1, one, two, three)
    where
      p1 : ℕ
      p1 = a % 4 * 16 + b / 16

      p2 : ℕ
      p2 = b % 16 * 4 + c / 64

      one : first_byte (a / 4) p1 ≡ a
      one = first_byte-eq a (b / 16) v.0 (omega (arith, v.1.0))

      two : second_byte p1 p2 ≡ b
      two = second_byte-eq (a % 4) b (c / 64) (omega arith) v.1.0 (omega (arith, v.1.1.0))

      three : third_byte p2 (c % 64) ≡ c
      three = third_byte-eq (b % 16) c (omega arith) v.1.1.0

  line : (i : ℕ) → i < 64 → (char i == 10) ≡ false
  line i h = (ch i h).line

  -- The text of an encoding holds no line break.
  encode_lines : (s : List ℕ) → IsBytes s → All (λ c. (c == 10) ≡ false) (encoded url s)
  encode_lines [] v = unfold encoded in tt
  encode_lines (a ∷ []) v =
      rw (encode-one a v.0)
        (line _ (omega arith), (line _ (omega arith), (trailing_line, (trailing_line, tt))))
  encode_lines (a ∷ b ∷ []) v =
      let (h, (k, _)) = v in
      rw (encode-two a b h k)
        (line _ (omega arith), (line _ (omega arith), (line _ (omega arith), (trailing_line, tt))))
  encode_lines (a ∷ b ∷ c ∷ rest) v =
      let (h, (k, (l, more))) = v in
      rw (encode-three a b c rest h k l) (
        line _ (omega arith),
        (
          line _ (omega arith),
          (line _ (omega arith), (line _ (omega arith), encode_lines rest more)),
        ),
      )

-- Any bytes, fewer than 2 ^ 32, are encoded with either alphabet (the loop ends), and decoding the
-- text gives them back.
pub decode-encode :
    (url : Bool) (s : List ℕ)
    → IsBytes s
    → length s < 2 ^ 32
    → (text : List ℕ) × (encode url s ≡ some text) × (decode text false ≡ s)
unfolding decode
decode-encode url s v small =
    (encoded url s, encode-encoded url s small, rw (decode_loop-encode url s v))

remove_breaks-append : (s t : List ℕ) → remove_breaks (s ++ t) ≡ remove_breaks s ++ remove_breaks t
unfolding remove_breaks
remove_breaks-append [] t = refl
remove_breaks-append (c ∷ s) t = ground (arith, remove_breaks-append s t)

remove_breaks_none : (s : List ℕ) → All (λ c. (c == 10) ≡ false) s → remove_breaks s ≡ s
unfolding remove_breaks
remove_breaks_none [] h = refl
remove_breaks_none (c ∷ s) h = rw h.0 (ap (◌∷◌ c) (remove_breaks_none s h.1))

remove_breaks-break : (s : List ℕ) → remove_breaks (10 ∷ s) ≡ remove_breaks s
unfolding remove_breaks
remove_breaks-break s = refl

insert_loop-breaks :
    (fuel distance pos : ℕ) (s : List ℕ)
    → 0 < distance
    → length s - pos < fuel
    → (r : List ℕ) × (insert_loop fuel distance pos s ≡ some r)
      × (remove_breaks r ≡ remove_breaks s)
unfolding insert_loop
insert_loop-breaks zero distance pos s h lt = absurd (omega arith)
insert_loop-breaks (suc fuel) distance pos s h lt = elim (Bool-cases (ltb pos (length s))) [
  | inr f ↦ (s, rw f, refl)
  | inl t ↦
      let (r, e, k) =
        insert_loop-breaks fuel distance (pos + (distance + 1)) (take pos s ++ 10 ∷ drop pos s) h
          (shrinks t) in
      (r, rw t e, k ∙ same)
]
  where
    shrinks :
        ltb pos (length s) ≡ true
        → length (take pos s ++ 10 ∷ drop pos s) - (pos + (distance + 1)) < fuel
    shrinks t =
        ground (
          arith,
          length-append (take pos s) (10 ∷ drop pos s),
          length-take pos s,
          length-drop pos s,
        )

    same : remove_breaks (take pos s ++ 10 ∷ drop pos s) ≡ remove_breaks s
    same =
        remove_breaks-append (take pos s) (10 ∷ drop pos s)
        ∙ ap (◌++◌ (remove_breaks (take pos s))) (remove_breaks-break (drop pos s))
        ∙ sym (remove_breaks-append (take pos s) (drop pos s))
        ∙ ap remove_breaks (take-append-drop pos s)

insert_line_breaks-breaks :
    (s : List ℕ) (distance : ℕ)
    → 0 < distance
    → (r : List ℕ) × (insert_line_breaks s distance ≡ some r) × (remove_breaks r ≡ remove_breaks s)
unfolding insert_line_breaks
insert_line_breaks-breaks [] distance h = ([], refl, refl)
insert_line_breaks-breaks (c ∷ s) distance h =
    let (r, e, k) =
      insert_loop-breaks (suc (length (c ∷ s))) distance distance (c ∷ s) h (omega arith) in
    let t : (suc (length s) == 0) ≡ false = ground arith in (r, rw t e, k)

-- The PEM and the MIME encoding of any bytes, fewer than 2 ^ 32, return, and decoding either with its line breaks
-- removed gives the bytes back.
decode-lines :
    (s : List ℕ)
    → IsBytes s
    → length s < 2 ^ 32
    → ((r : List ℕ) × (encode_with_pem s ≡ some r) × (decode r true ≡ s))
      × ((r : List ℕ) × (encode_with_mime s ≡ some r) × (decode r true ≡ s))
unfolding encode_with_pem encode_with_mime
decode-lines s v small = (
  rw (encode-encoded false s small)
      (back (insert_line_breaks-breaks (encoded false s) 64 (omega arith))),
  rw (encode-encoded false s small)
      (back (insert_line_breaks-breaks (encoded false s) 76 (omega arith))),
)
  where
    back :
        {o : Option (List ℕ)}
        → (r : List ℕ) × (o ≡ some r) × (remove_breaks r ≡ remove_breaks (encoded false s))
        → (r : List ℕ) × (o ≡ some r) × (decode r true ≡ s)
    back (r, e, k) =
        let plain = remove_breaks_none (encoded false s) (encode_lines false s v) in
        (r, e, (unfold decode in rw (k, plain, decode_loop-encode false s v)))

-- With 2 ^ 32 bytes or more, and from any position below 2 ^ 32, as the loop starts with 0, the
-- encoding loop does not end: no number of rounds is enough, since the position wraps around.
pub encode_loop-endless :
    (n : ℕ) (url : Bool) (pos : ℕ) (bytes : List ℕ)
    → 2 ^ 32 ≤ length bytes
    → pos < 2 ^ 32
    → encode_loop n url pos bytes ≡ none
unfolding encode_loop
encode_loop-endless zero url pos bytes large inside = refl
encode_loop-endless (suc n) url pos bytes large inside =
    let more : ltb pos (length bytes) ≡ true = ground (arith, large, inside) in
    simp more (
      ap (λ o. o >>= (λ out. some (encode_chunk url (drop pos bytes) ++ out)))
        (encode_loop-endless n url ((pos + 3) % 2 ^ 32) bytes large (omega arith)))
