-- ===== src/Hash/Md5/Padding.antt =====
-- The end of a digest in src/md5.cpp: the padding and the length, as bytes of the input.
use Prim.Native.Nat.{bit_or, digits, max, bit_or-bitwise}
use ashe.Base.{
  ℕ, zero, suc, ◌+◌, ◌-◌, ◌*◌, ◌/◌, ◌%◌, ◌^◌, ◌≤◌, ◌<◌, ◌≡◌, refl, ap, ap₂, sym, ◌∙◌, Bool-cases,
  inl, inr, List, [], ◌∷◌, ◌++◌, append_assoc, ltb, ltb→lt, if◌then◌else◌, set, length, take, drop,
  replicate, length-append, length-take, length-drop, take-append-drop, take-append_le, take_all,
  arith,
}
use ashe.Hash.Blocks.{length-memcpy}
use ashe.Hash.Xor.{up}
use ashe.Hash.Md5.{
  Words, Md5Context, words_of, md5_transform, memcpy, take_block, bytes_of, pad_block, md5_final,
}
use ashe.Hash.Md5.Stream.{feeds, core, core-short, core-block, core-next, feeds-core}

-- `0x80`, and zeros up to the place of the length.
abbrev pub padding : ℕ → List ℕ
padding count =
    0x80
    ∷ (if ltb 55 count
        then replicate (63 - count) 0 ++ replicate 56 0
        else replicate (55 - count) 0)

-- The number of bits, in the order of MD5.
abbrev pub length_bytes : ℕ → ℕ → List ℕ
length_bytes low high =
    bytes_of (low * 2 ^ 3 % 2 ^ 32) ++ bytes_of (bit_or (high * 2 ^ 3 % 2 ^ 32) (low / 2 ^ 29))

abbrev pub digest_of : Words → List ℕ
digest_of r = bytes_of r.a ++ bytes_of r.b ++ bytes_of r.c ++ bytes_of r.d

or-digits_bound : (k n a b : ℕ) → a < up k 1 → b < up k 1 → digits (λ b. b) max n a b < up k 1
or-digits_bound zero zero a b p q = q
or-digits_bound zero (suc n) zero b p q = q
or-digits_bound zero (suc n) (suc a) b p q = absurd (omega (arith, p))
or-digits_bound (suc k) zero a b p q = q
or-digits_bound (suc k) (suc n) zero b p q = q
or-digits_bound (suc k) (suc n) (suc a) b p q =
    let higher = or-digits_bound k n (suc a / 2) (b / 2) (omega (arith, p)) (omega (arith, q)) in
    omega (arith, higher)

or-bound : (a b : ℕ) → a < 2 ^ 32 → b < 2 ^ 32 → bit_or a b < 2 ^ 32
or-bound a b p q = omega (arith, bit_or-bitwise a b, or-digits_bound 32 a a b p q)

words_of-bytes_of :
    (v w : ℕ) → v < 2 ^ 32 → w < 2 ^ 32 → words_of (bytes_of v ++ bytes_of w) ≡ v ∷ w ∷ []
words_of-bytes_of v w p q = ap₂ (λ x y. x ∷ y ∷ []) (omega (arith, p)) (omega (arith, q))

set-append : (xs ys : List ℕ) (y b : ℕ) → set (xs ++ y ∷ ys) (length xs) b ≡ xs ++ b ∷ ys
set-append [] ys y b = refl
set-append (x ∷ xs) ys y b = ap (λ l. x ∷ l) (set-append xs ys y b)

memcpy-append :
    (xs bs ys : List ℕ) (pos : ℕ)
    → pos ≡ length xs
    → length ys ≡ length bs
    → memcpy pos bs (xs ++ ys) ≡ xs ++ bs
memcpy-append xs [] [] pos at same = refl
memcpy-append xs [] (y ∷ ys) pos at same = absurd (omega (arith, same))
memcpy-append xs (b ∷ bs) [] pos at same = absurd (omega (arith, same))
memcpy-append xs (b ∷ bs) (y ∷ ys) pos at same =
    ap (memcpy (pos + 1) bs) (
      ap (λ k. set (xs ++ y ∷ ys) k b) at
      ∙ set-append xs ys y b
      ∙ sym (append_assoc xs (b ∷ []) ys))
    ∙ memcpy-append (xs ++ b ∷ []) bs ys (pos + 1) (omega (arith, at, length-append xs (b ∷ [])))
        (omega (arith, same))
    ∙ append_assoc xs (b ∷ []) bs

words_of-append :
    (n : ℕ) (xs ys : List ℕ)
    → length xs ≡ 4 * n
    → (words_of (xs ++ ys) ≡ words_of xs ++ words_of ys) × (length (words_of xs) ≡ n)
words_of-append zero [] ys e = (refl, refl)
words_of-append zero (x ∷ xs) ys e = absurd (omega (arith, e))
words_of-append (suc n) (p ∷ q ∷ r ∷ s ∷ xs) ys e =
    let (split, count) = words_of-append n xs ys (omega (arith, e)) in
    (ap (λ l. (s * 2 ^ 24 + r * 2 ^ 16 + q * 2 ^ 8 + p) ∷ l) split, omega (arith, count))
words_of-append (suc n) [] ys e = absurd (omega (arith, e))
words_of-append (suc n) (p ∷ []) ys e = absurd (omega (arith, e))
words_of-append (suc n) (p ∷ q ∷ []) ys e = absurd (omega (arith, e))
words_of-append (suc n) (p ∷ q ∷ r ∷ []) ys e = absurd (omega (arith, e))

last_words :
    (v w : ℕ) (input : List ℕ)
    → v < 2 ^ 32
    → w < 2 ^ 32
    → length input ≡ 64
    → words_of (memcpy 56 (bytes_of v ++ bytes_of w) input) ≡ take 14 (words_of input) ++ v ∷ w ∷ []
last_words v w input p q full =
    let front = take 56 input in
    let back = drop 56 input in
    let lens = bytes_of v ++ bytes_of w in
    let whole = take-append-drop 56 input in
    let size : length front ≡ 4 * 14 = omega (arith, full, length-take 56 input) in
    let (ended, count) = words_of-append 14 front lens size in
    let (split, count') = words_of-append 14 front back size in
    ap (λ l. words_of (memcpy 56 lens l)) (sym whole)
    ∙ ap words_of (
        memcpy-append front lens back 56 (omega (arith, size))
          (omega (arith, full, length-drop 56 input)))
    ∙ ended
    ∙ ap₂ ◌++◌
        (sym (
          ap (λ l. take 14 (words_of l)) (sym whole)
          ∙ ap (take 14) split
          ∙ take-append_le 14 (words_of front) (words_of back) (omega (arith, count))
          ∙ take_all 14 (words_of front) (omega (arith, count))))
        (words_of-bytes_of v w p q)

core-append :
    (pos : ℕ) (xs ys : List ℕ) (buf : Words) (input : List ℕ)
    → pos + length xs < 64
    → core pos (xs ++ ys) (buf, input) ≡ core (pos + length xs) ys (core pos xs (buf, input))
core-append pos [] ys buf input few = ap (λ k. core k ys (buf, input)) (omega arith)
core-append pos (x ∷ xs) ys buf input few =
    core-next pos x (xs ++ ys) buf input (omega (arith, few))
    ∙ core-append (pos + 1) xs ys buf (set input pos x) (omega (arith, few))
    ∙ ap₂ (λ k s. core k ys s) (omega arith)
        (sym (core-next pos x xs buf input (omega (arith, few))))

length-replicate : (n b : ℕ) → length (replicate n b) ≡ n
length-replicate zero b = refl
length-replicate (suc n) b = omega (arith, length-replicate n b)

-- The padding leaves room for just the length.
core-padding :
    (ctx : Md5Context) (lens : List ℕ)
    → core (ctx.low % 64) (padding (ctx.low % 64) ++ lens) (ctx.buf, ctx.input)
      ≡ core 56 lens (pad_block ctx)
unfolding pad_block take_block
core-padding ctx lens = elim (Bool-cases (ltb 55 pos)) [
  | inl long ↦
      let more = ltb→lt 55 pos long in
      let ones : List ℕ = 0x80 ∷ replicate (63 - pos) 0 in
      let zeros : List ℕ = replicate 56 0 in
      let s = take_block pos ones (ctx.buf, ctx.input) in
      simp long (
        ap (λ l. core pos l (ctx.buf, ctx.input)) (append_assoc ones zeros lens)
        ∙ core-block pos ones (zeros ++ lens) ctx.buf ctx.input
            (omega (arith, more, length-replicate (63 - pos) 0)) (omega arith)
        ∙ core-append 0 zeros lens s.0 s.1 (omega arith)
        ∙ ap (core 56 lens) (core-short 0 zeros s.0 s.1 (omega arith)))
  | inr short ↦
      let less : pos ≤ 55 = ground (arith, short) in
      let ones : List ℕ = 0x80 ∷ replicate (55 - pos) 0 in
      let size = length-replicate (55 - pos) 0 in
      simp short (
        core-append pos ones lens ctx.buf ctx.input (omega (arith, less, size))
        ∙ ap₂ (λ k s. core k lens s) (omega (arith, less, size))
            (core-short pos ones ctx.buf ctx.input (omega (arith, less, size))))
]
  where
    pos : ℕ
    pos = ctx.low % 64

length-pad_block : (ctx : Md5Context) → length (pad_block ctx).1 ≡ length ctx.input
unfolding pad_block
length-pad_block ctx = elim (Bool-cases (ltb 55 pos)) [
  | inl long ↦ simp long (
      length-memcpy (replicate 56 0) 0
        (memcpy (pos + 1) (replicate (64 - 1 - pos) 0) (memcpy pos (0x80 ∷ []) ctx.input))
      ∙ length-memcpy (replicate (64 - 1 - pos) 0) (pos + 1) (memcpy pos (0x80 ∷ []) ctx.input)
      ∙ length-memcpy (0x80 ∷ []) pos ctx.input)
  | inr short ↦ simp short (
      length-memcpy (replicate (56 - 1 - pos) 0) (pos + 1) (memcpy pos (0x80 ∷ []) ctx.input)
      ∙ length-memcpy (0x80 ∷ []) pos ctx.input)
]
  where
    pos : ℕ
    pos = ctx.low % 64

-- The last block of all.
core-length :
    (v w : ℕ) (buf : Words) (input : List ℕ)
    → v < 2 ^ 32
    → w < 2 ^ 32
    → length input ≡ 64
    → (core 56 (bytes_of v ++ bytes_of w) (buf, input)).0
      ≡ md5_transform buf (take 14 (words_of input) ++ v ∷ w ∷ [])
unfolding take_block
core-length v w buf input p q full =
    ap (λ (s : Words × List ℕ). s.0)
      (core-block 56 (bytes_of v ++ bytes_of w) [] buf input refl (omega arith))
    ∙ ap (md5_transform buf) (last_words v w input p q full)

pub md5_final-feeds :
    (ctx : Md5Context)
    → ctx.low < 2 ^ 32
    → ctx.high < 2 ^ 32
    → length ctx.input ≡ 64
    → md5_final ctx
      ≡ digest_of (feeds ctx (padding (ctx.low % 64) ++ length_bytes ctx.low ctx.high)).buf
unfolding md5_final
md5_final-feeds ctx p q full =
    let v = ctx.low * 2 ^ 3 % 2 ^ 32 in
    let w = bit_or (ctx.high * 2 ^ 3 % 2 ^ 32) (ctx.low / 2 ^ 29) in
    let lens = length_bytes ctx.low ctx.high in
    let small_w =
      or-bound (ctx.high * 2 ^ 3 % 2 ^ 32) (ctx.low / 2 ^ 29) (omega arith) (omega (arith, p)) in
    let size = length-pad_block ctx ∙ full in
    ap digest_of (
      sym (
        ap (λ (c : Md5Context). c.buf)
          (feeds-core (padding (ctx.low % 64) ++ lens) ctx.buf ctx.low ctx.high ctx.input p q)
        ∙ ap (λ (s : Words × List ℕ). s.0) (core-padding ctx lens)
        ∙ core-length v w (pad_block ctx).0 (pad_block ctx).1 (omega arith) small_w size))
