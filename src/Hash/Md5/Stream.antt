-- ===== src/Hash/Md5/Stream.antt =====
-- The buffering of src/md5.cpp against an input that comes byte by byte.
use ashe.Base.{
  ℕ, zero, suc, ◌+◌, ◌-◌, ◌/◌, ◌%◌, ◌^◌, ◌≤◌, ◌<◌, ◌≡◌, ◌≢◌, refl, ap, ap₂, sym, subst, ◌∙◌, Bool,
  true, false, Bool-cases, inl, inr, List, [], ◌∷◌, ◌++◌, Option, some, ◌==◌, ==_iff, ltb, ltb→lt,
  if◌then◌else◌, ◌>>=◌, set, length, take, drop, length-take, length-drop, take-append-drop, arith,
}
use ashe.Hash.Md5.{
  Words, Md5Context, words_of, md5_transform, memcpy, take_block, chunks, md5_update,
}

-- A byte goes to its place in `in`; the last one of a block has it transformed.
abbrev pub feed : Md5Context → ℕ → Md5Context
feed ctx b =
    let pos = ctx.low % 64 in
    let low = (ctx.low + 1) % 2 ^ 32 in
    let input = set ctx.input pos b in
    record {
      buf = if pos == 63 then md5_transform ctx.buf (words_of input) else ctx.buf;
      low = low;
      high = if low == 0 then (ctx.high + 1) % 2 ^ 32 else ctx.high;
      input = input;
    }

abbrev pub feeds : Md5Context → List ℕ → Md5Context
feeds ctx [] = ctx
feeds ctx (b ∷ bs) = feeds (feed ctx b) bs

-- The same without the counts, from a position on.
abbrev pub core : ℕ → List ℕ → Words × List ℕ → Words × List ℕ
core pos [] s = s
core pos (b ∷ bs) (buf, input) =
    let here = set input pos b in
    core (if pos == 63 then 0 else pos + 1) bs
      (if pos == 63 then md5_transform buf (words_of here) else buf, here)

not_last : (pos : ℕ) → pos < 63 → (pos == 63) ≡ false
not_last pos p = ground (arith, p)

pub core-short :
    (pos : ℕ) (bs : List ℕ) (buf : Words) (input : List ℕ)
    → pos + length bs < 64
    → core pos bs (buf, input) ≡ (buf, memcpy pos bs input)
core-short pos [] buf input few = refl
core-short pos (b ∷ bs) buf input few =
    simp (not_last pos (omega (arith, few)))
      (core-short (pos + 1) bs buf (set input pos b) (omega (arith, few)))

pub core-next :
    (pos b : ℕ) (bs : List ℕ) (buf : Words) (input : List ℕ)
    → pos < 63
    → core pos (b ∷ bs) (buf, input) ≡ core (pos + 1) bs (buf, set input pos b)
core-next pos b bs buf input p =
    let here = set input pos b in
    ap
      (λ last.
        core (if last then 0 else pos + 1) bs
          (if last then md5_transform buf (words_of here) else buf, here))
      (not_last pos p)

pub core-block :
    (pos : ℕ) (xs ys : List ℕ) (buf : Words) (input : List ℕ)
    → pos + length xs ≡ 64
    → pos < 64
    → core pos (xs ++ ys) (buf, input) ≡ core 0 ys (take_block pos xs (buf, input))
unfolding take_block
core-block pos [] ys buf input full p = absurd (omega (arith, full, p))
core-block pos (b ∷ []) ys buf input full p =
    let at_last : pos ≡ 63 = omega (arith, full) in
    subst (λ k. core k (b ∷ ys) (buf, input) ≡ core 0 ys (take_block k (b ∷ []) (buf, input)))
      (sym at_last) refl
core-block pos (b ∷ c ∷ xs) ys buf input full p =
    core-next pos b (c ∷ (xs ++ ys)) buf input (omega (arith, full))
    ∙ core-block (pos + 1) (c ∷ xs) ys buf (set input pos b) (omega (arith, full))
        (omega (arith, full))

chunks-core :
    (n : ℕ) (bytes : List ℕ) (s : Words × List ℕ)
    → length bytes < n
    → chunks n bytes s ≡ some (core 0 bytes s)
unfolding chunks
chunks-core zero bytes (buf, input) few = absurd (omega (arith, few))
chunks-core (suc n) bytes (buf, input) few = elim (Bool-cases (ltb (length bytes) 64)) [
  | inl short ↦
      simp short (
        ap some
          (sym (core-short 0 bytes buf input (omega (arith, ltb→lt (length bytes) 64 short)))))
  | inr long ↦
      let enough : 64 ≤ length bytes = ground (arith, long) in
      simp long (
        chunks-core n (drop 64 bytes) (take_block 0 (take 64 bytes) (buf, input))
          (omega (arith, few, enough, length-drop 64 bytes))
        ∙ ap some (
            sym (
              core-block 0 (take 64 bytes) (drop 64 bytes) buf input
                (omega (arith, enough, length-take 64 bytes)) (omega arith))
            ∙ ap (λ b. core 0 b (buf, input)) (take-append-drop 64 bytes)))
]

-- The counts, a byte more.
next_pos : (low : ℕ) → (low + 1) % 2 ^ 32 % 64 ≡ (if low % 64 == 63 then 0 else low % 64 + 1)
next_pos low = elim (Bool-cases (low % 64 == 63)) [
  | inl last ↦ let at_last = (==_iff (low % 64) 63).0 last in simp last (omega (arith, at_last))
  | inr other ↦
      let at_other : low % 64 ≢ 63 = ground (arith, other) in simp other (omega (arith, at_other))
]

next_high :
    (low high n : ℕ)
    → low < 2 ^ 32
    → high < 2 ^ 32
    → ((if (low + 1) % 2 ^ 32 == 0 then (high + 1) % 2 ^ 32 else high)
          + ((low + 1) % 2 ^ 32 + n) / 2 ^ 32)
        % 2 ^ 32
      ≡ (high + (low + suc n) / 2 ^ 32) % 2 ^ 32
next_high low high n p q = elim (Bool-cases ((low + 1) % 2 ^ 32 == 0)) [
  | inl wrapped ↦
      let zero_low = (==_iff ((low + 1) % 2 ^ 32) 0).0 wrapped in
      simp wrapped (omega (arith, zero_low, p, q))
  | inr other ↦
      let some_low : (low + 1) % 2 ^ 32 ≢ 0 = ground (arith, other) in
      simp other (omega (arith, some_low, p, q))
]

pub high_bound :
    (b : Bool) (high : ℕ) → high < 2 ^ 32 → (if b then (high + 1) % 2 ^ 32 else high) < 2 ^ 32
high_bound true high q = omega arith
high_bound false high q = q

-- The context after the bytes, by its parts.
pub feeds-core :
    (bs : List ℕ) (buf : Words) (low high : ℕ) (input : List ℕ)
    → low < 2 ^ 32
    → high < 2 ^ 32
    → feeds (record { buf = buf; low = low; high = high; input = input }) bs ≡ (
        let s = core (low % 64) bs (buf, input) in
        record {
          buf = s.0;
          low = (low + length bs) % 2 ^ 32;
          high = (high + (low + length bs) / 2 ^ 32) % 2 ^ 32;
          input = s.1;
        })
feeds-core [] buf low high input p q =
    ap₂ (λ (l h : ℕ). record { buf = buf; low = l; high = h; input = input }) (omega (arith, p))
      (omega (arith, p, q))
feeds-core (b ∷ bs) buf low high input p q =
    let pos = low % 64 in
    let here = set input pos b in
    let next : Words = if pos == 63 then md5_transform buf (words_of here) else buf in
    let at : ℕ → ℕ → ℕ → Md5Context = λ k l h. record {
      buf = (core k bs (next, here)).0;
      low = l;
      high = h;
      input = (core k bs (next, here)).1;
    } in
    feeds-core bs next ((low + 1) % 2 ^ 32)
      (if (low + 1) % 2 ^ 32 == 0 then (high + 1) % 2 ^ 32 else high) here (omega arith)
      (high_bound ((low + 1) % 2 ^ 32 == 0) high q)
    ∙ ap
        (λ k. at k (((low + 1) % 2 ^ 32 + length bs) % 2 ^ 32) (
          ((if (low + 1) % 2 ^ 32 == 0 then (high + 1) % 2 ^ 32 else high)
            + ((low + 1) % 2 ^ 32 + length bs) / 2 ^ 32)
          % 2 ^ 32))
        (next_pos low)
    ∙ ap₂ (at (if pos == 63 then 0 else pos + 1)) (omega arith) (next_high low high (length bs) p q)

-- The counts that `MD5Update` sets at once.
high_at_once :
    (low high n : ℕ)
    → low < 2 ^ 32
    → high < 2 ^ 32
    → n < 2 ^ 32
    → (if ltb ((low + n) % 2 ^ 32) low then (high + 1) % 2 ^ 32 else high)
      ≡ (high + (low + n) / 2 ^ 32) % 2 ^ 32
high_at_once low high n p q r = elim (Bool-cases (ltb ((low + n) % 2 ^ 32) low)) [
  | inl wrapped ↦
      let less = ltb→lt ((low + n) % 2 ^ 32) low wrapped in
      simp wrapped (omega (arith, less, p, q, r))
  | inr other ↦
      let more : low ≤ (low + n) % 2 ^ 32 = ground (arith, other) in
      simp other (omega (arith, more, p, q, r))
]

-- For a context whose two counts are below 2 ^ 32, and fewer than 2 ^ 32 bytes: `MD5Update`
-- returns the context that the bytes lead to when they come one by one, each going to its place
-- in `in` by the count, which goes up by one with a carry, and the one that fills `in` having it
-- transformed. The counts and all the bytes of `in` are the same too.
pub md5_update-feeds :
    (ctx : Md5Context) (bytes : List ℕ)
    → ctx.low < 2 ^ 32
    → ctx.high < 2 ^ 32
    → length bytes < 2 ^ 32
    → md5_update ctx bytes ≡ some (feeds ctx bytes)
unfolding md5_update
md5_update-feeds ctx bytes p q r = elim (Bool-cases (ltb (length bytes) (64 - pos))) [
  | inl short ↦
      let less = ltb→lt (length bytes) (64 - pos) short in
      simp short (
        ap (at (ctx.buf, memcpy (64 - (64 - pos)) bytes ctx.input)) counts
        ∙ ap (λ k. at (ctx.buf, memcpy k bytes ctx.input) ended) back
        ∙ ap (λ s. at s ended) (sym (core-short pos bytes ctx.buf ctx.input (omega (arith, less))))
        ∙ whole)
  | inr long ↦
      let enough : 64 - pos ≤ length bytes = ground (arith, long) in
      let first = take (64 - pos) bytes in
      let behind = drop (64 - pos) bytes in
      simp long (
        ap (λ o. o >>= (λ s. at s counted))
          (chunks-core (length bytes + 1) behind
            (take_block (64 - (64 - pos)) first (ctx.buf, ctx.input))
            (omega (arith, length-drop (64 - pos) bytes)))
        ∙ ap (λ k. at (core 0 behind (take_block k first (ctx.buf, ctx.input))) counted) back
        ∙ ap (λ s. at s counted)
            (sym (
                core-block pos first behind ctx.buf ctx.input
                  (omega (arith, enough, length-take (64 - pos) bytes)) (omega arith))
              ∙ ap (λ b. core pos b (ctx.buf, ctx.input)) (take-append-drop (64 - pos) bytes))
        ∙ ap (at (core pos bytes (ctx.buf, ctx.input))) counts
        ∙ whole)
]
  where
    pos : ℕ
    pos = ctx.low % 64

    ended : ℕ
    ended = (ctx.high + (ctx.low + length bytes) / 2 ^ 32) % 2 ^ 32

    at : Words × List ℕ → ℕ → Option Md5Context
    at s h =
        some (record { buf = s.0; low = (ctx.low + length bytes) % 2 ^ 32; high = h; input = s.1 })

    counted : ℕ
    counted =
        if ltb ((ctx.low + length bytes) % 2 ^ 32) ctx.low
        then (ctx.high + 1) % 2 ^ 32
        else ctx.high

    back : 64 - (64 - pos) ≡ pos
    back = omega arith

    counts : counted ≡ ended
    counts = high_at_once ctx.low ctx.high (length bytes) p q r

    whole : at (core pos bytes (ctx.buf, ctx.input)) ended ≡ some (feeds ctx bytes)
    whole = ap some (sym (feeds-core bytes ctx.buf ctx.low ctx.high ctx.input p q))
