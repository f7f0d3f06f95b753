-- ===== src/Hash/Sha1/Stream.antt =====
-- `SHA1::update` of src/sha1.cpp against an input that comes byte by byte.
use ashe.Base.{
  ℕ, ◌+◌, ◌-◌, ◌*◌, ◌/◌, ◌%◌, ◌^◌, ◌≤◌, ◌<◌, ◌≡◌, refl, ap, ap₂, sym, ◌∙◌, Bool-cases, inl, inr,
  List, [], ◌++◌, some, ltb, ltb→lt, ◌>>=◌, length, take, drop, length-take, length-drop,
  take-append-drop, take_all, arith,
}
use ashe.Hash.Md5.{memcpy}
use ashe.Hash.Blocks.{
  absorb, absorb-short, absorb-block, length-absorb, length-memcpy, take-memcpy,
  whole_blocks-absorb,
}
use ashe.Hash.Sha1.{State, Sha1, add_count, transform, update}

-- The object after `n` bytes: the state they led to, and the row of those that wait in the
-- buffer.
abbrev pub IsAt : Sha1 → State × List ℕ → ℕ → Type 0
IsAt ctx (s, row) n =
    (length ctx.buffer ≡ 64)
    × (ctx.state ≡ s)
    × (take (n % 64) ctx.buffer ≡ row)
    × (ctx.count0 ≡ n * 8 % 2 ^ 32)
    × (ctx.count1 ≡ n * 8 / 2 ^ 32 % 2 ^ 32)

add_count_lem :
    (len n count0 count1 : ℕ)
    → len < 2 ^ 32
    → count0 ≡ n * 8 % 2 ^ 32
    → count1 ≡ n * 8 / 2 ^ 32 % 2 ^ 32
    → ((add_count len count0 count1).0 ≡ (n + len) * 8 % 2 ^ 32)
      × ((add_count len count0 count1).1 ≡ (n + len) * 8 / 2 ^ 32 % 2 ^ 32)
unfolding add_count
add_count_lem len n count0 count1 small low high =
    elim (Bool-cases (ltb ((count0 + len * 2 ^ 3 % 2 ^ 32) % 2 ^ 32) (len * 2 ^ 3 % 2 ^ 32))) [
      | inl wrapped ↦
          let less =
            ltb→lt ((count0 + len * 2 ^ 3 % 2 ^ 32) % 2 ^ 32) (len * 2 ^ 3 % 2 ^ 32) wrapped in
          simp wrapped (omega (arith, low), omega (arith, low, high, less, small))
      | inr other ↦
          let more : len * 2 ^ 3 % 2 ^ 32 ≤ (count0 + len * 2 ^ 3 % 2 ^ 32) % 2 ^ 32 =
            ground (arith, other) in
          simp other (omega (arith, low), omega (arith, low, high, more, small))
    ]

memcpy-fills :
    (j : ℕ) (bs buffer : List ℕ)
    → j + length bs ≡ 64
    → length buffer ≡ 64
    → memcpy j bs buffer ≡ take j buffer ++ bs
memcpy-fills j bs buffer full size =
    sym (
      take_all (j + length bs) (memcpy j bs buffer)
        (omega (arith, full, size, length-memcpy bs j buffer)))
    ∙ take-memcpy j bs buffer (omega (arith, full, size))

-- What the buffer holds when the whole blocks are gone.
rest_waits :
    (s : State) (bytes buffer : List ℕ)
    → length buffer ≡ 64
    → take (length bytes % 64) (memcpy 0 (absorb transform s [] bytes).1 buffer)
      ≡ (absorb transform s [] bytes).1
rest_waits s bytes buffer size =
    let rest = (absorb transform s [] bytes).1 in
    let few = length-absorb transform s [] bytes (omega arith) in
    ap (λ k. take k (memcpy 0 rest buffer)) (omega (arith, few))
    ∙ take-memcpy 0 rest buffer (omega (arith, few, size))

-- The first block is that of the buffer, filled up.
filled_up :
    (j : ℕ) (ctx : Sha1) (bytes : List ℕ)
    → j < 64
    → 63 < j + length bytes
    → length ctx.buffer ≡ 64
    → absorb transform
        (transform ctx.state (memcpy j (take (64 - j) bytes) ctx.buffer))
        []
        (drop (64 - j) bytes)
      ≡ absorb transform ctx.state (take j ctx.buffer) bytes
filled_up j ctx bytes p long size =
    let first = take (64 - j) bytes in
    let later = drop (64 - j) bytes in
    let count = length-take (64 - j) bytes in
    let waiting = length-take j ctx.buffer in
    ap (λ b. absorb transform (transform ctx.state b) [] later)
      (memcpy-fills j first ctx.buffer (omega (arith, p, long, count)) size)
    ∙ sym (
        absorb-block transform ctx.state (take j ctx.buffer) first later
          (omega (arith, p, long, count, waiting, size)) (omega (arith, p, waiting, size)))
    ∙ ap (absorb transform ctx.state (take j ctx.buffer)) (take-append-drop (64 - j) bytes)

-- `update` of an object that has taken `n` bytes, by fewer than 2 ^ 32 - 64 more, returns, and
-- leaves it with these bytes taken as well: the state and the waiting row are those to which the
-- bytes lead when they come one by one, each 64th having the row transformed, and `m_count` is
-- the number of bits of both, in its two words.
pub update-IsAt :
    (ctx : Sha1) (s : State) (row : List ℕ) (n : ℕ) (bytes : List ℕ)
    → IsAt ctx (s, row) n
    → length bytes + 64 < 2 ^ 32
    → (after : Sha1) × (update ctx bytes ≡ some after)
      × IsAt after (absorb transform s row bytes) (n + length bytes)
unfolding update
update-IsAt ctx s row n bytes (size, at_state, at_row, low, high) few =
    elim (Bool-cases (ltb 63 ((j + length bytes) % 2 ^ 32))) [
      | inl long ↦
          let more : 63 < j + length bytes =
            omega (arith, at, few, ltb→lt 63 ((j + length bytes) % 2 ^ 32) long) in
          let buffer = memcpy j (take (64 - j) bytes) ctx.buffer in
          let later = drop (64 - j) bytes in
          let r = absorb transform (transform ctx.state buffer) [] later in
          let all = filled_up j ctx bytes (omega arith) more size ∙ same in
          let kept = length-memcpy (take (64 - j) bytes) j ctx.buffer ∙ size in
          let after : Sha1 = record {
            state = r.0;
            count0 = counts.0;
            count1 = counts.1;
            buffer = memcpy 0 r.1 buffer;
          } in
          let rest = rest_waits (transform ctx.state buffer) later buffer kept in
          let place : (n + length bytes) % 64 ≡ length later % 64 =
            omega (arith, at, more, length-drop (64 - j) bytes) in
          (
            after,
            simp long (
                ap
                  (λ o. o >>= (λ (t : State × List ℕ). some (record {
                    state = t.0;
                    count0 = counts.0;
                    count1 = counts.1;
                    buffer = memcpy 0 t.1 buffer;
                  })))
                  (whole_blocks-absorb transform (length bytes + 1) (transform ctx.state buffer)
                    later (omega (arith, length-drop (64 - j) bytes)))),
            (
              length-memcpy r.1 0 buffer ∙ kept,
              ap (λ (t : State × List ℕ). t.0) all,
              ap (λ k. take k (memcpy 0 r.1 buffer)) place
                  ∙ rest
                  ∙ ap (λ (t : State × List ℕ). t.1) all,
              counted.0,
              counted.1,
            ),
          )
      | inr short ↦
          let less : j + length bytes < 64 = ground (arith, at, few, short) in
          let after : Sha1 = record {
            state = ctx.state;
            count0 = counts.0;
            count1 = counts.1;
            buffer = memcpy j bytes ctx.buffer;
          } in
          let all =
            sym (
              absorb-short transform ctx.state (take j ctx.buffer) bytes
                (omega (arith, less, size, length-take j ctx.buffer)))
            ∙ same in
          (
            after,
            simp short refl,
            (
              length-memcpy bytes j ctx.buffer ∙ size,
              ap (λ (t : State × List ℕ). t.0) all,
              ap (λ k. take k (memcpy j bytes ctx.buffer)) (omega (arith, at, less))
                  ∙ take-memcpy j bytes ctx.buffer (omega (arith, less, size))
                  ∙ ap (λ (t : State × List ℕ). t.1) all,
              counted.0,
              counted.1,
            ),
          )
    ]
  where
    j : ℕ
    j = ctx.count0 / 2 ^ 3 % 64

    at : j ≡ n % 64
    at = omega (arith, low)

    counts : ℕ × ℕ
    counts = add_count (length bytes) ctx.count0 ctx.count1

    same : absorb transform ctx.state (take j ctx.buffer) bytes ≡ absorb transform s row bytes
    same =
        ap₂ (λ t l. absorb transform t l bytes) at_state (ap (λ k. take k ctx.buffer) at ∙ at_row)

    counted :
        (counts.0 ≡ (n + length bytes) * 8 % 2 ^ 32)
        × (counts.1 ≡ (n + length bytes) * 8 / 2 ^ 32 % 2 ^ 32)
    counted = add_count_lem (length bytes) n ctx.count0 ctx.count1 (omega (arith, few)) low high
