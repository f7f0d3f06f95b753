-- ===== src/Hash/Sha1/Padded.antt =====
-- `SHA1::final` and `GetDataSHA1` of src/sha1.cpp: the padding as bytes of the input.
use ashe.Base.{
  ℕ, zero, suc, ◌+◌, ◌-◌, ◌*◌, ◌/◌, ◌%◌, ◌^◌, ◌≤◌, ◌<◌, ◌≡◌, refl, ap, ap₂, sym, subst, ◌∙◌, true,
  false, Bool-cases, inl, inr, List, [], ◌∷◌, ◌++◌, Option, some, ◌==◌, ==_iff, ltb, ltb→lt, ◌>>=◌,
  length, take, drop, replicate, length-take, length-drop, take-append-drop, drop-drop, drop_all,
  arith,
}
use ashe.Hash.Blocks.{absorb, absorb-append}
use ashe.Hash.Chunks.{chunk, chunk_within}
use ashe.Hash.Sha1.{
  State, Sha1, initial, reset, transform, update, be_bytes, pad_zeros, digest_bytes, wiped, final,
  report_hash, data_loop, get_data_sha1,
}
use ashe.Hash.Sha1.Stream.{IsAt, update-IsAt}

-- The zeros after `n` bytes, up to the place of the length.
abbrev pub zeros : ℕ → ℕ
zeros n = (120 - n % 64) % 64

recount : (ctx : Sha1) (r : State × List ℕ) (m n : ℕ) → m ≡ n → IsAt ctx r m → IsAt ctx r n
recount ctx r m n e at = subst (IsAt ctx r) e at

pad_zeros-IsAt :
    (fuel k : ℕ) (ctx : Sha1) (s : State) (row : List ℕ) (n : ℕ)
    → k < fuel
    → k ≡ zeros n
    → IsAt ctx (s, row) n
    → (after : Sha1) × (pad_zeros fuel ctx ≡ some after)
      × IsAt after (absorb transform s row (replicate k 0)) (n + k)
unfolding pad_zeros
pad_zeros-IsAt zero k ctx s row n enough count at = absurd (omega (arith, enough))
pad_zeros-IsAt (suc fuel) zero ctx s row n enough count at =
    let low = at.3 in
    let here : (ctx.count0 / 2 ^ 3 % 64 == 56) ≡ true =
      (==_iff (ctx.count0 / 2 ^ 3 % 64) 56).1 (omega (arith, low, count)) in
    (ctx, simp here refl, recount ctx (s, row) n (n + 0) (omega arith) at)
pad_zeros-IsAt (suc fuel) (suc k) ctx s row n enough count at =
    let low = at.3 in
    let before : (ctx.count0 / 2 ^ 3 % 64 == 56) ≡ false = ground (arith, low, count) in
    let (next, updated, at_next) = update-IsAt ctx s row n (0 ∷ []) at (omega arith) in
    let t = absorb transform s row (0 ∷ []) in
    let (after, padded, at_after) =
      pad_zeros-IsAt fuel k next t.0 t.1 (n + 1) (omega (arith, enough)) (omega (arith, count))
        at_next in
    (
      after,
      simp before (ap (λ o. o >>= pad_zeros fuel) updated ∙ padded),
      recount after (absorb transform s row (replicate (suc k) 0)) (n + 1 + k) (n + suc k)
          (omega arith) at_after,
    )

-- The number of bits, the highest byte first.
abbrev pub length_bytes : ℕ → List ℕ
length_bytes n = be_bytes (n * 8 / 2 ^ 32 % 2 ^ 32) ++ be_bytes (n * 8 % 2 ^ 32)

abbrev pub padded_text : List ℕ → List ℕ
padded_text bytes =
    let n = length bytes in bytes ++ (0x80 ∷ (replicate (zeros (n + 1)) 0 ++ length_bytes n))

final-padded :
    (ctx : Sha1) (s : State) (row : List ℕ) (n : ℕ)
    → IsAt ctx (s, row) n
    → final ctx
      ≡ some (
        wiped,
        digest_bytes
            (absorb transform s row (0x80 ∷ (replicate (zeros (n + 1)) 0 ++ length_bytes n))).0,
      )
unfolding final
final-padded ctx s row n at =
    let k = zeros (n + 1) in
    let lens = length_bytes n in
    let t = absorb transform s row (0x80 ∷ []) in
    let u = absorb transform t.0 t.1 (replicate k 0) in
    let (one, ended, at_one) = update-IsAt ctx s row n (0x80 ∷ []) at (omega arith) in
    let (two, zeroed, at_two) = pad_zeros-IsAt 65 k one t.0 t.1 (n + 1) (omega arith) refl at_one in
    let (three, counted, at_three) =
      update-IsAt two u.0 u.1 (n + 1 + k) lens at_two (omega arith) in
    let end : Sha1 → Option (Sha1 × List ℕ) = λ c. some (wiped, digest_bytes c.state) in
    ap₂
      (λ (h l : ℕ). (do
        ctx ← update ctx (0x80 ∷ [])
        ctx ← pad_zeros 65 ctx
        ctx ← update ctx (be_bytes h ++ be_bytes l)
        end ctx))
      at.4 at.3
    ∙ ap (λ o. o >>= (λ c. pad_zeros 65 c >>= (λ c. update c lens >>= end))) ended
    ∙ ap (λ o. o >>= (λ c. update c lens >>= end)) zeroed
    ∙ ap (λ o. o >>= end) counted
    ∙ ap (λ q. some (wiped, digest_bytes q))
        (at_three.1
          ∙ ap (λ (r : State × List ℕ). r.0)
              (sym (absorb-append transform t.0 t.1 (replicate k 0) lens)))

-- A chunk more of the text.
chunk-rest :
    (bytes : List ℕ) (offset m : ℕ) (s : State) (row : List ℕ)
    → absorb transform
        (absorb transform s row (take m (drop offset bytes))).0
        (absorb transform s row (take m (drop offset bytes))).1
        (drop (offset + m) bytes)
      ≡ absorb transform s row (drop offset bytes)
chunk-rest bytes offset m s row =
    sym (absorb-append transform s row (take m (drop offset bytes)) (drop (offset + m) bytes))
    ∙ ap (λ d. absorb transform s row (take m (drop offset bytes) ++ d))
        (sym (drop-drop m offset bytes))
    ∙ ap (absorb transform s row) (take-append-drop m (drop offset bytes))

data_loop-IsAt :
    (fuel : ℕ) (bytes : List ℕ) (offset : ℕ) (ctx : Sha1) (s : State) (row : List ℕ)
    → IsAt ctx (s, row) offset
    → offset ≤ length bytes
    → length bytes < offset + fuel
    → (after : Sha1) × (data_loop fuel bytes offset ctx ≡ some after)
      × IsAt after (absorb transform s row (drop offset bytes)) (length bytes)
unfolding data_loop
data_loop-IsAt zero bytes offset ctx s row at within enough = absurd (omega (arith, within, enough))
data_loop-IsAt (suc fuel) bytes offset ctx s row at within enough =
    elim (Bool-cases (ltb offset (length bytes))) [
      | inl more ↦
          let m = chunk (length bytes) offset in
          let (some_read, inside, small) =
            chunk_within (length bytes) offset (ltb→lt offset (length bytes) more) in
          let read = take m (drop offset bytes) in
          let count = length-take m (drop offset bytes) in
          let left = length-drop offset bytes in
          let t = absorb transform s row read in
          let (next, updated, at_next) =
            update-IsAt ctx s row offset read at (omega (arith, small, count)) in
          let (after, looped, at_after) =
            data_loop-IsAt fuel bytes (offset + m) next t.0 t.1
              (recount next t (offset + length read) (offset + m)
                (omega (arith, count, left, inside)) at_next)
              inside (omega (arith, some_read, enough)) in
          (
            after,
            simp more (ap (λ o. o >>= data_loop fuel bytes (offset + m)) updated ∙ looped),
            subst (λ r. IsAt after r (length bytes)) (chunk-rest bytes offset m s row) at_after,
          )
      | inr done ↦
          let past : drop offset bytes ≡ [] = drop_all offset bytes (ground (arith, done)) in
          let end : offset ≡ length bytes = ground (arith, done, within) in
          (
            ctx,
            simp done refl,
            subst (λ d. IsAt ctx (absorb transform s row d) (length bytes)) (sym past)
                (recount ctx (s, row) offset (length bytes) end at),
          )
    ]

-- `GetDataSHA1` of any bytes, whatever the 64 bytes of `m_buffer` are at first, returns the
-- hexadecimal text of the five words to which the padded text leads when its bytes come one by
-- one, each 64th having the row of bytes transformed. The padded text is the bytes, then 0x80,
-- zeros up to 56 bytes in the last block, and the number of bits in eight bytes, the highest
-- first. So neither the chunks of 10240 bytes nor the blocks of `update` make a difference.
pub get_data_sha1-padded :
    (buffer bytes : List ℕ)
    → length buffer ≡ 64
    → get_data_sha1 buffer bytes
      ≡ some (report_hash (digest_bytes (absorb transform initial [] (padded_text bytes)).0))
unfolding get_data_sha1 reset
get_data_sha1-padded buffer bytes size =
    let n = length bytes in
    let t = absorb transform initial [] bytes in
    let (ctx, looped, at) =
      data_loop-IsAt (n + 1) bytes 0 (reset buffer) initial [] (size, refl, refl, refl, refl)
        (omega arith) (omega arith) in
    let tail : List ℕ = 0x80 ∷ (replicate (zeros (n + 1)) 0 ++ length_bytes n) in
    ap (λ o. o >>= (λ c. final c >>= (λ d. some (report_hash d.1)))) looped
    ∙ ap (λ o. o >>= (λ d. some (report_hash d.1))) (final-padded ctx t.0 t.1 n at)
    ∙ ap (λ (r : State × List ℕ). some (report_hash (digest_bytes r.0)))
        (sym (absorb-append transform initial [] bytes tail))
