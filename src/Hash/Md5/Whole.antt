-- ===== src/Hash/Md5/Whole.antt =====
-- The digest of src/md5.cpp of a whole text, whatever chunks it comes in.
use ashe.Base.{
  ℕ, zero, suc, ◌+◌, ◌/◌, ◌%◌, ◌^◌, ◌≤◌, ◌<◌, ◌≡◌, refl, ap, ap₂, sym, ◌∙◌, Bool-cases, inl, inr,
  List, [], ◌∷◌, ◌++◌, some, ◌==◌, ltb, ltb→lt, ◌>>=◌, length, take, drop, drop-drop, drop_all,
  length-take, take-append-drop, arith,
}
use ashe.Hash.Blocks.{length-set}
use ashe.Hash.Chunks.{chunk, chunk_within}
use ashe.Hash.Md5.{Md5Context, md5_init, md5_final, sig_to_string, data_loop, get_data_md5}
use ashe.Hash.Md5.Padding.{padding, length_bytes, digest_of, md5_final-feeds}
use ashe.Hash.Md5.Stream.{feeds-core, feed, feeds, high_bound, md5_update-feeds}

abbrev IsCounted : Md5Context → Type 0
IsCounted ctx = (ctx.low < 2 ^ 32) × (ctx.high < 2 ^ 32)

feed-IsCounted : (ctx : Md5Context) (b : ℕ) → IsCounted ctx → IsCounted (feed ctx b)
feed-IsCounted ctx b (p, q) = (omega arith, high_bound ((ctx.low + 1) % 2 ^ 32 == 0) ctx.high q)

feeds-IsCounted : (ctx : Md5Context) (bs : List ℕ) → IsCounted ctx → IsCounted (feeds ctx bs)
feeds-IsCounted ctx [] c = c
feeds-IsCounted ctx (b ∷ bs) c = feeds-IsCounted (feed ctx b) bs (feed-IsCounted ctx b c)

feeds-append : (ctx : Md5Context) (xs ys : List ℕ) → feeds (feeds ctx xs) ys ≡ feeds ctx (xs ++ ys)
feeds-append ctx [] ys = refl
feeds-append ctx (x ∷ xs) ys = feeds-append (feed ctx x) xs ys

chunk-rest :
    (ctx : Md5Context) (m offset : ℕ) (bytes : List ℕ)
    → feeds (feeds ctx (take m (drop offset bytes))) (drop (offset + m) bytes)
      ≡ feeds ctx (drop offset bytes)
chunk-rest ctx m offset bytes =
    feeds-append ctx (take m (drop offset bytes)) (drop (offset + m) bytes)
    ∙ ap (λ d. feeds ctx (take m (drop offset bytes) ++ d)) (sym (drop-drop m offset bytes))
    ∙ ap (feeds ctx) (take-append-drop m (drop offset bytes))

data_loop-feeds :
    (n : ℕ) (bytes : List ℕ) (offset : ℕ) (ctx : Md5Context)
    → IsCounted ctx
    → offset ≤ length bytes
    → length bytes < offset + n
    → data_loop n bytes offset ctx ≡ some (feeds ctx (drop offset bytes))
unfolding data_loop
data_loop-feeds zero bytes offset ctx c within enough = absurd (omega (arith, within, enough))
data_loop-feeds (suc n) bytes offset ctx c within enough =
    elim (Bool-cases (ltb offset (length bytes))) [
      | inl more ↦
          let m = chunk (length bytes) offset in
          let (some_read, inside, small) =
            chunk_within (length bytes) offset (ltb→lt offset (length bytes) more) in
          let read = take m (drop offset bytes) in
          let few : length read < 2 ^ 32 =
            omega (arith, small, length-take m (drop offset bytes)) in
          simp more (
            ap (λ o. o >>= data_loop n bytes (offset + m)) (md5_update-feeds ctx read c.0 c.1 few)
            ∙ data_loop-feeds n bytes (offset + m) (feeds ctx read) (feeds-IsCounted ctx read c)
                inside (omega (arith, some_read, enough))
            ∙ ap some (chunk-rest ctx m offset bytes))
      | inr done ↦
          let past : drop offset bytes ≡ [] = drop_all offset bytes (ground (arith, done)) in
          simp (done, past) refl
    ]

get_data_md5-feeds :
    (input bytes : List ℕ)
    → get_data_md5 input bytes ≡ some (sig_to_string (md5_final (feeds (md5_init input) bytes)) 33)
unfolding get_data_md5 md5_init
get_data_md5-feeds input bytes =
    ap (λ o. o >>= (λ ctx. some (sig_to_string (md5_final ctx) 33)))
      (data_loop-feeds (length bytes + 1) bytes 0 (md5_init input) (omega arith, omega arith)
        (omega arith) (omega arith))

length-feeds : (ctx : Md5Context) (bs : List ℕ) → length (feeds ctx bs).input ≡ length ctx.input
length-feeds ctx [] = refl
length-feeds ctx (b ∷ bs) = length-feeds (feed ctx b) bs ∙ length-set ctx.input (ctx.low % 64) b

abbrev pub padded : List ℕ → List ℕ
padded bytes =
    let size = length bytes in
    bytes ++ (padding (size % 64) ++ length_bytes (size % 2 ^ 32) (size / 2 ^ 32 % 2 ^ 32))

counted_at :
    (input bytes : List ℕ)
    → let ctx = feeds (md5_init input) bytes in
      (ctx.low ≡ length bytes % 2 ^ 32) × (ctx.high ≡ length bytes / 2 ^ 32 % 2 ^ 32)
unfolding md5_init
counted_at input bytes =
    let start = md5_init input in
    let parts = feeds-core bytes start.buf 0 0 input (omega arith) (omega arith) in
    let low = ap (λ (c : Md5Context). c.low) parts in
    let high = ap (λ (c : Md5Context). c.high) parts in (omega (arith, low), omega (arith, high))

-- `GetDataMD5` of any bytes, whatever the 64 bytes of the context's `in` are at first, returns
-- the hexadecimal text of the four words to which the padded text leads when its bytes come one
-- by one. The padded text is the bytes, then 0x80, zeros up to 56 bytes in the last block, and
-- the number of bits in eight bytes, the lowest first. So neither the chunks of 10240 bytes, nor
-- the blocks of `MD5Update`, nor what `MD5Final` leaves in `in` makes a difference.
pub get_data_md5-padded :
    (input bytes : List ℕ)
    → length input ≡ 64
    → get_data_md5 input bytes
      ≡ some (sig_to_string (digest_of (feeds (md5_init input) (padded bytes)).buf) 33)
unfolding md5_init
get_data_md5-padded input bytes full =
    let ctx = feeds (md5_init input) bytes in
    let (low, high) = counted_at input bytes in
    let place : ctx.low % 64 ≡ length bytes % 64 = omega (arith, low) in
    get_data_md5-feeds input bytes
    ∙ ap (λ d. some (sig_to_string d 33))
        (md5_final-feeds ctx (omega (arith, low)) (omega (arith, high))
            (length-feeds (md5_init input) bytes ∙ full)
          ∙ ap (λ t. digest_of (feeds ctx t).buf)
              (ap₂ (λ k t. padding k ++ t) place (ap₂ length_bytes low high))
          ∙ ap (λ (c : Md5Context). digest_of c.buf)
              (feeds-append (md5_init input) bytes (
                padding (length bytes % 64)
                ++ length_bytes (length bytes % 2 ^ 32) (length bytes / 2 ^ 32 % 2 ^ 32))))
