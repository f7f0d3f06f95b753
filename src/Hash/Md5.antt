-- ===== src/Hash/Md5.antt =====
-- src/md5.cpp: the digest, with its context and the buffering of its input. A word is four bytes,
-- the lowest first: `byteSwap` makes it so on every host. Words are below 2 ^ 32.
pub mod Padding
pub mod Stream
pub mod Whole
use Prim.Native.Nat.{bit_and, bit_or, bit_xor}
use ashe.Base.{
  ℕ, zero, suc, ◌+◌, ◌-◌, ◌*◌, ◌/◌, ◌%◌, ◌^◌, ◌≤◌, ◌<◌, Bool, true, false, List, [], ◌∷◌, ◌++◌,
  Option, none, some, ltb, if◌then◌else◌, ◌>>=◌, get_or, set, length, take, drop, replicate, codes,
}

pub record Words : Type 0 where
  pub a : ℕ
  pub b : ℕ
  pub c : ℕ
  pub d : ℕ

-- `in` as its 64 bytes.
pub record Md5Context : Type 0 where
  pub buf : Words
  pub low : ℕ
  pub high : ℕ
  pub input : List ℕ

abbrev pub complement : ℕ → ℕ
complement x = 2 ^ 32 - 1 - x

abbrev pub f1 : ℕ → ℕ → ℕ → ℕ
f1 x y z = bit_xor z (bit_and x (bit_xor y z))

abbrev pub f2 : ℕ → ℕ → ℕ → ℕ
f2 x y z = f1 z x y

abbrev pub f3 : ℕ → ℕ → ℕ → ℕ
f3 x y z = bit_xor (bit_xor x y) z

abbrev pub f4 : ℕ → ℕ → ℕ → ℕ
f4 x y z = bit_xor y (bit_or x (complement z))

-- `w << s | w >> (32 - s)`.
abbrev pub rotate : ℕ → ℕ → ℕ
rotate w s = bit_or (w * 2 ^ s % 2 ^ 32) (w / 2 ^ (32 - s))

-- `MD5STEP`, and the registers in their order for the next one.
unfoldable pub md5_step : (ℕ → ℕ → ℕ → ℕ) → List ℕ → ℕ × ℕ × ℕ → Words → Words
md5_step f words (i, constant, s) r =
    let w = (r.a + f r.b r.c r.d + (get_or words i 0 + constant) % 2 ^ 32) % 2 ^ 32 in
    record { a = r.d; b = (rotate w s + r.b) % 2 ^ 32; c = r.b; d = r.c }

unfoldable pub md5_steps : (ℕ → ℕ → ℕ → ℕ) → List ℕ → List (ℕ × ℕ × ℕ) → Words → Words
unfolding md5_step
md5_steps f words [] r = r
md5_steps f words (s ∷ ss) r = md5_steps f words ss (md5_step f words s r)

abbrev pub steps1 : List (ℕ × ℕ × ℕ)
steps1 =
    (0, 0xd76aa478, 7)
    ∷ (1, 0xe8c7b756, 12)
    ∷ (2, 0x242070db, 17)
    ∷ (3, 0xc1bdceee, 22)
    ∷ (4, 0xf57c0faf, 7)
    ∷ (5, 0x4787c62a, 12)
    ∷ (6, 0xa8304613, 17)
    ∷ (7, 0xfd469501, 22)
    ∷ (8, 0x698098d8, 7)
    ∷ (9, 0x8b44f7af, 12)
    ∷ (10, 0xffff5bb1, 17)
    ∷ (11, 0x895cd7be, 22)
    ∷ (12, 0x6b901122, 7)
    ∷ (13, 0xfd987193, 12)
    ∷ (14, 0xa679438e, 17)
    ∷ (15, 0x49b40821, 22)
    ∷ []

abbrev pub steps2 : List (ℕ × ℕ × ℕ)
steps2 =
    (1, 0xf61e2562, 5)
    ∷ (6, 0xc040b340, 9)
    ∷ (11, 0x265e5a51, 14)
    ∷ (0, 0xe9b6c7aa, 20)
    ∷ (5, 0xd62f105d, 5)
    ∷ (10, 0x02441453, 9)
    ∷ (15, 0xd8a1e681, 14)
    ∷ (4, 0xe7d3fbc8, 20)
    ∷ (9, 0x21e1cde6, 5)
    ∷ (14, 0xc33707d6, 9)
    ∷ (3, 0xf4d50d87, 14)
    ∷ (8, 0x455a14ed, 20)
    ∷ (13, 0xa9e3e905, 5)
    ∷ (2, 0xfcefa3f8, 9)
    ∷ (7, 0x676f02d9, 14)
    ∷ (12, 0x8d2a4c8a, 20)
    ∷ []

abbrev pub steps3 : List (ℕ × ℕ × ℕ)
steps3 =
    (5, 0xfffa3942, 4)
    ∷ (8, 0x8771f681, 11)
    ∷ (11, 0x6d9d6122, 16)
    ∷ (14, 0xfde5380c, 23)
    ∷ (1, 0xa4beea44, 4)
    ∷ (4, 0x4bdecfa9, 11)
    ∷ (7, 0xf6bb4b60, 16)
    ∷ (10, 0xbebfbc70, 23)
    ∷ (13, 0x289b7ec6, 4)
    ∷ (0, 0xeaa127fa, 11)
    ∷ (3, 0xd4ef3085, 16)
    ∷ (6, 0x04881d05, 23)
    ∷ (9, 0xd9d4d039, 4)
    ∷ (12, 0xe6db99e5, 11)
    ∷ (15, 0x1fa27cf8, 16)
    ∷ (2, 0xc4ac5665, 23)
    ∷ []

abbrev pub steps4 : List (ℕ × ℕ × ℕ)
steps4 =
    (0, 0xf4292244, 6)
    ∷ (7, 0x432aff97, 10)
    ∷ (14, 0xab9423a7, 15)
    ∷ (5, 0xfc93a039, 21)
    ∷ (12, 0x655b59c3, 6)
    ∷ (3, 0x8f0ccc92, 10)
    ∷ (10, 0xffeff47d, 15)
    ∷ (1, 0x85845dd1, 21)
    ∷ (8, 0x6fa87e4f, 6)
    ∷ (15, 0xfe2ce6e0, 10)
    ∷ (6, 0xa3014314, 15)
    ∷ (13, 0x4e0811a1, 21)
    ∷ (4, 0xf7537e82, 6)
    ∷ (11, 0xbd3af235, 10)
    ∷ (2, 0x2ad7d2bb, 15)
    ∷ (9, 0xeb86d391, 21)
    ∷ []

-- The words of a block's bytes.
abbrev pub words_of : List ℕ → List ℕ
words_of (p ∷ q ∷ r ∷ s ∷ bs) = (s * 2 ^ 24 + r * 2 ^ 16 + q * 2 ^ 8 + p) ∷ words_of bs
words_of bs = []

unfoldable pub md5_transform : Words → List ℕ → Words
unfolding md5_steps
md5_transform buf words =
    let r1 = md5_steps f1 words steps1 buf in
    let r2 = md5_steps f2 words steps2 r1 in
    let r3 = md5_steps f3 words steps3 r2 in
    let r = md5_steps f4 words steps4 r3 in
    record {
      a = (buf.a + r.a) % 2 ^ 32;
      b = (buf.b + r.b) % 2 ^ 32;
      c = (buf.c + r.c) % 2 ^ 32;
      d = (buf.d + r.d) % 2 ^ 32;
    }

-- `memcpy` to a position of the block, byte by byte.
abbrev pub memcpy : ℕ → List ℕ → List ℕ → List ℕ
memcpy pos [] input = input
memcpy pos (b ∷ bs) input = memcpy (pos + 1) bs (set input pos b)

unfoldable pub md5_init : List ℕ → Md5Context
md5_init input = record {
  buf = record { a = 0x67452301; b = 0xefcdab89; c = 0x98badcfe; d = 0x10325476 };
  low = 0;
  high = 0;
  input = input;
}

-- A chunk of the input goes to `in`, and the full `in` to the transformation.
unfoldable pub take_block : ℕ → List ℕ → Words × List ℕ → Words × List ℕ
unfolding md5_transform
take_block pos chunk (buf, input) =
    let input = memcpy pos chunk input in (md5_transform buf (words_of input), input)

-- The loop over chunks of 64 bytes, on fuel, and the bytes left.
unfoldable pub chunks : ℕ → List ℕ → Words × List ℕ → Option (Words × List ℕ)
unfolding take_block
chunks zero bytes (buf, input) = none
chunks (suc n) bytes (buf, input) =
    let rest = chunks n (drop 64 bytes) (take_block 0 (take 64 bytes) (buf, input)) in
    if ltb (length bytes) 64 then some (buf, memcpy 0 bytes input) else rest

unfoldable pub md5_update : Md5Context → List ℕ → Option Md5Context
unfolding take_block chunks
md5_update ctx bytes =
    let len = length bytes in
    let low = (ctx.low + len) % 2 ^ 32 in
    let high = if ltb low ctx.low then (ctx.high + 1) % 2 ^ 32 else ctx.high in
    let t = 64 - ctx.low % 64 in
    if ltb len t
    then some
        (record { buf = ctx.buf; low = low; high = high; input = memcpy (64 - t) bytes ctx.input })
    else (do
      (buf, input) ←
          chunks (len + 1) (drop t bytes) (take_block (64 - t) (take t bytes) (ctx.buf, ctx.input))
      some (record { buf = buf; low = low; high = high; input = input }))

abbrev pub bytes_of : ℕ → List ℕ
bytes_of w = (w % 256) ∷ (w / 2 ^ 8 % 256) ∷ (w / 2 ^ 16 % 256) ∷ (w / 2 ^ 24 % 256) ∷ []

-- `0x80` behind the bytes in `in`, and zeros up to the length; an extra block where there is no
-- room for it.
unfoldable pub pad_block : Md5Context → Words × List ℕ
unfolding md5_transform
pad_block ctx =
    let count = ctx.low % 64 in
    let input = memcpy count (0x80 ∷ []) ctx.input in
    if ltb (56 - 1) count
    then (let input = memcpy (count + 1) (replicate (64 - 1 - count) 0) input in
        (md5_transform ctx.buf (words_of input), memcpy 0 (replicate 56 0) input))
    else (ctx.buf, memcpy (count + 1) (replicate (56 - 1 - count) 0) input)

unfoldable pub md5_final : Md5Context → List ℕ
unfolding pad_block md5_transform
md5_final ctx =
    let (buf, input) = pad_block ctx in
    let words =
      take 14 (words_of input)
      ++ (ctx.low * 2 ^ 3 % 2 ^ 32) ∷ bit_or (ctx.high * 2 ^ 3 % 2 ^ 32) (ctx.low / 2 ^ 29) ∷ [] in
    let r = md5_transform buf words in bytes_of r.a ++ bytes_of r.b ++ bytes_of r.c ++ bytes_of r.d

-- `input` is what the stack has where the context is.
unfoldable pub md5_buffer : List ℕ → List ℕ → Option (List ℕ)
unfolding md5_init md5_update md5_final
md5_buffer input bytes = do ctx ← md5_update (md5_init input) bytes; some (md5_final ctx)

abbrev pub hex_string : List ℕ
hex_string = codes "0123456789abcdef"

-- The loop of `MD5SigToString`, with room for `len` more characters.
unfoldable pub sig_to_string : List ℕ → ℕ → List ℕ
sig_to_string [] len = []
sig_to_string (b ∷ bs) len =
    let rest = sig_to_string bs (len - 2) in
    if ltb len 2 then [] else get_or hex_string (b / 16) 0 ∷ get_or hex_string (b % 16) 0 ∷ rest

-- The loop of `GetDataMD5` at `offset`, on fuel. No text is so long that the sums wrap around.
unfoldable pub data_loop : ℕ → List ℕ → ℕ → Md5Context → Option Md5Context
unfolding md5_update
data_loop zero bytes offset ctx = none
data_loop (suc n) bytes offset ctx =
    let need_read = if ltb (length bytes) (offset + 10240) then length bytes - offset else 10240 in
    let rest = (do
      ctx ← md5_update ctx (take need_read (drop offset bytes))
      data_loop n bytes (offset + need_read) ctx) in
    if ltb offset (length bytes) then rest else some ctx

unfoldable pub get_data_md5 : List ℕ → List ℕ → Option (List ℕ)
unfolding data_loop md5_init md5_final sig_to_string
get_data_md5 input bytes = do
  ctx ← data_loop (length bytes + 1) bytes 0 (md5_init input)
  some (sig_to_string (md5_final ctx) 33)
