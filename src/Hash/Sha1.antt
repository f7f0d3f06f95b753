-- ===== src/Hash/Sha1.antt =====
-- src/sha1.cpp: the class `SHA1` and `GetDataSHA1`. The host has little-endian words: a block's
-- bytes are read as such and turned around by `SHABLK0`. The static workspace of `transform` is
-- written before it is read in each call, and calls are not taken to overlap.
pub mod Padded
pub mod Stream
use Prim.Native.Nat.{bit_and, bit_or, bit_xor}
use ashe.Base.{
  ℕ, zero, suc, ◌+◌, ◌-◌, ◌*◌, ◌/◌, ◌%◌, ◌^◌, Bool, true, false, List, [], ◌∷◌, ◌++◌, Option, none,
  some, ◌==◌, ltb, if◌then◌else◌, ◌>>=◌, get_or, set, length, take, drop, replicate,
}
use ashe.Hash.Blocks.{whole_blocks}
use ashe.Hash.Crc32.{hex_digit}
use ashe.Hash.Md5.{memcpy, words_of}

-- `m_state`, and the working variables in the order in which a round takes them.
pub record State : Type 0 where
  pub v : ℕ
  pub w : ℕ
  pub x : ℕ
  pub y : ℕ
  pub z : ℕ

pub record Sha1 : Type 0 where
  pub state : State
  pub count0 : ℕ
  pub count1 : ℕ
  pub buffer : List ℕ

unfoldable pub initial : State
initial = record { v = 0x67452301; w = 0xefcdab89; x = 0x98badcfe; y = 0x10325476; z = 0xc3d2e1f0 }

-- `reset`; the buffer stays as it is.
unfoldable pub reset : List ℕ → Sha1
reset buffer = record { state = initial; count0 = 0; count1 = 0; buffer = buffer }

abbrev pub rol : ℕ → ℕ → ℕ
rol value bits = bit_or (value * 2 ^ bits % 2 ^ 32) (value / 2 ^ (32 - bits))

unfoldable pub shablk0 : List ℕ → ℕ → ℕ
shablk0 block i =
    let l = get_or block i 0 in
    bit_or (bit_and (rol l 24) 0xff00ff00) (bit_and (rol l 8) 0x00ff00ff)

unfoldable pub shablk : List ℕ → ℕ → ℕ
shablk block i =
    rol
      (bit_xor
        (bit_xor (bit_xor (get_or block ((i + 13) % 16) 0) (get_or block ((i + 8) % 16) 0))
          (get_or block ((i + 2) % 16) 0))
        (get_or block (i % 16) 0))
      1

-- The word of the block that round `i` writes and adds.
unfoldable pub next_word : List ℕ → ℕ → ℕ
unfolding shablk0 shablk
next_word block i = if ltb i 16 then shablk0 block i else shablk block i

-- The function and the constant of `R0` to `R4`.
abbrev pub mixed : ℕ → State → ℕ
mixed i s =
    if ltb i 20
    then bit_xor (bit_and s.w (bit_xor s.x s.y)) s.y + 0x5a827999
    else if ltb i 40
    then bit_xor (bit_xor s.w s.x) s.y + 0x6ed9eba1
    else if ltb i 60
    then bit_or (bit_and (bit_or s.w s.x) s.y) (bit_and s.w s.x) + 0x8f1bbcdc
    else bit_xor (bit_xor s.w s.x) s.y + 0xca62c1d6

-- A round; the next one takes the variables a place further on.
unfoldable pub round : ℕ → State × List ℕ → State × List ℕ
unfolding next_word
round i (s, block) =
    let word = next_word block i in
    (
      record {
        v = (s.z + mixed i s + word + rol s.v 5) % 2 ^ 32;
        w = s.v;
        x = rol s.w 30;
        y = s.x;
        z = s.y;
      },
      set block (i % 16) word,
    )

-- The 80 rounds, from the `i`th on.
unfoldable pub rounds : ℕ → ℕ → State × List ℕ → State
unfolding round
rounds zero i (s, block) = s
rounds (suc n) i (s, block) = rounds n (i + 1) (round i (s, block))

unfoldable pub transform : State → List ℕ → State
unfolding rounds
transform s bytes =
    let r = rounds 80 0 (s, words_of bytes) in
    record {
      v = (s.v + r.v) % 2 ^ 32;
      w = (s.w + r.w) % 2 ^ 32;
      x = (s.x + r.x) % 2 ^ 32;
      y = (s.y + r.y) % 2 ^ 32;
      z = (s.z + r.z) % 2 ^ 32;
    }

-- `m_count`: the two words of a number of bits, more by those of `len` bytes.
unfoldable pub add_count : ℕ → ℕ → ℕ → ℕ × ℕ
add_count len count0 count1 =
    let bits = len * 2 ^ 3 % 2 ^ 32 in
    let low = (count0 + bits) % 2 ^ 32 in
    (low, ((if ltb low bits then count1 + 1 else count1) + len / 2 ^ 29) % 2 ^ 32)

-- `len` is below 2 ^ 32; the loop's `i + 63` is not taken to wrap around.
unfoldable pub update : Sha1 → List ℕ → Option Sha1
unfolding add_count whole_blocks transform
update ctx bytes =
    let len = length bytes in
    let j = ctx.count0 / 2 ^ 3 % 64 in
    let (count0, count1) = add_count len ctx.count0 ctx.count1 in
    if ltb 63 ((j + len) % 2 ^ 32)
    then (do
      let i = 64 - j
      let buffer = memcpy j (take i bytes) ctx.buffer
      (s, rest) ← whole_blocks transform (len + 1) (transform ctx.state buffer) (drop i bytes)
      some (record { state = s; count0 = count0; count1 = count1; buffer = memcpy 0 rest buffer }))
    else some (record {
      state = ctx.state;
      count0 = count0;
      count1 = count1;
      buffer = memcpy j bytes ctx.buffer;
    })

-- The four bytes of a word, the highest first.
abbrev pub be_bytes : ℕ → List ℕ
be_bytes w = (w / 2 ^ 24 % 256) ∷ (w / 2 ^ 16 % 256) ∷ (w / 2 ^ 8 % 256) ∷ (w % 256) ∷ []

-- Zeros until `(m_count[0] & 504) == 448`, on fuel.
unfoldable pub pad_zeros : ℕ → Sha1 → Option Sha1
unfolding update
pad_zeros zero ctx = none
pad_zeros (suc n) ctx =
    let more = (do ctx ← update ctx (0 ∷ []); pad_zeros n ctx) in
    if ctx.count0 / 2 ^ 3 % 64 == 56 then some ctx else more

abbrev pub digest_bytes : State → List ℕ
digest_bytes s = be_bytes s.v ++ be_bytes s.w ++ be_bytes s.x ++ be_bytes s.y ++ be_bytes s.z

-- What `final` leaves in the object: zeros, a transformation of them as its state.
unfoldable pub wiped : Sha1
unfolding transform
wiped =
    let zeros : State = record { v = 0; w = 0; x = 0; y = 0; z = 0 } in
    record {
      state = transform zeros (replicate 64 0);
      count0 = 0;
      count1 = 0;
      buffer = replicate 64 0;
    }

-- `final`: the object, and `m_digest`.
unfoldable pub final : Sha1 → Option (Sha1 × List ℕ)
unfolding update pad_zeros wiped
final ctx = do
  let finalcount = be_bytes ctx.count1 ++ be_bytes ctx.count0
  ctx ← update ctx (0x80 ∷ [])
  ctx ← pad_zeros 65 ctx
  ctx ← update ctx finalcount
  some (wiped, digest_bytes ctx.state)

-- `reportHash`: `%02x` of each byte, in a buffer with room for them all, as `GetDataSHA1` gives it.
unfoldable pub report_hash : List ℕ → List ℕ
report_hash [] = []
report_hash (b ∷ bs) = hex_digit (b / 16) ∷ hex_digit (b % 16) ∷ report_hash bs

-- The loop of `GetDataSHA1` at `offset`, on fuel. No text is so long that the sums wrap around.
unfoldable pub data_loop : ℕ → List ℕ → ℕ → Sha1 → Option Sha1
unfolding update
data_loop zero bytes offset ctx = none
data_loop (suc n) bytes offset ctx =
    let need_read = if ltb (length bytes) (offset + 10240) then length bytes - offset else 10240 in
    let rest = (do
      ctx ← update ctx (take need_read (drop offset bytes))
      data_loop n bytes (offset + need_read) ctx) in
    if ltb offset (length bytes) then rest else some ctx

unfoldable pub get_data_sha1 : List ℕ → List ℕ → Option (List ℕ)
unfolding data_loop reset final report_hash
get_data_sha1 buffer bytes = do
  ctx ← data_loop (length bytes + 1) bytes 0 (reset buffer)
  (_, digest) ← final ctx
  some (report_hash digest)
