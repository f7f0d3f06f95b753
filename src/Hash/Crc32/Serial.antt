-- ===== src/Hash/Crc32/Serial.antt =====
-- The table of src/crc32.cpp against the checksum bit by bit, and its chunks against the whole.
use Prim.Native.Nat.{bit_xor, differ}
use ashe.Base.{
  ℕ, zero, suc, ◌+◌, ◌*◌, ◌/◌, ◌%◌, ◌≤◌, ◌<◌, ◌≡◌, refl, ap, ap₂, sym, ◌∙◌, inl, inr, List, [], ◌∷◌,
  ◌++◌, some, ◌==◌, ltb, if◌then◌else◌, get_or, length, take, drop, arith, all_below, Bool-cases,
  ltb→lt, drop-drop, drop_all, take-append-drop, eq_of_table, IsBytes,
}
use ashe.Hash.Xor.{xor-half, xor-low, xor_comm, xor_assoc, zero-xor, up, xor-bound, xor-up}
use ashe.Hash.Chunks.{chunk, chunk_within}
use ashe.Hash.Crc32.{crc32tab, init, table_step, update, finish, digest, data_loop, get_data_crc32}

-- The polynomial of the comment, X^32 left out, with the highest power in the lowest bit.
abbrev pub polynomial : ℕ
polynomial = 0xedb88320

abbrev pub odd_part : ℕ → ℕ
odd_part d = if d == 0 then 0 else polynomial

-- One bit is divided out.
abbrev pub shift : ℕ → ℕ
shift crc = bit_xor (crc / 2) (odd_part (crc % 2))

abbrev pub shifts : ℕ → ℕ → ℕ
shifts zero crc = crc
shifts (suc n) crc = shifts n (shift crc)

abbrev pub serial : ℕ → List ℕ → ℕ
serial crc [] = crc
serial crc (b ∷ bs) = serial (shifts 8 (bit_xor crc b)) bs

table_shifts : (x : ℕ) → x < 256 → shifts 8 x ≡ get_or crc32tab x 0
table_shifts = eq_of_table 256 (shifts 8) (λ x. get_or crc32tab x 0) (unfold all_below in refl)

-- Exclusive ors of four.
xor_swap : (a b c d : ℕ) → bit_xor (bit_xor a b) (bit_xor c d) ≡ bit_xor (bit_xor a c) (bit_xor b d)
xor_swap a b c d =
    xor_assoc a b (bit_xor c d)
    ∙ ap (λ x. bit_xor a x)
        (sym (xor_assoc b c d) ∙ ap (λ x. bit_xor x d) (xor_comm b c) ∙ xor_assoc c b d)
    ∙ sym (xor_assoc a c (bit_xor b d))

odd_part-xor : (x y : ℕ) → x < 2 → y < 2 → odd_part (differ x y) ≡ bit_xor (odd_part x) (odd_part y)
odd_part-xor zero y p q = sym (zero-xor (odd_part y))
odd_part-xor (suc zero) zero p q = refl
odd_part-xor (suc zero) (suc zero) p q = refl
odd_part-xor (suc zero) (suc (suc y)) p q = absurd (omega (arith, q))
odd_part-xor (suc (suc x)) y p q = absurd (omega (arith, p))

shift-xor : (a b : ℕ) → shift (bit_xor a b) ≡ bit_xor (shift a) (shift b)
shift-xor a b =
    ap₂ (λ x y. bit_xor x (odd_part y)) (xor-half a b) (xor-low a b)
    ∙ ap (λ x. bit_xor (bit_xor (a / 2) (b / 2)) x)
        (odd_part-xor (a % 2) (b % 2) (omega arith) (omega arith))
    ∙ xor_swap (a / 2) (b / 2) (odd_part (a % 2)) (odd_part (b % 2))

shifts-xor : (n a b : ℕ) → shifts n (bit_xor a b) ≡ bit_xor (shifts n a) (shifts n b)
shifts-xor zero a b = refl
shifts-xor (suc n) a b = ap (shifts n) (shift-xor a b) ∙ shifts-xor n (shift a) (shift b)

-- Zeros are shifted out.
shifts-up : (n h : ℕ) → shifts n (up n h) ≡ h
shifts-up zero h = refl
shifts-up (suc n) h =
    let half : 2 * up n h / 2 ≡ up n h = omega arith in
    let low : 2 * up n h % 2 ≡ 0 = omega arith in
    ap (shifts n)
      (ap₂ (λ x y. bit_xor x (odd_part y)) half low ∙ xor_comm (up n h) 0 ∙ zero-xor (up n h))
    ∙ shifts-up n h

step-serial : (crc b : ℕ) → b < 256 → table_step crc b ≡ shifts 8 (bit_xor crc b)
unfolding table_step
step-serial crc b small =
    let low = crc % 256 in
    let high = crc / 256 in
    let index = bit_xor b low in
    let index_small : index < up 8 1 = xor-bound 8 b low small (omega arith) in
    let parts : crc ≡ bit_xor (up 8 high) low = omega (arith, xor-up 8 high low (omega arith)) in
    sym (
      ap (λ x. shifts 8 (bit_xor x b)) parts
      ∙ ap (shifts 8)
          (xor_assoc (up 8 high) low b ∙ ap (λ x. bit_xor (up 8 high) x) (xor_comm low b))
      ∙ shifts-xor 8 (up 8 high) index
      ∙ ap₂ bit_xor (shifts-up 8 high) (table_shifts index index_small))

pub update-serial : (crc : ℕ) (bytes : List ℕ) → IsBytes bytes → update crc bytes ≡ serial crc bytes
unfolding update
update-serial crc [] small = refl
update-serial crc (b ∷ bs) (p, small) =
    ap (λ c. update c bs) (step-serial crc b p) ∙ update-serial (shifts 8 (bit_xor crc b)) bs small

update-append : (crc : ℕ) (xs ys : List ℕ) → update (update crc xs) ys ≡ update crc (xs ++ ys)
unfolding update
update-append crc [] ys = refl
update-append crc (x ∷ xs) ys = update-append (table_step crc x) xs ys

-- A chunk, and what is behind it.
chunk-rest :
    (crc m offset : ℕ) (bytes : List ℕ)
    → update (update crc (take m (drop offset bytes))) (drop (offset + m) bytes)
      ≡ update crc (drop offset bytes)
chunk-rest crc m offset bytes =
    update-append crc (take m (drop offset bytes)) (drop (offset + m) bytes)
    ∙ ap (λ d. update crc (take m (drop offset bytes) ++ d)) (sym (drop-drop m offset bytes))
    ∙ ap (update crc) (take-append-drop m (drop offset bytes))

data_loop-update :
    (n : ℕ) (bytes : List ℕ) (offset crc : ℕ)
    → offset ≤ length bytes
    → length bytes < offset + n
    → data_loop n bytes offset crc ≡ some (update crc (drop offset bytes))
unfolding data_loop
data_loop-update zero bytes offset crc within enough = absurd (omega (arith, within, enough))
data_loop-update (suc n) bytes offset crc within enough =
    elim (Bool-cases (ltb offset (length bytes))) [
      | inl more ↦
          let m = chunk (length bytes) offset in
          let (some_read, inside, small) =
            chunk_within (length bytes) offset (ltb→lt offset (length bytes) more) in
          simp more (
            data_loop-update n bytes (offset + m) (update crc (take m (drop offset bytes))) inside
              (omega (arith, some_read, enough))
            ∙ ap some (chunk-rest crc m offset bytes))
      | inr done ↦
          let past : drop offset bytes ≡ [] = drop_all offset bytes (ground (arith, done)) in
          simp (done, past) (at_end crc)
    ]
  where
    at_end : (crc : ℕ) → some crc ≡ some (update crc [])
    at_end crc = refl

-- Of any bytes, `GetDataCRC32` returns the digits of the checksum that is computed bit by bit:
-- each byte is added to the state by exclusive or, and eight times the state's lowest bit is
-- divided out by the polynomial of the source's comment; so the table's entries and the chunks
-- of 10240 bytes give what the division gives of the whole.
pub get_data_crc32-serial :
    (bytes : List ℕ)
    → IsBytes bytes
    → get_data_crc32 bytes ≡ some (digest (finish (serial init bytes)))
unfolding get_data_crc32
get_data_crc32-serial bytes small =
    simp
      (
        data_loop-update (length bytes + 1) bytes 0 init (omega arith) (omega arith),
        update-serial init bytes small,
      )
      refl
