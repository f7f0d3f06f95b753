-- ===== src/Hash/Crc32/Detects.antt =====
-- What the checksum of src/crc32.cpp finds out: a text with one byte changed has another one.
use Prim.Native.Nat.{bit_xor}
use mathlib.Core.Option.{some-injective}
use mathlib.Core.List.{head-eq_of_cons-eq, tail-eq_of_cons-eq}
use ashe.Base.{
  ℕ, zero, suc, ◌-◌, ◌/◌, ◌%◌, ◌^◌, ◌<◌, ◌≡◌, ◌≢◌, refl, ap, sym, ◌∙◌, ◌⊎◌, inl, inr, List, [], ◌∷◌,
  ◌++◌, arith, IsBytes,
}
use ashe.Hash.Xor.{xor_comm, xor_assoc, xor_self, zero-xor, up, xor-bound, xor-up}
use ashe.Hash.Crc32.{hex_digit, hex_digits, init, finish, digest, get_data_crc32}
use ashe.Hash.Crc32.Serial.{polynomial, odd_part, shift, shifts, serial, get_data_crc32-serial}

xor-cancel : (a b c : ℕ) → bit_xor a c ≡ bit_xor b c → a ≡ b
xor-cancel a b c e = sym (twice a) ∙ ap (λ x. bit_xor x c) e ∙ twice b
  where
    twice : (x : ℕ) → bit_xor (bit_xor x c) c ≡ x
    twice x = xor_assoc x c c ∙ ap (bit_xor x) (xor_self c) ∙ xor_comm x 0 ∙ zero-xor x

parity : (a : ℕ) → (a % 2 ≡ 0) ⊎ (a % 2 ≡ 1)
parity a = go (a % 2) (omega arith)
  where
    go : (x : ℕ) → x < 2 → (x ≡ 0) ⊎ (x ≡ 1)
    go zero p = inl refl
    go (suc zero) p = inr refl
    go (suc (suc x)) p = absurd (omega (arith, p))

-- The polynomial has its highest bit.
with_polynomial : (a : ℕ) → a < 2 ^ 31 → bit_xor a polynomial / 2 ^ 31 ≡ 1
with_polynomial a small =
    let low = polynomial - 2 ^ 31 in
    let order : bit_xor a polynomial ≡ bit_xor (up 31 1) (bit_xor low a) =
      xor_comm a polynomial ∙ xor_assoc (2 ^ 31) low a in
    let bound = xor-bound 31 low a (omega arith) small in
    omega (arith, order, xor-up 31 1 (bit_xor low a) bound, bound)

shift-top : (a : ℕ) → a < 2 ^ 32 → shift a / 2 ^ 31 ≡ a % 2
shift-top a small = elim (parity a) [
  | inl even ↦ rw even (omega (arith, xor_comm (a / 2) 0, zero-xor (a / 2), small))
  | inr odd ↦ rw odd (with_polynomial (a / 2) (omega (arith, small)))
]

shift-bound : (a : ℕ) → a < 2 ^ 32 → shift a < 2 ^ 32
shift-bound a small = elim (parity a) [
  | inl even ↦ rw even (xor-bound 32 (a / 2) 0 (omega (arith, small)) (omega arith))
  | inr odd ↦ rw odd (xor-bound 32 (a / 2) polynomial (omega (arith, small)) (omega arith))
]

shift-injective : (a b : ℕ) → a < 2 ^ 32 → b < 2 ^ 32 → shift a ≡ shift b → a ≡ b
shift-injective a b p q e =
    let low : a % 2 ≡ b % 2 = sym (shift-top a p) ∙ ap (λ x. x / 2 ^ 31) e ∙ shift-top b q in
    let half =
      xor-cancel (a / 2) (b / 2) (odd_part (b % 2))
        (ap (λ x. bit_xor (a / 2) (odd_part x)) (sym low) ∙ e) in
    omega (arith, low, half)

shifts-bound : (n a : ℕ) → a < 2 ^ 32 → shifts n a < 2 ^ 32
shifts-bound zero a p = p
shifts-bound (suc n) a p = shifts-bound n (shift a) (shift-bound a p)

shifts-injective : (n a b : ℕ) → a < 2 ^ 32 → b < 2 ^ 32 → shifts n a ≡ shifts n b → a ≡ b
shifts-injective zero a b p q e = e
shifts-injective (suc n) a b p q e =
    shift-injective a b p q
      (shifts-injective n (shift a) (shift b) (shift-bound a p) (shift-bound b q) e)

round-bound : (a b : ℕ) → a < 2 ^ 32 → b < 256 → shifts 8 (bit_xor a b) < 2 ^ 32
round-bound a b p q = shifts-bound 8 (bit_xor a b) (xor-bound 32 a b p (omega (arith, q)))

serial-bound : (a : ℕ) (bs : List ℕ) → a < 2 ^ 32 → IsBytes bs → serial a bs < 2 ^ 32
serial-bound a [] p small = p
serial-bound a (b ∷ bs) p (q, small) =
    serial-bound (shifts 8 (bit_xor a b)) bs (round-bound a b p q) small

-- From different states the same bytes lead to different states.
serial-injective :
    (a b : ℕ) (bs : List ℕ)
    → a < 2 ^ 32
    → b < 2 ^ 32
    → IsBytes bs
    → serial a bs ≡ serial b bs
    → a ≡ b
serial-injective a b [] p q small e = e
serial-injective a b (c ∷ bs) p q (r, small) e = xor-cancel a b c (
    shifts-injective 8 (bit_xor a c) (bit_xor b c) (xor-bound 32 a c p (omega (arith, r)))
      (xor-bound 32 b c q (omega (arith, r)))
      (serial-injective (shifts 8 (bit_xor a c)) (shifts 8 (bit_xor b c)) bs (round-bound a c p r)
        (round-bound b c q r) small e))

serial-append : (a : ℕ) (xs ys : List ℕ) → serial a (xs ++ ys) ≡ serial (serial a xs) ys
serial-append a [] ys = refl
serial-append a (x ∷ xs) ys = serial-append (shifts 8 (bit_xor a x)) xs ys

hex_digit-injective : (x y : ℕ) → x < 16 → y < 16 → hex_digit x ≡ hex_digit y → x ≡ y
hex_digit-injective x y p q e = ground (arith, p, q, e)

same_digits :
    (n a b : ℕ)
    → hex_digits n a ≡ hex_digits n b
    → (k : ℕ) → k < n
    → a / 16 ^ k % 16 ≡ b / 16 ^ k % 16
same_digits zero a b e k p = absurd (omega (arith, p))
same_digits (suc n) a b e k p = elim (which k n p) [
  | inl less ↦ same_digits n a b (tail-eq_of_cons-eq e) k less
  | inr same ↦ rw same (
      hex_digit-injective (a / 16 ^ n % 16) (b / 16 ^ n % 16) (omega arith) (omega arith)
        (head-eq_of_cons-eq e))
]
  where
    which : (k n : ℕ) → k < suc n → (k < n) ⊎ (k ≡ n)
    which zero zero p = inr refl
    which (suc k) zero p = absurd (omega (arith, p))
    which zero (suc n) p = inl (omega arith)
    which (suc k) (suc n) p = elim (which k n (omega (arith, p))) [
      | inl less ↦ inl (omega (arith, less))
      | inr same ↦ inr (omega (arith, same))
    ]

digest-injective : (a b : ℕ) → a < 2 ^ 32 → b < 2 ^ 32 → digest a ≡ digest b → a ≡ b
unfolding digest
digest-injective a b p q e =
    let digit = same_digits 8 a b e in
    omega (
      arith,
      p,
      q,
      digit 0 (omega arith),
      digit 1 (omega arith),
      digit 2 (omega arith),
      digit 3 (omega arith),
      digit 4 (omega arith),
      digit 5 (omega arith),
      digit 6 (omega arith),
      digit 7 (omega arith),
    )

All-split : (xs ys : List ℕ) → IsBytes (xs ++ ys) → IsBytes xs × IsBytes ys
All-split [] ys small = (tt, small)
All-split (x ∷ xs) ys (p, small) = let (front, back) = All-split xs ys small in ((p, front), back)

-- Two texts of bytes that differ in one byte, with the same bytes before it and behind it, have
-- different results of `GetDataCRC32`.
pub get_data_crc32-differs :
    (xs ys : List ℕ) (x y : ℕ)
    → IsBytes (xs ++ x ∷ ys)
    → IsBytes (xs ++ y ∷ ys)
    → x ≢ y
    → get_data_crc32 (xs ++ x ∷ ys) ≢ get_data_crc32 (xs ++ y ∷ ys)
unfolding init finish
get_data_crc32-differs xs ys x y small_x small_y apart e =
    let (small, (p, rest)) = All-split xs (x ∷ ys) small_x in
    let (small', (q, rest')) = All-split xs (y ∷ ys) small_y in
    let before = serial-bound init xs (omega arith) small in
    let start = serial init xs in
    let after_x = round-bound start x before p in
    let after_y = round-bound start y before q in
    let end_x = serial-bound (shifts 8 (bit_xor start x)) ys after_x rest in
    let end_y = serial-bound (shifts 8 (bit_xor start y)) ys after_y rest in
    let texts =
      some-injective (digest (finish (serial init (xs ++ x ∷ ys))))
        (digest (finish (serial init (xs ++ y ∷ ys))))
        (sym (get_data_crc32-serial (xs ++ x ∷ ys) small_x)
          ∙ e
          ∙ get_data_crc32-serial (xs ++ y ∷ ys) small_y) in
    let ends =
      digest-injective (finish (serial init (xs ++ x ∷ ys))) (finish (serial init (xs ++ y ∷ ys)))
        (omega arith) (omega arith) texts in
    let split_x = serial-append init xs (x ∷ ys) in
    let split_y = serial-append init xs (y ∷ ys) in
    let states =
      serial-injective (shifts 8 (bit_xor start x)) (shifts 8 (bit_xor start y)) ys after_x after_y
        rest (omega (arith, ends, split_x, split_y, end_x, end_y)) in
    let inputs =
      shifts-injective 8 (bit_xor start x) (bit_xor start y)
        (xor-bound 32 start x before (omega (arith, p)))
        (xor-bound 32 start y before (omega (arith, q))) states in
    apart (xor-cancel x y start (xor_comm x start ∙ inputs ∙ xor_comm start y))
