-- ===== src/Hash/Xor.antt =====
-- The exclusive or of numbers, digit by digit.
use Prim.Native.Nat.{bit_xor, digits, differ, bit_xor-bitwise}
use ashe.Base.{ℕ, zero, suc, ◌+◌, ◌*◌, ◌/◌, ◌%◌, ◌≤◌, ◌<◌, ◌≡◌, refl, ap, ap₂, sym, ◌∙◌, arith}

abbrev xor_digits : ℕ → ℕ → ℕ → ℕ
xor_digits = digits (λ b. b) differ

-- More digits to go than the first number has change nothing.
xor_digits-more : (n m a b : ℕ) → a ≤ n → a ≤ m → xor_digits n a b ≡ xor_digits m a b
xor_digits-more zero zero a b p q = refl
xor_digits-more zero (suc m) zero b p q = refl
xor_digits-more zero (suc m) (suc a) b p q = absurd (omega (arith, p))
xor_digits-more (suc n) zero zero b p q = refl
xor_digits-more (suc n) zero (suc a) b p q = absurd (omega (arith, q))
xor_digits-more (suc n) (suc m) zero b p q = refl
xor_digits-more (suc n) (suc m) (suc a) b p q =
    let higher = xor_digits-more n m (suc a / 2) (b / 2) (omega (arith, p)) (omega (arith, q)) in
    omega (arith, higher)

pub zero-xor : (b : ℕ) → bit_xor 0 b ≡ b
zero-xor b = bit_xor-bitwise 0 b

differ-zero : (x : ℕ) → differ x zero ≡ x
differ-zero zero = refl
differ-zero (suc x) = refl

differ_comm : (x y : ℕ) → differ x y ≡ differ y x
differ_comm zero y = sym (differ-zero y)
differ_comm (suc x) zero = refl
differ_comm (suc x) (suc y) = differ_comm x y

differ_self : (x : ℕ) → differ x x ≡ 0
differ_self zero = refl
differ_self (suc x) = differ_self x

-- Of digits 0 and 1.
differ-digit : (x y : ℕ) → x < 2 → y < 2 → differ x y < 2
differ-digit zero y p q = q
differ-digit (suc x) zero p q = p
differ-digit (suc x) (suc y) p q = differ-digit x y (omega (arith, p)) (omega (arith, q))

differ_assoc : (x y z : ℕ) → x < 2 → y < 2 → z < 2 → differ (differ x y) z ≡ differ x (differ y z)
differ_assoc zero y z p q r = refl
differ_assoc (suc zero) zero z p q r = refl
differ_assoc (suc zero) (suc zero) zero p q r = refl
differ_assoc (suc zero) (suc zero) (suc zero) p q r = refl
differ_assoc (suc (suc x)) y z p q r = absurd (omega (arith, p))
differ_assoc (suc zero) (suc (suc y)) z p q r = absurd (omega (arith, q))
differ_assoc (suc zero) (suc zero) (suc (suc z)) p q r = absurd (omega (arith, r))

xor-parts : (a b : ℕ) → bit_xor a b ≡ bit_xor (a / 2) (b / 2) * 2 + differ (a % 2) (b % 2)
xor-parts zero b = omega (arith, zero-xor b, zero-xor (b / 2))
xor-parts (suc a) b =
    let whole = bit_xor-bitwise (suc a) b in
    let half = bit_xor-bitwise (suc a / 2) (b / 2) in
    let more = xor_digits-more a (suc a / 2) (suc a / 2) (b / 2) (omega arith) (omega arith) in
    omega (arith, whole, half, more)

pub xor-half : (a b : ℕ) → bit_xor a b / 2 ≡ bit_xor (a / 2) (b / 2)
xor-half a b =
    omega (arith, xor-parts a b, differ-digit (a % 2) (b % 2) (omega arith) (omega arith))

pub xor-low : (a b : ℕ) → bit_xor a b % 2 ≡ differ (a % 2) (b % 2)
xor-low a b = omega (arith, xor-parts a b, differ-digit (a % 2) (b % 2) (omega arith) (omega arith))

-- Numbers with the same half and the same lowest digit.
same_parts : (m n : ℕ) → m / 2 ≡ n / 2 → m % 2 ≡ n % 2 → m ≡ n
same_parts m n h l = omega (arith, h, l)

xor-comm_to : (n a b : ℕ) → a + b ≤ n → bit_xor a b ≡ bit_xor b a
xor-comm_to zero zero zero few = refl
xor-comm_to zero (suc a) b few = absurd (omega (arith, few))
xor-comm_to zero zero (suc b) few = absurd (omega (arith, few))
xor-comm_to (suc n) a b few =
    same_parts (bit_xor a b) (bit_xor b a)
      (xor-half a b ∙ xor-comm_to n (a / 2) (b / 2) (omega (arith, few)) ∙ sym (xor-half b a))
      (xor-low a b ∙ differ_comm (a % 2) (b % 2) ∙ sym (xor-low b a))

pub xor_comm : (a b : ℕ) → bit_xor a b ≡ bit_xor b a
xor_comm a b = xor-comm_to (a + b) a b (omega arith)

xor-self_to : (n a : ℕ) → a ≤ n → bit_xor a a ≡ 0
xor-self_to zero zero few = refl
xor-self_to zero (suc a) few = absurd (omega (arith, few))
xor-self_to (suc n) a few =
    same_parts (bit_xor a a) 0 (xor-half a a ∙ xor-self_to n (a / 2) (omega (arith, few)))
      (xor-low a a ∙ differ_self (a % 2))

pub xor_self : (a : ℕ) → bit_xor a a ≡ 0
xor_self a = xor-self_to a a (omega arith)

xor-assoc_to : (n a b c : ℕ) → a + b + c ≤ n → bit_xor (bit_xor a b) c ≡ bit_xor a (bit_xor b c)
xor-assoc_to zero zero b c few = ap (λ x. bit_xor x c) (zero-xor b) ∙ sym (zero-xor (bit_xor b c))
xor-assoc_to zero (suc a) b c few = absurd (omega (arith, few))
xor-assoc_to (suc n) a b c few =
    same_parts (bit_xor (bit_xor a b) c) (bit_xor a (bit_xor b c))
      (xor-half (bit_xor a b) c
        ∙ ap (λ x. bit_xor x (c / 2)) (xor-half a b)
        ∙ xor-assoc_to n (a / 2) (b / 2) (c / 2) (omega (arith, few))
        ∙ ap (λ x. bit_xor (a / 2) x) (sym (xor-half b c))
        ∙ sym (xor-half a (bit_xor b c)))
      (xor-low (bit_xor a b) c
        ∙ ap (λ x. differ x (c % 2)) (xor-low a b)
        ∙ differ_assoc (a % 2) (b % 2) (c % 2) (omega arith) (omega arith) (omega arith)
        ∙ ap (λ x. differ (a % 2) x) (sym (xor-low b c))
        ∙ sym (xor-low a (bit_xor b c)))

pub xor_assoc : (a b c : ℕ) → bit_xor (bit_xor a b) c ≡ bit_xor a (bit_xor b c)
xor_assoc a b c = xor-assoc_to (a + b + c) a b c (omega arith)

-- `h` with `k` zeros behind it.
abbrev pub up : ℕ → ℕ → ℕ
up zero h = h
up (suc k) h = 2 * up k h

pub xor-bound : (k a b : ℕ) → a < up k 1 → b < up k 1 → bit_xor a b < up k 1
xor-bound zero a b p q =
    let zero_a : a ≡ 0 = omega (arith, p) in
    let zero_b : b ≡ 0 = omega (arith, q) in
    let none : bit_xor a b ≡ 0 = ap₂ bit_xor zero_a zero_b in omega (arith, none)
xor-bound (suc k) a b p q =
    let higher = xor-bound k (a / 2) (b / 2) (omega (arith, p)) (omega (arith, q)) in
    omega (arith, higher, xor-half a b)

-- Digits behind zeros.
pub xor-up : (k h l : ℕ) → l < up k 1 → bit_xor (up k h) l ≡ up k h + l
xor-up zero h l p =
    let zero_l : l ≡ 0 = omega (arith, p) in
    xor_comm h l ∙ ap (λ x. bit_xor x h) zero_l ∙ zero-xor h ∙ omega (arith, zero_l)
xor-up (suc k) h l p =
    let higher = xor-up k h (l / 2) (omega (arith, p)) in
    let half : 2 * up k h / 2 ≡ up k h = omega arith in
    let low : 2 * up k h % 2 ≡ 0 = omega arith in
    same_parts (bit_xor (2 * up k h) l) (2 * up k h + l)
      (xor-half (2 * up k h) l ∙ ap (λ x. bit_xor x (l / 2)) half ∙ higher ∙ omega arith)
      (xor-low (2 * up k h) l ∙ ap (λ x. differ x (l % 2)) low ∙ omega arith)
