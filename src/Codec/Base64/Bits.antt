-- ===== src/Codec/Base64/Bits.antt =====
-- The characters of the alphabets and the bits of src/base64.cpp.
use Prim.Native.Nat.{bit_and}
use ashe.Base.{
  ℕ, ◌+◌, ◌*◌, ◌/◌, ◌%◌, ◌<◌, ◌≡◌, refl, Bool, true, false, not, ◌&&◌, Option, none, some, ◌==◌,
  arith, all_below, all_below_sound, eq_of_table,
}
use ashe.Codec.Base64.{char_at, get_pos_of_char, is_padding, first_byte, second_byte, third_byte}

abbrev is_value : ℕ → Option ℕ → Bool
is_value v none = false
is_value v (some w) = w == v

is_value-eq : (v : ℕ) (o : Option ℕ) → is_value v o ≡ true → o ≡ some v
is_value-eq v none h = cc
is_value-eq v (some w) h = ground arith

-- A character of the alphabet has its position, is no padding and no line break.
good_char : Bool → ℕ → Bool
good_char url i =
    is_value i (get_pos_of_char (char_at url i))
    && not (is_padding (char_at url i))
    && not (char_at url i == 10)

alphabet_table : (url : Bool) → all_below 64 (good_char url) ≡ true
unfolding all_below good_char get_pos_of_char char_at
alphabet_table true = refl
alphabet_table false = refl

pub record IsChar (url : Bool) (i : ℕ) : Type 0 where
  pub pos : get_pos_of_char (char_at url i) ≡ some i
  pub text : is_padding (char_at url i) ≡ false
  pub line : (char_at url i == 10) ≡ false

pub char_at-IsChar : (url : Bool) (i : ℕ) → i < 64 → IsChar url i
unfolding good_char
char_at-IsChar url i h = record {
  pos = is_value-eq i _ (and_left _ _ (and_left _ _ t));
  text = not_false (and_right _ _ (and_left _ _ t));
  line = not_false (and_right _ _ t);
}
  where
    t : good_char url i ≡ true
    t = all_below_sound 64 (good_char url) i (alphabet_table url) h

    and_left : (a b : Bool) → (a && b) ≡ true → a ≡ true
    and_left a b e = ground arith

    and_right : (a b : Bool) → (a && b) ≡ true → b ≡ true
    and_right a b e = ground arith

    not_false : {a : Bool} → not a ≡ true → a ≡ false
    not_false {a} e = ground arith

-- The masks over a byte and over a position.
pub mask_fc : (a : ℕ) → a < 256 → bit_and a 0xfc / 4 ≡ a / 4
mask_fc = eq_of_table 256 _ _ (unfold all_below in refl)

pub mask_03 : (a : ℕ) → a < 256 → bit_and a 0x03 ≡ a % 4
mask_03 = eq_of_table 256 _ _ (unfold all_below in refl)

pub mask_f0 : (a : ℕ) → a < 256 → bit_and a 0xf0 / 16 ≡ a / 16
mask_f0 = eq_of_table 256 _ _ (unfold all_below in refl)

pub mask_0f : (a : ℕ) → a < 256 → bit_and a 0x0f ≡ a % 16
mask_0f = eq_of_table 256 _ _ (unfold all_below in refl)

pub mask_c0 : (a : ℕ) → a < 256 → bit_and a 0xc0 / 64 ≡ a / 64
mask_c0 = eq_of_table 256 _ _ (unfold all_below in refl)

pub mask_3f : (a : ℕ) → a < 256 → bit_and a 0x3f ≡ a % 64
mask_3f = eq_of_table 256 _ _ (unfold all_below in refl)

mask_30 : (p : ℕ) → p < 64 → bit_and p 0x30 / 16 ≡ p / 16
mask_30 = eq_of_table 64 _ _ (unfold all_below in refl)

mask_3c : (p : ℕ) → p < 64 → bit_and p 0x3c / 4 ≡ p / 4
mask_3c = eq_of_table 64 _ _ (unfold all_below in refl)

pub first_byte-eq : (a q : ℕ) → a < 256 → q < 16 → first_byte (a / 4) (a % 4 * 16 + q) ≡ a
first_byte-eq a q h k = omega (arith, mask_30 (a % 4 * 16 + q) (omega arith))

pub second_byte-eq :
    (r b q : ℕ) → r < 4 → b < 256 → q < 4 → second_byte (r * 16 + b / 16) (b % 16 * 4 + q) ≡ b
second_byte-eq r b q h k l =
    omega (arith, mask_0f (r * 16 + b / 16) (omega arith), mask_3c (b % 16 * 4 + q) (omega arith))

pub third_byte-eq : (r c : ℕ) → r < 16 → c < 256 → third_byte (r * 4 + c / 64) (c % 64) ≡ c
third_byte-eq r c h k = omega (arith, mask_03 (r * 4 + c / 64) (omega arith))
