-- ===== src/Text/Chars.antt =====
-- src/string_util.cpp: case, classes of characters, and comparison, unit by unit. The ranges of
-- `StrToLower` and `StrToUpper` are ASCII, and so is `std::isdigit` in the C locale.
pub mod Laws
use ashe.Base.{
  ℕ, zero, suc, ◌+◌, ◌-◌, ◌≤◌, ◌<◌, ◌≡◌, refl, ap, ap₂, ◌∙◌, Bool, true, false, not, ◌&&◌, ◌||◌,
  ◌↔◌, List, [], ◌∷◌, map, arith, leb, ◌==◌, if◌then◌else◌, length, All, Bool-cases, inl, inr,
  ==_iff,
}

abbrev pub is_between : ℕ → ℕ → ℕ → Bool
is_between lo hi c = leb lo c && leb c hi

unfoldable pub to_lower_char : ℕ → ℕ
to_lower_char c = if is_between b'A' b'Z' c then c + (b'z' - b'Z') else c

unfoldable pub to_upper_char : ℕ → ℕ
to_upper_char c = if is_between b'a' b'z' c then c - (b'z' - b'Z') else c

unfoldable pub str_to_lower : List ℕ → List ℕ
str_to_lower s = map to_lower_char s

pub str_to_upper : List ℕ → List ℕ
str_to_upper s = map to_upper_char s

-- `EqualA` and `EqualW`.
unfoldable pub equal_chars : Bool → ℕ → ℕ → Bool
unfolding to_upper_char
equal_chars case_insensitive a b =
    if case_insensitive then to_upper_char a == to_upper_char b else a == b

-- `std::find_if` for a unit that fails the test, run to the end.
pub none_fails : (ℕ → Bool) → List ℕ → Bool
none_fails test [] = true
none_fails test (c ∷ s) = if not (test c) then false else none_fails test s

abbrev pub is_empty : List ℕ → Bool
is_empty [] = true
is_empty (c ∷ s) = false

abbrev pub is_digit : ℕ → Bool
is_digit = is_between b'0' b'9'

unfoldable pub str_is_digit : List ℕ → Bool
unfolding none_fails
str_is_digit s = not (is_empty s) && none_fails is_digit s

pub is_letter_or_digit : ℕ → Bool
is_letter_or_digit c = is_between b'0' b'9' c || is_between b'a' b'z' c || is_between b'A' b'Z' c

unfoldable pub str_is_letter_or_digit : List ℕ → Bool
unfolding none_fails is_letter_or_digit
str_is_letter_or_digit s = not (is_empty s) && none_fails is_letter_or_digit s

-- The loop of `StrIsEqual` over two strings of one length.
equal_from : Bool → List ℕ → List ℕ → Bool
unfolding to_lower_char
equal_from ignore_case [] t = true
equal_from ignore_case (a ∷ s) [] = true
equal_from ignore_case (a ∷ s) (b ∷ t) =
    let rest = equal_from ignore_case s t in
    if ignore_case
    then (if not (to_lower_char a == to_lower_char b) then false else rest)
    else if not (a == b)
    then false
    else rest

pub str_is_equal : List ℕ → List ℕ → Bool → Bool
unfolding equal_from
str_is_equal s t ignore_case =
    if not (length s == length t) then false else equal_from ignore_case s t

-- The two ways to ignore case agree on every character.
pub lower_eq-upper_eq :
    (a b : ℕ) → (to_lower_char a == to_lower_char b) ≡ (to_upper_char a == to_upper_char b)
unfolding to_lower_char to_upper_char
lower_eq-upper_eq a b = ground arith

pub to_lower_idem : (c : ℕ) → to_lower_char (to_lower_char c) ≡ to_lower_char c
unfolding to_lower_char
to_lower_idem c = ground arith

pub lower-upper : (c : ℕ) → to_lower_char (to_upper_char c) ≡ to_lower_char c
unfolding to_lower_char to_upper_char
lower-upper c = ground arith

pub upper-lower : (c : ℕ) → to_upper_char (to_lower_char c) ≡ to_upper_char c
unfolding to_lower_char to_upper_char
upper-lower c = ground arith
