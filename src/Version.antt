-- ===== src/Version.antt =====
-- src/version.cpp and include/ashe/version.h: a version is the list of its numbers, those of an
-- invalid one are none. `strtol` stops at the largest `long`, a parameter since it is 31 or 63 bits
-- wide, and the vector holds `unsigned int`.
pub mod Order
pub mod Parse
pub mod Examples
use ashe.Base.{
  ℕ, suc, ◌+◌, ◌-◌, ◌*◌, ◌%◌, ◌^◌, Bool, true, false, not, List, [], ◌∷◌, map, Option, none, some,
  ltb, ◌==◌, if◌then◌else◌, ◌>>=◌, length, codes,
}
use ashe.Text.Chars.{is_empty, str_is_digit}
use ashe.Text.Trim.{str_trim}
use ashe.Text.Split.{str_split}

pub record Version : Type 0 where
  pub ver_elems : List ℕ

abbrev pub whitespaces : List ℕ
whitespaces = b' ' ∷ 9 ∷ 12 ∷ 11 ∷ 10 ∷ 13 ∷ []

-- `strtol` with base 10 of digits, `n` read so far.
pub strtol_from : ℕ → ℕ → List ℕ → ℕ
strtol_from long_max n [] = if ltb long_max n then long_max else n
strtol_from long_max n (c ∷ s) = strtol_from long_max (n * 10 + (c - b'0')) s

-- What `push_back` stores of a field.
pub elem_of : ℕ → List ℕ → ℕ
unfolding strtol_from
elem_of long_max c = strtol_from long_max 0 c % 2 ^ 32

pub all_digits : List (List ℕ) → Bool
all_digits [] = true
all_digits (c ∷ v) = if not (str_is_digit c) then false else all_digits v

pub elems_of : ℕ → List (List ℕ) → List ℕ
unfolding all_digits elem_of
elems_of long_max v =
    if is_empty_list v then [] else if all_digits v then map (elem_of long_max) v else []
  where
    is_empty_list : List (List ℕ) → Bool
    is_empty_list [] = true
    is_empty_list (c ∷ r) = false

-- The constructor from a string; `none` when the loop of `StrSplit` runs out of fuel.
pub version_of : ℕ → List ℕ → Option Version
unfolding elems_of
version_of long_max s =
    let sc = str_trim s whitespaces in
    (do
      v ← str_split (suc (length sc)) sc (codes ".") true
      some (record { ver_elems = elems_of long_max v }))

pub is_valid : Version → Bool
is_valid v = elim v.ver_elems [ [] ↦ false | c ∷ r ↦ true ]

unfoldable pub is_same_format : Version → Version → Bool
is_same_format v w = length v.ver_elems == length w.ver_elems

-- The loop of `operator==`, over lists of one length.
pub same_elems : List ℕ → List ℕ → Bool
same_elems [] s = true
same_elems (a ∷ r) [] = false
same_elems (a ∷ r) (b ∷ s) = if not (a == b) then false else same_elems r s

unfoldable pub version_equal : Version → Version → Bool
unfolding is_same_format same_elems
version_equal v w = if not (is_same_format v w) then false else same_elems v.ver_elems w.ver_elems

unfoldable pub version_not_equal : Version → Version → Bool
unfolding version_equal
version_not_equal v w = not (version_equal v w)

-- The results 1, -1 and 0 of `compare`.
pub data Sign : Type 0 where
  above below level : Sign

-- The loop of `compare`; `none` is a read past the end of the other vector.
pub compare_elems : List ℕ → List ℕ → Option Sign
compare_elems [] s = some level
compare_elems (a ∷ r) [] = none
compare_elems (a ∷ r) (b ∷ s) =
    let rest = compare_elems r s in
    if ltb b a then some above else if ltb a b then some below else rest

-- `asserts` says whether `assert` is compiled in; a failing one is `none` too.
pub compare : Bool → Version → Version → Option Sign
unfolding compare_elems is_same_format
compare asserts v w =
    let r = compare_elems v.ver_elems w.ver_elems in
    if asserts then (if is_same_format v w then r else none) else r

abbrev pub is_above : Sign → Bool
is_above above = true
is_above below = false
is_above level = false

abbrev pub is_below : Sign → Bool
is_below above = false
is_below below = true
is_below level = false

pub version_greater : Bool → Version → Version → Option Bool
unfolding compare
version_greater asserts v w = do r ← compare asserts v w; some (is_above r)

pub version_less : Bool → Version → Version → Option Bool
unfolding compare
version_less asserts v w = do r ← compare asserts v w; some (is_below r)

pub version_less_equal : Bool → Version → Version → Option Bool
unfolding compare
version_less_equal asserts v w = do r ← compare asserts v w; some (not (is_above r))

pub version_greater_equal : Bool → Version → Version → Option Bool
unfolding compare
version_greater_equal asserts v w = do r ← compare asserts v w; some (not (is_below r))
