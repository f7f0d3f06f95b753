-- ===== src/Text/Find.antt =====
-- src/string_util.cpp: searching. `std::string::find`, `rfind`, `compare` and `std::search` are
-- the first or last place where a needle is a prefix of what follows.
pub mod Laws
pub mod Count
pub mod Affixes
use ashe.Base.{
  ℕ, zero, suc, ◌+◌, ◌-◌, Bool, true, false, not, ◌&&◌, List, [], ◌∷◌, Option, none, some, leb, ltb,
  ◌==◌, if◌then◌else◌, length, drop, take,
}
use ashe.Text.Chars.{equal_chars}

-- Whether the needle is a prefix, by a test on units.
unfoldable pub is_prefix_by : (ℕ → ℕ → Bool) → List ℕ → List ℕ → Bool
is_prefix_by eq [] s = true
is_prefix_by eq (a ∷ p) [] = false
is_prefix_by eq (a ∷ p) (b ∷ s) = eq b a && is_prefix_by eq p s

-- The first index from `i` on, where `s` is what follows index `i`.
unfoldable pub search_from : (ℕ → ℕ → Bool) → List ℕ → ℕ → List ℕ → Option ℕ
unfolding is_prefix_by
search_from eq p i [] = if is_prefix_by eq p [] then some i else none
search_from eq p i (c ∷ s) =
    if is_prefix_by eq p (c ∷ s) then some i else search_from eq p (i + 1) s

-- `s.find(p, offset)`.
unfoldable pub find : List ℕ → List ℕ → ℕ → Option ℕ
unfolding search_from
find s p offset = if leb offset (length s) then search_from ◌==◌ p offset (drop offset s) else none

-- `s.rfind(p)`.
unfoldable pub rsearch_from : List ℕ → ℕ → List ℕ → Option ℕ
unfolding is_prefix_by
rsearch_from p i [] = if is_prefix_by ◌==◌ p [] then some i else none
rsearch_from p i (c ∷ s) = elim (rsearch_from p (i + 1) s) [
  | some j ↦ some j
  | none ↦ if is_prefix_by ◌==◌ p (c ∷ s) then some i else none
]

abbrev pub is_some {ℓ} : {A : Type ℓ} → Option A → Bool
is_some none = false
is_some (some a) = true

-- `s.compare(0, prefix.length(), prefix) == 0`.
unfoldable pub equal_lists : List ℕ → List ℕ → Bool
equal_lists [] [] = true
equal_lists [] (b ∷ t) = false
equal_lists (a ∷ s) [] = false
equal_lists (a ∷ s) (b ∷ t) = a == b && equal_lists s t

pub str_is_starts_with : List ℕ → List ℕ → Bool
unfolding equal_lists
str_is_starts_with s prefix = equal_lists (take (length prefix) s) prefix

pub str_is_ends_with : List ℕ → List ℕ → Bool
unfolding equal_lists
str_is_ends_with s suffix =
    if leb (length suffix) (length s)
    then equal_lists (take (length suffix) (drop (length s - length suffix) s)) suffix
    else false

unfoldable pub str_is_contains : List ℕ → List ℕ → Bool
unfolding find
str_is_contains s p = is_some (find s p 0)

-- The `do … while` loop on fuel.
unfoldable pub contain_loop : ℕ → List ℕ → List ℕ → ℕ → ℕ → Option ℕ
unfolding find
contain_loop zero s p offset times = none
contain_loop (suc fuel) s p offset times = elim (find s p offset) [
  | none ↦ some times
  | some pos ↦ contain_loop fuel s p (pos + length p) (times + 1)
]

pub str_contain_times : List ℕ → List ℕ → Option ℕ
unfolding contain_loop
str_contain_times s p = if length p == 0 then some 0 else contain_loop (suc (length s)) s p 0 0

-- `StrFind`; `std::search` that ends at `str.end()` has found nothing.
unfoldable pub str_find : List ℕ → List ℕ → ℕ → Bool → Option ℕ
unfolding search_from
str_find s p offset case_insensitive =
    if leb (length s) offset
    then none
    else search_from (equal_chars case_insensitive) p offset (drop offset s)
