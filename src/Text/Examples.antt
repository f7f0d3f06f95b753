-- ===== src/Text/Examples.antt =====
-- Concrete texts, on which the theorems about src/string_util.cpp apply.
use ashe.Base.{
  ℕ, suc, ◌≡◌, true, false, refl, List, ◌∷◌, none, some, arith, if◌then◌else◌, length, codes, All,
}
use ashe.Text.Chars.{equal_chars, is_empty, str_is_letter_or_digit}
use ashe.Text.Find.{str_find}
use ashe.Text.Replace.{str_replace, str_replace_last}
use ashe.Text.Replace.Laws.{str_replace-replaced, replaced}
use ashe.Text.Split.{str_split, str_join}
use ashe.Text.Split.Laws.{str_join-str_split, kept, Lacks}

abbrev fields_text : List ℕ
fields_text = codes "a,b,"

abbrev comma : List ℕ
comma = codes ","

-- A match before the offset is replaced with the one behind it.
str_replace-replaced_example : str_replace (codes "aba") (codes "a") (codes "c") 1 false ≡ (
    if is_empty (codes "a")
    then some (codes "aba")
    else elim (str_find (codes "aba") (codes "a") 1 false) [
      | none ↦ some (codes "aba")
      | some _ ↦ some (replaced (equal_chars false) (codes "a") (codes "c") 0 (codes "aba"))
    ])
str_replace-replaced_example = str_replace-replaced (codes "aba") (codes "a") (codes "c") 1 false

str_join-str_split_example :
    (first : List ℕ) × (others : List (List ℕ)) × (str_split
        (suc (length fields_text))
        fields_text
        comma
        false
      ≡ some (kept false (first ∷ others)))
    × All (Lacks comma) (first ∷ others)
    × (str_join (kept true (first ∷ others)) comma false ≡ fields_text)
str_join-str_split_example = str_join-str_split fields_text comma false (omega arith)

replaces_last : str_replace_last (codes "abcb") (codes "b") (codes "xy") ≡ codes "abcxy"
unfolding str_replace_last
replaces_last = refl

letters_and_digits : str_is_letter_or_digit (codes "aZ09") ≡ true
unfolding str_is_letter_or_digit
letters_and_digits = refl
