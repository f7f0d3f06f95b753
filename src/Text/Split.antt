-- ===== src/Text/Split.antt =====
-- src/string_util.cpp: `StrSplit` and `StrJoin`.
pub mod Laws
use ashe.Base.{
  ℕ, zero, suc, ◌+◌, ◌-◌, Bool, ◌&&◌, ◌||◌, List, [], ◌∷◌, ◌++◌, Option, none, some, ltb, ◌==◌,
  if◌then◌else◌, length, take, drop,
}
use ashe.Text.Chars.{is_empty}
use ashe.Text.Find.{find}
use ashe.Text.Trim.{substr}

-- `fields.push_back(t)`, if `t` is not empty or empty fields are kept.
pub push_field : Bool → List (List ℕ) → List ℕ → List (List ℕ)
push_field include_empty fields t =
    if ltb 0 (length t) || (length t == 0 && include_empty) then fields ++ t ∷ [] else fields

-- The `while` loop on fuel, with `pos` found from `offset`; `none` when the fuel runs out.
pub split_loop : ℕ → List ℕ → List ℕ → Bool → List (List ℕ) → ℕ → Option (List (List ℕ))
unfolding push_field find
split_loop zero src delimiter include_empty fields offset = none
split_loop (suc fuel) src delimiter include_empty fields offset = elim (find src delimiter offset) [
  | none ↦ some (push_field include_empty fields (drop offset src))
  | some pos ↦
      split_loop fuel src delimiter include_empty
        (push_field include_empty fields (substr src offset (pos - offset)))
        (pos + length delimiter)
]

unfoldable pub str_split : ℕ → List ℕ → List ℕ → Bool → Option (List (List ℕ))
unfolding split_loop
str_split fuel src delimiter include_empty = split_loop fuel src delimiter include_empty [] 0

-- What one round of the loop in `StrJoin` writes for a part, to `ss`.
pub write_part : Bool → List ℕ → List ℕ → List ℕ
write_part include_empty ss t =
    if ltb 0 (length t) then ss ++ t else if include_empty then ss ++ t else ss

-- The loop: a delimiter follows every part but the last.
pub join_loop : Bool → List ℕ → List ℕ → List (List ℕ) → List ℕ
join_loop include_empty delimiter ss [] = ss
join_loop include_empty delimiter ss (t ∷ rest) =
    let ss' = write_part include_empty ss t in
    join_loop include_empty delimiter (elim rest [ [] ↦ ss' | u ∷ us ↦ ss' ++ delimiter ]) rest

unfoldable pub str_join : List (List ℕ) → List ℕ → Bool → List ℕ
unfolding join_loop write_part
str_join src delimiter include_empty = join_loop include_empty delimiter [] src
