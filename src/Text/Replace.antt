-- ===== src/Text/Replace.antt =====
-- src/string_util.cpp: `StrReplaceFirst`, `StrReplaceLast` and `StrReplace`.
pub mod Laws
pub mod First
use ashe.Base.{
  ℕ, zero, suc, ◌+◌, Bool, List, [], ◌∷◌, ◌++◌, Option, none, some, if◌then◌else◌, length, take,
  drop,
}
use ashe.Text.Chars.{is_empty}
use ashe.Text.Find.{find, rsearch_from, str_find}

-- `s.replace(pos, n, to)`.
abbrev pub splice : List ℕ → ℕ → ℕ → List ℕ → List ℕ
splice s pos n to = take pos s ++ (to ++ drop (pos + n) s)

pub str_replace_first : List ℕ → List ℕ → List ℕ → List ℕ
unfolding find
str_replace_first s from to = elim (find s from 0) [
  | none ↦ s
  | some pos ↦ splice s pos (length from) to
]

unfoldable pub str_replace_last : List ℕ → List ℕ → List ℕ → List ℕ
unfolding rsearch_from
str_replace_last s from to = elim (rsearch_from from 0 s) [
  | none ↦ s
  | some pos ↦ splice s pos (length from) to
]

-- The `while` loop over `ret` and `start_pos`, on fuel; `none` when the fuel runs out.
pub replace_loop : ℕ → List ℕ → List ℕ → Bool → ℕ → List ℕ → Option (List ℕ)
unfolding str_find
replace_loop zero from to ci start ret = none
replace_loop (suc fuel) from to ci start ret = elim (str_find ret from start ci) [
  | none ↦ some ret
  | some pos ↦ replace_loop fuel from to ci (pos + length to) (splice ret pos (length from) to)
]

-- The loop starts at 0, not at `offset`.
pub str_replace : List ℕ → List ℕ → List ℕ → ℕ → Bool → Option (List ℕ)
unfolding replace_loop str_find
str_replace s from to offset ci =
    if is_empty from then some s else elim (str_find s from offset ci) [
      | none ↦ some s
      | some _ ↦ replace_loop (suc (length s)) from to ci 0 s
    ]
