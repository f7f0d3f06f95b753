-- ===== src/Text/Trim.antt =====
-- src/string_util.cpp: `StrTrim`, `StrTrimLeft` and `StrTrimRight`.
pub mod Laws
use mathlib.Core.List.{reverse}
use ashe.Base.{
  ℕ, zero, suc, ◌+◌, ◌-◌, ◌≡◌, refl, ap, sym, ◌∙◌, Bool, true, false, not, ◌&&◌, ◌||◌, List, [],
  ◌∷◌, ◌++◌, Option, none, some, arith, ◌==◌, if◌then◌else◌, length, take, drop, All, Bool-cases,
  inl, inr,
}

-- Whether a unit is one of `whitespaces`.
pub is_in : ℕ → List ℕ → Bool
is_in c [] = false
is_in c (w ∷ ws) = c == w || is_in c ws

-- `s.find_first_not_of(ws)`, from index `i` on.
pub first_not_of : List ℕ → ℕ → List ℕ → Option ℕ
unfolding is_in
first_not_of ws i [] = none
first_not_of ws i (c ∷ s) = if not (is_in c ws) then some i else first_not_of ws (i + 1) s

-- `s.find_last_not_of(ws)`: a later index is preferred.
pub last_not_of : List ℕ → ℕ → List ℕ → Option ℕ
unfolding is_in
last_not_of ws i [] = none
last_not_of ws i (c ∷ s) = elim (last_not_of ws (i + 1) s) [
  | some j ↦ some j
  | none ↦ if not (is_in c ws) then some i else none
]

-- `s.substr(pos, n)`.
abbrev pub substr : List ℕ → ℕ → ℕ → List ℕ
substr s pos n = take n (drop pos s)

-- After a first match there is a last one: `none` of the inner call does not occur.
unfoldable pub str_trim : List ℕ → List ℕ → List ℕ
unfolding first_not_of last_not_of
str_trim s ws = elim (first_not_of ws 0 s) [
  | none ↦ []
  | some pos ↦ elim (last_not_of ws 0 s) [ none ↦ [] | some l ↦ substr s pos (l - pos + 1) ]
]

pub str_trim_left : List ℕ → List ℕ → List ℕ
unfolding first_not_of
str_trim_left s ws = elim (first_not_of ws 0 s) [ none ↦ [] | some pos ↦ drop pos s ]

pub str_trim_right : List ℕ → List ℕ → List ℕ
unfolding last_not_of
str_trim_right s ws = elim (last_not_of ws 0 s) [ none ↦ [] | some pos ↦ substr s 0 (pos + 1) ]
