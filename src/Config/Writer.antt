-- ===== src/Config/Writer.antt =====
-- src/configor.cpp: from elements to text.
use ashe.Base.{
  ℕ, ◌+◌, Bool, true, ◌&&◌, ◌||◌, List, [], ◌∷◌, ◌++◌, if◌then◌else◌, ◌==◌, leb, replicate,
}
use ashe.Config.{Element, Elements, element, leaf, child}

-- `isNumeric`: digits, the point and the minus sign.
unfoldable pub is_numeric : List ℕ → Bool
is_numeric [] = true
is_numeric (c ∷ s) = ((leb 48 c && leb c 57) || (c == 46 || c == 45)) && is_numeric s

unfoldable pub write_value : List ℕ → List ℕ
unfolding is_numeric
write_value v = if is_numeric v then v else 34 ∷ (v ++ 34 ∷ [])

-- The values of an array, with ", " between them.
unfoldable pub write_values : List (List ℕ) → List ℕ
unfolding write_value
write_values [] = []
write_values (v ∷ []) = write_value v
write_values (v ∷ w ∷ vs) = write_value v ++ (44 ∷ 32 ∷ write_values (w ∷ vs))

abbrev pub spaces : ℕ → List ℕ
spaces tabs = replicate tabs 32

-- The line of an element without children; nothing without values.
unfoldable pub write_line : ℕ → List ℕ → List (List ℕ) → List ℕ
unfolding write_values
write_line tabs name [] = []
write_line tabs name (v ∷ []) =
    spaces tabs ++ (name ++ (32 ∷ 61 ∷ 32 ∷ (write_value v ++ 59 ∷ 10 ∷ [])))
write_line tabs name (v ∷ w ∷ vs) =
    spaces tabs ++ (name ++ (32 ∷ 61 ∷ 32 ∷ 91 ∷ (write_values (v ∷ w ∷ vs) ++ 93 ∷ 10 ∷ [])))

-- `writeElement`, and its loop over the children.
unfoldable mutual
  unfolding write_line

  pub write_element : ℕ → Element → List ℕ
  write_element tabs (element name values leaf) = write_line tabs name values
  write_element tabs (element name values (child e es)) =
      spaces tabs
      ++ (name
          ++ (32
              ∷ 61
              ∷ 32
              ∷ 123
              ∷ 10
              ∷ (write_element (tabs + 4) e
                  ++ (write_elements (tabs + 4) es ++ (spaces tabs ++ 125 ∷ 10 ∷ [])))))

  pub write_elements : ℕ → Elements → List ℕ
  write_elements tabs leaf = []
  write_elements tabs (child e es) = write_element tabs e ++ write_elements tabs es

-- `save`.
unfoldable pub save : Elements → List ℕ
unfolding write_element
save es = write_elements 0 es
