-- ===== src/Config/Children.antt =====
-- src/configor.cpp: the children of an element by their names. Saving to the file, which a removal
-- does too, is not here.
use ashe.Base.{
  ℕ, ◌+◌, ◌-◌, ◌≡◌, refl, ap, ◌∙◌, Bool, true, false, List, [], ◌∷◌, ltb, if◌then◌else◌, arith,
}
use ashe.Text.Find.{equal_lists}
use ashe.Config.{Element, Elements, element, leaf, child}

unfoldable pub is_named : List ℕ → Element → Bool
unfolding equal_lists
is_named name (element own values children) = equal_lists own name

unfoldable pub element_exists : List ℕ → Elements → Bool
unfolding is_named
element_exists name leaf = false
element_exists name (child e es) = if is_named name e then true else element_exists name es

-- `operator[]`, on the children: the first of the name, or a new one at the end.
unfoldable pub find_or_add : List ℕ → Elements → Elements × Element
unfolding is_named
find_or_add name leaf = (child (element name [] leaf) leaf, element name [] leaf)
find_or_add name (child e es) =
    let (es', found) = find_or_add name es in
    if is_named name e then (child e es, e) else (child e es', found)

unfoldable pub remove_element : List ℕ → Elements → Elements
unfolding is_named
remove_element name leaf = leaf
remove_element name (child e es) =
    let es' = remove_element name es in if is_named name e then es else child e es'

-- How many children have the name, and those that do not.
abbrev pub one_if : Bool → ℕ
one_if b = if b then 1 else 0

unfoldable pub count_named : List ℕ → Elements → ℕ
unfolding is_named
count_named name leaf = 0
count_named name (child e es) = one_if (is_named name e) + count_named name es

unfoldable pub others : List ℕ → Elements → Elements
unfolding is_named
others name leaf = leaf
others name (child e es) = let es' = others name es in if is_named name e then es' else child e es'

equal_lists_self : (s : List ℕ) → equal_lists s s ≡ true
unfolding equal_lists
equal_lists_self [] = refl
equal_lists_self (c ∷ s) = ground (arith, equal_lists_self s)

element_exists-count_named :
    (name : List ℕ) (es : Elements) → element_exists name es ≡ ltb 0 (count_named name es)
unfolding element_exists count_named
element_exists-count_named name leaf = refl
element_exists-count_named name (child e es) = ground (arith, element_exists-count_named name es)

-- One child before others, in both cases of its name.
others-child :
    (name : List ℕ) (e : Element) (es fs : Elements)
    → others name es ≡ others name fs
    → others name (child e es) ≡ others name (child e fs)
unfolding others
others-child name e es fs h =
    elim (is_named name e)
      as (λ b.
        (if b then others name es else child e (others name es))
        ≡ (if b then others name fs else child e (others name fs))) [
          | true ↦ h
          | false ↦ ap (child e) h
        ]

abbrev found_if : Bool → Element → Elements → Elements × Element → Elements × Element
found_if b e es r = if b then (child e es, e) else (child e r.0, r.1)

found_named : (name : List ℕ) (es : Elements) → is_named name (find_or_add name es).1 ≡ true
unfolding find_or_add
found_named name leaf = equal_lists_self name
found_named name (child e es) =
    elim (is_named name e)
        as (λ b.
          is_named name e ≡ b → is_named name (found_if b e es (find_or_add name es)).1 ≡ true) [
            | true ↦ λ h. h
            | false ↦ λ h. found_named name es
          ]
      refl

others-find_or_add :
    (name : List ℕ) (es : Elements) → others name (find_or_add name es).0 ≡ others name es
unfolding find_or_add others
others-find_or_add name leaf = rw (equal_lists_self name) refl
others-find_or_add name (child e es) =
    elim (is_named name e)
      as (λ b. others name (found_if b e es (find_or_add name es)).0 ≡ others name (child e es)) [
        | true ↦ refl
        | false ↦ others-child name e (find_or_add name es).0 es (others-find_or_add name es)
      ]

count_named-find_or_add :
    (name : List ℕ) (es : Elements)
    → count_named name (find_or_add name es).0
      ≡ (if element_exists name es then count_named name es else 1)
unfolding find_or_add count_named element_exists
count_named-find_or_add name leaf = rw (equal_lists_self name) refl
count_named-find_or_add name (child e es) =
    elim (is_named name e)
        as (λ b.
          is_named name e ≡ b
          → count_named name (found_if b e es (find_or_add name es)).0 ≡ (
              if (if b then true else element_exists name es)
              then one_if b + count_named name es
              else 1)) [
                | true ↦ λ h. ap (λ b. one_if b + count_named name es) h
                | false ↦ λ h.
                    ap (λ b. one_if b + count_named name (find_or_add name es).0) h
                    ∙ ground (arith, count_named-find_or_add name es)
              ]
      refl

others-remove_element :
    (name : List ℕ) (es : Elements) → others name (remove_element name es) ≡ others name es
unfolding remove_element others
others-remove_element name leaf = refl
others-remove_element name (child e es) =
    elim (is_named name e)
        as (λ b.
          is_named name e ≡ b
          → others name (if b then es else child e (remove_element name es))
            ≡ others name (child e es)) [
              | true ↦ λ h. rw h refl
              | false ↦ λ h.
                  others-child name e (remove_element name es) es (others-remove_element name es)
            ]
      refl

count_named-remove_element :
    (name : List ℕ) (es : Elements)
    → count_named name (remove_element name es) ≡ count_named name es - 1
unfolding remove_element count_named
count_named-remove_element name leaf = refl
count_named-remove_element name (child e es) =
    elim (is_named name e)
        as (λ b.
          is_named name e ≡ b
          → count_named name (if b then es else child e (remove_element name es))
            ≡ one_if b + count_named name es - 1) [
              | true ↦ λ h. omega arith
              | false ↦ λ h.
                  ap (λ b. one_if b + count_named name (remove_element name es)) h
                  ∙ omega (arith, count_named-remove_element name es)
            ]
      refl

-- The calls on the children, by name: one exists exactly if some child has the name; `operator[]`
-- gives a child of the name, adds one only if there is none, and leaves the children of other names
-- as they are; a removal takes one child of the name away, if there is one, and leaves the others.
children_by_name :
    (name : List ℕ) (es : Elements)
    → (element_exists name es ≡ ltb 0 (count_named name es))
      × (is_named name (find_or_add name es).1 ≡ true)
      × (count_named name (find_or_add name es).0
          ≡ (if element_exists name es then count_named name es else 1))
      × (others name (find_or_add name es).0 ≡ others name es)
      × (count_named name (remove_element name es) ≡ count_named name es - 1)
      × (others name (remove_element name es) ≡ others name es)
children_by_name name es = (
  element_exists-count_named name es,
  found_named name es,
  count_named-find_or_add name es,
  others-find_or_add name es,
  count_named-remove_element name es,
  others-remove_element name es,
)
