-- ===== src/Text/Chars/Laws.antt =====
-- `StrIsEqual`, `StrToLower` and `StrToUpper` against equality of texts.
use ashe.Base.{
  ℕ, ◌≡◌, refl, ap, ap₂, true, false, ◌↔◌, List, [], ◌∷◌, map, arith, ◌==◌, length, ==_iff,
  Bool-cases, inl, inr,
}
use ashe.Text.Chars.{
  to_lower_char, to_upper_char, str_to_lower, str_to_upper, str_is_equal, equal_from, lower-upper,
  upper-lower,
}

map-lower-upper : (s : List ℕ) → map to_lower_char (map to_upper_char s) ≡ map to_lower_char s
map-lower-upper [] = refl
map-lower-upper (c ∷ s) = ap₂ ◌∷◌ (lower-upper c) (map-lower-upper s)

map-upper-lower : (s : List ℕ) → map to_upper_char (map to_lower_char s) ≡ map to_upper_char s
map-upper-lower [] = refl
map-upper-lower (c ∷ s) = ap₂ ◌∷◌ (upper-lower c) (map-upper-lower s)

equal_from-exact : (s t : List ℕ) → length s ≡ length t → (equal_from false s t ≡ true) ↔ (s ≡ t)
unfolding equal_from
equal_from-exact [] [] h = (λ _. refl, λ _. refl)
equal_from-exact [] (b ∷ t) h = absurd (omega arith)
equal_from-exact (a ∷ s) [] h = absurd (omega arith)
equal_from-exact (a ∷ s) (b ∷ t) h =
    let ih = equal_from-exact s t (omega arith) in ground (arith, ih, ==_iff a b)

equal_from-lower :
    (s t : List ℕ)
    → length s ≡ length t
    → (equal_from true s t ≡ true) ↔ (map to_lower_char s ≡ map to_lower_char t)
unfolding equal_from
equal_from-lower [] [] h = (λ _. refl, λ _. refl)
equal_from-lower [] (b ∷ t) h = absurd (omega arith)
equal_from-lower (a ∷ s) [] h = absurd (omega arith)
equal_from-lower (a ∷ s) (b ∷ t) h =
    let ih = equal_from-lower s t (omega arith) in
    ground (arith, ih, ==_iff (to_lower_char a) (to_lower_char b))

length-map_same : (s t : List ℕ) → map to_lower_char s ≡ map to_lower_char t → length s ≡ length t
length-map_same [] [] h = refl
length-map_same [] (b ∷ t) h = cc
length-map_same (a ∷ s) [] h = cc
length-map_same (a ∷ s) (b ∷ t) h = ground (arith, length-map_same s t)

-- Two texts compare as equal exactly when they are the same, and ignoring case exactly when
-- their lower-case forms are the same.
str_is_equal-same :
    (s t : List ℕ)
    → ((str_is_equal s t false ≡ true) ↔ (s ≡ t))
      × ((str_is_equal s t true ≡ true) ↔ (str_to_lower s ≡ str_to_lower t))
unfolding str_is_equal str_to_lower
str_is_equal-same s t = elim (Bool-cases (length s == length t)) [
  | inl e ↦
      let l : length s ≡ length t = ground arith in
      rw e (equal_from-exact s t l, equal_from-lower s t l)
  | inr n ↦ rw n (
    (λ h. cc, λ h. absurd (ground (arith, ap length h))),
    (λ h. cc, λ h. absurd (ground (arith, length-map_same s t h))),
  )
]

-- Of two changes of case the last counts.
str_to_lower-str_to_upper :
    (s : List ℕ)
    → (str_to_lower (str_to_upper s) ≡ str_to_lower s)
      × (str_to_upper (str_to_lower s) ≡ str_to_upper s)
unfolding str_to_lower str_to_upper
str_to_lower-str_to_upper s = (map-lower-upper s, map-upper-lower s)
