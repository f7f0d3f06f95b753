-- ===== src/Text/Find/Affixes.antt =====
-- `StrIsStartsWith` and `StrIsEndsWith` against concatenation of texts.
use ashe.Base.{
  ℕ, ◌-◌, ◌≡◌, refl, ap, ap₂, sym, ◌∙◌, true, ◌↔◌, List, [], ◌∷◌, ◌++◌, arith, leb, length, take,
  drop, ==_iff, length-append, length-drop, take-append-drop, Bool-cases, inl, inr,
}
use ashe.Text.Find.{equal_lists, str_is_starts_with, str_is_ends_with}

equal_lists_iff : (s t : List ℕ) → (equal_lists s t ≡ true) ↔ (s ≡ t)
unfolding equal_lists
equal_lists_iff [] [] = (λ _. refl, λ _. refl)
equal_lists_iff [] (b ∷ t) = (λ h. cc, λ h. cc)
equal_lists_iff (a ∷ s) [] = (λ h. cc, λ h. cc)
equal_lists_iff (a ∷ s) (b ∷ t) = let ih = equal_lists_iff s t in ground (arith, ih, ==_iff a b)

take_front : (s t : List ℕ) → take (length s) (s ++ t) ≡ s
take_front [] t = refl
take_front (a ∷ s) t = ap (◌∷◌ a) (take_front s t)

drop_front : (s t : List ℕ) → drop (length s) (s ++ t) ≡ t
drop_front [] t = refl
drop_front (a ∷ s) t = drop_front s t

take_whole : (s : List ℕ) → take (length s) s ≡ s
take_whole [] = refl
take_whole (a ∷ s) = ap (◌∷◌ a) (take_whole s)

starts : (s p : List ℕ) → (str_is_starts_with s p ≡ true) ↔ ((r : List ℕ) × (s ≡ p ++ r))
unfolding str_is_starts_with
starts s p = (
  λ h. (
    drop (length p) s,
    sym (take-append-drop (length p) s)
        ∙ ap (λ t. t ++ drop (length p) s) ((equal_lists_iff _ p).0 h),
  ),
  λ w. (equal_lists_iff _ p).1 (ap (take (length p)) w.1 ∙ take_front p w.0),
)

ends : (s p : List ℕ) → (str_is_ends_with s p ≡ true) ↔ ((r : List ℕ) × (s ≡ r ++ p))
unfolding str_is_ends_with
ends s p = elim (Bool-cases (leb (length p) (length s))) [
  | inl t ↦ rw t (
    λ h. (
      drop_back,
      sym (take-append-drop (length s - length p) s)
          ∙ ap (◌++◌ drop_back) (sym (rest_whole t) ∙ (equal_lists_iff _ p).0 h),
    ),
    λ w. (equal_lists_iff _ p).1 (behind w.0 w.1),
  )
  | inr f ↦ rw f (λ h. cc, λ w. absurd (ground (arith, ap length w.1, length-append w.0 p)))
]
  where
    drop_back : List ℕ
    drop_back = take (length s - length p) s

    rest_whole :
        leb (length p) (length s) ≡ true
        → take (length p) (drop (length s - length p) s) ≡ drop (length s - length p) s
    rest_whole t =
        let n : length p ≡ length (drop (length s - length p) s) =
          ground (arith, length-drop (length s - length p) s) in
        ap (λ m. take m (drop (length s - length p) s)) n
        ∙ take_whole (drop (length s - length p) s)

    behind : (r : List ℕ) → s ≡ r ++ p → take (length p) (drop (length s - length p) s) ≡ p
    behind r e =
        let n : length s - length p ≡ length r = ground (arith, ap length e, length-append r p) in
        ap₂ (λ m u. take (length p) (drop m u)) n e
        ∙ ap (take (length p)) (drop_front r p)
        ∙ take_whole p

-- A text starts with another exactly when it is the other with something behind it, and ends with
-- another exactly when it is the other with something in front of it.
starts-ends :
    (s p : List ℕ)
    → ((str_is_starts_with s p ≡ true) ↔ ((r : List ℕ) × (s ≡ p ++ r)))
      × ((str_is_ends_with s p ≡ true) ↔ ((r : List ℕ) × (s ≡ r ++ p)))
starts-ends s p = (starts s p, ends s p)
