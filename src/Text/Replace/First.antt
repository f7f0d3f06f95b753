-- ===== src/Text/Replace/First.antt =====
-- `StrReplaceFirst` and `StrIsContains` against the first match.
use ashe.Base.{
  ℕ, suc, ◌+◌, ◌≡◌, refl, ap, ap₂, sym, ◌∙◌, true, false, List, ◌++◌, none, some, ◌⊎◌, inl, inr,
  arith, length, take, drop, leb, ◌==◌, length-take, take-append-drop, drop-drop,
}
use ashe.Text.Find.{find, search_from, str_is_contains}
use ashe.Text.Find.Laws.{NoneBefore, absent, found, search_from_lem, is_prefix_by-take}
use ashe.Text.Replace.{str_replace_first}

find-start : (s p : List ℕ) → find s p 0 ≡ search_from ◌==◌ p 0 s
unfolding find
find-start s p = let t : leb 0 (length s) ≡ true = ground arith in rw t refl

-- Where a text matches nowhere, `StrIsContains` is false and `StrReplaceFirst` leaves the text as
-- it is; otherwise `StrIsContains` is true, and `StrReplaceFirst` replaces the match that no other
-- match starts before.
str_replace_first-first :
    (s from to : List ℕ)
    → (NoneBefore ◌==◌ from (suc (length s)) s
        × (str_is_contains s from ≡ false)
        × (str_replace_first s from to ≡ s))
      ⊎ ((before behind : List ℕ) × (s ≡ before ++ (from ++ behind))
          × NoneBefore ◌==◌ from (length before) s
          × (str_is_contains s from ≡ true)
          × (str_replace_first s from to ≡ before ++ (to ++ behind)))
unfolding str_replace_first str_is_contains
str_replace_first-first s from to = elim (search_from_lem ◌==◌ from 0 s) [
  | absent e n ↦
      let f : find s from 0 ≡ none = find-start s from ∙ e in
      inl (n, rw f refl, rw (f, str_replace_first) refl)
  | found k e le hit n ↦
      let f : find s from 0 ≡ some k = find-start s from ∙ e ∙ ap some (omega arith) in
      let m : length (take k s) ≡ k = omega (arith, length-take k s) in
      inr (
        take k s,
        drop (k + length from) s,
        sym (take-append-drop k s)
            ∙ ap (◌++◌ (take k s)) (
                sym (take-append-drop (length from) (drop k s))
                ∙ ap₂ ◌++◌ (is_prefix_by-take from (drop k s) hit) (behind k)),
        (λ j lt. n j (omega (arith, m))),
        rw f refl,
        rw (f, str_replace_first) refl,
      )
]
  where
    behind : (k : ℕ) → drop (length from) (drop k s) ≡ drop (k + length from) s
    behind k = drop-drop (length from) k s
