-- ===== src/Text/Find/Count.antt =====
-- `StrContainTimes` against one pass over the string.
use ashe.Base.{
  ℕ, zero, suc, ◌+◌, ◌-◌, ◌≤◌, ◌<◌, ◌≡◌, refl, ap, sym, ◌∙◌, true, false, List, [], ◌∷◌, some,
  arith, if◌then◌else◌, length, drop, leb, ◌==◌, drop-drop, length-drop, drop_all,
}
use ashe.Text.Find.{is_prefix_by, search_from, find, contain_loop, str_contain_times}
use ashe.Text.Find.Laws.{NoneBefore, absent, found, search_from_lem, is_prefix_by-length}

-- The matches of one pass in which no two overlap.
pub matches : List ℕ → ℕ → List ℕ → ℕ
matches p skip [] = 0
matches p (suc skip) (c ∷ s) = matches p skip s
matches p zero (c ∷ s) =
    let hit = matches p (length p - 1) s in
    let miss = matches p 0 s in if is_prefix_by ◌==◌ p (c ∷ s) then suc hit else miss

module _ (p : List ℕ) (pos : 0 < length p) where
  matches-drop : (k : ℕ) (s : List ℕ) → matches p k s ≡ matches p 0 (drop k s)
  unfolding matches
  matches-drop zero s = refl
  matches-drop (suc k) [] = refl
  matches-drop (suc k) (c ∷ s) = matches-drop k s

  matches-before :
      (k : ℕ) (s : List ℕ) → NoneBefore ◌==◌ p k s → matches p 0 s ≡ matches p 0 (drop k s)
  unfolding matches
  matches-before zero s n = refl
  matches-before (suc k) [] n = refl
  matches-before (suc k) (c ∷ s) n =
      rw (n 0 (omega arith)) (matches-before k s (λ j lt. n (suc j) (omega arith)))

  matches-at :
      (s : List ℕ)
      → is_prefix_by ◌==◌ p s ≡ true
      → matches p 0 s ≡ suc (matches p 0 (drop (length p) s))
  unfolding matches
  matches-at [] h = absurd (omega (arith, is_prefix_by-length ◌==◌ p [] h))
  matches-at (c ∷ s) h =
      let e : length p ≡ suc (length p - 1) = omega arith in
      rw h (ap suc (matches-drop (length p - 1) s ∙ ap (λ m. matches p 0 (drop m (c ∷ s))) (sym e)))

  contain_loop-matches :
      (fuel : ℕ) (s : List ℕ) (offset times : ℕ)
      → offset ≤ length s
      → length s - offset < fuel
      → contain_loop fuel s p offset times ≡ some (times + matches p 0 (drop offset s))
  unfolding contain_loop
  contain_loop-matches zero s offset times le lt = absurd (omega arith)
  contain_loop-matches (suc fuel) s offset times le lt =
      elim (search_from_lem ◌==◌ p offset (drop offset s)) [
        | absent e n ↦
            let none_left : matches p 0 (drop offset s) ≡ 0 =
              matches-before (suc (length (drop offset s))) (drop offset s) n
              ∙ ap (matches p 0)
                  (drop_all (suc (length (drop offset s))) (drop offset s) (omega arith))
              ∙ (unfold matches in refl) in
            rw (looks ∙ e, contain_loop) (ap some (omega (arith, none_left)))
        | found k e kle t n ↦
            let fits = is_prefix_by-length ◌==◌ p (drop k (drop offset s)) t in
            let one : matches p 0 (drop offset s)
                ≡ suc (matches p 0 (drop (offset + k + length p) s)) =
              matches-before k (drop offset s) n
              ∙ matches-at (drop k (drop offset s)) t
              ∙ ap (λ l. suc (matches p 0 l))
                  (ap (drop (length p)) (drop-drop k offset s)
                    ∙ drop-drop (length p) (offset + k) s) in
            rw (looks ∙ e, contain_loop)
              (contain_loop-matches fuel s (offset + k + length p) (times + 1)
                  (omega (arith, length-drop k (drop offset s), length-drop offset s))
                  (omega (arith, length-drop k (drop offset s), length-drop offset s))
                ∙ ap some (omega (arith, one)))
      ]
    where
      looks : find s p offset ≡ search_from ◌==◌ p offset (drop offset s)
      looks = let t : leb offset (length s) ≡ true = ground arith in unfold find in rw t

-- The count always returns: 0 for an empty needle, and otherwise the number of matches of one pass
-- in which no two overlap.
str_contain_times-matches :
    (s p : List ℕ) → str_contain_times s p ≡ some (if length p == 0 then 0 else matches p 0 s)
unfolding str_contain_times
str_contain_times-matches s [] = refl
str_contain_times-matches s (a ∷ p) =
    let f : (suc (length p) == 0) ≡ false = ground arith in
    rw f (
      contain_loop-matches (a ∷ p) (omega arith) (suc (length s)) s 0 0 (omega arith) (omega arith)
      ∙ ap some (omega arith))
