-- ===== src/Text/Replace/Laws.antt =====
-- `StrReplace` against one pass over the string.
use ashe.Base.{
  ℕ, zero, suc, ◌+◌, ◌-◌, ◌≤◌, ◌<◌, ◌≡◌, refl, ap, ap₂, sym, ◌∙◌, Bool, true, false, List, [], ◌∷◌,
  ◌++◌, Option, none, some, arith, if◌then◌else◌, length, take, drop, Option-cases, inl, inr, leb,
  drop-drop, length-drop, length-take, length-append, append_assoc, take-append, drop-append,
}
use ashe.Text.Chars.{equal_chars, is_empty}
use ashe.Text.Find.{is_prefix_by, search_from, str_find}
use ashe.Text.Find.Laws.{NoneBefore, absent, found, search_from_lem, is_prefix_by-length}
use ashe.Text.Replace.{splice, replace_loop, str_replace}

-- One pass: at each unit that no match covers, a match is replaced and its other units are
-- skipped.
pub replaced : (ℕ → ℕ → Bool) → List ℕ → List ℕ → ℕ → List ℕ → List ℕ
replaced eq from to skip [] = []
replaced eq from to (suc skip) (c ∷ s) = replaced eq from to skip s
replaced eq from to zero (c ∷ s) =
    let hit = replaced eq from to (length from - 1) s in
    let miss = replaced eq from to 0 s in
    if is_prefix_by eq from (c ∷ s) then to ++ hit else c ∷ miss

module _ (eq : ℕ → ℕ → Bool) (from to : List ℕ) where
  replaced-drop : (k : ℕ) (s : List ℕ) → replaced eq from to k s ≡ replaced eq from to 0 (drop k s)
  unfolding replaced
  replaced-drop zero s = refl
  replaced-drop (suc k) [] = refl
  replaced-drop (suc k) (c ∷ s) = replaced-drop k s

  -- Up to the first match the string stays.
  replaced-before :
      (k : ℕ) (s : List ℕ)
      → k ≤ length s
      → NoneBefore eq from k s
      → replaced eq from to 0 s ≡ take k s ++ replaced eq from to 0 (drop k s)
  unfolding replaced
  replaced-before zero s le n = refl
  replaced-before (suc k) [] le n = absurd (omega arith)
  replaced-before (suc k) (c ∷ s) le n =
      rw (n 0 (omega arith))
        (ap (◌∷◌ c) (replaced-before k s (omega arith) (λ j lt. n (suc j) (omega arith))))

  replaced-at :
      (s : List ℕ)
      → 0 < length from
      → is_prefix_by eq from s ≡ true
      → replaced eq from to 0 s ≡ to ++ replaced eq from to 0 (drop (length from) s)
  unfolding replaced
  replaced-at [] pos h = absurd (omega (arith, is_prefix_by-length eq from [] h))
  replaced-at (c ∷ s) pos h =
      let e : length from ≡ suc (length from - 1) = omega arith in
      rw h (
        ap (◌++◌ to) (
          replaced-drop (length from - 1) s
          ∙ ap (λ m. replaced eq from to 0 (drop m (c ∷ s))) (sym e)))

  replaced_none : (s : List ℕ) → NoneBefore eq from (suc (length s)) s → replaced eq from to 0 s ≡ s
  unfolding replaced
  replaced_none [] n = refl
  replaced_none (c ∷ s) n =
      rw (n 0 (omega arith)) (ap (◌∷◌ c) (replaced_none s (λ j lt. n (suc j) (omega arith))))

-- What one round writes over, with `done` behind it.
splice-append :
    (ahead rest to : List ℕ) (k n : ℕ)
    → splice (ahead ++ rest) (length ahead + k) n to
      ≡ (ahead ++ (take k rest ++ to)) ++ drop (k + n) rest
splice-append ahead rest to k n =
    ap₂ (λ a b. a ++ (to ++ b)) (take-append k ahead rest)
      (ap (λ m. drop m (ahead ++ rest)) e ∙ drop-append (k + n) ahead rest)
    ∙ regroup
  where
    e : length ahead + k + n ≡ length ahead + (k + n)
    e = omega arith

    regroup :
        (ahead ++ take k rest) ++ (to ++ drop (k + n) rest)
        ≡ (ahead ++ (take k rest ++ to)) ++ drop (k + n) rest
    regroup = simp append_assoc

-- A search from the end of `ahead` is a search of what follows.
find-append :
    (from : List ℕ) (ci : Bool) (ahead rest : List ℕ)
    → str_find (ahead ++ rest) from (length ahead) ci ≡ (
        if leb (length rest) 0 then none else search_from (equal_chars ci) from (length ahead) rest)
unfolding str_find
find-append from ci ahead rest =
    let e : length ahead + 0 ≡ length ahead = omega arith in
    let d : drop (length ahead) (ahead ++ rest) ≡ rest =
      ap (λ m. drop m (ahead ++ rest)) (sym e) ∙ drop-append 0 ahead rest in
    rw d (ground (arith, length-append ahead rest))

module _ (from to : List ℕ) (ci : Bool) (pos : 0 < length from) where
  abbrev whole : List ℕ → List ℕ
  whole = replaced (equal_chars ci) from to 0

  -- What the loop makes of the rest once a match is found.
  whole-found :
      (rest : List ℕ) (k : ℕ)
      → k ≤ length rest
      → is_prefix_by (equal_chars ci) from (drop k rest) ≡ true
      → NoneBefore (equal_chars ci) from k rest
      → whole rest ≡ take k rest ++ (to ++ whole (drop (k + length from) rest))
  whole-found rest k le t n =
      replaced-before (equal_chars ci) from to k rest le n
      ∙ ap (◌++◌ (take k rest)) (
          replaced-at (equal_chars ci) from to (drop k rest) pos t
          ∙ ap (λ l. to ++ whole l) (drop-drop (length from) k rest))

  replace_loop-replaced :
      (fuel : ℕ) (ahead rest : List ℕ)
      → length rest < fuel
      → replace_loop fuel from to ci (length ahead) (ahead ++ rest) ≡ some (ahead ++ whole rest)
  unfolding replace_loop
  replace_loop-replaced zero ahead rest lt = absurd (omega arith)
  replace_loop-replaced (suc fuel) ahead [] lt =
      rw (find-append from ci ahead [], replace_loop) (unfold replaced in refl)
  replace_loop-replaced (suc fuel) ahead (c ∷ rest) lt =
      elim (search_from_lem (equal_chars ci) from (length ahead) (c ∷ rest)) [
        | absent e n ↦
            rw (looks ∙ e, replace_loop)
              (ap some
                (ap (◌++◌ ahead) (sym (replaced_none (equal_chars ci) from to (c ∷ rest) n))))
        | found k e le t n ↦
            rw (looks ∙ e, replace_loop)
              (next k (is_prefix_by-length (equal_chars ci) from (drop k (c ∷ rest)) t) (
                  replace_loop-replaced fuel (ahead ++ (take k (c ∷ rest) ++ to))
                    (drop (k + length from) (c ∷ rest)) (shrinks k))
                ∙ ap some (
                    append_assoc ahead (take k (c ∷ rest) ++ to)
                      (whole (drop (k + length from) (c ∷ rest)))
                    ∙ ap (◌++◌ ahead) (
                        append_assoc (take k (c ∷ rest)) to _
                        ∙ sym (whole-found (c ∷ rest) k le t n))))
      ]
    where
      looks :
          str_find (ahead ++ c ∷ rest) from (length ahead) ci
          ≡ search_from (equal_chars ci) from (length ahead) (c ∷ rest)
      looks =
          let t : leb (suc (length rest)) 0 ≡ false = ground arith in
          find-append from ci ahead (c ∷ rest) ∙ rw t

      shrinks : (k : ℕ) → length (drop (k + length from) (c ∷ rest)) < fuel
      shrinks k = omega (arith, length-drop (k + length from) (c ∷ rest), pos)

      next :
          (k : ℕ) {r : Option (List ℕ)}
          → length from ≤ length (drop k (c ∷ rest))
          → replace_loop fuel from to ci
              (length (ahead ++ (take k (c ∷ rest) ++ to)))
              ((ahead ++ (take k (c ∷ rest) ++ to)) ++ drop (k + length from) (c ∷ rest))
            ≡ r
          → replace_loop fuel from to ci
              (length ahead + k + length to)
              (splice (ahead ++ c ∷ rest) (length ahead + k) (length from) to)
            ≡ r
      next k le h =
          let n : length (ahead ++ (take k (c ∷ rest) ++ to)) ≡ length ahead + k + length to =
            omega (
              arith,
              length-append ahead (take k (c ∷ rest) ++ to),
              length-append (take k (c ∷ rest)) to,
              length-take k (c ∷ rest),
              length-drop k (c ∷ rest),
              pos,
            ) in
          ap₂ (λ a b. replace_loop fuel from to ci a b) (sym n)
            (splice-append ahead (c ∷ rest) to k (length from))
          ∙ h

-- `StrReplace` always returns. An empty `from`, or one with no match from `offset` on, leaves the
-- string; any other replaces each match of one pass over the whole string, also those before
-- `offset`.
pub str_replace-replaced :
    (s from to : List ℕ) (offset : ℕ) (ci : Bool)
    → str_replace s from to offset ci ≡ (
        if is_empty from then some s else elim (str_find s from offset ci) [
          | none ↦ some s
          | some _ ↦ some (replaced (equal_chars ci) from to 0 s)
        ])
str_replace-replaced s [] to offset ci = unfold str_replace in refl
str_replace-replaced s (a ∷ from) to offset ci =
    let runs =
      replace_loop-replaced (a ∷ from) to ci (omega arith) (suc (length s)) [] s (omega arith) in
    elim (Option-cases (str_find s (a ∷ from) offset ci)) [
      | inl e ↦ rw e (unfold str_replace in rw (e, str_replace))
      | inr (k, e) ↦ rw e (unfold str_replace in rw (e, str_replace) runs)
    ]
