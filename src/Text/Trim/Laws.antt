-- ===== src/Text/Trim/Laws.antt =====
-- The three trims against a description that peels one unit at a time.
use ashe.Base.{
  ℕ, suc, ◌+◌, ◌-◌, ◌≤◌, ◌<◌, ◌≡◌, refl, ap, ◌∙◌, true, false, ◌&&◌, List, [], ◌∷◌, Option, none,
  some, arith, if◌then◌else◌, length, take, drop, Bool-cases, inl, inr,
}
use ashe.Text.Chars.{is_empty}
use ashe.Text.Trim.{is_in, first_not_of, last_not_of, str_trim, str_trim_left, str_trim_right}

-- Without the whitespace in front.
pub peel_front : List ℕ → List ℕ → List ℕ
peel_front ws [] = []
peel_front ws (c ∷ s) = if is_in c ws then peel_front ws s else c ∷ s

-- Without the whitespace behind.
pub peel_back : List ℕ → List ℕ → List ℕ
peel_back ws [] = []
peel_back ws (c ∷ s) = let r = peel_back ws s in if is_empty r && is_in c ws then [] else c ∷ r

data First (ws : List ℕ) (i : ℕ) (s : List ℕ) : Type 0 where
  absent : first_not_of ws i s ≡ none → peel_front ws s ≡ [] → First ws i s
  found : (k : ℕ) → first_not_of ws i s ≡ some (i + k) → drop k s ≡ peel_front ws s → First ws i s

data Last (ws : List ℕ) (i : ℕ) (s : List ℕ) : Type 0 where
  absent : last_not_of ws i s ≡ none → peel_back ws s ≡ [] → Last ws i s
  found :
      (k : ℕ)
      → last_not_of ws i s ≡ some (i + k)
      → k < length s
      → take (suc k) s ≡ peel_back ws s
      → Last ws i s

some_eq : {a b : ℕ} → a ≡ b → ◌≡◌ {A = Option ℕ} (some a) (some b)
some_eq e = ap some e

first_not_of_lem : (ws : List ℕ) (i : ℕ) (s : List ℕ) → First ws i s
unfolding first_not_of peel_front
first_not_of_lem ws i [] = First.absent refl refl
first_not_of_lem ws i (c ∷ s) = elim (Bool-cases (is_in c ws)) [
  | inr f ↦ First.found 0 (rw f (some_eq (omega arith))) (rw f)
  | inl t ↦ elim (first_not_of_lem ws (i + 1) s) [
    | First.absent e p ↦ First.absent (rw t e) (rw t p)
    | First.found k e p ↦ First.found (suc k) (rw t (e ∙ some_eq (omega arith))) (rw t p)
  ]
]

last_not_of_lem : (ws : List ℕ) (i : ℕ) (s : List ℕ) → Last ws i s
unfolding last_not_of peel_back
last_not_of_lem ws i [] = Last.absent refl refl
last_not_of_lem ws i (c ∷ s) = elim (last_not_of_lem ws (i + 1) s) [
  | Last.found k e lt p ↦
      Last.found (suc k) (rw e (some_eq (omega arith))) (omega arith) (kept k s lt p)
  | Last.absent e p ↦ elim (Bool-cases (is_in c ws)) [
    | inl t ↦ Last.absent (rw (e, t)) (rw (p, t))
    | inr f ↦ Last.found 0 (rw (e, f) (some_eq (omega arith))) (omega arith) (rw (p, f))
  ]
]
  where
    kept :
        (k : ℕ) (s : List ℕ)
        → k < length s
        → take (suc k) s ≡ peel_back ws s
        → c ∷ take (suc k) s
          ≡ (if is_empty (peel_back ws s) && is_in c ws then [] else c ∷ peel_back ws s)
    kept k [] lt p = absurd (omega arith)
    kept k (d ∷ s) lt p = rw (← p)

-- Where there is a first unit to keep there is a last one, and they bound what is kept.
record Kept (ws : List ℕ) (i k : ℕ) (s : List ℕ) : Type 0 where
  last : ℕ
  at : last_not_of ws i s ≡ some (i + last)
  after : k ≤ last
  between : take (last - k + 1) (drop k s) ≡ peel_back ws (peel_front ws s)

first_not_of-Kept :
    (ws : List ℕ) (i k : ℕ) (s : List ℕ) → first_not_of ws i s ≡ some (i + k) → Kept ws i k s
unfolding first_not_of last_not_of peel_front
first_not_of-Kept ws i k [] h = cc
first_not_of-Kept ws i k (c ∷ s) h = elim (Bool-cases (is_in c ws)) [
  | inr f ↦ kept_here f (last_not_of_lem ws i (c ∷ s))
  | inl t ↦ elim (first_not_of_lem ws (i + 1) s) [
    | First.absent e p ↦ absurd (ground (arith, first_in t, e))
    | First.found k' e p ↦
        kept_later t k' (ground (arith, first_in t, e)) (first_not_of-Kept ws (i + 1) k' s e)
  ]
]
  where
    first_in : is_in c ws ≡ true → first_not_of ws (i + 1) s ≡ some (i + k)
    first_in t = ground arith

    kept_here : is_in c ws ≡ false → Last ws i (c ∷ s) → Kept ws i k (c ∷ s)
    kept_here f (Last.absent e p) = absurd (ground arith)
    kept_here f (Last.found l e lt p) =
        let z : k ≡ 0 = ground arith in
        let n : l - 0 + 1 ≡ suc l = omega arith in
        record { last = l; at = e; after = omega arith; between = rw (z, f, n) p }

    kept_later :
        is_in c ws ≡ true → (k' : ℕ) → k ≡ suc k' → Kept ws (i + 1) k' s → Kept ws i k (c ∷ s)
    kept_later t k' e r =
        let n : suc r.last - suc k' + 1 ≡ r.last - k' + 1 = omega arith in
        record {
          last = suc r.last;
          at = rw r.at (some_eq (omega arith));
          after = omega (arith, r.after);
          between = rw (e, t, n) r.between;
        }

-- The trims keep exactly what is left when whitespace is peeled off the front, the back, or both.
trims-peel :
    (s ws : List ℕ)
    → (str_trim_left s ws ≡ peel_front ws s)
      × (str_trim_right s ws ≡ peel_back ws s)
      × (str_trim s ws ≡ peel_back ws (peel_front ws s))
trims-peel s ws =
    (left (first_not_of_lem ws 0 s), right (last_not_of_lem ws 0 s), both (first_not_of_lem ws 0 s))
  where
    left : First ws 0 s → str_trim_left s ws ≡ peel_front ws s
    left (First.absent e p) = unfold str_trim_left in rw (e, str_trim_left) (rw p)
    left (First.found k e p) =
        let z : 0 + k ≡ k = omega arith in unfold str_trim_left in rw (e, str_trim_left) (rw z p)

    right : Last ws 0 s → str_trim_right s ws ≡ peel_back ws s
    right (Last.absent e p) = unfold str_trim_right in rw (e, str_trim_right) (rw p)
    right (Last.found k e lt p) =
        let z : 0 + k + 1 ≡ suc k = omega arith in
        unfold str_trim_right in rw (e, str_trim_right) (rw z p)

    both : First ws 0 s → str_trim s ws ≡ peel_back ws (peel_front ws s)
    both (First.absent e p) = unfold str_trim peel_back in rw (e, str_trim) (rw p)
    both (First.found k e p) =
        let r = first_not_of-Kept ws 0 k s e in
        let z : 0 + k ≡ k = omega arith in
        let y : 0 + r.last ≡ r.last = omega arith in
        unfold str_trim in rw (e, str_trim) (rw (r.at, z, y) r.between)
