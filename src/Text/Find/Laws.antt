-- ===== src/Text/Find/Laws.antt =====
-- What a search finds: the first place where the needle is a prefix of what follows.
use ashe.Base.{
  ℕ, zero, suc, ◌+◌, ◌-◌, ◌≤◌, ◌<◌, ◌≡◌, refl, ap, sym, ◌∙◌, Bool, true, false, List, [], ◌∷◌,
  Option, none, some, ◌⊎◌, arith, length, take, drop, Bool-cases, inl, inr, leb, ◌==◌, ==_iff,
  drop-drop, length-drop,
}
use ashe.Text.Chars.{equal_chars}
use ashe.Text.Find.{is_prefix_by, search_from, str_find}

-- No place before the `k`-th matches.
abbrev pub NoneBefore : (ℕ → ℕ → Bool) → List ℕ → ℕ → List ℕ → Type 0
NoneBefore eq p k s = (j : ℕ) → j < k → is_prefix_by eq p (drop j s) ≡ false

pub data Search (eq : ℕ → ℕ → Bool) (p : List ℕ) (i : ℕ) (s : List ℕ) : Type 0 where
  absent : search_from eq p i s ≡ none → NoneBefore eq p (suc (length s)) s → Search eq p i s
  found :
      (k : ℕ)
      → search_from eq p i s ≡ some (i + k)
      → k ≤ length s
      → is_prefix_by eq p (drop k s) ≡ true
      → NoneBefore eq p k s
      → Search eq p i s

NoneBefore-suc :
    (eq : ℕ → ℕ → Bool) (p : List ℕ) (k c : ℕ) (s : List ℕ)
    → is_prefix_by eq p (c ∷ s) ≡ false
    → NoneBefore eq p k s
    → NoneBefore eq p (suc k) (c ∷ s)
NoneBefore-suc eq p k c s f h zero lt = f
NoneBefore-suc eq p k c s f h (suc j) lt = h j (omega arith)

some_eq : {a b : ℕ} → a ≡ b → ◌≡◌ {A = Option ℕ} (some a) (some b)
some_eq e = ap some e

pub search_from_lem : (eq : ℕ → ℕ → Bool) (p : List ℕ) (i : ℕ) (s : List ℕ) → Search eq p i s
unfolding search_from
search_from_lem eq p i [] = elim (Bool-cases (is_prefix_by eq p [])) [
  | inl t ↦ found 0 (rw t (some_eq (omega arith))) (omega arith) t (λ j lt. absurd (omega arith))
  | inr f ↦ absent (rw f) (λ j lt. let z : j ≡ 0 = omega arith in rw z f)
]
search_from_lem eq p i (c ∷ s) = elim (Bool-cases (is_prefix_by eq p (c ∷ s))) [
  | inl t ↦ found 0 (rw t (some_eq (omega arith))) (omega arith) t (λ j lt. absurd (omega arith))
  | inr f ↦ elim (search_from_lem eq p (i + 1) s) [
    | absent e n ↦ absent (rw f e) (NoneBefore-suc eq p (suc (length s)) c s f n)
    | found k e le t n ↦
        found (suc k) (rw f (e ∙ some_eq (omega arith))) (omega arith) t
          (NoneBefore-suc eq p k c s f n)
  ]
]

-- A prefix is no longer than what it is a prefix of.
pub is_prefix_by-length :
    (eq : ℕ → ℕ → Bool) (p s : List ℕ) → is_prefix_by eq p s ≡ true → length p ≤ length s
unfolding is_prefix_by
is_prefix_by-length eq [] s h = omega arith
is_prefix_by-length eq (a ∷ p) [] h = cc
is_prefix_by-length eq (a ∷ p) (b ∷ s) h = ground (arith, is_prefix_by-length eq p s)

-- By equality, a prefix is what stands at the start.
pub is_prefix_by-take : (p s : List ℕ) → is_prefix_by ◌==◌ p s ≡ true → take (length p) s ≡ p
unfolding is_prefix_by
is_prefix_by-take [] s h = refl
is_prefix_by-take (a ∷ p) [] h = cc
is_prefix_by-take (a ∷ p) (b ∷ s) h = ground (arith, is_prefix_by-take p s, ==_iff b a)

-- `StrFind` gives the first index at or after the offset, and before the end, where the needle
-- matches, ignoring case or not as asked; where it gives none, no such index matches.
str_find-first :
    (s p : List ℕ) (offset : ℕ) (ci : Bool)
    → ((str_find s p offset ci ≡ none)
        × ((j : ℕ)
            → offset ≤ j
            → j < length s
            → is_prefix_by (equal_chars ci) p (drop j s) ≡ false))
      ⊎ ((k : ℕ) × (str_find s p offset ci ≡ some k)
          × (offset ≤ k)
          × (k ≤ length s)
          × (is_prefix_by (equal_chars ci) p (drop k s) ≡ true)
          × ((j : ℕ) → offset ≤ j → j < k → is_prefix_by (equal_chars ci) p (drop j s) ≡ false))
str_find-first s p offset ci = elim (Bool-cases (leb (length s) offset)) [
  | inl t ↦ inl ((unfold str_find in rw t), λ j lo hi. absurd (ground arith))
  | inr f ↦ elim (search_from_lem (equal_chars ci) p offset (drop offset s)) [
    | absent e n ↦ inl (
      (unfold str_find in rw f e),
      λ j lo hi. at j lo (n (j - offset) (omega (arith, length-drop offset s))),
    )
    | found k e le t n ↦ inr (
      offset + k,
      (unfold str_find in rw f e),
      omega arith,
      ground (arith, length-drop offset s),
      rw drop-drop at t,
      λ j lo hi. at j lo (n (j - offset) (omega arith)),
    )
  ]
]
  where
    at :
        (j : ℕ)
        → offset ≤ j
        → is_prefix_by (equal_chars ci) p (drop (j - offset) (drop offset s)) ≡ false
        → is_prefix_by (equal_chars ci) p (drop j s) ≡ false
    at j lo h =
        let e : offset + (j - offset) ≡ j = omega arith in
        sym (
          ap (λ l. is_prefix_by (equal_chars ci) p l)
            (drop-drop (j - offset) offset s ∙ ap (λ m. drop m s) e))
        ∙ h
