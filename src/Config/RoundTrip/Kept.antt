-- ===== src/Config/RoundTrip/Kept.antt =====
-- Preprocessing (src/configor.cpp) character by character.
use ashe.Base.{
  ℕ, zero, suc, ◌≡◌, refl, ap, sym, ◌∙◌, Bool, true, false, not, ◌&&◌, ◌||◌, List, [], ◌∷◌, ◌++◌,
  append_assoc, All, if◌then◌else◌, ◌==◌, arith,
}
use ashe.Config.Lexer.{
  Quoting, outside, is_quote, is_blank, is_delimeter, test_string, onto_first, lines, strip,
  preprocess_lines,
}
use ashe.Config.Writer.{spaces}
use ashe.Config.RoundTrip.Chars.{inside, test_string-outside, test_string-inside}
use ashe.Config.RoundTrip.{is_name_char, is_value_char, nonempty}

-- What is left of a text, from a state of the quotes on.
abbrev pub left : Quoting → List ℕ → List ℕ
left q s = preprocess_lines q (lines s)

pub nonempty-append : (a : List ℕ) (c : ℕ) (b : List ℕ) → nonempty (a ++ c ∷ b) ≡ true
nonempty-append [] c b = refl
nonempty-append (x ∷ a) c b = refl

onto_first-cons :
    (c : ℕ) (ls : List (List ℕ)) → (l : List ℕ) × (ks : List (List ℕ)) × (onto_first c ls ≡ l ∷ ks)
onto_first-cons c [] = (c ∷ [], [], refl)
onto_first-cons c (l ∷ ls) = (c ∷ l, ls, refl)

lines-cons :
    (s : List ℕ) → nonempty s ≡ true → (l : List ℕ) × (ks : List (List ℕ)) × (lines s ≡ l ∷ ks)
unfolding lines
lines-cons [] h = cc h
lines-cons (c ∷ s) h =
    elim (c == 10)
      as (λ b.
        (l : List ℕ) × (ks : List (List ℕ)) × ((if b then [] ∷ lines s else onto_first c (lines s))
          ≡ l ∷ ks)) [ true ↦ ([], lines s, refl) | false ↦ onto_first-cons c (lines s) ]

lines-same : (c : ℕ) (s : List ℕ) → (c == 10) ≡ false → lines (c ∷ s) ≡ onto_first c (lines s)
unfolding lines
lines-same c s h = rw h refl

abbrev step : ℕ → List ℕ → Quoting → Bool → Bool → Quoting → Quoting × List ℕ
step c s q blank hash q' = elim (not q.is_string && blank) [
  | true ↦ strip q s
  | false ↦ elim (not q.is_string && hash) [
    | true ↦ (q, [])
    | false ↦ let (u, kept) = strip q' s in (u, c ∷ kept)
  ]
]

strip-step :
    (c : ℕ) (s : List ℕ) (q q' : Quoting) (blank hash : Bool)
    → is_blank c ≡ blank
    → (c == 35) ≡ hash
    → (test_string c q).0 ≡ q'
    → strip q (c ∷ s) ≡ step c s q blank hash q'
unfolding strip
strip-step c s q q' blank hash b h t =
    ap (λ x. step c s q x (c == 35) (test_string c q).0) b
    ∙ ap (λ x. step c s q blank x (test_string c q).0) h
    ∙ ap (step c s q blank hash) t

-- The kept text from a line's strip on.
abbrev kept_from : List (List ℕ) → Quoting × List ℕ → List ℕ
kept_from ls r = r.1 ++ ((if r.0.is_string then 10 ∷ [] else []) ++ preprocess_lines r.0 ls)

left-step :
    (c : ℕ) (s : List ℕ) (q : Quoting) (q' : Quoting) (kept : List ℕ)
    → (c == 10) ≡ false
    → nonempty s ≡ true
    → ((l : List ℕ) → strip q (c ∷ l) ≡ ((strip q' l).0, kept ++ (strip q' l).1))
    → left q (c ∷ s) ≡ kept ++ left q' s
unfolding preprocess_lines
left-step c s q q' kept h n e =
    let (l, ls, k) = lines-cons s n in
    ap (preprocess_lines q) (lines-same c s h ∙ ap (onto_first c) k)
    ∙ ap (kept_from ls) (e l)
    ∙ append_assoc kept (strip q' l).1
        ((if (strip q' l).0.is_string then 10 ∷ [] else []) ++ preprocess_lines (strip q' l).0 ls)
    ∙ ap (λ x. kept ++ preprocess_lines q' x) (sym k)

pub left-blank : (s : List ℕ) → nonempty s ≡ true → left outside (32 ∷ s) ≡ left outside s
unfolding test_string
left-blank s n =
    left-step 32 s outside outside [] refl n
      (λ l. strip-step 32 l outside outside true false refl refl refl)

pub left-spaces :
    (tabs : ℕ) (s : List ℕ) → nonempty s ≡ true → left outside (spaces tabs ++ s) ≡ left outside s
left-spaces zero s n = refl
left-spaces (suc tabs) s n = left-blank (spaces tabs ++ s) (go tabs) ∙ left-spaces tabs s n
  where
    go : (tabs : ℕ) → nonempty (spaces tabs ++ s) ≡ true
    go zero = n
    go (suc tabs) = refl

pub left-feed : (s : List ℕ) → left outside (10 ∷ s) ≡ left outside s
unfolding lines preprocess_lines
left-feed s = refl

-- A character that is kept, outside and inside a string, and the quote between.
left-outside :
    (c : ℕ) (s : List ℕ)
    → (is_blank c || (c == 10 || (c == 35 || is_quote c))) ≡ false
    → nonempty s ≡ true
    → left outside (c ∷ s) ≡ c ∷ left outside s
left-outside c s h n = left-step c s outside outside (c ∷ []) (ground (arith, h)) n (λ l.
    strip-step c l outside outside false false (ground (arith, h)) (ground (arith, h))
      (ap (λ r. r.0) (test_string-outside c (ground (arith, h)))))

left-inside :
    (c : ℕ) (s : List ℕ)
    → is_value_char c ≡ true
    → nonempty s ≡ true
    → left inside (c ∷ s) ≡ c ∷ left inside s
left-inside c s h n = left-step c s inside inside (c ∷ []) (ground (arith, h)) n (λ l.
    strip-step c l inside inside (is_blank c) (c == 35) refl refl
      (ap (λ r. r.0) (test_string-inside c h)))

pub left-open : (s : List ℕ) → nonempty s ≡ true → left outside (34 ∷ s) ≡ 34 ∷ left inside s
unfolding test_string
left-open s n =
    left-step 34 s outside inside (34 ∷ []) refl n
      (λ l. strip-step 34 l outside inside false false refl refl refl)

pub left-close : (s : List ℕ) → nonempty s ≡ true → left inside (34 ∷ s) ≡ 34 ∷ left outside s
unfolding test_string
left-close s n =
    left-step 34 s inside outside (34 ∷ []) refl n
      (λ l. strip-step 34 l inside outside false false refl refl refl)

pub left-delimeter :
    (d : ℕ) (s : List ℕ)
    → is_delimeter d ≡ true
    → nonempty s ≡ true
    → left outside (d ∷ s) ≡ d ∷ left outside s
left-delimeter d s h n = left-outside d s (ground (arith, h)) n

pub nonempty-before : (a s : List ℕ) → nonempty s ≡ true → nonempty (a ++ s) ≡ true
nonempty-before [] s n = n
nonempty-before (x ∷ a) s n = refl

pub left-name :
    (a s : List ℕ)
    → All (λ c. is_name_char c ≡ true) a
    → nonempty s ≡ true
    → left outside (a ++ s) ≡ a ++ left outside s
left-name [] s h n = refl
left-name (c ∷ a) s h n =
    left-outside c (a ++ s) (ground (arith, h.0)) (nonempty-before a s n)
    ∙ ap (λ x. c ∷ x) (left-name a s h.1 n)

pub left-value :
    (a s : List ℕ)
    → All (λ c. is_value_char c ≡ true) a
    → nonempty s ≡ true
    → left inside (a ++ s) ≡ a ++ left inside s
left-value [] s h n = refl
left-value (c ∷ a) s h n =
    left-inside c (a ++ s) h.0 (nonempty-before a s n) ∙ ap (λ x. c ∷ x) (left-value a s h.1 n)
