-- ===== src/Config/Lexer.antt =====
-- src/configor.cpp: from the file's text to tokens. A token's line and character are not here, for
-- nothing reads them.
use ashe.Base.{ℕ, Bool, true, false, not, ◌&&◌, ◌||◌, List, [], ◌∷◌, ◌++◌, if◌then◌else◌, ◌==◌}

-- `isstring_` and `mask_`.
pub record Quoting : Type 0 where
  pub is_string : Bool
  pub mask : Bool

abbrev pub outside : Quoting
outside = record { is_string = false; mask = false }

-- 34 is the double and 39 the single quote.
abbrev pub is_quote : ℕ → Bool
is_quote c = c == 34 || c == 39

abbrev pub is_blank : ℕ → Bool
is_blank c = c == 32 || c == 9

-- The set of the characters = ; [ ] { } and the comma.
abbrev pub is_delimeter : ℕ → Bool
is_delimeter c =
    c == 61 || (c == 59 || (c == 91 || (c == 93 || (c == 123 || (c == 125 || c == 44)))))

-- `testString`: 92 is the backslash.
unfoldable pub test_string : ℕ → Quoting → Quoting × Bool
test_string c q =
    let mask = if q.is_string && c == 92 then not q.mask else q.mask in
    if (q.is_string && c == 92) && mask
    then (record { is_string = q.is_string; mask = true }, true)
    else (
      record {
        is_string = if not mask && is_quote c then not q.is_string else q.is_string;
        mask = false;
      },
      false,
    )

-- `std::getline` until the end: a line feed ends a line.
abbrev pub onto_first : ℕ → List (List ℕ) → List (List ℕ)
onto_first c [] = (c ∷ []) ∷ []
onto_first c (l ∷ ls) = (c ∷ l) ∷ ls

unfoldable pub lines : List ℕ → List (List ℕ)
lines [] = []
lines (c ∷ s) = if c == 10 then [] ∷ lines s else onto_first c (lines s)

-- A line of the loop in `preprocess`: what is kept of it. 35 is #.
unfoldable pub strip : Quoting → List ℕ → Quoting × List ℕ
unfolding test_string
strip q [] = (q, [])
strip q (c ∷ s) = elim (not q.is_string && is_blank c) [
  | true ↦ strip q s
  | false ↦ elim (not q.is_string && c == 35) [
    | true ↦ (q, [])
    | false ↦ let (q', kept) = strip (test_string c q).0 s in (q', c ∷ kept)
  ]
]

unfoldable pub preprocess_lines : Quoting → List (List ℕ) → List ℕ
unfolding strip
preprocess_lines q [] = []
preprocess_lines q (l ∷ ls) =
    let (q', kept) = strip q l in
    kept ++ ((if q'.is_string then 10 ∷ [] else []) ++ preprocess_lines q' ls)

unfoldable pub preprocess : List ℕ → List ℕ
unfolding lines preprocess_lines
preprocess file = preprocess_lines outside (lines file)

abbrev pub last_or : ℕ → List ℕ → ℕ
last_or d [] = d
last_or d (c ∷ s) = last_or c s

abbrev pub without_last : List ℕ → List ℕ
without_last [] = []
without_last (c ∷ []) = []
without_last (c ∷ d ∷ s) = c ∷ without_last (d ∷ s)

-- A token without the double quotes around it.
unfoldable pub cut : List ℕ → List ℕ
cut [] = []
cut (c ∷ s) = if c == 34 && last_or c s == 34 then without_last s else c ∷ s

-- A token is stored if there is one.
abbrev pub store : List ℕ → List (List ℕ) → List (List ℕ)
store [] tokens = tokens
store (c ∷ s) tokens = (c ∷ s) ∷ tokens

-- The loop of `tokenize`; `token` is the token so far.
unfoldable pub tokenize_loop : Quoting → List ℕ → List ℕ → List (List ℕ)
unfolding test_string cut
tokenize_loop q token [] = []
tokenize_loop q token (c ∷ s) =
    let (q', masked) = test_string c q in
    elim masked [
      | true ↦ tokenize_loop q' token s
      | false ↦ elim (c == 10) [
        | true ↦ tokenize_loop q' token s
        | false ↦ elim (not q'.is_string && is_delimeter c) [
          | true ↦ store (cut token) ((c ∷ []) ∷ tokenize_loop q' [] s)
          | false ↦ tokenize_loop q' (token ++ c ∷ []) s
        ]
      ]
    ]

unfoldable pub tokenize : List ℕ → List (List ℕ)
unfolding tokenize_loop
tokenize input = tokenize_loop outside [] input
