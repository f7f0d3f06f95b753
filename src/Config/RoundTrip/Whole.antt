-- ===== src/Config/RoundTrip/Whole.antt =====
-- A configuration saved to a stream and loaded from it, and one that is cut off.
use ashe.Base.{ℕ, zero, suc, ◌≤◌, ◌≡◌, refl, ap, ◌∙◌, List, [], ◌∷◌, ◌++◌, none, some, arith}
use ashe.Text.Find.{equal_lists}
use ashe.Config.{Elements, leaf, child}
use ashe.Config.Lexer.{preprocess, tokenize}
use ashe.Config.Parser.{accept, parse_object, parse_loop, load}
use ashe.Config.Writer.{save}
use ashe.Config.RoundTrip.{IsName, StorableAll, tokens_of_all, rounds_all}
use ashe.Config.RoundTrip.Parsed.{parse_loop-tokens_of}
use ashe.Config.RoundTrip.Lexed.{tokenize_loop-named, tokenize_loop-alone, tokenize-text_of_all}
use ashe.Config.RoundTrip.Kept.{left-name, left-delimeter}
use ashe.Config.RoundTrip.Stripped.{preprocess-save}

-- What is saved is loaded again: where each element has a name, not empty and without special
-- characters, and either children or values, and each value is not empty, has no quote, backslash
-- or line feed, and is not a single delimeter, loading the saved text returns, in as many rounds as
-- `rounds_all` says, the same elements.
pub load-save :
    (es : Elements) (fuel : ℕ)
    → rounds_all es ≤ fuel
    → StorableAll es
    → load fuel (save es) ≡ some es
unfolding load parse_loop
load-save es fuel lt s =
    ap (λ t. parse_loop fuel (tokenize t)) (preprocess-save es s)
    ∙ ap (parse_loop fuel) (tokenize-text_of_all es s)
    ∙ parsed es fuel lt s
  where
    parsed :
        (es : Elements) (n : ℕ)
        → rounds_all es ≤ n
        → StorableAll es
        → parse_loop n (tokens_of_all es) ≡ some es
    parsed leaf zero lt s = absurd (omega (arith, lt))
    parsed leaf (suc n) lt s = refl
    parsed (child e es) n lt s = parse_loop-tokens_of e es n lt s

parse_object-cut : (n : ℕ) → parse_object n ((123 ∷ []) ∷ []) ≡ none
unfolding parse_object accept equal_lists
parse_object-cut zero = refl
parse_object-cut (suc zero) = refl
parse_object-cut (suc (suc n)) = rw (parse_object-cut (suc n)) refl

-- Loading a text that ends behind the opening brace of an object never returns.
load-hangs : (fuel : ℕ) (name : List ℕ) → IsName name → load fuel (name ++ 61 ∷ 123 ∷ []) ≡ none
unfolding load preprocess tokenize parse_loop accept equal_lists
load-hangs fuel name h =
    ap (λ t. parse_loop fuel (tokenize t)) kept ∙ ap (parse_loop fuel) tokens ∙ parsed fuel
  where
    kept : preprocess (name ++ 61 ∷ 123 ∷ []) ≡ name ++ 61 ∷ 123 ∷ []
    kept =
        left-name name (61 ∷ 123 ∷ []) h.1 refl
        ∙ ap (λ x. name ++ x) (left-delimeter 61 (123 ∷ []) refl refl)

    tokens : tokenize (name ++ 61 ∷ 123 ∷ []) ≡ name ∷ (61 ∷ []) ∷ (123 ∷ []) ∷ []
    tokens =
        tokenize_loop-named name 61 (123 ∷ []) h refl
        ∙ ap (λ ts. name ∷ (61 ∷ []) ∷ ts) (tokenize_loop-alone 123 [] refl)

    parsed : (n : ℕ) → parse_loop n (name ∷ (61 ∷ []) ∷ (123 ∷ []) ∷ []) ≡ none
    parsed zero = refl
    parsed (suc zero) = refl
    parsed (suc (suc n)) = rw (parse_object-cut n) refl
