-- ===== src/Config/RoundTrip.antt =====
-- Which elements are read back as they were written, and what stands between: their tokens.
pub mod Chars
pub mod Parsed
pub mod Lexed
pub mod Kept
pub mod Stripped
pub mod Whole
use ashe.Base.{
  ℕ, zero, suc, ◌+◌, ◌≤◌, ◌≡◌, Bool, true, false, not, ◌&&◌, ◌||◌, List, [], ◌∷◌, ◌++◌, All,
  if◌then◌else◌, ◌==◌, length,
}
use ashe.Text.Find.{equal_lists}
use ashe.Config.{Element, Elements, element, leaf, child}
use ashe.Config.Lexer.{is_quote, is_blank, is_delimeter}
use ashe.Config.Parser.{Tokens}
use ashe.Config.Writer.{write_value}

-- A character that a name may have: no blank, line feed, quote, # or delimeter.
abbrev pub is_name_char : ℕ → Bool
is_name_char c = not (is_blank c || (is_quote c || (is_delimeter c || (c == 10 || c == 35))))

-- One that a value may have: no quote, backslash or line feed.
abbrev pub is_value_char : ℕ → Bool
is_value_char c = not (is_quote c || (c == 92 || c == 10))

abbrev pub is_delimeter_text : List ℕ → Bool
is_delimeter_text [] = false
is_delimeter_text (c ∷ []) = is_delimeter c
is_delimeter_text (c ∷ d ∷ s) = false

abbrev pub nonempty : List ℕ → Bool
nonempty [] = false
nonempty (c ∷ s) = true

abbrev pub IsName : List ℕ → Type 0
IsName s = (nonempty s ≡ true) × All (λ c. is_name_char c ≡ true) s

abbrev pub IsValue : List ℕ → Type 0
IsValue s =
    (nonempty s ≡ true) × All (λ c. is_value_char c ≡ true) s × (is_delimeter_text s ≡ false)

-- A name, and values or children, but not both, down to the last child.
abbrev mutual
  pub Storable : Element → Type 0
  Storable (element name [] leaf) = ⊥
  Storable (element name (v ∷ vs) leaf) = IsName name × All IsValue (v ∷ vs)
  Storable (element name [] (child e es)) = IsName name × Storable e × StorableAll es
  Storable (element name (v ∷ vs) (child e es)) = ⊥

  pub StorableAll : Elements → Type 0
  StorableAll leaf = Unit
  StorableAll (child e es) = Storable e × StorableAll es

-- The tokens of the values behind the bracket, and of elements.
abbrev pub value_rest : List (List ℕ) → Tokens
value_rest [] = (93 ∷ []) ∷ []
value_rest (v ∷ vs) = (44 ∷ []) ∷ v ∷ value_rest vs

abbrev pub value_tokens : List ℕ → List (List ℕ) → Tokens
value_tokens v vs = v ∷ value_rest vs

abbrev pub line_tokens : List (List ℕ) → Tokens
line_tokens [] = []
line_tokens (v ∷ []) = v ∷ (59 ∷ []) ∷ []
line_tokens (v ∷ w ∷ vs) = (91 ∷ []) ∷ value_tokens v (w ∷ vs)

abbrev mutual
  pub tokens_of : Element → Tokens
  tokens_of (element name vs es) = name ∷ (61 ∷ []) ∷ body_tokens vs es

  pub body_tokens : List (List ℕ) → Elements → Tokens
  body_tokens vs leaf = line_tokens vs
  body_tokens vs (child e es) = (123 ∷ []) ∷ (tokens_of e ++ (tokens_of_all es ++ (125 ∷ []) ∷ []))

  pub tokens_of_all : Elements → Tokens
  tokens_of_all leaf = []
  tokens_of_all (child e es) = tokens_of e ++ tokens_of_all es

-- Their text without the blanks and line feeds between the tokens.
abbrev pub joined : List ℕ → List (List ℕ) → List ℕ
joined v [] = write_value v ++ 93 ∷ []
joined v (w ∷ vs) = write_value v ++ 44 ∷ joined w vs

abbrev pub line_text : List (List ℕ) → List ℕ
line_text [] = []
line_text (v ∷ []) = write_value v ++ 59 ∷ []
line_text (v ∷ w ∷ vs) = 91 ∷ joined v (w ∷ vs)

abbrev mutual
  pub text_of : Element → List ℕ
  text_of (element name vs es) = name ++ 61 ∷ body_text vs es

  pub body_text : List (List ℕ) → Elements → List ℕ
  body_text vs leaf = line_text vs
  body_text vs (child e es) = 123 ∷ (text_of e ++ (text_of_all es ++ 125 ∷ []))

  pub text_of_all : Elements → List ℕ
  text_of_all leaf = []
  text_of_all (child e es) = text_of e ++ text_of_all es

-- The rounds that the parser's loops need.
abbrev mutual
  pub rounds : Element → ℕ
  rounds (element name vs leaf) = length vs + 3
  rounds (element name vs (child e es)) = rounds e + rounds_all es + 3

  pub rounds_all : Elements → ℕ
  rounds_all leaf = 1
  rounds_all (child e es) = rounds e + rounds_all es + 1
