-- ===== src/Config/Parser.antt =====
-- src/configor.cpp: from tokens to elements. `index_` is the list of the tokens from it on. `none`
-- is a loop that has used up its fuel, since on some inputs the parser does not return.
use ashe.Base.{
  ℕ, zero, suc, Bool, true, false, List, [], ◌∷◌, ◌++◌, Option, none, some, if◌then◌else◌, ◌>>=◌,
}
use ashe.Text.Find.{equal_lists}
use ashe.Config.{Element, Elements, element, leaf, child}
use ashe.Config.Lexer.{preprocess, tokenize}

abbrev pub Tokens : Type 0
Tokens = List (List ℕ)

abbrev pub get : Tokens → List ℕ
get [] = []
get (t ∷ ts) = t

-- Past the last token `next` does not go.
abbrev pub stay : List ℕ → Tokens → Tokens
stay t [] = t ∷ []
stay t (u ∷ ts) = u ∷ ts

abbrev pub next : Tokens → Tokens
next [] = []
next (t ∷ ts) = stay t ts

-- Whether the token is this one character.
unfoldable pub accept : ℕ → Tokens → Bool
unfolding equal_lists
accept c ts = equal_lists (get ts) (c ∷ [])

-- `expect` on a token that was accepted: behind it, and behind an optional semicolon.
abbrev pub past_end : Tokens → Tokens
past_end ts = if accept 59 (next ts) then next (next ts) else next ts

-- `while (accept(","))` of `parseArray`: empty values.
unfoldable pub commas : ℕ → Tokens → Option (Tokens × List (List ℕ))
unfolding accept
commas zero ts = none
commas (suc n) ts = elim (accept 44 ts) [
  | true ↦ do (ts', values) ← commas n (next ts); some (ts', [] ∷ values)
  | false ↦ some (ts, [])
]

-- The loop of `parseArray`, behind the bracket, and what follows it.
unfoldable pub parse_array : ℕ → Tokens → Option (Tokens × List (List ℕ))
unfolding commas
parse_array zero ts = none
parse_array (suc n) ts = elim (accept 93 ts) [
  | true ↦ some (past_end ts, [])
  | false ↦ do
    (ts', empty) ← commas n (if accept 44 (next ts) then next (next ts) else next ts)
    (ts'', values) ← parse_array n ts'
    some (ts'', get ts ∷ (empty ++ values))
]

abbrev pub push : Option Element → Elements → Elements
push none es = es
push (some e) es = child e es

unfoldable mutual
  unfolding parse_array

  -- The element that is pushed to the parent, if one is.
  pub parse_var : ℕ → Tokens → Option (Tokens × Option Element)
  parse_var zero ts = none
  parse_var (suc n) ts = elim (accept 61 (next ts)) [
    | false ↦ some (next ts, none)
    | true ↦
        let name = get ts in
        let ts' = next (next ts) in
        elim (accept 91 ts') [
          | true ↦ do
            (ts'', values) ← parse_array n (next ts')
            some (ts'', some (element name values leaf))
          | false ↦ elim (accept 123 ts') [
            | true ↦ do
              (ts'', children) ← parse_object n (next ts')
              some (ts'', some (element name [] children))
            | false ↦ elim (accept 59 (next ts')) [
              | true ↦ some (next (next ts'), some (element name (get ts' ∷ []) leaf))
              | false ↦ some (next ts', none)
            ]
          ]
        ]
  ]

  -- The loop of `parseObject`, behind the brace, and what follows it.
  pub parse_object : ℕ → Tokens → Option (Tokens × Elements)
  parse_object zero ts = none
  parse_object (suc n) ts = elim (accept 125 ts) [
    | true ↦ some (past_end ts, leaf)
    | false ↦ do (ts', e) ← parse_var n ts; (ts'', es) ← parse_object n ts'; some (ts'', push e es)
  ]

-- `parse`: until the last token.
unfoldable pub parse_loop : ℕ → Tokens → Option Elements
unfolding parse_var
parse_loop zero ts = none
parse_loop (suc n) [] = some leaf
parse_loop (suc n) (t ∷ []) = some leaf
parse_loop (suc n) (t ∷ u ∷ ts) = do
  (ts', e) ← parse_var n (t ∷ u ∷ ts)
  es ← parse_loop n ts'
  some (push e es)

-- The constructor on a stream.
unfoldable pub load : ℕ → List ℕ → Option Elements
unfolding parse_loop preprocess tokenize
load fuel file = parse_loop fuel (tokenize (preprocess file))
