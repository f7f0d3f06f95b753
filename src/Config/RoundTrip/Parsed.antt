-- ===== src/Config/RoundTrip/Parsed.antt =====
-- The parser takes the tokens of elements back to the elements.
use ashe.Base.{
  ℕ, zero, suc, ◌+◌, ◌≤◌, ◌<◌, ◌≡◌, refl, ap, sym, ◌∙◌, true, false, List, [], ◌∷◌, ◌++◌,
  append_assoc, some, All, ◌==◌, length, arith,
}
use ashe.Text.Find.{equal_lists}
use ashe.Config.{Element, Elements, element, leaf, child}
use ashe.Config.Lexer.{is_delimeter}
use ashe.Config.Parser.{
  Tokens, stay, accept, commas, parse_array, parse_var, parse_object, parse_loop,
}
use ashe.Config.RoundTrip.{
  is_delimeter_text, IsName, IsValue, Storable, StorableAll, value_tokens, value_rest, line_tokens,
  tokens_of, tokens_of_all, rounds, rounds_all, body_tokens,
}

-- A text that is no delimeter is none of those that the parser accepts.
accept_other :
    (c : ℕ) (v : List ℕ) (ts : Tokens)
    → is_delimeter c ≡ true
    → is_delimeter_text v ≡ false
    → accept c (v ∷ ts) ≡ false
unfolding accept equal_lists
accept_other c [] ts d h = refl
accept_other c (a ∷ []) ts d h = ground (arith, d, h)
accept_other c (a ∷ b ∷ s) ts d h = ground arith

name_delimeter : (s : List ℕ) → IsName s → is_delimeter_text s ≡ false
name_delimeter [] h = refl
name_delimeter (c ∷ []) h = ground (arith, h.1.0)
name_delimeter (c ∷ d ∷ s) h = refl

-- Behind the last token of an element no semicolon follows.
abbrev Follows : Tokens → Type 0
Follows ts = accept 59 ts ≡ false

accept-stay :
    (c t : ℕ) (rest : Tokens)
    → (t == c) ≡ false
    → accept c rest ≡ false
    → accept c (stay (t ∷ []) rest) ≡ false
unfolding accept equal_lists
accept-stay c t [] h k = ground (arith, h)
accept-stay c t (u ∷ rest) h k = k

parse_array-values :
    (n : ℕ) (v : List ℕ) (vs : List (List ℕ)) (rest : Tokens)
    → length vs + 2 ≤ n
    → All IsValue (v ∷ vs)
    → accept 59 rest ≡ false
    → parse_array n (value_tokens v vs ++ rest) ≡ some (stay (93 ∷ []) rest, v ∷ vs)
unfolding parse_array commas accept equal_lists
parse_array-values zero v vs rest lt h f = absurd (omega (arith, lt))
parse_array-values (suc zero) v vs rest lt h f = absurd (omega (arith, lt))
parse_array-values (suc (suc n)) v [] rest lt h f =
    let e : accept 93 (v ∷ (93 ∷ []) ∷ rest) ≡ false =
      accept_other 93 v ((93 ∷ []) ∷ rest) refl h.0.2 in
    let k : accept 59 (stay (93 ∷ []) rest) ≡ false = accept-stay 59 93 rest refl f in
    rw (e, k) refl
parse_array-values (suc (suc n)) v (w ∷ vs) rest lt h f =
    let e : accept 93 (v ∷ (44 ∷ []) ∷ (value_tokens w vs ++ rest)) ≡ false =
      accept_other 93 v ((44 ∷ []) ∷ (value_tokens w vs ++ rest)) refl h.0.2 in
    let k : accept 44 (value_tokens w vs ++ rest) ≡ false =
      accept_other 44 w (value_rest vs ++ rest) refl h.1.0.2 in
    let r = parse_array-values (suc n) w vs rest (omega (arith, lt)) h.1 f in rw (e, k, r) refl

abbrev last_token : Element → List ℕ
last_token (element name [] leaf) = []
last_token (element name (v ∷ []) leaf) = 59 ∷ []
last_token (element name (v ∷ w ∷ vs) leaf) = 93 ∷ []
last_token (element name vs (child e es)) = 125 ∷ []

-- The brace that ends an object, behind its children.
abbrev closed : Elements → Tokens → Tokens
closed es rest = tokens_of_all es ++ (125 ∷ []) ∷ rest

stay-tokens_of :
    (t : List ℕ) (e : Element) (rest : Tokens) → stay t (tokens_of e ++ rest) ≡ tokens_of e ++ rest
stay-tokens_of t (element name vs es) rest = refl

stay-closed :
    (t : List ℕ) (es : Elements) (rest : Tokens) → stay t (closed es rest) ≡ closed es rest
stay-closed t leaf rest = refl
stay-closed t (child (element name vs cs) es) rest = refl

name_of :
    (e : Element)
    → Storable e
    → (c : ℕ) (rest : Tokens) → is_delimeter c ≡ true
    → accept c (tokens_of e ++ rest) ≡ false
name_of (element name [] leaf) s c rest d = absurd s
name_of (element name (v ∷ vs) leaf) s c rest d =
    accept_other c name ((61 ∷ []) ∷ (line_tokens (v ∷ vs) ++ rest)) d (name_delimeter name s.0)
name_of (element name [] (child e es)) s c rest d =
    accept_other c name ((61 ∷ []) ∷ (body_tokens [] (child e es) ++ rest)) d
      (name_delimeter name s.0)
name_of (element name (v ∷ vs) (child e es)) s c rest d = absurd s

accept-closed :
    (es : Elements) (rest : Tokens) → StorableAll es → accept 59 (closed es rest) ≡ false
unfolding accept equal_lists
accept-closed leaf rest s = refl
accept-closed (child e es) rest s =
    ap (accept 59) (append_assoc (tokens_of e) (tokens_of_all es) ((125 ∷ []) ∷ rest))
    ∙ name_of e s.0 59 (closed es rest) refl

-- The steps of the parser, each from what its calls return.
parse_object-child :
    (n : ℕ) (ts u t : Tokens) (e : Element) (es : Elements)
    → accept 125 ts ≡ false
    → parse_var n ts ≡ some (u, some e)
    → parse_object n u ≡ some (t, es)
    → parse_object (suc n) ts ≡ some (t, child e es)
unfolding parse_object accept
parse_object-child n ts u t e es k v r = rw (k, v, r, parse_object) refl

parse_object-leaf :
    (n : ℕ) (rest : Tokens)
    → Follows rest
    → parse_object (suc n) ((125 ∷ []) ∷ rest) ≡ some (stay (125 ∷ []) rest, leaf)
unfolding parse_object accept equal_lists
parse_object-leaf n rest f =
    let k : accept 59 (stay (125 ∷ []) rest) ≡ false = accept-stay 59 125 rest refl f in rw k refl

parse_var-object :
    (n : ℕ) (name : List ℕ) (ts t : Tokens) (es : Elements)
    → stay (123 ∷ []) ts ≡ ts
    → parse_object n ts ≡ some (t, es)
    → parse_var (suc n) (name ∷ (61 ∷ []) ∷ (123 ∷ []) ∷ ts) ≡ some (t, some (element name [] es))
unfolding parse_object accept equal_lists
parse_var-object n name ts t es k r = rw (k, r) refl

parse_var-line :
    (n : ℕ) (name v : List ℕ) (vs : List (List ℕ)) (rest : Tokens)
    → length vs + 3 ≤ n
    → All IsValue (v ∷ vs)
    → Follows rest
    → parse_var (suc n) (name ∷ (61 ∷ []) ∷ (line_tokens (v ∷ vs) ++ rest))
      ≡ some
          (stay (last_token (element name (v ∷ vs) leaf)) rest, some (element name (v ∷ vs) leaf))
unfolding parse_object accept equal_lists
parse_var-line n name v [] rest lt h f =
    let k : accept 91 (v ∷ (59 ∷ []) ∷ rest) ≡ false =
      accept_other 91 v ((59 ∷ []) ∷ rest) refl h.0.2 in
    let l : accept 123 (v ∷ (59 ∷ []) ∷ rest) ≡ false =
      accept_other 123 v ((59 ∷ []) ∷ rest) refl h.0.2 in
    rw (k, l) refl
parse_var-line n name v (w ∷ vs) rest lt h f =
    let r = parse_array-values n v (w ∷ vs) rest (omega (arith, lt)) h f in rw r refl

no_rounds : (e : Element) → rounds e ≤ 0 → ⊥
no_rounds (element name vs leaf) h = omega (arith, h)
no_rounds (element name vs (child e es)) h = omega (arith, h)

mutual
  parse_var-tokens_of :
      (e : Element) (n : ℕ) (rest : Tokens)
      → rounds e ≤ n
      → Storable e
      → Follows rest
      → parse_var n (tokens_of e ++ rest) ≡ some (stay (last_token e) rest, some e)
  parse_var-tokens_of (element name vs es) zero rest lt s f =
      absurd (no_rounds (element name vs es) lt)
  parse_var-tokens_of (element name [] leaf) (suc n) rest lt s f = absurd s
  parse_var-tokens_of (element name (v ∷ vs) leaf) (suc n) rest lt s f =
      parse_var-line n name v vs rest (omega (arith, lt)) s.1 f
  parse_var-tokens_of (element name (v ∷ vs) (child e es)) (suc n) rest lt s f = absurd s
  parse_var-tokens_of (element name [] (child e es)) (suc n) rest lt s f =
      let a : (tokens_of e ++ (tokens_of_all es ++ (125 ∷ []) ∷ [])) ++ rest
          ≡ closed (child e es) rest =
        append_assoc (tokens_of e) (tokens_of_all es ++ (125 ∷ []) ∷ []) rest
        ∙ ap (λ ts. tokens_of e ++ ts) (append_assoc (tokens_of_all es) ((125 ∷ []) ∷ []) rest)
        ∙ sym (append_assoc (tokens_of e) (tokens_of_all es) ((125 ∷ []) ∷ rest)) in
      ap (λ ts. parse_var (suc n) (name ∷ (61 ∷ []) ∷ (123 ∷ []) ∷ ts)) a
      ∙ parse_var-object n name (closed (child e es) rest) (stay (125 ∷ []) rest) (child e es)
          (stay-closed (123 ∷ []) (child e es) rest)
          (parse_object-closed (child e es) n rest (omega (arith, lt)) (s.1, s.2) f)

  parse_object-closed :
      (es : Elements) (n : ℕ) (rest : Tokens)
      → rounds_all es ≤ n
      → StorableAll es
      → Follows rest
      → parse_object n (closed es rest) ≡ some (stay (125 ∷ []) rest, es)
  parse_object-closed leaf zero rest lt s f = absurd (omega (arith, lt))
  parse_object-closed leaf (suc n) rest lt s f = parse_object-leaf n rest f
  parse_object-closed (child e es) zero rest lt s f = absurd (omega (arith, lt))
  parse_object-closed (child e es) (suc n) rest lt s f =
      let c : closed (child e es) rest ≡ tokens_of e ++ closed es rest =
        append_assoc (tokens_of e) (tokens_of_all es) ((125 ∷ []) ∷ rest) in
      ap (parse_object (suc n)) c
      ∙ parse_object-child n (tokens_of e ++ closed es rest) (closed es rest) (stay (125 ∷ []) rest)
          e es (name_of e s.0 125 (closed es rest) refl)
          (parse_var-tokens_of e n (closed es rest) (omega (arith, lt)) s.0
              (accept-closed es rest s.1)
            ∙ ap (λ ts. some (ts, some e)) (stay-closed (last_token e) es rest))
          (parse_object-closed es n rest (omega (arith, lt)) s.1 f)

tokens_of_all-Follows : (es : Elements) → StorableAll es → Follows (tokens_of_all es)
unfolding accept equal_lists
tokens_of_all-Follows leaf s = refl
tokens_of_all-Follows (child e es) s = name_of e s.0 59 (tokens_of_all es) refl

parse_loop-child :
    (n : ℕ) (e e' : Element) (rest t : Tokens) (es : Elements)
    → parse_var n (tokens_of e ++ rest) ≡ some (t, some e')
    → parse_loop n t ≡ some es
    → parse_loop (suc n) (tokens_of e ++ rest) ≡ some (child e' es)
unfolding parse_loop
parse_loop-child n (element name vs cs) e' rest t es v r = rw (v, r) refl

parse_loop-last : (n : ℕ) (t : List ℕ) → 0 < n → parse_loop n (t ∷ []) ≡ some leaf
unfolding parse_loop
parse_loop-last zero t h = absurd (omega (arith, h))
parse_loop-last (suc n) t h = refl

-- The parser returns, in as many rounds, and gives the elements back.
pub parse_loop-tokens_of :
    (e : Element) (es : Elements) (n : ℕ)
    → rounds_all (child e es) ≤ n
    → StorableAll (child e es)
    → parse_loop n (tokens_of_all (child e es)) ≡ some (child e es)
parse_loop-tokens_of e es zero lt s = absurd (omega (arith, lt))
parse_loop-tokens_of e leaf (suc n) lt s =
    parse_loop-child n e e [] (last_token e ∷ []) leaf
      (parse_var-tokens_of e n [] (omega (arith, lt)) s.0 (tokens_of_all-Follows leaf s.1))
      (parse_loop-last n (last_token e) (omega (arith, lt)))
parse_loop-tokens_of e (child e' es) (suc n) lt s =
    let rest = tokens_of_all (child e' es) in
    parse_loop-child n e e rest rest (child e' es)
      (parse_var-tokens_of e n rest (omega (arith, lt)) s.0
          (tokens_of_all-Follows (child e' es) s.1)
        ∙ ap (λ ts. some (ts, some e)) (stay-tokens_of (last_token e) e' (tokens_of_all es)))
      (parse_loop-tokens_of e' es n (omega (arith, lt)) s.1)
