-- ===== src/Config/RoundTrip/Lexed.antt =====
-- The tokenizer takes the text of elements, without blanks, to their tokens.
use ashe.Base.{
  ℕ, ◌≡◌, refl, ap, sym, ◌∙◌, Bool, true, false, not, ◌&&◌, List, [], ◌∷◌, ◌++◌, append_assoc,
  append-nil, All, if◌then◌else◌, ◌==◌, arith,
}
use ashe.Config.{Element, Elements, element, leaf, child}
use ashe.Config.Lexer.{
  Quoting, outside, is_delimeter, test_string, last_or, without_last, cut, store, tokenize_loop,
  tokenize,
}
use ashe.Config.Parser.{Tokens}
use ashe.Config.Writer.{is_numeric, write_value}
use ashe.Config.RoundTrip.Chars.{inside, test_string-outside, test_string-inside, is_numeric-name}
use ashe.Config.RoundTrip.{
  is_name_char, is_value_char, nonempty, IsName, IsValue, Storable, StorableAll, value_tokens,
  line_tokens, tokens_of, body_tokens, tokens_of_all, joined, line_text, text_of, body_text,
  text_of_all,
}

-- What the loop does with a character, from its three tests.
abbrev step : List ℕ → ℕ → List ℕ → Quoting × Bool → Bool → Bool → List (List ℕ)
step token c s r feed delimeter = elim r.1 [
  | true ↦ tokenize_loop r.0 token s
  | false ↦ elim feed [
    | true ↦ tokenize_loop r.0 token s
    | false ↦ elim (not r.0.is_string && delimeter) [
      | true ↦ store (cut token) ((c ∷ []) ∷ tokenize_loop r.0 [] s)
      | false ↦ tokenize_loop r.0 (token ++ c ∷ []) s
    ]
  ]
]

tokenize_loop-step :
    (q : Quoting) (token : List ℕ) (c : ℕ) (s : List ℕ) (r : Quoting × Bool) (f d : Bool)
    → test_string c q ≡ r
    → (c == 10) ≡ f
    → is_delimeter c ≡ d
    → tokenize_loop q token (c ∷ s) ≡ step token c s r f d
unfolding tokenize_loop
tokenize_loop-step q token c s r f d t l h =
    ap (λ x. step token c s x (c == 10) (is_delimeter c)) t
    ∙ ap (λ x. step token c s r x (is_delimeter c)) l
    ∙ ap (step token c s r f) h

-- A delimeter outside strings.
tokenize_loop-delimeter :
    (token : List ℕ) (d : ℕ) (s : List ℕ)
    → is_delimeter d ≡ true
    → tokenize_loop outside token (d ∷ s)
      ≡ store (cut token) ((d ∷ []) ∷ tokenize_loop outside [] s)
tokenize_loop-delimeter token d s h =
    tokenize_loop-step outside token d s (outside, false) false true
      (test_string-outside d (ground (arith, h))) (ground (arith, h)) h

pub tokenize_loop-alone :
    (d : ℕ) (s : List ℕ)
    → is_delimeter d ≡ true
    → tokenize_loop outside [] (d ∷ s) ≡ (d ∷ []) ∷ tokenize_loop outside [] s
unfolding cut
tokenize_loop-alone d s h = tokenize_loop-delimeter [] d s h

-- Characters that are only put to the token.
tokenize_loop-name :
    (token s rest : List ℕ)
    → All (λ c. is_name_char c ≡ true) s
    → tokenize_loop outside token (s ++ rest) ≡ tokenize_loop outside (token ++ s) rest
tokenize_loop-name token [] rest h = ap (λ t. tokenize_loop outside t rest) (sym (append-nil token))
tokenize_loop-name token (c ∷ s) rest h =
    tokenize_loop-step outside token c (s ++ rest) (outside, false) false false
      (test_string-outside c (ground (arith, h.0))) (ground (arith, h.0)) (ground (arith, h.0))
    ∙ tokenize_loop-name (token ++ c ∷ []) s rest h.1
    ∙ ap (λ t. tokenize_loop outside t rest) (append_assoc token (c ∷ []) s)

tokenize_loop-value :
    (token s rest : List ℕ)
    → All (λ c. is_value_char c ≡ true) s
    → tokenize_loop inside token (s ++ rest) ≡ tokenize_loop inside (token ++ s) rest
tokenize_loop-value token [] rest h = ap (λ t. tokenize_loop inside t rest) (sym (append-nil token))
tokenize_loop-value token (c ∷ s) rest h =
    tokenize_loop-step inside token c (s ++ rest) (inside, false) false (is_delimeter c)
      (test_string-inside c h.0) (ground (arith, h.0)) refl
    ∙ tokenize_loop-value (token ++ c ∷ []) s rest h.1
    ∙ ap (λ t. tokenize_loop inside t rest) (append_assoc token (c ∷ []) s)

cut-name : (s : List ℕ) → IsName s → (ts : Tokens) → store (cut s) ts ≡ s ∷ ts
unfolding cut
cut-name [] h ts = cc h.0
cut-name (c ∷ s) h ts = let k : (c == 34) ≡ false = ground (arith, h.1.0) in rw k refl

-- A name, or a number, and a delimeter.
pub tokenize_loop-named :
    (s : List ℕ) (d : ℕ) (rest : List ℕ)
    → IsName s
    → is_delimeter d ≡ true
    → tokenize_loop outside [] (s ++ d ∷ rest) ≡ s ∷ (d ∷ []) ∷ tokenize_loop outside [] rest
tokenize_loop-named s d rest h k =
    tokenize_loop-name [] s (d ∷ rest) h.1
    ∙ tokenize_loop-delimeter s d rest k
    ∙ cut-name s h ((d ∷ []) ∷ tokenize_loop outside [] rest)

last_or-snoc : (d : ℕ) (s : List ℕ) (e : ℕ) → last_or d (s ++ e ∷ []) ≡ e
last_or-snoc d [] e = refl
last_or-snoc d (c ∷ s) e = last_or-snoc c s e

without_last-snoc : (s : List ℕ) (e : ℕ) → without_last (s ++ e ∷ []) ≡ s
without_last-snoc [] e = refl
without_last-snoc (c ∷ []) e = refl
without_last-snoc (c ∷ d ∷ s) e = ap (λ t. c ∷ t) (without_last-snoc (d ∷ s) e)

cut-quoted : (s : List ℕ) → cut (34 ∷ (s ++ 34 ∷ [])) ≡ s
unfolding cut
cut-quoted s = rw (last_or-snoc 34 s 34) (without_last-snoc s 34)

store-nonempty : (s : List ℕ) (ts : Tokens) → nonempty s ≡ true → store s ts ≡ s ∷ ts
store-nonempty [] ts h = cc h
store-nonempty (c ∷ s) ts h = refl

tokenize_loop-quoted :
    (v : List ℕ) (d : ℕ) (rest : List ℕ)
    → IsValue v
    → is_delimeter d ≡ true
    → tokenize_loop outside [] (34 ∷ (v ++ 34 ∷ d ∷ rest))
      ≡ v ∷ (d ∷ []) ∷ tokenize_loop outside [] rest
unfolding test_string
tokenize_loop-quoted v d rest h k =
    let ts = (d ∷ []) ∷ tokenize_loop outside [] rest in
    tokenize_loop-step outside [] 34 (v ++ 34 ∷ d ∷ rest) (inside, false) false false refl refl refl
    ∙ tokenize_loop-value (34 ∷ []) v (34 ∷ d ∷ rest) h.1
    ∙ tokenize_loop-step inside (34 ∷ v) 34 (d ∷ rest) (outside, false) false false refl refl refl
    ∙ tokenize_loop-delimeter (34 ∷ (v ++ 34 ∷ [])) d rest k
    ∙ ap (λ s. store s ts) (cut-quoted v)
    ∙ store-nonempty v ts h.0

-- A value as it is written, and a delimeter.
tokenize_loop-written :
    (v : List ℕ) (d : ℕ) (rest : List ℕ)
    → IsValue v
    → is_delimeter d ≡ true
    → tokenize_loop outside [] (write_value v ++ d ∷ rest)
      ≡ v ∷ (d ∷ []) ∷ tokenize_loop outside [] rest
unfolding write_value
tokenize_loop-written v d rest h k =
    elim (is_numeric v)
        as (λ b.
          is_numeric v ≡ b
          → tokenize_loop outside [] ((if b then v else 34 ∷ (v ++ 34 ∷ [])) ++ d ∷ rest)
            ≡ v ∷ (d ∷ []) ∷ tokenize_loop outside [] rest) [
              | true ↦ λ n. tokenize_loop-named v d rest (h.0, is_numeric-name v n) k
              | false ↦ λ n.
                  ap (λ s. tokenize_loop outside [] (34 ∷ s)) (append_assoc v (34 ∷ []) (d ∷ rest))
                  ∙ tokenize_loop-quoted v d rest h k
            ]
      refl

joined-tokens :
    (v : List ℕ) (vs : List (List ℕ)) (rest : List ℕ)
    → All IsValue (v ∷ vs)
    → tokenize_loop outside [] (joined v vs ++ rest)
      ≡ value_tokens v vs ++ tokenize_loop outside [] rest
joined-tokens v [] rest h =
    ap (tokenize_loop outside []) (append_assoc (write_value v) (93 ∷ []) rest)
    ∙ tokenize_loop-written v 93 rest h.0 refl
joined-tokens v (w ∷ vs) rest h =
    ap (tokenize_loop outside []) (append_assoc (write_value v) (44 ∷ joined w vs) rest)
    ∙ tokenize_loop-written v 44 (joined w vs ++ rest) h.0 refl
    ∙ ap (λ ts. v ∷ (44 ∷ []) ∷ ts) (joined-tokens w vs rest h.1)

line_text-tokens :
    (v : List ℕ) (vs : List (List ℕ)) (rest : List ℕ)
    → All IsValue (v ∷ vs)
    → tokenize_loop outside [] (line_text (v ∷ vs) ++ rest)
      ≡ line_tokens (v ∷ vs) ++ tokenize_loop outside [] rest
line_text-tokens v [] rest h =
    ap (tokenize_loop outside []) (append_assoc (write_value v) (59 ∷ []) rest)
    ∙ tokenize_loop-written v 59 rest h.0 refl
line_text-tokens v (w ∷ vs) rest h =
    tokenize_loop-alone 91 (joined v (w ∷ vs) ++ rest) refl
    ∙ ap (λ ts. (91 ∷ []) ∷ ts) (joined-tokens v (w ∷ vs) rest h)

-- A name, the equals sign, and what its tokens are.
named-tokens :
    (name body rest : List ℕ) (ts : Tokens)
    → IsName name
    → tokenize_loop outside [] (body ++ rest) ≡ ts ++ tokenize_loop outside [] rest
    → tokenize_loop outside [] ((name ++ 61 ∷ body) ++ rest)
      ≡ name ∷ (61 ∷ []) ∷ (ts ++ tokenize_loop outside [] rest)
named-tokens name body rest ts h b =
    ap (tokenize_loop outside []) (append_assoc name (61 ∷ body) rest)
    ∙ tokenize_loop-named name 61 (body ++ rest) h refl
    ∙ ap (λ t. name ∷ (61 ∷ []) ∷ t) b

mutual
  text_of-tokens :
      (e : Element) (rest : List ℕ)
      → Storable e
      → tokenize_loop outside [] (text_of e ++ rest) ≡ tokens_of e ++ tokenize_loop outside [] rest
  text_of-tokens (element name [] leaf) rest s = absurd s
  text_of-tokens (element name (v ∷ vs) leaf) rest s =
      named-tokens name (line_text (v ∷ vs)) rest (line_tokens (v ∷ vs)) s.0
        (line_text-tokens v vs rest s.1)
  text_of-tokens (element name (v ∷ vs) (child e es)) rest s = absurd s
  text_of-tokens (element name [] (child e es)) rest s =
      named-tokens name (body_text [] (child e es)) rest (body_tokens [] (child e es)) s.0 (
        tokenize_loop-alone 123 ((text_of e ++ (text_of_all es ++ 125 ∷ [])) ++ rest) refl
        ∙ ap (λ ts. (123 ∷ []) ∷ ts)
            (ap (tokenize_loop outside [])
                (append_assoc (text_of e) (text_of_all es ++ 125 ∷ []) rest)
              ∙ text_of-tokens e ((text_of_all es ++ 125 ∷ []) ++ rest) s.1
              ∙ ap (λ ts. tokens_of e ++ ts)
                  (ap (tokenize_loop outside []) (append_assoc (text_of_all es) (125 ∷ []) rest)
                    ∙ text_of_all-tokens es (125 ∷ rest) s.2
                    ∙ ap (λ ts. tokens_of_all es ++ ts) (tokenize_loop-alone 125 rest refl)
                    ∙ sym (
                        append_assoc (tokens_of_all es) ((125 ∷ []) ∷ [])
                          (tokenize_loop outside [] rest)))
              ∙ sym (
                  append_assoc (tokens_of e) (tokens_of_all es ++ (125 ∷ []) ∷ [])
                    (tokenize_loop outside [] rest))))

  text_of_all-tokens :
      (es : Elements) (rest : List ℕ)
      → StorableAll es
      → tokenize_loop outside [] (text_of_all es ++ rest)
        ≡ tokens_of_all es ++ tokenize_loop outside [] rest
  text_of_all-tokens leaf rest s = refl
  text_of_all-tokens (child e es) rest s =
      ap (tokenize_loop outside []) (append_assoc (text_of e) (text_of_all es) rest)
      ∙ text_of-tokens e (text_of_all es ++ rest) s.0
      ∙ ap (λ ts. tokens_of e ++ ts) (text_of_all-tokens es rest s.1)
      ∙ sym (append_assoc (tokens_of e) (tokens_of_all es) (tokenize_loop outside [] rest))

pub tokenize-text_of_all :
    (es : Elements) → StorableAll es → tokenize (text_of_all es) ≡ tokens_of_all es
unfolding tokenize
tokenize-text_of_all es s =
    ap (tokenize_loop outside []) (sym (append-nil (text_of_all es)))
    ∙ text_of_all-tokens es [] s
    ∙ append-nil (tokens_of_all es)
