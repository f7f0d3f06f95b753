-- ===== src/Config/RoundTrip/Stripped.antt =====
-- Preprocessing takes the written text of elements to their text without blanks.
use ashe.Base.{
  ℕ, ◌+◌, ◌≡◌, refl, ap, sym, ◌∙◌, true, false, List, [], ◌∷◌, ◌++◌, append_assoc, append-nil, All,
  if◌then◌else◌,
}
use ashe.Config.{Element, Elements, element, leaf, child}
use ashe.Config.Lexer.{outside, preprocess}
use ashe.Config.Writer.{
  is_numeric, write_value, write_values, spaces, write_line, write_element, write_elements, save,
}
use ashe.Config.RoundTrip.Chars.{is_numeric-name}
use ashe.Config.RoundTrip.{
  nonempty, IsName, IsValue, Storable, StorableAll, joined, line_text, text_of, body_text,
  text_of_all,
}
use ashe.Config.RoundTrip.Kept.{
  left, nonempty-append, left-blank, left-spaces, left-feed, left-open, left-close, left-delimeter,
  nonempty-before, left-name, left-value,
}

left-written :
    (v s : List ℕ)
    → IsValue v
    → nonempty s ≡ true
    → left outside (write_value v ++ s) ≡ write_value v ++ left outside s
unfolding write_value
left-written v s h n =
    elim (is_numeric v)
        as (λ b.
          is_numeric v ≡ b
          → left outside ((if b then v else 34 ∷ (v ++ 34 ∷ [])) ++ s)
            ≡ (if b then v else 34 ∷ (v ++ 34 ∷ [])) ++ left outside s) [
              | true ↦ λ k. left-name v s (is_numeric-name v k) n
              | false ↦ λ k.
                  ap (λ x. left outside (34 ∷ x)) (append_assoc v (34 ∷ []) s)
                  ∙ left-open (v ++ 34 ∷ s) (nonempty-append v 34 s)
                  ∙ ap (λ x. 34 ∷ x)
                      (left-value v (34 ∷ s) h.1 refl ∙ ap (λ x. v ++ x) (left-close s n))
                  ∙ ap (λ x. 34 ∷ x) (sym (append_assoc v (34 ∷ []) (left outside s)))
            ]
      refl

left-values :
    (v : List ℕ) (vs : List (List ℕ)) (s : List ℕ)
    → All IsValue (v ∷ vs)
    → nonempty s ≡ true
    → left outside (write_values (v ∷ vs) ++ 93 ∷ s) ≡ joined v vs ++ left outside s
unfolding write_values
left-values v [] s h n =
    left-written v (93 ∷ s) h.0 refl
    ∙ ap (λ x. write_value v ++ x) (left-delimeter 93 s refl n)
    ∙ sym (append_assoc (write_value v) (93 ∷ []) (left outside s))
left-values v (w ∷ vs) s h n =
    ap (left outside) (append_assoc (write_value v) (44 ∷ 32 ∷ write_values (w ∷ vs)) (93 ∷ s))
    ∙ left-written v (44 ∷ 32 ∷ (write_values (w ∷ vs) ++ 93 ∷ s)) h.0 refl
    ∙ ap (λ x. write_value v ++ x)
        (left-delimeter 44 (32 ∷ (write_values (w ∷ vs) ++ 93 ∷ s)) refl refl
          ∙ ap (λ x. 44 ∷ x)
              (left-blank (write_values (w ∷ vs) ++ 93 ∷ s)
                  (nonempty-append (write_values (w ∷ vs)) 93 s)
                ∙ left-values w vs s h.1 n))
    ∙ sym (append_assoc (write_value v) (44 ∷ joined w vs) (left outside s))

-- An element's text from what its body leaves.
left-named :
    (tabs : ℕ) (name body text s : List ℕ)
    → IsName name
    → nonempty (body ++ s) ≡ true
    → left outside (body ++ s) ≡ text ++ left outside s
    → left outside ((spaces tabs ++ (name ++ (32 ∷ 61 ∷ 32 ∷ body))) ++ s)
      ≡ (name ++ 61 ∷ text) ++ left outside s
left-named tabs name body text s h n b =
    let a = append_assoc name (32 ∷ 61 ∷ 32 ∷ body) s in
    ap (left outside) (append_assoc (spaces tabs) (name ++ (32 ∷ 61 ∷ 32 ∷ body)) s)
    ∙ left-spaces tabs ((name ++ (32 ∷ 61 ∷ 32 ∷ body)) ++ s)
        (ap nonempty a ∙ nonempty-before name (32 ∷ 61 ∷ 32 ∷ (body ++ s)) refl)
    ∙ ap (left outside) a
    ∙ left-name name (32 ∷ 61 ∷ 32 ∷ (body ++ s)) h.1 refl
    ∙ ap (λ x. name ++ x)
        (left-blank (61 ∷ 32 ∷ (body ++ s)) refl
          ∙ left-delimeter 61 (32 ∷ (body ++ s)) refl refl
          ∙ ap (λ x. 61 ∷ x) (left-blank (body ++ s) n ∙ b))
    ∙ sym (append_assoc name (61 ∷ text) (left outside s))

left-line :
    (tabs : ℕ) (name v : List ℕ) (vs : List (List ℕ)) (s : List ℕ)
    → IsName name
    → All IsValue (v ∷ vs)
    → left outside (write_line tabs name (v ∷ vs) ++ s)
      ≡ (name ++ 61 ∷ line_text (v ∷ vs)) ++ left outside s
unfolding write_line
left-line tabs name v [] s h k =
    let a = append_assoc (write_value v) (59 ∷ 10 ∷ []) s in
    left-named tabs name (write_value v ++ 59 ∷ 10 ∷ []) (write_value v ++ 59 ∷ []) s h
      (ap nonempty a ∙ nonempty-append (write_value v) 59 (10 ∷ s))
      (ap (left outside) a
        ∙ left-written v (59 ∷ 10 ∷ s) k.0 refl
        ∙ ap (λ x. write_value v ++ x)
            (left-delimeter 59 (10 ∷ s) refl refl ∙ ap (λ x. 59 ∷ x) (left-feed s))
        ∙ sym (append_assoc (write_value v) (59 ∷ []) (left outside s)))
left-line tabs name v (w ∷ vs) s h k =
    let values = write_values (v ∷ w ∷ vs) in
    let a = append_assoc values (93 ∷ 10 ∷ []) s in
    left-named tabs name (91 ∷ (values ++ 93 ∷ 10 ∷ [])) (91 ∷ joined v (w ∷ vs)) s h refl (
      left-delimeter 91 ((values ++ 93 ∷ 10 ∷ []) ++ s) refl
        (ap nonempty a ∙ nonempty-append values 93 (10 ∷ s))
      ∙ ap (λ x. 91 ∷ x)
          (ap (left outside) a
            ∙ left-values v (w ∷ vs) (10 ∷ s) k refl
            ∙ ap (λ x. joined v (w ∷ vs) ++ x) (left-feed s)))

left-brace :
    (tabs : ℕ) (s : List ℕ)
    → left outside ((spaces tabs ++ 125 ∷ 10 ∷ []) ++ s) ≡ 125 ∷ left outside s
left-brace tabs s =
    ap (left outside) (append_assoc (spaces tabs) (125 ∷ 10 ∷ []) s)
    ∙ left-spaces tabs (125 ∷ 10 ∷ s) refl
    ∙ left-delimeter 125 (10 ∷ s) refl refl
    ∙ ap (λ x. 125 ∷ x) (left-feed s)

-- Two parts of a text, from what each leaves.
left-both :
    (a b x y s : List ℕ)
    → left outside (a ++ (b ++ s)) ≡ x ++ left outside (b ++ s)
    → left outside (b ++ s) ≡ y ++ left outside s
    → left outside ((a ++ b) ++ s) ≡ (x ++ y) ++ left outside s
left-both a b x y s h k =
    ap (left outside) (append_assoc a b s)
    ∙ h
    ∙ ap (λ z. x ++ z) k
    ∙ sym (append_assoc x y (left outside s))

mutual
  unfolding write_element

  left-element :
      (tabs : ℕ) (e : Element) (s : List ℕ)
      → Storable e
      → left outside (write_element tabs e ++ s) ≡ text_of e ++ left outside s
  left-element tabs (element name [] leaf) s h = absurd h
  left-element tabs (element name (v ∷ vs) leaf) s h = left-line tabs name v vs s h.0 h.1
  left-element tabs (element name (v ∷ vs) (child e es)) s h = absurd h
  left-element tabs (element name [] (child e es)) s h =
      let brace = spaces tabs ++ 125 ∷ 10 ∷ [] in
      let first = write_element (tabs + 4) e in
      let rest = write_elements (tabs + 4) es in
      left-named tabs name (123 ∷ 10 ∷ (first ++ (rest ++ brace))) (body_text [] (child e es)) s h.0
        refl
        (left-delimeter 123 (10 ∷ ((first ++ (rest ++ brace)) ++ s)) refl refl
          ∙ ap (λ x. 123 ∷ x)
              (left-feed ((first ++ (rest ++ brace)) ++ s)
                ∙ left-both first (rest ++ brace) (text_of e) (text_of_all es ++ 125 ∷ []) s
                    (left-element (tabs + 4) e ((rest ++ brace) ++ s) h.1)
                    (left-both rest brace (text_of_all es) (125 ∷ []) s
                      (left-elements (tabs + 4) es (brace ++ s) h.2) (left-brace tabs s))))

  left-elements :
      (tabs : ℕ) (es : Elements) (s : List ℕ)
      → StorableAll es
      → left outside (write_elements tabs es ++ s) ≡ text_of_all es ++ left outside s
  left-elements tabs leaf s h = refl
  left-elements tabs (child e es) s h =
      left-both (write_element tabs e) (write_elements tabs es) (text_of e) (text_of_all es) s
        (left-element tabs e (write_elements tabs es ++ s) h.0) (left-elements tabs es s h.1)

pub preprocess-save : (es : Elements) → StorableAll es → preprocess (save es) ≡ text_of_all es
unfolding preprocess save
preprocess-save es h =
    ap (left outside) (sym (append-nil (write_elements 0 es)))
    ∙ left-elements 0 es [] h
    ∙ append-nil (text_of_all es)
