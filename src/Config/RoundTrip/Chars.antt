-- ===== src/Config/RoundTrip/Chars.antt =====
-- Single characters, as preprocessing and the tokenizer see them.
use ashe.Base.{ℕ, ◌≡◌, refl, true, false, List, [], ◌∷◌, All, ◌==◌, arith}
use ashe.Config.Lexer.{Quoting, outside, is_quote, test_string}
use ashe.Config.Writer.{is_numeric}
use ashe.Config.RoundTrip.{is_name_char, is_value_char}

abbrev pub inside : Quoting
inside = record { is_string = true; mask = false }

pub test_string-outside : (c : ℕ) → is_quote c ≡ false → test_string c outside ≡ (outside, false)
unfolding test_string
test_string-outside c h = rw h refl

pub test_string-inside : (c : ℕ) → is_value_char c ≡ true → test_string c inside ≡ (inside, false)
unfolding test_string
test_string-inside c h =
    let q : is_quote c ≡ false = ground (arith, h) in
    let b : (c == 92) ≡ false = ground (arith, h) in rw (b, q) refl

pub is_numeric-name : (v : List ℕ) → is_numeric v ≡ true → All (λ c. is_name_char c ≡ true) v
unfolding is_numeric
is_numeric-name [] h = tt
is_numeric-name (c ∷ v) h = (ground (arith, h), is_numeric-name v (ground (arith, h)))
