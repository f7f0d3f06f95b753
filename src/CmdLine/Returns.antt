-- ===== src/CmdLine/Returns.antt =====
-- The loop of `parse` ends.
use ashe.Base.{
  ℕ, zero, suc, ◌+◌, ◌≤◌, ◌<◌, ◌≡◌, refl, Bool, true, false, List, [], ◌∷◌, Option, none, some,
  if◌then◌else◌, length, arith,
}
use ashe.CmdLine.{
  is_delim, is_quote, is_value_sep, is_space, onto, c_str, wcspbrk, ValsMap, insert_key, value_of,
  take_value, parse_key, parse_arg, parse_round, parse_loop, parse,
}

abbrev Found : ℕ → Option (List ℕ × ℕ × List ℕ) → Type 0
Found n none = Unit
Found n (some (before, c, after)) = length after < n

onto-Found : (n c : ℕ) (o : Option (List ℕ × ℕ × List ℕ)) → Found n o → Found (suc n) (onto c o)
onto-Found n c none h = tt
onto-Found n c (some (before, d, after)) h = omega (arith, h)

wcspbrk-Found : (set : ℕ → Bool) (s : List ℕ) → Found (length s) (wcspbrk set s)
unfolding wcspbrk
wcspbrk-Found set [] = tt
wcspbrk-Found set (c ∷ s) =
    elim (set c)
      as (λ b. Found (suc (length s)) (if b then some ([], c, s) else onto c (wcspbrk set s))) [
        | true ↦ omega arith
        | false ↦ onto-Found (length s) c (wcspbrk set s) (wcspbrk-Found set s)
      ]

-- Where a round goes on.
abbrev Within : ℕ → Option (List ℕ) → Type 0
Within n none = Unit
Within n (some rest) = length rest < n

value_of-Within :
    (n : ℕ) (v : List ℕ) (o : Option (List ℕ × ℕ × List ℕ)) → Found n o → Within n (value_of v o).1
value_of-Within n v none h = tt
value_of-Within n v (some (val, c, rest)) h = h

Within-mono : (n k : ℕ) (o : Option (List ℕ)) → n ≤ k → Within n o → Within k o
Within-mono n k none le h = tt
Within-mono n k (some rest) le h = omega (arith, le, h)

take_value-Within : (s : List ℕ) → Within (length s) (take_value s).1
unfolding take_value
take_value-Within [] = tt
take_value-Within (c ∷ s) =
    elim (is_quote c)
      as (λ b.
        Within (suc (length s))
          (if b
            then value_of s (wcspbrk is_quote s)
            else value_of (c ∷ s) (wcspbrk is_space (c ∷ s))).1) [
              | true ↦
                  Within-mono (length s) (suc (length s)) (value_of s (wcspbrk is_quote s)).1
                    (omega arith)
                    (value_of-Within (length s) s (wcspbrk is_quote s) (wcspbrk-Found is_quote s))
              | false ↦
                  value_of-Within (suc (length s)) (c ∷ s) (wcspbrk is_space (c ∷ s))
                    (wcspbrk-Found is_space (c ∷ s))
            ]

parse_key-Within :
    (arg : List ℕ) (n : ℕ) (o : Option (List ℕ × ℕ × List ℕ)) (m : ValsMap)
    → Found n o
    → Within n (parse_key arg o m).1
unfolding parse_key
parse_key-Within arg n none m h = tt
parse_key-Within arg n (some (key, sep, [])) m h = h
parse_key-Within arg n (some (key, sep, c ∷ s)) m h =
    elim (is_space sep) as (λ b. Within n (key_if b).1) [
      | true ↦ h
      | false ↦
          Within-mono (length (c ∷ s)) n (take_value (c ∷ s)).1 (omega (arith, h))
            (take_value-Within (c ∷ s))
    ]
  where
    key_if : Bool → ValsMap × Option (List ℕ)
    key_if b =
        if b
        then (insert_key key [] m, some (c ∷ s))
        else (insert_key key (take_value (c ∷ s)).0 m, (take_value (c ∷ s)).1)

parse_arg-Within :
    (n : ℕ) (o : Option (List ℕ × ℕ × List ℕ)) (m : ValsMap)
    → Found n o
    → Within n (parse_arg o m).1
unfolding parse_arg
parse_arg-Within n none m h = tt
parse_arg-Within n (some (before, delim, [])) m h = tt
parse_arg-Within n (some (before, delim, c ∷ s)) m h =
    parse_key-Within (c ∷ s) n (wcspbrk is_value_sep (c ∷ s)) m
      (shorter (wcspbrk is_value_sep (c ∷ s)) (wcspbrk-Found is_value_sep (c ∷ s)))
  where
    shorter : (o : Option (List ℕ × ℕ × List ℕ)) → Found (length (c ∷ s)) o → Found n o
    shorter none k = tt
    shorter (some (b, d, a)) k = omega (arith, h, k)

parse_loop-returns :
    (n : ℕ) (s : List ℕ) (m : ValsMap)
    → length s < n
    → (result : ValsMap) × (parse_loop n s m ≡ some result)
unfolding parse_loop
parse_loop-returns zero s m h = absurd (omega (arith, h))
parse_loop-returns (suc n) s m h =
    go (parse_round s m).1
      (parse_arg-Within (length s) (wcspbrk is_delim s) m (wcspbrk-Found is_delim s))
      (λ rest k. parse_loop-returns n rest (parse_round s m).0 (omega (arith, h, k)))
  where
    go :
        (o : Option (List ℕ))
        → Within (length s) o
        → ((rest : List ℕ)
            → length rest < length s
            → (result : ValsMap) × (parse_loop n rest (parse_round s m).0 ≡ some result))
        → (result : ValsMap) × ((elim o [
          | none ↦ some (parse_round s m).0
          | some rest ↦ parse_loop n rest (parse_round s m).0
        ])
            ≡ some result)
    go none k again = ((parse_round s m).0, refl)
    go (some rest) k again = again rest k

-- Every command line is parsed: the loop ends, for each round begins behind the place where the
-- one before began.
pub parse_returns : (cmdline : List ℕ) → (result : ValsMap) × (parse cmdline ≡ some result)
unfolding parse
parse_returns cmdline =
    parse_loop-returns (length (c_str cmdline) + 1) (c_str cmdline) [] (omega arith)
