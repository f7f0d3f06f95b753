-- ===== src/Config/Values.antt =====
-- src/configor.cpp: the values of an element. Saving to the file, which `set` does too, is not here.
use ashe.Base.{
  ℕ, zero, suc, ◌+◌, ◌-◌, ◌≤◌, ◌<◌, ◌≡◌, refl, ap, sym, ◌∙◌, true, false, List, [], ◌∷◌, ◌++◌,
  Option, none, some, ltb, leb, ◌==◌, if◌then◌else◌, arith, length, get_elem?, set, replicate,
  get_or, length-append,
}

-- `values_.resize`, to no fewer values.
unfoldable pub resize : ℕ → List (List ℕ) → List (List ℕ)
resize n values = values ++ replicate (n - length values) []

-- `Element::set`.
unfoldable pub set_value : List ℕ → ℕ → List (List ℕ) → List (List ℕ)
unfolding resize
set_value value i values =
    if leb (length values) i then set (resize (i + 1) values) i value else set values i value

-- `getString`: the value, and the values left, for one that is not there is put there.
unfoldable pub get_string : ℕ → List ℕ → List (List ℕ) → List ℕ × List (List ℕ)
unfolding resize
get_string i default values =
    let values' = if leb (length values) i then set (resize (i + 1) values) i default else values in
    (get_or values' i [], values')

-- A value by its index: of those that are there, and of the empty ones between.
abbrev pub value_at : List (List ℕ) → ℕ → ℕ → Option (List ℕ)
value_at values i j =
    if ltb j (length values) then get_elem? values j else if ltb j (i + 1) then some [] else none

abbrev empties : ℕ → List (List ℕ)
empties n = replicate n []

get_elem?-empties : (n j : ℕ) → get_elem? (empties n) j ≡ (if ltb j n then some [] else none)
get_elem?-empties zero j = let k : ltb j 0 ≡ false = ground arith in rw k refl
get_elem?-empties (suc n) zero = let k : ltb 0 (suc n) ≡ true = ground arith in rw k refl
get_elem?-empties (suc n) (suc j) =
    let k : ltb (suc j) (suc n) ≡ ltb j n = ground arith in rw k (get_elem?-empties n j)

get_elem?-append :
    (values : List (List ℕ)) (n j : ℕ)
    → get_elem? (values ++ empties n) j ≡ (
        if ltb j (length values)
        then get_elem? values j
        else if ltb j (length values + n)
        then some []
        else none)
get_elem?-append [] n j =
    let k : ltb j 0 ≡ false = ground arith in
    let l : ltb j (0 + n) ≡ ltb j n = ground arith in rw (k, l) (get_elem?-empties n j)
get_elem?-append (v ∷ vs) n zero =
    let k : ltb 0 (suc (length vs)) ≡ true = ground arith in rw k refl
get_elem?-append (v ∷ vs) n (suc j) =
    let k : ltb (suc j) (suc (length vs)) ≡ ltb j (length vs) = ground arith in
    let l : ltb (suc j) (suc (length vs) + n) ≡ ltb j (length vs + n) = ground arith in
    rw (k, l) (get_elem?-append vs n j)

get_elem?-resize :
    (values : List (List ℕ)) (i j : ℕ) → get_elem? (resize (i + 1) values) j ≡ value_at values i j
unfolding resize
get_elem?-resize values i j =
    get_elem?-append values (i + 1 - length values) j
    ∙ elim (ltb j (length values))
          as (λ b.
            ltb j (length values) ≡ b
            → (if b
                then get_elem? values j
                else if ltb j (length values + (i + 1 - length values))
                then some []
                else none)
              ≡ (if b then get_elem? values j else if ltb j (i + 1) then some [] else none)) [
                | true ↦ λ e. refl
                | false ↦ λ e. ap (λ b. if b then some [] else none) (ground (arith, e))
              ]
        refl

get_elem?-set :
    (values : List (List ℕ)) (i : ℕ) (value : List ℕ) (j : ℕ)
    → i < length values
    → get_elem? (set values i value) j ≡ (if j == i then some value else get_elem? values j)
get_elem?-set [] i value j h = absurd (omega (arith, h))
get_elem?-set (v ∷ vs) zero value zero h = refl
get_elem?-set (v ∷ vs) zero value (suc j) h =
    let k : (suc j == 0) ≡ false = ground arith in rw k refl
get_elem?-set (v ∷ vs) (suc i) value zero h =
    let k : (0 == suc i) ≡ false = ground arith in rw k refl
get_elem?-set (v ∷ vs) (suc i) value (suc j) h =
    let k : (suc j == suc i) ≡ (j == i) = ground arith in
    rw k (get_elem?-set vs i value j (omega (arith, h)))

get_elem?-none : (values : List (List ℕ)) (j : ℕ) → length values ≤ j → get_elem? values j ≡ none
get_elem?-none [] j h = refl
get_elem?-none (v ∷ vs) zero h = absurd (omega (arith, h))
get_elem?-none (v ∷ vs) (suc j) h = get_elem?-none vs j (omega (arith, h))

length-set : (values : List (List ℕ)) (i : ℕ) (v : List ℕ) → length (set values i v) ≡ length values
length-set [] i v = refl
length-set (w ∷ vs) zero v = refl
length-set (w ∷ vs) (suc i) v = ap suc (length-set vs i v)

get_or-set :
    (values : List (List ℕ)) (i : ℕ) (v : List ℕ)
    → i < length values
    → get_or (set values i v) i [] ≡ v
get_or-set [] i v h = absurd (omega (arith, h))
get_or-set (w ∷ vs) zero v h = refl
get_or-set (w ∷ vs) (suc i) v h = get_or-set vs i v (omega (arith, h))

length-empties : (n : ℕ) → length (empties n) ≡ n
length-empties zero = refl
length-empties (suc n) = ap suc (length-empties n)

lt-length-resize : (i : ℕ) (values : List (List ℕ)) → i < length (resize (i + 1) values)
unfolding resize
lt-length-resize i values = omega (
  arith,
  length-append values (empties (i + 1 - length values)),
  length-empties (i + 1 - length values),
)

-- Where the value is set: in values of which the index is one.
set_value-set :
    (value : List ℕ) (i : ℕ) (values : List (List ℕ))
    → (into : List (List ℕ)) × (set_value value i values ≡ set into i value)
      × (i < length into)
      × ((j : ℕ) → get_elem? into j ≡ value_at values i j)
unfolding set_value
set_value-set value i values =
    elim (leb (length values) i)
        as (λ b.
          leb (length values) i ≡ b
          → (into : List (List ℕ)) × ((if b
                then set (resize (i + 1) values) i value
                else set values i value)
              ≡ set into i value)
            × (i < length into)
            × ((j : ℕ) → get_elem? into j ≡ value_at values i j)) [
              | true ↦ λ e. (
                resize (i + 1) values,
                refl,
                lt-length-resize i values,
                get_elem?-resize values i,
              )
              | false ↦ λ e. (values, refl, ground (arith, e), λ j. same j (ground (arith, e)))
            ]
      refl
  where
    same : (j : ℕ) → i < length values → get_elem? values j ≡ value_at values i j
    same j lt =
        elim (ltb j (length values))
            as (λ b.
              ltb j (length values) ≡ b
              → get_elem? values j
                ≡ (if b then get_elem? values j else if ltb j (i + 1) then some [] else none)) [
                  | true ↦ λ e. refl
                  | false ↦ λ e.
                      let k : ltb j (i + 1) ≡ false = ground (arith, e, lt) in
                      rw k (get_elem?-none values j (ground (arith, e)))
                ]
          refl

get_string-there :
    (i : ℕ) (default : List ℕ) (values : List (List ℕ))
    → i < length values
    → get_string i default values ≡ (get_or values i [], values)
unfolding get_string
get_string-there i default values h =
    let k : leb (length values) i ≡ false = ground (arith, h) in rw k refl

-- A value that was set is got, whatever the default, and the others are as before, with empty ones
-- between where the index lies behind the last; a value that was got is got again with any default.
get_string-set_value :
    (value default other : List ℕ) (i : ℕ) (values : List (List ℕ))
    → (get_string i default (set_value value i values) ≡ (value, set_value value i values))
      × ((j : ℕ)
          → get_elem? (set_value value i values) j
            ≡ (if j == i then some value else value_at values i j))
      × (get_string i other (get_string i default values).1 ≡ get_string i default values)
unfolding get_string
get_string-set_value value default other i values =
    let (into, e, lt, at) = set_value-set value i values in
    (
      ap (get_string i default) e
          ∙ get_string-there i default (set into i value)
              (omega (arith, lt, length-set into i value))
          ∙ ap (λ v. (v, set into i value)) (get_or-set into i value lt)
          ∙ ap (λ x. (value, x)) (sym e),
      λ j.
          ap (λ x. get_elem? x j) e
          ∙ get_elem?-set into i value j lt
          ∙ ap (λ o. if j == i then some value else o) (at j),
      got,
    )
  where
    got : get_string i other (get_string i default values).1 ≡ get_string i default values
    got =
        elim (leb (length values) i)
            as (λ b.
              leb (length values) i ≡ b
              → let x = if b then set (resize (i + 1) values) i default else values in
                get_string i other x ≡ (get_or x i [], x)) [
                  | true ↦ λ e. get_string-there i other (set (resize (i + 1) values) i default) (
                      omega (
                        arith,
                        length-set (resize (i + 1) values) i default,
                        lt-length-resize i values,
                      ))
                  | false ↦ λ e. get_string-there i other values (ground (arith, e))
                ]
          refl
