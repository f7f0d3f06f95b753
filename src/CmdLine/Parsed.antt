-- ===== src/CmdLine/Parsed.antt =====
-- Arguments written with their values in quotes are parsed to those values.
use ashe.Base.{
  ℕ, zero, suc, ◌+◌, ◌≤◌, ◌<◌, ◌≡◌, refl, ap, ap₂, sym, ◌∙◌, ◌⊎◌, inl, inr, Bool, true, false, ◌||◌,
  List, [], ◌∷◌, ◌++◌, append-nil, Option, none, some, All, ◌==◌, if◌then◌else◌, length,
  length-append, arith,
}
use ashe.Text.Chars.{str_to_lower}
use ashe.Text.Find.{equal_lists}
use ashe.CmdLine.{
  is_delim, is_quote, is_value_sep, c_str, wcspbrk, ValsMap, find_key, is_some, insert, insert_key,
  value_of, take_value, is_space, parse_key, parse_arg, parse_round, parse_loop, parse, or_empty,
  get_val, has_key,
}

-- An argument: what it starts with, its key, what stands behind the key, and its value.
abbrev pub Arg : Type 0
Arg = ℕ × List ℕ × ℕ × List ℕ

-- As in /key:"value" or -key="value", and a space.
abbrev pub write_args : List Arg → List ℕ
write_args [] = []
write_args ((delim, key, sep, val) ∷ args) =
    delim ∷ (key ++ sep ∷ 34 ∷ (val ++ 34 ∷ 32 ∷ write_args args))

abbrev pub Free : (ℕ → Bool) → List ℕ → Type 0
Free set = All (λ c. (c == 0 || set c) ≡ false)

-- It starts with - or /, its key is not empty, and : or = stands behind the key.
abbrev pub IsWritable : Arg → Type 0
IsWritable (delim, key, sep, val) =
    ((delim ≡ 45) ⊎ (delim ≡ 47))
    × (0 < length key)
    × Free is_value_sep key
    × ((sep ≡ 58) ⊎ (sep ≡ 61))
    × Free is_quote val

abbrev pub first_value : List ℕ → List Arg → Option (List ℕ)
first_value key [] = none
first_value key ((delim, k, sep, val) ∷ args) =
    if equal_lists (str_to_lower k) key then some val else first_value key args

wcspbrk-at :
    (set : ℕ → Bool) (a : List ℕ) (d : ℕ) (s : List ℕ)
    → Free set a
    → set d ≡ true
    → wcspbrk set (a ++ d ∷ s) ≡ some (a, d, s)
unfolding wcspbrk
wcspbrk-at set [] d s h k = rw k refl
wcspbrk-at set (c ∷ a) d s h k =
    let e : set c ≡ false = ground (arith, h.0) in rw (e, wcspbrk-at set a d s h.1 k) refl

wcspbrk-none : (set : ℕ → Bool) (a : List ℕ) → Free set a → wcspbrk set a ≡ none
unfolding wcspbrk
wcspbrk-none set [] h = refl
wcspbrk-none set (c ∷ a) h =
    let e : set c ≡ false = ground (arith, h.0) in rw (e, wcspbrk-none set a h.1) refl

starts : (d : ℕ) → (d ≡ 45) ⊎ (d ≡ 47) → is_delim d ≡ true
starts d (inl e) = ground (arith, e)
starts d (inr e) = ground (arith, e)

separates : (s : ℕ) → (s ≡ 58) ⊎ (s ≡ 61) → is_value_sep s ≡ true
separates s (inl e) = ground (arith, e)
separates s (inr e) = ground (arith, e)

-- A round on one argument, behind what has no delim.
parse_round-arg :
    (before : List ℕ) (delim : ℕ) (key : List ℕ) (sep : ℕ) (val rest : List ℕ) (m : ValsMap)
    → Free is_delim before
    → IsWritable (delim, key, sep, val)
    → parse_round (before ++ delim ∷ (key ++ sep ∷ 34 ∷ (val ++ 34 ∷ rest))) m
      ≡ (insert_key key val m, some rest)
unfolding parse_round
parse_round-arg before delim [] sep val rest m f h = absurd (omega (arith, h.1))
parse_round-arg before delim (c ∷ key) sep val rest m f (d, size, free, e, quoted) =
    let arg = (c ∷ key) ++ sep ∷ 34 ∷ (val ++ 34 ∷ rest) in
    ap (λ o. parse_arg o m) (wcspbrk-at is_delim before delim arg f (starts delim d))
    ∙ ap (λ o. parse_key arg o m)
        (wcspbrk-at is_value_sep (c ∷ key) sep (34 ∷ (val ++ 34 ∷ rest)) free (separates sep e))
    ∙ unspaced sep e
    ∙ ap
        (λ o. (
          insert_key (c ∷ key) (value_of (val ++ 34 ∷ rest) o).0 m,
          (value_of (val ++ 34 ∷ rest) o).1,
        ))
        (wcspbrk-at is_quote val 34 rest quoted refl)
  where
    value : ValsMap × Option (List ℕ)
    value =
        let (v, after) = take_value (34 ∷ (val ++ 34 ∷ rest)) in (insert_key (c ∷ key) v m, after)

    unspaced :
        (s : ℕ)
        → (s ≡ 58) ⊎ (s ≡ 61)
        → (if is_space s
            then (insert_key (c ∷ key) [] m, some (34 ∷ (val ++ 34 ∷ rest)))
            else value)
          ≡ value
    unspaced s (inl e) = let f : is_space s ≡ false = ground (arith, e) in rw f refl
    unspaced s (inr e) = let f : is_space s ≡ false = ground (arith, e) in rw f refl

abbrev insert_all : List Arg → ValsMap → ValsMap
insert_all [] m = m
insert_all ((delim, key, sep, val) ∷ args) m = insert_all args (insert_key key val m)

parse_loop-args :
    (n : ℕ) (before : List ℕ) (args : List Arg) (m : ValsMap)
    → Free is_delim before
    → All IsWritable args
    → length args < n
    → parse_loop n (before ++ write_args args) m ≡ some (insert_all args m)
unfolding parse_loop
parse_loop-args zero before args m f w lt = absurd (omega (arith, lt))
parse_loop-args (suc n) before [] m f w lt =
    ap (λ s. parse_loop (suc n) s m) (append-nil before) ∙ last
  where
    last : parse_loop (suc n) before m ≡ some m
    last =
        ap
          (λ (r : ValsMap × Option (List ℕ)). elim r.1 [
            | none ↦ some r.0
            | some rest ↦ parse_loop n rest r.0
          ])
          (ap (λ o. parse_arg o m) (wcspbrk-none is_delim before f))
parse_loop-args (suc n) before ((delim, key, sep, val) ∷ args) m f w lt =
    ap
      (λ (r : ValsMap × Option (List ℕ)). elim r.1 [
        | none ↦ some r.0
        | some rest ↦ parse_loop n rest r.0
      ])
      (parse_round-arg before delim key sep val (32 ∷ write_args args) m f w.0)
    ∙ parse_loop-args n (32 ∷ []) args (insert_key key val m) (refl, tt) w.1 (omega (arith, lt))

c_str-append : (set : ℕ → Bool) (a s : List ℕ) → Free set a → c_str (a ++ s) ≡ a ++ c_str s
unfolding c_str
c_str-append set [] s h = refl
c_str-append set (c ∷ a) s h =
    let e : (c == 0) ≡ false = ground (arith, h.0) in
    rw e (ap (λ x. c ∷ x) (c_str-append set a s h.1))

c_str-args : (args : List Arg) → All IsWritable args → c_str (write_args args) ≡ write_args args
unfolding c_str
c_str-args [] w = refl
c_str-args ((delim, key, sep, val) ∷ args) ((d, size, free, e, quoted), w) =
    let d_stays : (delim == 0) ≡ false = ground (arith, starts delim d) in
    let s_stays : (sep == 0) ≡ false = ground (arith, separates sep e) in
    rw (d_stays) (
      ap (λ x. delim ∷ x)
        (c_str-append is_value_sep key (sep ∷ 34 ∷ (val ++ 34 ∷ 32 ∷ write_args args)) free
          ∙ ap (λ x. key ++ x)
              (rw s_stays (
                ap (λ x. sep ∷ 34 ∷ x)
                  (c_str-append is_quote val (34 ∷ 32 ∷ write_args args) quoted
                    ∙ ap (λ x. val ++ 34 ∷ 32 ∷ x) (c_str-args args w))))))

length-write_args : (args : List Arg) → length args ≤ length (write_args args)
length-write_args [] = omega arith
length-write_args ((delim, key, sep, val) ∷ args) = omega (
  arith,
  length-write_args args,
  length-append key (sep ∷ 34 ∷ (val ++ 34 ∷ 32 ∷ write_args args)),
  length-append val (34 ∷ 32 ∷ write_args args),
)

equal_lists_eq : (s t : List ℕ) → equal_lists s t ≡ true → s ≡ t
unfolding equal_lists
equal_lists_eq [] [] h = refl
equal_lists_eq [] (d ∷ t) h = cc h
equal_lists_eq (c ∷ s) [] h = cc h
equal_lists_eq (c ∷ s) (d ∷ t) h =
    ap₂ (λ x y. x ∷ y) (ground (arith, h)) (equal_lists_eq s t (ground (arith, h)))

abbrev or_else : Option (List ℕ) → Option (List ℕ) → Option (List ℕ)
or_else none o = o
or_else (some v) o = some v

find_key-insert :
    (q key val : List ℕ) (m : ValsMap)
    → find_key q (insert key val m)
      ≡ or_else (find_key q m) (if equal_lists key q then some val else none)
unfolding insert find_key
find_key-insert q key val m = go (find_key key m) (find_key q m) refl refl
  where
    go :
        (o p : Option (List ℕ))
        → find_key key m ≡ o
        → find_key q m ≡ p
        → find_key q (if is_some o then m else (key, val) ∷ m)
          ≡ or_else p (if equal_lists key q then some val else none)
    go none none h k =
        elim (equal_lists key q)
          as (λ b. (if b then some val else find_key q m) ≡ (if b then some val else none)) [
            | true ↦ refl
            | false ↦ k
          ]
    go none (some w) h k =
        elim (equal_lists key q)
            as (λ b. equal_lists key q ≡ b → (if b then some val else find_key q m) ≡ some w) [
              | true ↦ λ e. cc (ap (λ x. find_key x m) (equal_lists_eq key q e), h, k)
              | false ↦ λ e. k
            ]
          refl
    go (some v) none h k =
        elim (equal_lists key q)
            as (λ b. equal_lists key q ≡ b → find_key q m ≡ (if b then some val else none)) [
              | true ↦ λ e. cc (ap (λ x. find_key x m) (equal_lists_eq key q e), h, k)
              | false ↦ λ e. k
            ]
          refl
    go (some v) (some w) h k = k

or_else-none : (o : Option (List ℕ)) → or_else o none ≡ o
or_else-none none = refl
or_else-none (some v) = refl

or_else_if :
    (o : Option (List ℕ)) (b : Bool) (val : List ℕ) (p : Option (List ℕ))
    → or_else (or_else o (if b then some val else none)) p ≡ or_else o (if b then some val else p)
or_else_if none true val p = refl
or_else_if none false val p = refl
or_else_if (some v) b val p = refl

find_key-insert_all :
    (q : List ℕ) (args : List Arg) (m : ValsMap)
    → All IsWritable args
    → find_key q (insert_all args m) ≡ or_else (find_key q m) (first_value q args)
unfolding insert_key
find_key-insert_all q [] m w = sym (or_else-none (find_key q m))
find_key-insert_all q ((delim, [], sep, val) ∷ args) m w = absurd (omega (arith, w.0.1))
find_key-insert_all q ((delim, c ∷ key, sep, val) ∷ args) m w =
    let k = str_to_lower (c ∷ key) in
    find_key-insert_all q args (insert k val m) w.1
    ∙ ap (λ o. or_else o (first_value q args)) (find_key-insert q k val m)
    ∙ or_else_if (find_key q m) (equal_lists k q) val (first_value q args)

-- A program's name without -, / and zeros, and then arguments, are parsed to a map in which each
-- key, in upper or lower case, has the value of the first argument that has this key, and no other
-- key. Each argument is written as - or /, a key, : or =, and a value between double quotes, and a
-- blank follows it; a key is not empty and has no blank, :, = or zero, a value has no double quote
-- and no zero. The loop of the parser returns.
pub parse-write_args :
    (program : List ℕ) (args : List Arg)
    → Free is_delim program
    → All IsWritable args
    → (m : ValsMap) × (parse (program ++ write_args args) ≡ some m)
      × ((key : List ℕ)
          → (has_key key m ≡ is_some (first_value (str_to_lower key) args))
            × (get_val key m ≡ or_empty (first_value (str_to_lower key) args)))
unfolding parse get_val has_key find_key
parse-write_args program args f w =
    let s = program ++ write_args args in
    let c : c_str s ≡ s =
      c_str-append is_delim program (write_args args) f
      ∙ ap (λ x. program ++ x) (c_str-args args w) in
    let found = λ (key : List ℕ). find_key-insert_all (str_to_lower key) args [] w in
    (
      insert_all args [],
      ap (λ x. parse_loop (length x + 1) x []) c
          ∙ parse_loop-args (length s + 1) program args [] f w
              (omega (arith, length-write_args args, length-append program (write_args args))),
      λ key. (ap is_some (found key), ap or_empty (found key)),
    )
