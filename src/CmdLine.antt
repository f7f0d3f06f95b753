-- ===== src/CmdLine.antt =====
-- src/cmd_line_parser.cpp: from a command line to keys and values. A text is the list of its units,
-- and `c_str` ends it at the first zero. A pointer into it is what is left of it from there.
pub mod Returns
pub mod Parsed
pub mod Examples
use ashe.Base.{
  ℕ, zero, suc, ◌+◌, Bool, true, false, ◌||◌, List, [], ◌∷◌, Option, none, some, ◌==◌,
  if◌then◌else◌, length,
}
use ashe.Text.Chars.{str_to_lower}
use ashe.Text.Find.{equal_lists}

-- The sets of - and /, of the double quote, and of the space, : and =.
abbrev pub is_delim : ℕ → Bool
is_delim c = c == 45 || c == 47

abbrev pub is_quote : ℕ → Bool
is_quote c = c == 34

abbrev pub is_value_sep : ℕ → Bool
is_value_sep c = c == 32 || (c == 58 || c == 61)

abbrev pub is_space : ℕ → Bool
is_space c = c == 32

unfoldable pub c_str : List ℕ → List ℕ
c_str [] = []
c_str (c ∷ s) = let rest = c_str s in if c == 0 then [] else c ∷ rest

-- `wcspbrk`: what stands before the first unit of the set, and what follows that unit.
abbrev onto : ℕ → Option (List ℕ × ℕ × List ℕ) → Option (List ℕ × ℕ × List ℕ)
onto c none = none
onto c (some (before, d, after)) = some (c ∷ before, d, after)

unfoldable pub wcspbrk : (ℕ → Bool) → List ℕ → Option (List ℕ × ℕ × List ℕ)
wcspbrk set [] = none
wcspbrk set (c ∷ s) = let rest = wcspbrk set s in if set c then some ([], c, s) else onto c rest

-- `ValsMap`, in no order that anyone sees; an insertion keeps what is there.
abbrev pub ValsMap : Type 0
ValsMap = List (List ℕ × List ℕ)

unfoldable pub find_key : List ℕ → ValsMap → Option (List ℕ)
unfolding equal_lists
find_key key [] = none
find_key key ((k, v) ∷ m) = let rest = find_key key m in if equal_lists k key then some v else rest

abbrev is_some : Option (List ℕ) → Bool
is_some none = false
is_some (some v) = true

unfoldable pub insert : List ℕ → List ℕ → ValsMap → ValsMap
unfolding find_key
insert key val m = if is_some (find_key key m) then m else (key, val) ∷ m

-- With the key in lower case, if there is one.
unfoldable pub insert_key : List ℕ → List ℕ → ValsMap → ValsMap
unfolding insert
insert_key [] val m = m
insert_key (c ∷ s) val m = insert (str_to_lower (c ∷ s)) val m

-- Where a value ends: at the closing quote, or at a space. The value, and what follows it if it
-- ends before the text does.
abbrev value_of : List ℕ → Option (List ℕ × ℕ × List ℕ) → List ℕ × Option (List ℕ)
value_of v none = (v, none)
value_of v (some (val, c, rest)) = (val, some rest)

unfoldable pub take_value : List ℕ → List ℕ × Option (List ℕ)
unfolding wcspbrk
take_value [] = ([], none)
take_value (c ∷ s) =
    if is_quote c
    then value_of s (wcspbrk is_quote s)
    else value_of (c ∷ s) (wcspbrk is_space (c ∷ s))

-- A round of the loop: the map, and where it goes on, if it does. First an argument from where its
-- key ends.
unfoldable pub parse_key :
    List ℕ → Option (List ℕ × ℕ × List ℕ) → ValsMap → ValsMap × Option (List ℕ)
unfolding insert_key take_value
parse_key arg none m = (insert_key arg [] m, none)
parse_key arg (some (key, sep, [])) m = (insert_key key [] m, some [])
parse_key arg (some (key, sep, c ∷ s)) m =
    if is_space sep
    then (insert_key key [] m, some (c ∷ s))
    else let (val, after) = take_value (c ∷ s) in (insert_key key val m, after)

unfoldable pub parse_arg : Option (List ℕ × ℕ × List ℕ) → ValsMap → ValsMap × Option (List ℕ)
unfolding wcspbrk parse_key
parse_arg none m = (m, none)
parse_arg (some (before, delim, [])) m = (m, none)
parse_arg (some (before, delim, c ∷ s)) m = parse_key (c ∷ s) (wcspbrk is_value_sep (c ∷ s)) m

unfoldable pub parse_round : List ℕ → ValsMap → ValsMap × Option (List ℕ)
unfolding parse_arg
parse_round current m = parse_arg (wcspbrk is_delim current) m

-- The loop runs one round more than there are units; `none` is a loop that goes on.
unfoldable pub parse_loop : ℕ → List ℕ → ValsMap → Option ValsMap
unfolding parse_round
parse_loop zero current m = none
parse_loop (suc n) current m =
    let (m', after) = parse_round current m in
    elim after [ none ↦ some m' | some rest ↦ parse_loop n rest m' ]

unfoldable pub parse : List ℕ → Option ValsMap
unfolding parse_loop c_str
parse cmdline = let s = c_str cmdline in parse_loop (length s + 1) s []

abbrev or_empty : Option (List ℕ) → List ℕ
or_empty none = []
or_empty (some v) = v

unfoldable pub get_val : List ℕ → ValsMap → List ℕ
unfolding find_key
get_val key m = or_empty (find_key (str_to_lower key) m)

unfoldable pub has_key : List ℕ → ValsMap → Bool
unfolding find_key
has_key key m = is_some (find_key (str_to_lower key) m)
