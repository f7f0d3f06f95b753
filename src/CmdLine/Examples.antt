-- ===== src/CmdLine/Examples.antt =====
-- A concrete command line, on which the theorems about src/cmd_line_parser.cpp apply.
use ashe.Base.{ℕ, All, inl, inr, ◌≡◌, refl, List, [], ◌∷◌, ◌++◌, some, codes, arith}
use ashe.Text.Chars.{str_to_lower, to_lower_char}
use ashe.CmdLine.{ValsMap, is_some, or_empty, is_delim, parse, get_val, has_key}
use ashe.CmdLine.Returns.{parse_returns}
use ashe.CmdLine.Parsed.{Free, Arg, IsWritable, write_args, first_value, parse-write_args}

abbrev args : List Arg
args =
    (47, codes "Key", 58, codes "a-b c")
    ∷ (45, codes "k2", 61, [])
    ∷ (45, codes "KEY", 58, codes "d")
    ∷ []

args-IsWritable : All IsWritable args
args-IsWritable = (
  (inr refl, omega arith, ground arith, inl refl, ground arith),
  (
    (inl refl, omega arith, ground arith, inr refl, ground arith),
    ((inl refl, omega arith, ground arith, inl refl, ground arith), tt),
  ),
)

app-Free : Free is_delim (codes "app ")
app-Free = ground arith

parse-write_args_example :
    (m : ValsMap) × (parse (codes "app " ++ write_args args) ≡ some m)
    × ((key : List ℕ)
        → (has_key key m ≡ is_some (first_value (str_to_lower key) args))
          × (get_val key m ≡ or_empty (first_value (str_to_lower key) args)))
parse-write_args_example = parse-write_args (codes "app ") args app-Free args-IsWritable

parse_returns_example : (m : ValsMap) × (parse (codes "/a:\"b") ≡ some m)
parse_returns_example = parse_returns (codes "/a:\"b")

other_forms :
    parse (codes "app /a:x -b=y /C /d:\"e f\" -g:")
    ≡ some (
        (codes "g", [])
        ∷ (codes "d", codes "e f")
        ∷ (codes "c", [])
        ∷ (codes "b", codes "y")
        ∷ (codes "a", codes "x")
        ∷ [])
unfolding parse str_to_lower to_lower_char
other_forms = refl

-- A path with a minus sign is taken for an argument.
path_with_delim : parse (codes "my-app /a") ≡ some ((codes "a", []) ∷ (codes "app", []) ∷ [])
unfolding parse str_to_lower to_lower_char
path_with_delim = refl
