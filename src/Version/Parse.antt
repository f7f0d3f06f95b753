-- ===== src/Version/Parse.antt =====
-- The constructor of src/version.cpp from a string.
use ashe.Base.{
  ℕ, ◌≡◌, refl, ap, sym, ◌∙◌, true, List, [], ◌∷◌, some, arith, if◌then◌else◌, codes, map, All,
}
use ashe.Text.Trim.{str_trim}
use ashe.Text.Split.{str_join}
use ashe.Text.Split.Laws.{Lacks, kept_all, str_join-str_split}
use ashe.Version.{Version, whitespaces, elem_of, all_digits, elems_of, version_of, is_valid}

-- The constructor always returns. There are fields without a dot that joined by dots give the
-- trimmed string; where all are made of digits the version is valid and holds their numbers, and
-- otherwise it is invalid.
version_of-fields :
    (long_max : ℕ) (s : List ℕ)
    → (first : List ℕ) × (others : List (List ℕ)) × (v : Version) × (version_of long_max s ≡ some v)
      × All (Lacks (codes ".")) (first ∷ others)
      × (str_join (first ∷ others) (codes ".") true ≡ str_trim s whitespaces)
      × (is_valid v ≡ all_digits (first ∷ others))
      × (v.ver_elems
          ≡ (if all_digits (first ∷ others) then map (elem_of long_max) (first ∷ others) else []))
unfolding version_of elems_of is_valid
version_of-fields long_max s =
    let (first, others, splits, lacks, joins) =
      str_join-str_split (str_trim s whitespaces) (codes ".") true (omega arith) in
    (
      first,
      others,
      record { ver_elems = elems_of long_max (first ∷ others) },
      rw splits (rw kept_all refl),
      lacks,
      ap (λ l. str_join l (codes ".") true) (sym (kept_all (first ∷ others))) ∙ joins,
      ground arith,
      refl,
    )
