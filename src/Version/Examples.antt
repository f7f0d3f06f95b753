-- ===== src/Version/Examples.antt =====
-- Concrete versions, on which the theorems about src/version.cpp apply.
use ashe.Base.{◌+◌, ◌≡◌, refl, Bool, true, not, [], ◌∷◌, some, if◌then◌else◌}
use ashe.Version.{
  Version, is_same_format, version_equal, version_greater, version_less, version_less_equal,
  version_greater_equal,
}
use ashe.Version.Order.{Larger, version-compares}

abbrev v_1_2 : Version
v_1_2 = record { ver_elems = 1 ∷ 2 ∷ [] }

abbrev v_1_10 : Version
v_1_10 = record { ver_elems = 1 ∷ 10 ∷ [] }

same_format : is_same_format v_1_2 v_1_10 ≡ true
unfolding is_same_format
same_format = refl

version-compares_example :
    (less equal greater : Bool) × (version_less true v_1_2 v_1_10 ≡ some less)
    × (version_equal v_1_2 v_1_10 ≡ equal)
    × (version_greater true v_1_2 v_1_10 ≡ some greater)
    × (version_less_equal true v_1_2 v_1_10 ≡ some (not greater))
    × (version_greater_equal true v_1_2 v_1_10 ≡ some (not less))
    × (version_less true v_1_10 v_1_2 ≡ some greater)
    × (version_greater true v_1_10 v_1_2 ≡ some less)
    × ((if less then 1 else 0) + (if equal then 1 else 0) + (if greater then 1 else 0) ≡ 1)
    × (greater ≡ true → Larger v_1_2.ver_elems v_1_10.ver_elems)
    × (less ≡ true → Larger v_1_10.ver_elems v_1_2.ver_elems)
    × (equal ≡ true → v_1_2.ver_elems ≡ v_1_10.ver_elems)
version-compares_example = version-compares true v_1_2 v_1_10 same_format
