-- ===== src/Version/Order.antt =====
-- The comparisons of src/version.cpp as an order on versions of one format.
use ashe.Base.{
  ℕ, ◌+◌, ◌<◌, ◌≡◌, refl, ap, subst, sym, Bool, true, false, not, List, [], ◌∷◌, ◌++◌, Option, some,
  arith, ltb, ltb→lt, ◌==◌, if◌then◌else◌, length, Bool-cases, inl, inr,
}
use ashe.Version.{
  Version, Sign, above, below, level, is_above, is_below, is_same_format, same_elems, version_equal,
  compare_elems, compare, version_greater, version_less, version_less_equal, version_greater_equal,
}

abbrev opposite : Sign → Sign
opposite above = below
opposite below = above
opposite level = level

abbrev is_level : Sign → Bool
is_level level = true
is_level above = false
is_level below = false

-- The first numbers in which the lists differ are larger in the first one.
abbrev pub Larger : List ℕ → List ℕ → Type 0
Larger r s =
    (same : List ℕ) × (a : ℕ) × (b : ℕ) × (r' : List ℕ) × (s' : List ℕ) × (r ≡ same ++ a ∷ r')
    × (s ≡ same ++ b ∷ s')
    × (b < a)

abbrev Says : Sign → List ℕ → List ℕ → Type 0
Says above r s = Larger r s
Says below r s = Larger s r
Says level r s = r ≡ s

Larger-next : (c : ℕ) (r s : List ℕ) → Larger r s → Larger (c ∷ r) (c ∷ s)
Larger-next c r s (same, a, b, r', s', e, f, h) =
    (c ∷ same, a, b, r', s', ap (λ l. c ∷ l) e, ap (λ l. c ∷ l) f, h)

Says-next : (sign : Sign) (c : ℕ) (r s : List ℕ) → Says sign r s → Says sign (c ∷ r) (c ∷ s)
Says-next above c r s h = Larger-next c r s h
Says-next below c r s h = Larger-next c s r h
Says-next level c r s h = ap (λ l. c ∷ l) h

-- What `compare` of two versions of one format gives: a sign, the opposite one the other way
-- round, and the level one exactly for versions that `operator==` finds equal.
record Compared (r s : List ℕ) : Type 0 where
  sign : Sign
  gives : compare_elems r s ≡ some sign
  back : compare_elems s r ≡ some (opposite sign)
  same : same_elems r s ≡ is_level sign
  says : Says sign r s

compare_elems-Compared : (r s : List ℕ) → length r ≡ length s → Compared r s
unfolding compare_elems same_elems
compare_elems-Compared [] [] h = record {
  sign = level;
  gives = refl;
  back = refl;
  same = refl;
  says = refl;
}
compare_elems-Compared [] (b ∷ s) h = absurd (omega arith)
compare_elems-Compared (a ∷ r) [] h = absurd (omega arith)
compare_elems-Compared (a ∷ r) (b ∷ s) h = elim (Bool-cases (ltb b a)) [
  | inl t ↦
      let f : ltb a b ≡ false = ground arith in
      let n : (a == b) ≡ false = ground arith in
      record {
        sign = above;
        gives = rw t refl;
        back = rw (f, t) refl;
        same = rw n refl;
        says = ([], a, b, r, s, refl, refl, ltb→lt b a t);
      }
  | inr f ↦ elim (Bool-cases (ltb a b)) [
    | inl t ↦
        let n : (a == b) ≡ false = ground arith in
        record {
          sign = below;
          gives = rw (f, t) refl;
          back = rw t refl;
          same = rw n refl;
          says = ([], b, a, s, r, refl, refl, ltb→lt a b t);
        }
    | inr g ↦
        let c = compare_elems-Compared r s (omega arith) in
        let n : (a == b) ≡ true = ground arith in
        record {
          sign = c.sign;
          gives = rw (f, g) c.gives;
          back = rw (f, g) c.back;
          same = rw n c.same;
          says =
              subst (λ x. Says c.sign (a ∷ r) (x ∷ s)) (ground (arith, f, g))
                (Says-next c.sign a r s c.says);
        }
  ]
]

compare-eq :
    (asserts : Bool) (v w : Version)
    → length v.ver_elems ≡ length w.ver_elems
    → compare asserts v w ≡ compare_elems v.ver_elems w.ver_elems
unfolding compare is_same_format
compare-eq asserts v w h = ground arith

-- Of two versions of one format, with or without asserts, each comparison gives a result; exactly
-- one of less, equal and greater holds, `<=` and `>=` are the negations of greater and less, and
-- exchanging the sides exchanges less and greater. Where greater holds, the first version has the
-- larger number at the first place at which the two differ, where less holds the second one has
-- it, and where equal holds they have the same numbers.
pub version-compares :
    (asserts : Bool) (v w : Version)
    → is_same_format v w ≡ true
    → (less equal greater : Bool) × (version_less asserts v w ≡ some less)
      × (version_equal v w ≡ equal)
      × (version_greater asserts v w ≡ some greater)
      × (version_less_equal asserts v w ≡ some (not greater))
      × (version_greater_equal asserts v w ≡ some (not less))
      × (version_less asserts w v ≡ some greater)
      × (version_greater asserts w v ≡ some less)
      × ((if less then 1 else 0) + (if equal then 1 else 0) + (if greater then 1 else 0) ≡ 1)
      × (greater ≡ true → Larger v.ver_elems w.ver_elems)
      × (less ≡ true → Larger w.ver_elems v.ver_elems)
      × (equal ≡ true → v.ver_elems ≡ w.ver_elems)
unfolding version_less version_greater version_less_equal version_greater_equal version_equal
version-compares asserts v w h =
    let same : length v.ver_elems ≡ length w.ver_elems = unfold is_same_format in ground arith in
    let c = compare_elems-Compared v.ver_elems w.ver_elems same in
    let there = compare-eq asserts v w same in
    let back = compare-eq asserts w v (sym same) in
    rw (there, back, c.gives, c.back, h, c.same) (by_sign c.sign c.says)
  where
    by_sign :
        (r : Sign)
        → Says r v.ver_elems w.ver_elems
        → (less equal greater : Bool) × ◌≡◌ {A = Option Bool} (some (is_below r)) (some less)
          × (is_level r ≡ equal)
          × ◌≡◌ {A = Option Bool} (some (is_above r)) (some greater)
          × ◌≡◌ {A = Option Bool} (some (not (is_above r))) (some (not greater))
          × ◌≡◌ {A = Option Bool} (some (not (is_below r))) (some (not less))
          × ◌≡◌ {A = Option Bool} (some (is_below (opposite r))) (some greater)
          × ◌≡◌ {A = Option Bool} (some (is_above (opposite r))) (some less)
          × ((if less then 1 else 0) + (if equal then 1 else 0) + (if greater then 1 else 0) ≡ 1)
          × (greater ≡ true → Larger v.ver_elems w.ver_elems)
          × (less ≡ true → Larger w.ver_elems v.ver_elems)
          × (equal ≡ true → v.ver_elems ≡ w.ver_elems)
    by_sign above h = (
      false,
      false,
      true,
      refl,
      refl,
      refl,
      refl,
      refl,
      refl,
      refl,
      refl,
      (λ e. h),
      (λ e. cc e),
      (λ e. cc e),
    )
    by_sign below h = (
      true,
      false,
      false,
      refl,
      refl,
      refl,
      refl,
      refl,
      refl,
      refl,
      refl,
      (λ e. cc e),
      (λ e. h),
      (λ e. cc e),
    )
    by_sign level h = (
      false,
      true,
      false,
      refl,
      refl,
      refl,
      refl,
      refl,
      refl,
      refl,
      refl,
      (λ e. cc e),
      (λ e. cc e),
      (λ e. h),
    )
