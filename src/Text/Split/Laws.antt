-- ===== src/Text/Split/Laws.antt =====
-- The theorems about `StrSplit` and `StrJoin` of src/string_util.cpp.
use ashe.Base.{
  ℕ, zero, suc, ◌+◌, ◌-◌, ◌≤◌, ◌<◌, ◌≡◌, refl, ap, ap₂, sym, ◌∙◌, Bool, true, false, List, [], ◌∷◌,
  ◌++◌, none, some, ◌⊎◌, arith, if◌then◌else◌, length, take, drop, Bool-cases, inl, inr, leb, ltb,
  ◌==◌, drop-drop, length-drop, length-take, length-append, append_assoc, append-nil, drop-append,
  take-nil, take-append-drop, All,
}
use ashe.Text.Find.{is_prefix_by, search_from, find}
use ashe.Text.Find.Laws.{
  NoneBefore, absent, found, search_from_lem, is_prefix_by-length, is_prefix_by-take,
}
use ashe.Text.Trim.{substr}
use ashe.Text.Split.{push_field, split_loop, str_split, write_part, join_loop, str_join}

-- The parts with the delimiter between them.
pub glue : List ℕ → List ℕ → List (List ℕ) → List ℕ
glue d p [] = p
glue d p (q ∷ ps) = p ++ (d ++ glue d q ps)

-- The delimiter is found nowhere in the text.
abbrev pub Lacks : List ℕ → List ℕ → Type 0
Lacks d t = NoneBefore ◌==◌ d (suc (length t)) t

-- The parts that become fields: all, or those that are not empty.
pub kept : Bool → List (List ℕ) → List (List ℕ)
kept include_empty [] = []
kept include_empty (t ∷ ts) =
    if ltb 0 (length t)
    then t ∷ kept include_empty ts
    else if include_empty
    then t ∷ kept include_empty ts
    else kept include_empty ts

push_field-kept :
    (b : Bool) (fields : List (List ℕ)) (t : List ℕ) (ts : List (List ℕ))
    → push_field b fields t ++ kept b ts ≡ fields ++ kept b (t ∷ ts)
unfolding push_field kept
push_field-kept b fields [] ts =
    elim b as (λ x. push_field x fields [] ++ kept x ts ≡ fields ++ kept x ([] ∷ ts)) [
      | true ↦ append_assoc fields ([] ∷ []) (kept true ts)
      | false ↦ refl
    ]
push_field-kept b fields (c ∷ t) ts =
    let e : ltb 0 (suc (length t)) ≡ true = ground arith in
    rw e (append_assoc fields ((c ∷ t) ∷ []) (kept b ts))

is_prefix_by-of_take :
    (p : List ℕ) (k : ℕ) (s : List ℕ)
    → is_prefix_by ◌==◌ p (take k s) ≡ true
    → is_prefix_by ◌==◌ p s ≡ true
unfolding is_prefix_by
is_prefix_by-of_take [] k s h = refl
is_prefix_by-of_take (a ∷ p) zero s h = cc
is_prefix_by-of_take (a ∷ p) (suc k) [] h = cc
is_prefix_by-of_take (a ∷ p) (suc k) (b ∷ s) h = ground (arith, is_prefix_by-of_take p k s)

drop-take : (j k : ℕ) (s : List ℕ) → drop j (take k s) ≡ take (k - j) (drop j s)
drop-take zero k s = ap (λ m. take m s) (omega arith)
drop-take (suc j) zero s = let e : 0 - suc j ≡ 0 = omega arith in rw e
drop-take (suc j) (suc k) [] =
    let e : suc k - suc j ≡ k - j = omega arith in rw e (sym (take-nil (k - j)))
drop-take (suc j) (suc k) (c ∷ s) =
    let e : suc k - suc j ≡ k - j = omega arith in rw e (drop-take j k s)

-- What stands before the first match lacks the delimiter.
take-Lacks :
    (d : List ℕ) (k : ℕ) (s : List ℕ) → 0 < length d → NoneBefore ◌==◌ d k s → Lacks d (take k s)
take-Lacks d k s pos n j lt = elim (Bool-cases (is_prefix_by ◌==◌ d (drop j (take k s)))) [
  | inr f ↦ f
  | inl t ↦ absurd (bad (rw (drop-take j k s) at t) (Bool-cases (ltb j k)))
]
  where
    bad :
        is_prefix_by ◌==◌ d (take (k - j) (drop j s)) ≡ true
        → (ltb j k ≡ true) ⊎ (ltb j k ≡ false)
        → ⊥
    bad t (inl h) = ground (arith, is_prefix_by-of_take d (k - j) (drop j s) t, n j)
    bad t (inr h) = ground (
      arith,
      is_prefix_by-length ◌==◌ d (take (k - j) (drop j s)) t,
      length-take (k - j) (drop j s),
    )

-- What the loop over the rest of the string adds.
record Parts (d rest : List ℕ) : Type 0 where
  first : List ℕ
  others : List (List ℕ)
  glued : glue d first others ≡ rest
  lacks : All (Lacks d) (first ∷ others)

find-append :
    (d ahead rest : List ℕ)
    → find (ahead ++ rest) d (length ahead) ≡ search_from ◌==◌ d (length ahead) rest
unfolding find
find-append d ahead rest =
    let e : length ahead + 0 ≡ length ahead = omega arith in
    let t : leb (length ahead) (length (ahead ++ rest)) ≡ true =
      ground (arith, length-append ahead rest) in
    rw t (
      ap (search_from ◌==◌ d (length ahead))
        (ap (λ m. drop m (ahead ++ rest)) (sym e) ∙ drop-append 0 ahead rest))

drop-length : (ahead rest : List ℕ) → drop (length ahead) (ahead ++ rest) ≡ rest
drop-length ahead rest =
    let e : length ahead + 0 ≡ length ahead = omega arith in
    ap (λ m. drop m (ahead ++ rest)) (sym e) ∙ drop-append 0 ahead rest

-- The rest of the string at a match.
cut_at :
    (d rest : List ℕ) (k : ℕ)
    → is_prefix_by ◌==◌ d (drop k rest) ≡ true
    → take k rest ++ (d ++ drop (k + length d) rest) ≡ rest
cut_at d rest k t =
    ap (◌++◌ (take k rest)) (
      ap₂ ◌++◌ (sym (is_prefix_by-take d (drop k rest) t)) (sym (drop-drop (length d) k rest))
      ∙ take-append-drop (length d) (drop k rest))
    ∙ take-append-drop k rest

module _ (d : List ℕ) (b : Bool) (pos : 0 < length d) where
  split_loop-last :
      (fuel : ℕ) (ahead rest : List ℕ) (fields : List (List ℕ))
      → search_from ◌==◌ d (length ahead) rest ≡ none
      → split_loop (suc fuel) (ahead ++ rest) d b fields (length ahead)
        ≡ some (fields ++ kept b (rest ∷ []))
  unfolding split_loop
  split_loop-last fuel ahead rest fields e =
      rw (find-append d ahead rest ∙ e, split_loop)
        (ap some (
          ap (push_field b fields) (drop-length ahead rest)
          ∙ sym (append-nil _)
          ∙ (unfold kept in push_field-kept b fields rest [])))

  split_loop-next :
      (fuel : ℕ) (ahead rest : List ℕ) (fields : List (List ℕ)) (k : ℕ)
      → search_from ◌==◌ d (length ahead) rest ≡ some (length ahead + k)
      → is_prefix_by ◌==◌ d (drop k rest) ≡ true
      → k ≤ length rest
      → split_loop (suc fuel) (ahead ++ rest) d b fields (length ahead)
        ≡ split_loop fuel
            ((ahead ++ (take k rest ++ d)) ++ drop (k + length d) rest)
            d
            b
            (push_field b fields (take k rest))
            (length (ahead ++ (take k rest ++ d)))
  unfolding split_loop
  split_loop-next fuel ahead rest fields k e t le =
      rw (find-append d ahead rest ∙ e, split_loop) (ap₃ same_field same_source same_offset)
    where
      ap₃ :
          {f f' : List (List ℕ)} {s s' : List ℕ} {o o' : ℕ}
          → f ≡ f'
          → s ≡ s'
          → o ≡ o'
          → split_loop fuel s d b f o ≡ split_loop fuel s' d b f' o'
      ap₃ p q r = λ i. split_loop fuel (q i) d b (p i) (r i)

      same_field :
          push_field b fields
            (substr (ahead ++ rest) (length ahead) (length ahead + k - length ahead))
          ≡ push_field b fields (take k rest)
      same_field =
          let n : length ahead + k - length ahead ≡ k = omega arith in
          ap (push_field b fields) (ap₂ take n (drop-length ahead rest))

      same_source : ahead ++ rest ≡ (ahead ++ (take k rest ++ d)) ++ drop (k + length d) rest
      same_source =
          ap (◌++◌ ahead) (sym (cut_at d rest k t) ∙ sym (append_assoc (take k rest) d _))
          ∙ sym (append_assoc ahead (take k rest ++ d) _)

      same_offset : length ahead + k + length d ≡ length (ahead ++ (take k rest ++ d))
      same_offset = omega (
        arith,
        length-append ahead (take k rest ++ d),
        length-append (take k rest) d,
        length-take k rest,
      )

  split_loop-Parts :
      (fuel : ℕ) (ahead rest : List ℕ) (fields : List (List ℕ))
      → length rest < fuel
      → (p : Parts d rest) × (split_loop fuel (ahead ++ rest) d b fields (length ahead)
          ≡ some (fields ++ kept b (p.first ∷ p.others)))
  split_loop-Parts zero ahead rest fields lt = absurd (omega arith)
  split_loop-Parts (suc fuel) ahead rest fields lt =
      elim (search_from_lem ◌==◌ d (length ahead) rest) [
        | absent e n ↦ (
          record { first = rest; others = []; glued = (unfold glue in refl); lacks = (n, tt) },
          split_loop-last fuel ahead rest fields e,
        )
        | found k e le t n ↦
            let (p, r) =
              split_loop-Parts fuel (ahead ++ (take k rest ++ d)) (drop (k + length d) rest)
                (push_field b fields (take k rest)) (shrinks k le t) in
            (
              more_Parts k t n p,
              split_loop-next fuel ahead rest fields k e t le
                  ∙ r
                  ∙ ap some (push_field-kept b fields (take k rest) (p.first ∷ p.others)),
            )
      ]
    where
      more_Parts :
          (k : ℕ)
          → is_prefix_by ◌==◌ d (drop k rest) ≡ true
          → NoneBefore ◌==◌ d k rest
          → Parts d (drop (k + length d) rest)
          → Parts d rest
      more_Parts k t n p = record {
        first = take k rest;
        others = p.first ∷ p.others;
        glued = unfold glue in ap (λ l. take k rest ++ (d ++ l)) p.glued ∙ cut_at d rest k t;
        lacks = (take-Lacks d k rest pos n, p.lacks);
      }

      shrinks :
          (k : ℕ)
          → k ≤ length rest
          → is_prefix_by ◌==◌ d (drop k rest) ≡ true
          → length (drop (k + length d) rest) < fuel
      shrinks k le t = omega (
        arith,
        length-drop (k + length d) rest,
        is_prefix_by-length ◌==◌ d (drop k rest) t,
        length-drop k rest,
      )

-- The flag makes no difference to what is written: an empty part writes nothing either way.
write_part-eq : (b : Bool) (ss p : List ℕ) → write_part b ss p ≡ ss ++ p
unfolding write_part
write_part-eq b ss [] = ground (arith, append-nil ss)
write_part-eq b ss (c ∷ p) = ground arith

-- Whichever way the flag stands, joining writes the parts with the delimiter between them.
join_loop-glue :
    (b : Bool) (d ss : List ℕ) (p : List ℕ) (ps : List (List ℕ))
    → join_loop b d ss (p ∷ ps) ≡ ss ++ glue d p ps
unfolding join_loop glue
join_loop-glue b d ss p [] = write_part-eq b ss p
join_loop-glue b d ss p (q ∷ ps) =
    join_loop-glue b d (write_part b ss p ++ d) q ps
    ∙ ap (λ l. (l ++ d) ++ glue d q ps) (write_part-eq b ss p)
    ∙ append_assoc (ss ++ p) d (glue d q ps)
    ∙ append_assoc ss p (d ++ glue d q ps)

pub kept_all : (ts : List (List ℕ)) → kept true ts ≡ ts
unfolding kept
kept_all [] = refl
kept_all (t ∷ ts) = ground (arith, kept_all ts)

-- Splitting by a delimiter that is not empty returns, in no more rounds than the text has units
-- and one. There are parts that have the delimiter between them in the text and none of which
-- contains it; the fields are these parts, less the empty ones where those are not kept. With all
-- parts kept, joining the fields gives the text back.
pub str_join-str_split :
    (src d : List ℕ) (b : Bool)
    → 0 < length d
    → (first : List ℕ) × (others : List (List ℕ)) × (str_split (suc (length src)) src d b
        ≡ some (kept b (first ∷ others)))
      × All (Lacks d) (first ∷ others)
      × (str_join (kept true (first ∷ others)) d b ≡ src)
str_join-str_split src d b pos =
    let (p, r) = split_loop-Parts d b pos (suc (length src)) [] src [] (omega arith) in
    (
      p.first,
      p.others,
      (unfold str_split in r),
      p.lacks,
      rw kept_all (joined p.first p.others ∙ p.glued),
    )
  where
    joined : (f : List ℕ) (o : List (List ℕ)) → str_join (f ∷ o) d b ≡ glue d f o
    joined f o = unfold str_join in join_loop-glue b d [] f o

search_from-nil : (eq : ℕ → ℕ → Bool) (i : ℕ) (s : List ℕ) → search_from eq [] i s ≡ some i
unfolding search_from
search_from-nil eq i [] = refl
search_from-nil eq i (c ∷ s) = refl

split_loop_hangs :
    (fuel : ℕ) (src : List ℕ) (b : Bool) (fields : List (List ℕ)) (offset : ℕ)
    → offset ≤ length src
    → split_loop fuel src [] b fields offset ≡ none
unfolding split_loop
split_loop_hangs zero src b fields offset le = refl
split_loop_hangs (suc fuel) src b fields offset le =
    rw (looks, split_loop) (split_loop_hangs fuel src b _ (offset + 0) (omega arith))
  where
    looks : find src [] offset ≡ some offset
    looks =
        let t : leb offset (length src) ≡ true = ground arith in
        unfold find in rw t (search_from-nil ◌==◌ offset (drop offset src))

-- Splitting by an empty delimiter never returns, whatever the number of rounds: the delimiter is
-- found at every offset and moves it nowhere.
str_split_hangs : (fuel : ℕ) (src : List ℕ) (b : Bool) → str_split fuel src [] b ≡ none
unfolding str_split
str_split_hangs fuel src b = split_loop_hangs fuel src b [] 0 (omega arith)
