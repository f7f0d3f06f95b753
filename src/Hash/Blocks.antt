-- ===== src/Hash/Blocks.antt =====
-- Input in blocks of 64 bytes, as the class of src/sha1.cpp takes it; the laws of the
-- buffer also serve src/md5.cpp.
use ashe.Base.{
  ℕ, zero, suc, ◌+◌, ◌%◌, ◌≤◌, ◌<◌, ◌≡◌, refl, ap, sym, ◌∙◌, false, Bool-cases, inl, inr, List, [],
  ◌∷◌, ◌++◌, append_assoc, append-nil, Option, none, some, ◌==◌, ==_iff, ltb, ltb→lt, if◌then◌else◌,
  length, length-append, set, take, drop, length-take, length-drop, take-append-drop, arith,
}
use ashe.Hash.Md5.{memcpy}

pub take-set :
    (j b : ℕ) (buffer : List ℕ)
    → j < length buffer
    → take (suc j) (set buffer j b) ≡ take j buffer ++ b ∷ []
take-set j b [] p = absurd (omega (arith, p))
take-set zero b (x ∷ xs) p = refl
take-set (suc j) b (x ∷ xs) p = ap (λ l. x ∷ l) (take-set j b xs (omega (arith, p)))

pub length-set : (xs : List ℕ) (i b : ℕ) → length (set xs i b) ≡ length xs
length-set [] i b = refl
length-set (x ∷ xs) zero b = refl
length-set (x ∷ xs) (suc i) b = omega (arith, length-set xs i b)

pub length-memcpy :
    (bs : List ℕ) (j : ℕ) (buffer : List ℕ) → length (memcpy j bs buffer) ≡ length buffer
length-memcpy [] j buffer = refl
length-memcpy (b ∷ bs) j buffer = length-memcpy bs (j + 1) (set buffer j b) ∙ length-set buffer j b

pub take-memcpy :
    (j : ℕ) (bs buffer : List ℕ)
    → j + length bs ≤ length buffer
    → take (j + length bs) (memcpy j bs buffer) ≡ take j buffer ++ bs
take-memcpy j [] buffer room =
    ap (λ k. take k buffer) (omega arith) ∙ sym (append-nil (take j buffer))
take-memcpy j (b ∷ bs) buffer room =
    let next : j + 1 ≡ suc j = omega arith in
    ap (λ k. take k (memcpy (j + 1) bs (set buffer j b))) (omega arith)
    ∙ take-memcpy (j + 1) bs (set buffer j b) (omega (arith, room, length-set buffer j b))
    ∙ ap (λ l. l ++ bs)
        (ap (λ k. take k (set buffer j b)) next ∙ take-set j b buffer (omega (arith, room)))
    ∙ append_assoc (take j buffer) (b ∷ []) bs

module _ {ℓ} {S : Type ℓ} (f : S → List ℕ → S) where
  -- Bytes gather in a row, and 64 of them go to the state.
  abbrev pub absorb : S → List ℕ → List ℕ → S × List ℕ
  absorb s row [] = (s, row)
  absorb s row (b ∷ bs) =
      let full = length row == 63 in
      let longer = row ++ b ∷ [] in
      absorb (if full then f s longer else s) (if full then [] else longer) bs

  pub absorb-append :
      (s : S) (row xs ys : List ℕ)
      → absorb s row (xs ++ ys) ≡ absorb (absorb s row xs).0 (absorb s row xs).1 ys
  absorb-append s row [] ys = refl
  absorb-append s row (x ∷ xs) ys =
      let full = length row == 63 in
      let longer = row ++ x ∷ [] in
      absorb-append (if full then f s longer else s) (if full then [] else longer) xs ys

  absorb-next :
      (s : S) (row : List ℕ) (b : ℕ) (bs : List ℕ)
      → length row < 63
      → absorb s row (b ∷ bs) ≡ absorb s (row ++ b ∷ []) bs
  absorb-next s row b bs p =
      let not_full : (length row == 63) ≡ false = ground (arith, p) in
      ap
        (λ full.
          absorb (if full then f s (row ++ b ∷ []) else s) (if full then [] else row ++ b ∷ []) bs)
        not_full

  absorb-last :
      (s : S) (row : List ℕ) (b : ℕ) (bs : List ℕ)
      → length row ≡ 63
      → absorb s row (b ∷ bs) ≡ absorb (f s (row ++ b ∷ [])) [] bs
  absorb-last s row b bs p =
      ap
        (λ full.
          absorb (if full then f s (row ++ b ∷ []) else s) (if full then [] else row ++ b ∷ []) bs)
        ((==_iff (length row) 63).1 p)

  pub absorb-short :
      (s : S) (row bs : List ℕ) → length row + length bs < 64 → absorb s row bs ≡ (s, row ++ bs)
  absorb-short s row [] few = ap (λ l. (s, l)) (sym (append-nil row))
  absorb-short s row (b ∷ bs) few =
      absorb-next s row b bs (omega (arith, few))
      ∙ absorb-short s (row ++ b ∷ []) bs (omega (arith, few, length-append row (b ∷ [])))
      ∙ ap (λ l. (s, l)) (append_assoc row (b ∷ []) bs)

  pub absorb-block :
      (s : S) (row xs ys : List ℕ)
      → length row + length xs ≡ 64
      → length row < 64
      → absorb s row (xs ++ ys) ≡ absorb (f s (row ++ xs)) [] ys
  absorb-block s row [] ys full p = absurd (omega (arith, full, p))
  absorb-block s row (b ∷ []) ys full p = absorb-last s row b ys (omega (arith, full))
  absorb-block s row (b ∷ c ∷ xs) ys full p =
      absorb-next s row b (c ∷ (xs ++ ys)) (omega (arith, full))
      ∙ absorb-block s (row ++ b ∷ []) (c ∷ xs) ys (omega (arith, full, length-append row (b ∷ [])))
          (omega (arith, full, length-append row (b ∷ [])))
      ∙ ap (λ l. absorb (f s l) [] ys) (append_assoc row (b ∷ []) (c ∷ xs))

  -- The loop over whole blocks, on fuel: the state, and the bytes left.
  unfoldable pub whole_blocks : ℕ → S → List ℕ → Option (S × List ℕ)
  whole_blocks zero s bytes = none
  whole_blocks (suc n) s bytes =
      let rest = whole_blocks n (f s (take 64 bytes)) (drop 64 bytes) in
      if ltb (length bytes) 64 then some (s, bytes) else rest

  pub whole_blocks-absorb :
      (n : ℕ) (s : S) (bytes : List ℕ)
      → length bytes < n
      → whole_blocks n s bytes ≡ some (absorb s [] bytes)
  unfolding whole_blocks
  whole_blocks-absorb zero s bytes few = absurd (omega (arith, few))
  whole_blocks-absorb (suc n) s bytes few = elim (Bool-cases (ltb (length bytes) 64)) [
    | inl short ↦
        simp short
          (ap some (sym (absorb-short s [] bytes (omega (arith, ltb→lt (length bytes) 64 short)))))
    | inr long ↦
        let enough : 64 ≤ length bytes = ground (arith, long) in
        simp long (
          whole_blocks-absorb n (f s (take 64 bytes)) (drop 64 bytes)
            (omega (arith, few, enough, length-drop 64 bytes))
          ∙ ap some (
              sym (
                absorb-block s [] (take 64 bytes) (drop 64 bytes)
                  (omega (arith, enough, length-take 64 bytes)) (omega arith))
              ∙ ap (absorb s []) (take-append-drop 64 bytes)))
  ]

  pub length-absorb :
      (s : S) (row bs : List ℕ)
      → length row < 64
      → length (absorb s row bs).1 ≡ (length row + length bs) % 64
  length-absorb s row [] p = omega (arith, p)
  length-absorb s row (b ∷ bs) p = elim (Bool-cases (length row == 63)) [
    | inl last ↦
        let full = (==_iff (length row) 63).0 last in
        ap (λ (r : S × List ℕ). length r.1) (absorb-last s row b bs full)
        ∙ length-absorb (f s (row ++ b ∷ [])) [] bs (omega arith)
        ∙ omega (arith, full)
    | inr other ↦
        let less : length row < 63 = ground (arith, p, other) in
        let longer = length-append row (b ∷ []) in
        ap (λ (r : S × List ℕ). length r.1) (absorb-next s row b bs less)
        ∙ length-absorb s (row ++ b ∷ []) bs (omega (arith, less, longer))
        ∙ omega (arith, longer)
  ]
