-- ===== src/Buffer/Stream/Remove.antt =====
-- `removeData` and `toOneBuffer` against the queue as a stream of bytes.
use ashe.Base.{
  ℕ, zero, suc, ◌+◌, ◌-◌, ◌≤◌, ◌<◌, ◌^◌, ◌≡◌, refl, sym, ap, ◌∙◌, Bool, true, false, ◌⊎◌, inl, inr,
  List, [], ◌∷◌, ◌++◌, none, some, arith, length, drop, All, ltb, if◌then◌else◌, lt→ltb, Bool-cases,
  leb, ◌==◌, take_all, drop-nil, ◌&&◌, ◌||◌,
}
use ashe.Buffer.{QueueElem, BufferQueue, sub_size, add_size, readable}
use ashe.Buffer.Invariant.{IsElem, IsValid, contents, stream, sizes, length-stream, length-readable}
use ashe.Buffer.Stream.{
  remove_loop, remove_data, copy_all, to_one_buffer, to_one_buffer_with_null_ending,
}
use ashe.Buffer.Stream.Removal.{
  part, exact, past, without_first, shortened, without_first-IsValid, passed, spanned, Removes,
  remove_round_lem, part-Removes, exact-Removes, past-Removes,
}

remove_loop-Removes :
    (es : List QueueElem) (fuel n k : ℕ) (q : BufferQueue)
    → length es < fuel
    → IsValid q
    → q.elements ≡ es
    → 0 < n
    → (p : BufferQueue) × (r : ℕ) × (remove_loop fuel n k q ≡ some (p, r)) × Removes n k es p r
unfolding remove_loop
remove_loop-Removes es zero n k q f v h pos = absurd (omega arith)
remove_loop-Removes [] (suc fuel) n k q f v h pos =
    let z : q.total_data_size ≡ 0 = v.totalled ∙ ap sizes h in
    let d : drop n (stream []) ≡ [] = drop-nil n in
    (
      q,
      k,
      rw z,
      record { valid = v; left = (unfold contents in rw h (sym d)); count = omega arith },
    )
remove_loop-Removes (e ∷ es) (suc fuel) n k q f v h pos = elim (remove_round_lem n e es q v h) [
  | part lt s ↦
      (shortened n e es q, k, rw running (rw (s, remove_loop)), part-Removes n k q e es v h lt)
  | exact same s ↦
      (without_first e es q, k, rw running (rw (s, remove_loop)), exact-Removes n k q e es v h same)
  | past lt s ↦
      let (p, r, done, m) =
        remove_loop-Removes es fuel (n - e.size) (k + 1) (without_first e es q) (omega arith)
          (without_first-IsValid q e es v h) (unfold without_first in refl) (omega arith) in
      (p, r, rw running (rw (s, remove_loop) done), past-Removes n k e es p r w.0 lt m)
]
  where
    w : All IsElem (e ∷ es)
    w = rw h at v.sound

    running : ltb 0 q.total_data_size ≡ true
    running = lt→ltb _ _ (omega (arith, v.totalled, ap sizes h, w.0.nonempty))

-- As long as the bytes are there, one more element is reached than passed by.
spanned-passed :
    (n : ℕ) (es : List QueueElem)
    → All IsElem es
    → 0 < n
    → n ≤ sizes es
    → spanned n es ≡ suc (passed n es)
spanned-passed n [] w pos le = absurd (omega arith)
spanned-passed n (e ∷ es) w pos le = elim (Bool-cases (ltb e.size n)) [
  | inl t ↦ ground (arith, spanned-passed (n - e.size) es w.1)
  | inr t ↦
      let z : n - e.size ≡ 0 = ground arith in
      rw (lt→ltb 0 n pos, t, z) (ground (arith, spanned_zero es))
]
  where
    spanned_zero : (fs : List QueueElem) → spanned 0 fs ≡ 0
    spanned_zero [] = refl
    spanned_zero (f ∷ fs) = refl

passed_all : (n : ℕ) (es : List QueueElem) → sizes es < n → passed n es ≡ length es
passed_all n [] h = refl
passed_all n (e ∷ es) h = ground (arith, passed_all (n - e.size) es)

-- The number that `removeData` returns.
abbrev pub removed_count : ℕ → BufferQueue → ℕ
removed_count n q =
    if n == 0 || length (contents q) == 0
    then 0
    else if leb n (length (contents q))
    then spanned n q.elements
    else length q.elements + 1

count-passed :
    (n : ℕ) (es : List QueueElem)
    → All IsElem es
    → 0 < n
    → 0 < sizes es
    → 1 + passed n es ≡ (
        if n == 0 || sizes es == 0
        then 0
        else if leb n (sizes es)
        then spanned n es
        else length es + 1)
count-passed n es w pos some_size = elim (Bool-cases (leb n (sizes es))) [
  | inl t ↦ rw (t, spanned-passed n es w pos (ground arith)) (ground arith)
  | inr t ↦ rw (t, passed_all n es (ground arith)) (ground arith)
]

-- On a valid queue a removal always returns; the first `n` bytes of the contents are gone, all
-- where there are fewer, and the queue left is valid. The result is the number of elements that
-- the removed bytes reach into, but one more than there are elements where more is asked for than
-- there is.
pub remove_data-refines :
    (n : ℕ) (q : BufferQueue)
    → IsValid q
    → (p : BufferQueue) × (r : ℕ) × (remove_data n q ≡ some (p, r))
      × IsValid p
      × (contents p ≡ drop n (contents q))
      × (r ≡ removed_count n q)
unfolding contents
remove_data-refines n q v = go q.elements refl (Bool-cases (ltb 0 n))
  where
    len : length (stream q.elements) ≡ sizes q.elements
    len = length-stream q.elements v.sound

    go :
        (es : List QueueElem)
        → q.elements ≡ es
        → (ltb 0 n ≡ true) ⊎ (ltb 0 n ≡ false)
        → (p : BufferQueue) × (r : ℕ) × (remove_data n q ≡ some (p, r))
          × IsValid p
          × (contents p ≡ drop n (contents q))
          × (r ≡ removed_count n q)
    go [] h t =
        let z : q.element_num ≡ 0 = v.counted ∙ ap length h in
        let d : drop n (stream []) ≡ [] = drop-nil n in
        (q, 0, (unfold remove_data in rw z), v, rw h (sym d), ground (arith, len, ap sizes h))
    go (e ∷ es) h (inr t) =
        let z : n ≡ 0 = ground arith in (q, 0, (unfold remove_data in ground arith), v, rw z, rw z)
    go (e ∷ es) h (inl t) =
        let w : All IsElem (e ∷ es) = rw h at v.sound in
        let begun : (ltb 0 q.element_num && ltb 0 q.total_data_size && ltb 0 n) ≡ true =
          ground (arith, v.counted, v.totalled, w.0.nonempty, ap length h, ap sizes h) in
        let (p, r, done, m) =
          remove_loop-Removes (e ∷ es) (suc (length q.elements)) n 1 q (omega (arith, ap length h))
            v h (ground arith) in
        (
          p,
          r,
          (unfold remove_data in rw begun done),
          m.valid,
          m.left ∙ ap (λ l. drop n (stream l)) (sym h),
          m.count
              ∙ count-passed n (e ∷ es) w (ground arith) (omega (arith, w.0.nonempty))
              ∙ rw (len, h),
        )

copy_all-stream :
    (es : List QueueElem) → All IsElem es → sizes es < 2 ^ 64 → copy_all (sizes es) es ≡ stream es
unfolding copy_all
copy_all-stream [] w h = refl
copy_all-stream (e ∷ es) w h =
    let left : sub_size (e.size + sizes es) e.size ≡ sizes es = omega arith in
    rw (
      lt→ltb 0 (e.size + sizes es) (omega (arith, w.0.nonempty)),
      left,
      take_all e.size (readable e) (omega (arith, length-readable e w.0)),
      copy_all-stream es w.1 (omega arith),
    )

-- With a pointer and a block, the one buffer of a valid queue holds its contents, and the result
-- is its length; with the null ending a zero follows and is counted. Without either nothing is
-- written and the result is 0. The contents and the zero are to fit `size_t`.
to_one_buffer-contents :
    (q : BufferQueue) (has_pointer alloc_ok : Bool)
    → IsValid q
    → length (contents q) + 1 < 2 ^ 64
    → (to_one_buffer has_pointer alloc_ok q
        ≡ (if has_pointer && alloc_ok then (some (contents q), length (contents q)) else (none, 0)))
      × (to_one_buffer_with_null_ending has_pointer alloc_ok q ≡ (
          if has_pointer && alloc_ok
          then (some (contents q ++ 0 ∷ []), length (contents q) + 1)
          else (none, 0)))
unfolding to_one_buffer to_one_buffer_with_null_ending contents
to_one_buffer-contents q false a v h = (refl, refl)
to_one_buffer-contents q true false v h = (refl, refl)
to_one_buffer-contents q true true v h =
    (rw (v.totalled, len, copied), rw (v.totalled, len, copied, more))
  where
    len : length (stream q.elements) ≡ sizes q.elements
    len = length-stream q.elements v.sound

    copied : copy_all (sizes q.elements) q.elements ≡ stream q.elements
    copied = copy_all-stream q.elements v.sound v.fits

    more : add_size (sizes q.elements) 1 ≡ sizes q.elements + 1
    more = omega (arith, len)
