-- ===== src/Buffer/Stream/Read.antt =====
-- `popDataCrossElement` against the queue as a stream of bytes.
use ashe.Base.{
  ℕ, zero, suc, ◌+◌, ◌-◌, ◌≤◌, ◌<◌, ◌^◌, ◌≡◌, refl, sym, ap, ◌∙◌, Bool, true, false, ◌⊎◌, inl, inr,
  List, [], ◌∷◌, ◌++◌, none, some, arith, length, take, drop, min, All, ltb, if◌then◌else◌, lt→ltb,
  Bool-cases, leb, ◌==◌, append_assoc, append-nil, take-append_le, drop-append_le, take-nil,
  drop-nil, ◌||◌, ◌≢◌, ◌&&◌, not,
}
use ashe.Buffer.{QueueElem, BufferQueue, readable}
use ashe.Buffer.Invariant.{IsElem, IsValid, contents, stream, sizes, length-stream, length-readable}
use ashe.Buffer.Stream.{
  Cross, CrossResult, cross_round, cross_loop, start_cross, pop_data_cross_element,
}
use ashe.Buffer.Stream.Rounds.{
  readable-consumed, used_up, left_over, take_stream, cross_round-up, cross_round-left,
  used_up-IsValid, left_over-IsValid,
}

-- How many elements a read of `n` bytes uses up.
abbrev pub spent : ℕ → List QueueElem → ℕ
spent n [] = 0
spent n (e ∷ es) = if leb e.size n then suc (spent (n - e.size) es) else 0

-- What the loop leaves when it ends, from the state `c` over the elements `es`.
record IsRead (es : List QueueElem) (c d : Cross) : Type 0 where
  valid : IsValid d.queue
  written : d.written ≡ c.written ++ take c.byte_need (stream es)
  left : contents d.queue ≡ drop c.byte_need (stream es)
  count : d.bytes_read ≡ c.bytes_read + min c.byte_need (sizes es)
  thrown : d.out_buffer_num ≡ c.out_buffer_num + spent c.byte_need es

-- The loop ends after a round that leaves some of the element.
left_over-IsRead :
    (c : Cross) (e : QueueElem) (es : List QueueElem)
    → IsValid c.queue
    → c.queue.elements ≡ e ∷ es
    → c.byte_need < e.size
    → c.bytes_read + sizes (e ∷ es) < 2 ^ 64
    → IsRead (e ∷ es) c (left_over e es c)
left_over-IsRead c e es v h lt fit =
    let w : All IsElem (e ∷ es) = rw h at v.sound in
    let within : c.byte_need ≤ length (readable e) = omega (arith, length-readable e w.0) in
    record {
      valid = left_over-IsValid c e es v h lt;
      written =
          unfold left_over in
          ap (◌++◌ c.written) (sym (take-append_le c.byte_need (readable e) (stream es) within));
      left =
          unfold left_over contents in
          ap (λ l. l ++ stream es) (readable-consumed e c.byte_need w.0 lt)
          ∙ sym (drop-append_le c.byte_need (readable e) (stream es) within);
      count = unfold left_over in omega arith;
      thrown = unfold left_over in ground arith;
    }

-- A round that uses an element up passes the rest of the work on.
used_up-IsRead :
    (c d : Cross) (e : QueueElem) (es : List QueueElem)
    → IsElem e
    → e.size ≤ c.byte_need
    → c.bytes_read + sizes (e ∷ es) < 2 ^ 64
    → IsRead es (used_up e es c) d
    → IsRead (e ∷ es) c d
unfolding used_up
used_up-IsRead c d e es w le fit r = record {
  valid = r.valid;
  written =
      r.written
      ∙ append_assoc c.written (readable e) (take (c.byte_need - e.size) (stream es))
      ∙ ap (◌++◌ c.written) (sym (take_stream c.byte_need e (stream es) w le).0);
  left = r.left ∙ sym (take_stream c.byte_need e (stream es) w le).1;
  count = omega (arith, r.count);
  thrown = ground (arith, r.thrown);
}

spent_zero : (es : List QueueElem) → All IsElem es → spent 0 es ≡ 0
spent_zero [] v = refl
spent_zero (e ∷ es) v = ground (arith, v.0.nonempty)

eq-nil_of_length : (es : List QueueElem) → length es ≡ 0 → es ≡ []
eq-nil_of_length [] h = refl
eq-nil_of_length (e ∷ es) h = absurd (omega arith)

-- Nothing more to read: the bytes are all there, or the queue has run empty.
finished-IsRead :
    (c : Cross) (es : List QueueElem)
    → IsValid c.queue
    → c.queue.elements ≡ es
    → (c.byte_need ≡ 0) ⊎ (es ≡ [])
    → IsRead es c c
finished-IsRead c es v h f = record {
  valid = v;
  written = sym (ap (◌++◌ c.written) taken.0 ∙ append-nil c.written);
  left =
      let same : contents c.queue ≡ stream es = unfold contents in ap stream h in
      same ∙ sym taken.1;
  count = ground (arith, ends);
  thrown = omega (arith, taken.2);
}
  where
    ends : (c.byte_need ≡ 0) ⊎ (sizes es ≡ 0)
    ends = elim f [ inl z ↦ inl z | inr z ↦ inr (ap sizes z) ]

    taken :
        (take c.byte_need (stream es) ≡ [])
        × (drop c.byte_need (stream es) ≡ stream es)
        × (spent c.byte_need es ≡ 0)
    taken = elim f [
      | inl z ↦ rw z (refl, refl, spent_zero es (rw h at v.sound))
      | inr z ↦ rw z (take-nil c.byte_need, drop-nil c.byte_need, refl)
    ]

-- What a round that uses an element up leaves to do is the work on the other elements.
cross_loop-up :
    (fuel : ℕ) (c : Cross) (e : QueueElem) (es : List QueueElem)
    → IsValid c.queue
    → c.queue.elements ≡ e ∷ es
    → e.size ≤ c.byte_need
    → c.bytes_read + sizes (e ∷ es) < 2 ^ 64
    → (es ≢ []
        → 0 < c.byte_need - e.size
        → (d : Cross) × (cross_loop fuel (used_up e es c) ≡ some d) × IsRead es (used_up e es c) d)
    → (d : Cross) × (cross_loop (suc fuel) c ≡ some d) × IsRead (e ∷ es) c d
unfolding cross_loop used_up
cross_loop-up fuel c e es v h le fit more =
    elim (Bool-cases (u.byte_need == 0 || u.queue.element_num == 0)) [
      | inl t ↦ (
        u,
        rw (step, cross_loop) (rw t),
        used_up-IsRead c u e es w.0 le fit (finished-IsRead u es uv refl (ends t)),
      )
      | inr f ↦
          let (d, p, r) = more (λ z. goes f (uv.counted ∙ ap length z)) (ground arith) in
          (d, rw (step, cross_loop) (rw f p), used_up-IsRead c d e es w.0 le fit r)
    ]
  where
    w : All IsElem (e ∷ es)
    w = rw h at v.sound

    u : Cross
    u = used_up e es c

    uv : IsValid u.queue
    uv = used_up-IsValid c e es v h

    step : cross_round c.queue.elements c ≡ some u
    step =
        ap (λ l. cross_round l c) h
        ∙ cross_round-up c e es w.0 (omega (arith, v.counted, ap length h)) le

    ends : (u.byte_need == 0 || u.queue.element_num == 0) ≡ true → (u.byte_need ≡ 0) ⊎ (es ≡ [])
    ends t = elim (split t) [
      | inl z ↦ inl z
      | inr z ↦ inr (eq-nil_of_length es (sym uv.counted ∙ z))
    ]
      where
        split :
            (u.byte_need == 0 || u.queue.element_num == 0) ≡ true
            → (u.byte_need ≡ 0) ⊎ (u.queue.element_num ≡ 0)
        split t = ground arith

    goes : (u.byte_need == 0 || u.queue.element_num == 0) ≡ false → u.queue.element_num ≡ 0 → ⊥
    goes f z = ground arith

cross_loop-left :
    (fuel : ℕ) (c : Cross) (e : QueueElem) (es : List QueueElem)
    → IsValid c.queue
    → c.queue.elements ≡ e ∷ es
    → c.byte_need < e.size
    → c.bytes_read + sizes (e ∷ es) < 2 ^ 64
    → (d : Cross) × (cross_loop (suc fuel) c ≡ some d) × IsRead (e ∷ es) c d
unfolding cross_loop left_over
cross_loop-left fuel c e es v h lt fit =
    (left_over e es c, rw (step, cross_loop), left_over-IsRead c e es v h lt fit)
  where
    step : cross_round c.queue.elements c ≡ some (left_over e es c)
    step = ap (λ l. cross_round l c) h ∙ cross_round-left c e es lt

-- The loop ends with the bytes asked for, or all there are.
cross_loop-IsRead :
    (es : List QueueElem) (e : QueueElem) (fuel : ℕ) (c : Cross)
    → length es < fuel
    → IsValid c.queue
    → c.queue.elements ≡ e ∷ es
    → c.bytes_read + sizes (e ∷ es) < 2 ^ 64
    → (d : Cross) × (cross_loop fuel c ≡ some d) × IsRead (e ∷ es) c d
cross_loop-IsRead es e zero c f v h fit = absurd (omega arith)
cross_loop-IsRead [] e (suc fuel) c f v h fit = elim (Bool-cases (leb e.size c.byte_need)) [
  | inl t ↦ cross_loop-up fuel c e [] v h (ground arith) fit (λ ne _. absurd (ne refl))
  | inr t ↦ cross_loop-left fuel c e [] v h (ground arith) fit
]
cross_loop-IsRead (g ∷ es) e (suc fuel) c f v h fit = elim (Bool-cases (leb e.size c.byte_need)) [
  | inl t ↦ cross_loop-up fuel c e (g ∷ es) v h (ground arith) fit (λ _ _.
      cross_loop-IsRead es g fuel (used_up e (g ∷ es) c) (omega arith)
        (used_up-IsValid c e (g ∷ es) v h) (unfold used_up in refl) (unfold used_up in omega arith))
  | inr t ↦ cross_loop-left fuel c e (g ∷ es) v h (ground arith) fit
]

abbrev pub spent_by : ℕ → BufferQueue → ℕ
spent_by n q = spent n q.elements

-- What a read of `n` bytes promises.
pub record ReadsStream (n : ℕ) (wants_thrown : Bool) (q : BufferQueue) (r : CrossResult)
    : Type 0 where
  pub valid : IsValid r.queue
  pub written : r.written ≡ take n (contents q)
  pub left : contents r.queue ≡ drop n (contents q)
  pub count : r.rvalue ≡ min n (length (contents q))
  pub thrown :
      r.thrown
      ≡ (if wants_thrown && ltb 0 (min n (length (contents q))) then some (spent_by n q) else none)

abbrev nothing : BufferQueue → CrossResult
nothing q = record { queue = q; written = []; rvalue = 0; thrown = none }

abbrev finish : Bool → Cross → CrossResult
finish b d = record {
  queue = d.queue;
  written = d.written;
  rvalue = d.bytes_read;
  thrown = if b then some d.out_buffer_num else none;
}

-- Nothing asked for, or nothing there.
nothing_read :
    (n : ℕ) (b : Bool) (q : BufferQueue)
    → IsValid q
    → (n ≡ 0) ⊎ (contents q ≡ [])
    → ReadsStream n b q (nothing q)
nothing_read n b q v f = record {
  valid = v;
  written = sym taken.0;
  left = sym taken.1;
  count = sym taken.2;
  thrown = rw taken.2 (ground arith);
}
  where
    taken :
        (take n (contents q) ≡ [])
        × (drop n (contents q) ≡ contents q)
        × (min n (length (contents q)) ≡ 0)
    taken = elim f [
      | inl z ↦ rw z (refl, refl, omega arith)
      | inr z ↦ rw z (take-nil n, drop-nil n, omega arith)
    ]

start-ReadsStream :
    (n : ℕ) (b : Bool) (q : BufferQueue) (e : QueueElem) (es : List QueueElem) (d : Cross)
    → IsValid q
    → q.elements ≡ e ∷ es
    → 0 < n
    → IsRead (e ∷ es) (start_cross q n) d
    → ReadsStream n b q (finish b d)
unfolding start_cross contents
start-ReadsStream n b q e es d v h pos r =
    let w : All IsElem (e ∷ es) = rw h at v.sound in
    let len : length (stream q.elements) ≡ sizes (e ∷ es) =
      ap (λ l. length (stream l)) h ∙ length-stream (e ∷ es) w in
    let some_read : ltb 0 (min n (length (stream q.elements))) ≡ true =
      lt→ltb _ _ (omega (arith, len, w.0.nonempty)) in
    record {
      valid = r.valid;
      written = r.written ∙ ap (λ l. take n (stream l)) (sym h);
      left = r.left ∙ ap (λ l. drop n (stream l)) (sym h);
      count = r.count ∙ omega (arith, len);
      thrown = rw some_read (rw h (ground (arith, r.thrown)));
    }

-- On a valid queue, reading `n` bytes across elements always returns (no null element is read,
-- the loop ends): the bytes written are the first `n` of the contents, or all where there are
-- fewer, their number is the result, exactly these leave the queue, which stays valid, and the
-- number of elements used up is stored where a pointer for it is given and a byte is read.
pub pop_data_cross_element-refines :
    (n : ℕ) (wants_thrown : Bool) (q : BufferQueue)
    → IsValid q
    → (r : CrossResult) × (pop_data_cross_element n wants_thrown q ≡ some r)
      × ReadsStream n wants_thrown q r
pop_data_cross_element-refines n b q v = go q.elements refl (Bool-cases (ltb 0 n))
  where
    go :
        (es : List QueueElem)
        → q.elements ≡ es
        → (ltb 0 n ≡ true) ⊎ (ltb 0 n ≡ false)
        → (r : CrossResult) × (pop_data_cross_element n b q ≡ some r) × ReadsStream n b q r
    go [] h t =
        let z : q.element_num ≡ 0 = v.counted ∙ ap length h in
        (
          nothing q,
          (unfold pop_data_cross_element in rw z),
          nothing_read n b q v (inr (unfold contents in ap stream h)),
        )
    go (e ∷ es) h (inr t) = (
      nothing q,
      (unfold pop_data_cross_element in ground arith),
      nothing_read n b q v (inl (ground arith)),
    )
    go (e ∷ es) h (inl t) =
        let w : All IsElem (e ∷ es) = rw h at v.sound in
        let begun : (not (q.element_num == 0) && ltb 0 q.total_data_size && ltb 0 n) ≡ true =
          ground (arith, v.counted, v.totalled, w.0.nonempty, ap length h, ap sizes h) in
        let (d, p, r) =
          cross_loop-IsRead es e (suc (length q.elements)) (start_cross q n)
            (omega (arith, ap length h)) (unfold start_cross in v) (unfold start_cross in h)
            (unfold start_cross in omega (arith, v.fits, ap sizes h)) in
        (
          finish b d,
          (unfold pop_data_cross_element in rw begun (rw p)),
          start-ReadsStream n b q e es d v h (ground arith) r,
        )
