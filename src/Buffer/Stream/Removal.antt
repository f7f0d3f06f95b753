-- ===== src/Buffer/Stream/Removal.antt =====
-- One round of `removeData` in src/buffer_queue.cpp: what it takes away.
use ashe.Base.{
  ℕ, suc, ◌+◌, ◌-◌, ◌≤◌, ◌<◌, ◌≡◌, sym, ap, ◌∙◌, inl, inr, List, [], ◌∷◌, ◌++◌, some, arith, length,
  drop, All, ltb, if◌then◌else◌, lt→ltb, Bool-cases, ◌==◌, drop-append, drop-append_le, drop-drop,
}
use ashe.Buffer.{QueueElem, BufferQueue, sub_size, readable, pop_element_from_front}
use ashe.Buffer.Invariant.{
  IsElem, IsValid, contents, stream, sizes, length-le-sizes, length-readable,
}
use ashe.Buffer.Stream.{stop, again, throw_front, remove_round}

-- The queue without its first element.
unfoldable pub without_first : QueueElem → List QueueElem → BufferQueue → BufferQueue
without_first e es q = record q {
  elements = es;
  element_num = sub_size q.element_num 1;
  total_data_size = sub_size q.total_data_size e.size;
}

-- The queue without the first `n` bytes of its first element.
pub shortened : ℕ → QueueElem → List QueueElem → BufferQueue → BufferQueue
shortened n e es q = record q {
  elements = record e { size = e.size - n; data_read = e.data_read + n } ∷ es;
  total_data_size = sub_size q.total_data_size n;
}

throw_front-eq :
    (q : BufferQueue) (e : QueueElem) (es : List QueueElem)
    → q.elements ≡ e ∷ es
    → 0 < q.element_num
    → throw_front q ≡ some (without_first e es q)
unfolding throw_front pop_element_from_front without_first
throw_front-eq q e es h pos = rw (lt→ltb 0 q.element_num pos) (ground arith)

pub without_first-IsValid :
    (q : BufferQueue) (e : QueueElem) (es : List QueueElem)
    → IsValid q
    → q.elements ≡ e ∷ es
    → IsValid (without_first e es q)
unfolding without_first
without_first-IsValid q e es v h =
    let w : All IsElem (e ∷ es) = rw h at v.sound in
    record {
      counted = omega (arith, v.counted, v.fits, length-le-sizes q.elements v.sound, ap length h);
      totalled = omega (arith, v.totalled, v.fits, ap sizes h);
      fits = omega (arith, v.fits, ap sizes h);
      sound = w.1;
    }

shortened-IsValid :
    (n : ℕ) (q : BufferQueue) (e : QueueElem) (es : List QueueElem)
    → IsValid q
    → q.elements ≡ e ∷ es
    → n < e.size
    → IsValid (shortened n e es q)
unfolding shortened
shortened-IsValid n q e es v h lt =
    let w : All IsElem (e ∷ es) = rw h at v.sound in
    record {
      counted = omega (arith, v.counted, ap length h);
      totalled = omega (arith, v.totalled, v.fits, ap sizes h);
      fits = omega (arith, v.fits, ap sizes h);
      sound = (record { nonempty = omega arith; extent = omega (arith, w.0.extent) }, w.1);
    }

-- The number of elements that the loop passes by before it stops.
abbrev pub passed : ℕ → List QueueElem → ℕ
passed n [] = 0
passed n (e ∷ es) = if ltb e.size n then suc (passed (n - e.size) es) else 0

-- The number of elements that the first `n` bytes reach into.
abbrev pub spanned : ℕ → List QueueElem → ℕ
spanned n [] = 0
spanned n (e ∷ es) = if ltb 0 n then suc (spanned (n - e.size) es) else 0

-- What a removal of `n` bytes leaves of the elements `es`, counted from `k`.
pub record Removes (n k : ℕ) (es : List QueueElem) (p : BufferQueue) (r : ℕ) : Type 0 where
  pub valid : IsValid p
  pub left : contents p ≡ drop n (stream es)
  pub count : r ≡ k + passed n es

-- One round, on each of its branches.
pub data Round (n : ℕ) (e : QueueElem) (es : List QueueElem) (q : BufferQueue) : Type 0 where
  part :
      n < e.size → remove_round q.elements n q ≡ some (stop (shortened n e es q)) → Round n e es q
  exact :
      n ≡ e.size → remove_round q.elements n q ≡ some (stop (without_first e es q)) → Round n e es q
  past :
      e.size < n
      → remove_round q.elements n q ≡ some (again (without_first e es q) (n - e.size))
      → Round n e es q

pub remove_round_lem :
    (n : ℕ) (e : QueueElem) (es : List QueueElem) (q : BufferQueue)
    → IsValid q
    → q.elements ≡ e ∷ es
    → Round n e es q
unfolding remove_round
remove_round_lem n e es q v h = elim (Bool-cases (ltb e.size n)) [
  | inl t ↦ past (ground arith) (open_round ∙ ground (arith, thrown))
  | inr t ↦ elim (Bool-cases (e.size == n)) [
    | inl s ↦ exact (ground arith) (open_round ∙ ground (arith, thrown))
    | inr s ↦ part (ground arith) (open_round ∙ (unfold shortened in ground arith))
  ]
]
  where
    thrown : throw_front q ≡ some (without_first e es q)
    thrown = throw_front-eq q e es h (omega (arith, v.counted, ap length h))

    open_round : remove_round q.elements n q ≡ remove_round (e ∷ es) n q
    open_round = ap (λ l. remove_round l n q) h

pub part-Removes :
    (n k : ℕ) (q : BufferQueue) (e : QueueElem) (es : List QueueElem)
    → IsValid q
    → q.elements ≡ e ∷ es
    → n < e.size
    → Removes n k (e ∷ es) (shortened n e es q) k
part-Removes n k q e es v h lt =
    let w : All IsElem (e ∷ es) = rw h at v.sound in
    record {
      valid = shortened-IsValid n q e es v h lt;
      left =
          unfold shortened contents in
          ap (λ l. l ++ stream es) (sym (drop-drop n e.data_read e.data_start))
          ∙ sym (drop-append_le n (readable e) (stream es) (omega (arith, length-readable e w.0)));
      count = ground arith;
    }

-- What remains of the stream once the first element is gone.
drop-stream :
    (n : ℕ) (e : QueueElem) (es : List QueueElem)
    → IsElem e
    → e.size ≤ n
    → drop n (stream (e ∷ es)) ≡ drop (n - e.size) (stream es)
drop-stream n e es w le =
    let k : n ≡ length (readable e) + (n - e.size) = omega (arith, length-readable e w) in
    ap (λ j. drop j (readable e ++ stream es)) k ∙ drop-append (n - e.size) (readable e) (stream es)

pub exact-Removes :
    (n k : ℕ) (q : BufferQueue) (e : QueueElem) (es : List QueueElem)
    → IsValid q
    → q.elements ≡ e ∷ es
    → n ≡ e.size
    → Removes n k (e ∷ es) (without_first e es q) k
exact-Removes n k q e es v h same =
    let w : All IsElem (e ∷ es) = rw h at v.sound in
    let z : n - e.size ≡ 0 = omega arith in
    record {
      valid = without_first-IsValid q e es v h;
      left =
          unfold without_first contents in
          sym (drop-stream n e es w.0 (omega arith) ∙ ap (λ j. drop j (stream es)) z);
      count = ground arith;
    }

pub past-Removes :
    (n k : ℕ) (e : QueueElem) (es : List QueueElem) (p : BufferQueue) (r : ℕ)
    → IsElem e
    → e.size < n
    → Removes (n - e.size) (k + 1) es p r
    → Removes n k (e ∷ es) p r
past-Removes n k e es p r w lt m = record {
  valid = m.valid;
  left = m.left ∙ sym (drop-stream n e es w (omega arith));
  count = ground (arith, m.count);
}
