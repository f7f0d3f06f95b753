-- ===== src/Buffer/Stream/Rounds.antt =====
-- A round of the loop of `popDataCrossElement` (src/buffer_queue.cpp).
use ashe.Base.{
  ℕ, ◌+◌, ◌-◌, ◌≤◌, ◌<◌, ◌≡◌, sym, ap, ◌∙◌, true, inl, inr, List, ◌∷◌, ◌++◌, some, arith, length,
  take, drop, All, lt→ltb, Bool-cases, leb, take-append, drop-append, drop-drop, take_all,
}
use ashe.Buffer.{QueueElem, BufferQueue, sub_size, add_size, readable, pop_element_from_front}
use ashe.Buffer.Invariant.{IsElem, IsValid, sizes, length-le-sizes, length-readable}
use ashe.Buffer.Stream.{Cross, throw_front, cross_enough, cross_short, cross_round}

-- Throwing the first element away, whatever size it has left.
throw_front-eq :
    (q : BufferQueue) (e : QueueElem) (es : List QueueElem)
    → 0 < q.element_num
    → throw_front (record q { elements = e ∷ es })
      ≡ some (record q {
        elements = es;
        element_num = sub_size q.element_num 1;
        total_data_size = sub_size q.total_data_size e.size;
      })
unfolding throw_front pop_element_from_front
throw_front-eq q e es h = rw (lt→ltb 0 q.element_num h)

-- The queue after some bytes of its first element are read.
pub consumed : QueueElem → ℕ → QueueElem
consumed e n = record e { size = e.size - n; data_read = e.data_read + n }

pub readable-consumed :
    (e : QueueElem) (n : ℕ) → IsElem e → n < e.size → readable (consumed e n) ≡ drop n (readable e)
unfolding consumed
readable-consumed e n w h = sym (drop-drop n e.data_read e.data_start)

consumed-IsElem : (e : QueueElem) (n : ℕ) → IsElem e → n < e.size → IsElem (consumed e n)
unfolding consumed
consumed-IsElem e n w h = record { nonempty = omega arith; extent = omega (arith, w.extent) }

-- The state after a round that uses the first element up.
unfoldable pub used_up : QueueElem → List QueueElem → Cross → Cross
used_up e es c = record {
  queue = record c.queue {
    elements = es;
    element_num = sub_size c.queue.element_num 1;
    total_data_size = sub_size c.queue.total_data_size e.size;
  };
  written = c.written ++ readable e;
  bytes_read = add_size c.bytes_read e.size;
  byte_need = c.byte_need - e.size;
  out_buffer_num = c.out_buffer_num + 1;
}

-- The state after the round that leaves some of the first element.
unfoldable pub left_over : QueueElem → List QueueElem → Cross → Cross
left_over e es c = record {
  queue = record c.queue {
    elements = consumed e c.byte_need ∷ es;
    total_data_size = sub_size c.queue.total_data_size c.byte_need;
  };
  written = c.written ++ take c.byte_need (readable e);
  bytes_read = add_size c.bytes_read c.byte_need;
  byte_need = 0;
  out_buffer_num = c.out_buffer_num;
}

sub_size_zero : (a : ℕ) (b : ℕ) → sub_size (sub_size a b) 0 ≡ sub_size a b
sub_size_zero a b = omega arith

cross_short-eq :
    (c : Cross) (e : QueueElem) (es : List QueueElem)
    → IsElem e
    → 0 < c.queue.element_num
    → cross_short e es c ≡ some (used_up e es c)
unfolding cross_short used_up
cross_short-eq c e es w h = rw (
  throw_front-eq (record c.queue { total_data_size = sub_size c.queue.total_data_size e.size })
      (record e { size = 0 }) es h,
  sub_size_zero c.queue.total_data_size e.size,
  take_all e.size (readable e) (omega (arith, length-readable e w)),
)

cross_enough-exact :
    (c : Cross) (e : QueueElem) (es : List QueueElem)
    → IsElem e
    → 0 < c.queue.element_num
    → c.byte_need ≡ e.size
    → cross_enough e es c ≡ some (used_up e es c)
unfolding cross_enough used_up
cross_enough-exact c e es w h same =
    let z : e.size - e.size ≡ 0 = omega arith in
    rw (
      same,
      z,
      throw_front-eq (record c.queue { total_data_size = sub_size c.queue.total_data_size e.size })
          (record e { size = 0 }) es h,
      sub_size_zero c.queue.total_data_size e.size,
      take_all e.size (readable e) (omega (arith, length-readable e w)),
    )

cross_enough-more :
    (c : Cross) (e : QueueElem) (es : List QueueElem)
    → c.byte_need < e.size
    → cross_enough e es c ≡ some (left_over e es c)
unfolding cross_enough left_over consumed
cross_enough-more c e es lt = ground arith

pub take_stream :
    (n : ℕ) (e : QueueElem) (xs : List ℕ)
    → IsElem e
    → e.size ≤ n
    → (take n (readable e ++ xs) ≡ readable e ++ take (n - e.size) xs)
      × (drop n (readable e ++ xs) ≡ drop (n - e.size) xs)
take_stream n e xs w le =
    let k : n ≡ length (readable e) + (n - e.size) = omega (arith, length-readable e w) in
    (
      ap (λ j. take j (readable e ++ xs)) k ∙ take-append (n - e.size) (readable e) xs,
      ap (λ j. drop j (readable e ++ xs)) k ∙ drop-append (n - e.size) (readable e) xs,
    )

-- One round, on every branch.
pub cross_round-up :
    (c : Cross) (e : QueueElem) (es : List QueueElem)
    → IsElem e
    → 0 < c.queue.element_num
    → e.size ≤ c.byte_need
    → cross_round (e ∷ es) c ≡ some (used_up e es c)
unfolding cross_round
cross_round-up c e es w h le = elim (Bool-cases (leb c.byte_need e.size)) [
  | inl t ↦ rw t (cross_enough-exact c e es w h (ground arith))
  | inr f ↦ rw f (cross_short-eq c e es w h)
]

pub cross_round-left :
    (c : Cross) (e : QueueElem) (es : List QueueElem)
    → c.byte_need < e.size
    → cross_round (e ∷ es) c ≡ some (left_over e es c)
unfolding cross_round
cross_round-left c e es lt =
    let t : leb c.byte_need e.size ≡ true = ground arith in rw t (cross_enough-more c e es lt)

pub used_up-IsValid :
    (c : Cross) (e : QueueElem) (es : List QueueElem)
    → IsValid c.queue
    → c.queue.elements ≡ e ∷ es
    → IsValid (used_up e es c).queue
unfolding used_up
used_up-IsValid c e es v h =
    let w : All IsElem (e ∷ es) = rw h at v.sound in
    record {
      counted =
          omega (arith, v.counted, v.fits, length-le-sizes c.queue.elements v.sound, ap length h);
      totalled = omega (arith, v.totalled, v.fits, ap sizes h);
      fits = omega (arith, v.fits, ap sizes h);
      sound = w.1;
    }

pub left_over-IsValid :
    (c : Cross) (e : QueueElem) (es : List QueueElem)
    → IsValid c.queue
    → c.queue.elements ≡ e ∷ es
    → c.byte_need < e.size
    → IsValid (left_over e es c).queue
unfolding left_over consumed
left_over-IsValid c e es v h lt =
    let w : All IsElem (e ∷ es) = rw h at v.sound in
    record {
      counted = omega (arith, v.counted, ap length h);
      totalled = omega (arith, v.totalled, v.fits, ap sizes h);
      fits = omega (arith, v.fits, ap sizes h);
      sound = (consumed-IsElem e c.byte_need w.0 lt, w.1);
    }
