-- ===== src/Buffer/Ends.antt =====
-- The calls at the two ends of the queue: `pushElementToFront`, `pushElementToLast`,
-- `popElementFromFront`, `popElementFromLast`, `getDataFromFrontElement`, `getDataFromLastElement`.
use ashe.Base.{
  ℕ, ◌+◌, ◌≤◌, ◌<◌, ◌^◌, ◌≡◌, refl, ap, ◌∙◌, Bool, true, List, [], ◌∷◌, ◌++◌, some, arith, length,
  take, length-append, length-take, ltb, lt→ltb,
}
use ashe.Buffer.{
  QueueElem, BufferQueue, create, fill_element, push_element_to_front, push_element_to_last,
  split_last, pop_element_from_front, pop_element_from_last, readable, clear, drop_front,
  pop_last_of, add_size, link_front, link_last, copy_size,
}
use ashe.Buffer.Invariant.{IsElem, IsValid, sizes, length-le-sizes, sizes-append, All-append}

pub create-IsValid : (name : List ℕ) → IsValid (create name)
unfolding create
create-IsValid name = record { counted = refl; totalled = refl; fits = omega arith; sound = tt }

pub clear-IsValid : (q : BufferQueue) → IsValid (clear q).0
unfolding clear
clear-IsValid q = record { counted = refl; totalled = refl; fits = omega arith; sound = tt }

pub fill_element-IsElem :
    (bytes : List ℕ) (n : ℕ) → 0 < n → n ≤ length bytes → IsElem (fill_element bytes n)
unfolding fill_element
fill_element-IsElem bytes n pos h = record {
  nonempty = pos;
  extent = omega (arith, length-take n bytes);
}

-- With both allocations a push of at least one byte links the element.
pub push_element_to_last-eq :
    (q : BufferQueue) (bytes : List ℕ) (n : ℕ)
    → 0 < n
    → push_element_to_last true true (some bytes) n q ≡ (link_last (fill_element bytes n) q, true)
unfolding push_element_to_last
push_element_to_last-eq q bytes n pos = ground arith

pub push_element_to_front-eq :
    (q : BufferQueue) (bytes : List ℕ) (n : ℕ)
    → 0 < n
    → push_element_to_front true true (some bytes) n q ≡ (link_front (fill_element bytes n) q, true)
unfolding push_element_to_front
push_element_to_front-eq q bytes n pos = ground arith

pub link_last-IsValid :
    (q : BufferQueue) (e : QueueElem)
    → IsValid q
    → IsElem e
    → sizes q.elements + e.size < 2 ^ 64
    → IsValid (link_last e q)
unfolding link_last
link_last-IsValid q e v w room = record {
  counted =
      omega
        (arith, v.counted, length-le-sizes q.elements v.sound, length-append q.elements (e ∷ []));
  totalled = omega (arith, v.totalled, sizes-append q.elements (e ∷ []));
  fits = omega (arith, sizes-append q.elements (e ∷ []));
  sound = All-append q.elements (e ∷ []) v.sound (w, tt);
}

pub link_front-IsValid :
    (q : BufferQueue) (e : QueueElem)
    → IsValid q
    → IsElem e
    → sizes q.elements + e.size < 2 ^ 64
    → IsValid (link_front e q)
unfolding link_front
link_front-IsValid q e v w room = record {
  counted = omega (arith, v.counted, length-le-sizes q.elements v.sound);
  totalled = omega (arith, v.totalled);
  fits = omega arith;
  sound = (w, v.sound);
}

-- The end that is taken off again.
pub split_last-append :
    (e : QueueElem) (es : List QueueElem) (f : QueueElem)
    → split_last e (es ++ f ∷ []) ≡ (e ∷ es, f)
split_last-append e [] f = refl
split_last-append e (g ∷ es) f = rw (split_last-append g es f)

pub pop_last_of-append :
    (has_buffer : Bool) (room : ℕ) (es : List QueueElem) (e : QueueElem) (q : BufferQueue)
    → pop_last_of has_buffer room (es ++ e ∷ []) q
      ≡ some (record {
        queue = drop_front e es q;
        written = take (copy_size has_buffer room e) (readable e);
        rvalue = copy_size has_buffer room e;
      })
unfolding pop_last_of
pop_last_of-append b room [] e q = refl
pop_last_of-append b room (f ∷ es) e q = rw (split_last-append f es e)

-- Unlinking an element just linked restores the counters, across any wrap of `size_t`.
drop_front-link_last :
    (e : QueueElem) (q : BufferQueue)
    → IsValid q
    → sizes q.elements + e.size < 2 ^ 64
    → drop_front e q.elements (link_last e q) ≡ q
unfolding drop_front link_last
drop_front-link_last e q v h = ground (arith, length-le-sizes q.elements v.sound)

drop_front-link_front :
    (e : QueueElem) (q : BufferQueue)
    → IsValid q
    → sizes q.elements + e.size < 2 ^ 64
    → drop_front e q.elements (link_front e q) ≡ q
unfolding drop_front link_front
drop_front-link_front e q v h = ground (arith, length-le-sizes q.elements v.sound)

counted_link :
    (q : BufferQueue) (n : ℕ)
    → IsValid q
    → sizes q.elements + n < 2 ^ 64
    → 0 < n
    → ltb 0 (add_size q.element_num 1) ≡ true
counted_link q n v h pos = lt→ltb _ _ (omega (arith, v.counted, length-le-sizes q.elements v.sound))

pub pop_last-link_last :
    (has_buffer : Bool) (room : ℕ) (q : BufferQueue) (e : QueueElem)
    → IsValid q
    → IsElem e
    → sizes q.elements + e.size < 2 ^ 64
    → pop_element_from_last has_buffer room (link_last e q)
      ≡ some (record {
        queue = q;
        written = take (copy_size has_buffer room e) (readable e);
        rvalue = copy_size has_buffer room e;
      })
pop_last-link_last b room q e v w h =
    enters
    ∙ pop_last_of-append b room q.elements e (link_last e q)
    ∙ ap
        (λ p. some (record {
          queue = p;
          written = take (copy_size b room e) (readable e);
          rvalue = copy_size b room e;
        }))
        (drop_front-link_last e q v h)
  where
    enters :
        pop_element_from_last b room (link_last e q)
        ≡ pop_last_of b room (q.elements ++ e ∷ []) (link_last e q)
    enters = unfold pop_element_from_last link_last in rw (counted_link q e.size v h w.nonempty)

pub pop_front-link_front :
    (has_buffer : Bool) (room : ℕ) (q : BufferQueue) (e : QueueElem)
    → IsValid q
    → IsElem e
    → sizes q.elements + e.size < 2 ^ 64
    → pop_element_from_front has_buffer room (link_front e q)
      ≡ some (record {
        queue = q;
        written = take (copy_size has_buffer room e) (readable e);
        rvalue = copy_size has_buffer room e;
      })
pop_front-link_front b room q e v w h =
    enters
    ∙ ap
        (λ p. some (record {
          queue = p;
          written = take (copy_size b room e) (readable e);
          rvalue = copy_size b room e;
        }))
        (drop_front-link_front e q v h)
  where
    enters :
        pop_element_from_front b room (link_front e q)
        ≡ some (record {
          queue = drop_front e q.elements (link_front e q);
          written = take (copy_size b room e) (readable e);
          rvalue = copy_size b room e;
        })
    enters = unfold pop_element_from_front link_front in rw (counted_link q e.size v h w.nonempty)
