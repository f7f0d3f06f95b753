-- ===== src/Buffer/Invariant.antt =====
-- The invariant of the buffer queue, what it holds, and the facts about `size_t` that its
-- operations need.
use ashe.Base.{
  ℕ, ◌+◌, ◌-◌, ◌≤◌, ◌<◌, ◌^◌, ◌≡◌, refl, List, [], ◌∷◌, ◌++◌, append_assoc, arith, length, map,
  length-append, length-drop, All,
}
use ashe.Buffer.{QueueElem, BufferQueue, add_size, sub_size, readable}

-- The bytes left in an element reach from the read address to the end of its block.
pub record IsElem (e : QueueElem) : Type 0 where
  pub nonempty : 0 < e.size
  pub extent : e.data_read + e.size ≡ length e.data_start

abbrev pub sizes : List QueueElem → ℕ
sizes [] = 0
sizes (e ∷ es) = e.size + sizes es

-- The queue as one stream of bytes.
abbrev pub stream : List QueueElem → List ℕ
stream [] = []
stream (e ∷ es) = readable e ++ stream es

unfoldable pub contents : BufferQueue → List ℕ
contents q = stream q.elements

pub record IsValid (q : BufferQueue) : Type 0 where
  pub counted : q.element_num ≡ length q.elements
  pub totalled : q.total_data_size ≡ sizes q.elements
  pub fits : sizes q.elements < 2 ^ 64
  pub sound : All IsElem q.elements

pub length-readable : (e : QueueElem) → IsElem e → length (readable e) ≡ e.size
length-readable e v = omega (arith, length-drop e.data_read e.data_start, v.extent)

pub length-le-sizes : (es : List QueueElem) → All IsElem es → length es ≤ sizes es
length-le-sizes [] v = omega arith
length-le-sizes (e ∷ es) v = omega (arith, length-le-sizes es v.1, v.0.nonempty)

pub sizes-append : (es fs : List QueueElem) → sizes (es ++ fs) ≡ sizes es + sizes fs
sizes-append [] fs = omega arith
sizes-append (e ∷ es) fs = omega (arith, sizes-append es fs)

pub length-stream : (es : List QueueElem) → All IsElem es → length (stream es) ≡ sizes es
length-stream [] v = refl
length-stream (e ∷ es) v =
    omega
      (arith, length-append (readable e) (stream es), length-readable e v.0, length-stream es v.1)

pub stream-append : (es fs : List QueueElem) → stream (es ++ fs) ≡ stream es ++ stream fs
stream-append [] fs = refl
stream-append (e ∷ es) fs = rw (stream-append es fs, append_assoc)

pub All-append : (es fs : List QueueElem) → All IsElem es → All IsElem fs → All IsElem (es ++ fs)
All-append [] fs v w = w
All-append (e ∷ es) fs v w = (v.0, All-append es fs v.1 w)

-- The queue as a sequence of messages: what its elements have left to read.
unfoldable pub messages : BufferQueue → List (List ℕ)
messages q = map readable q.elements

pub All-init : (es fs : List QueueElem) → All IsElem (es ++ fs) → All IsElem es × All IsElem fs
All-init [] fs v = (tt, v)
All-init (e ∷ es) fs v = ((v.0, (All-init es fs v.1).0), (All-init es fs v.1).1)

-- Below the modulus the arithmetic of `size_t` is that of the numbers.
pub add_size-eq : (a b : ℕ) → a + b < 2 ^ 64 → add_size a b ≡ a + b
add_size-eq a b h = omega arith

pub sub_size-eq : (a b : ℕ) → b ≤ a → a < 2 ^ 64 → sub_size a b ≡ a - b
sub_size-eq a b h k = omega arith
