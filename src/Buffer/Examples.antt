-- ===== src/Buffer/Examples.antt =====
-- Concrete queues, on which the theorems about src/buffer_queue.cpp apply.
use ashe.Base.{ℕ, ◌+◌, ◌<◌, ◌^◌, ◌≡◌, refl, true, [], ◌∷◌, ◌++◌, some, arith, drop}
use ashe.Buffer.{
  QueueElem, BufferQueue, Copied, create, push_element_to_front, push_element_to_last,
  pop_element_from_front, pop_element_from_last, link_last,
}
use ashe.Buffer.Invariant.{IsElem, IsValid, contents, messages, sizes}
use ashe.Buffer.Messages.{push_refines, pop_refines, Pops, at_front, at_last}
use ashe.Buffer.Stream.{CrossResult, pop_data_cross_element, remove_data}
use ashe.Buffer.Stream.Read.{pop_data_cross_element-refines, ReadsStream}
use ashe.Buffer.Stream.Remove.{remove_data-refines, removed_count}
use ashe.Buffer.History.{Reach-IsValid, here, next, push_last, pop_front}

-- A queue of two elements, from the first of which a byte has been read.
abbrev part_read : QueueElem
part_read = record { data_start = 9 ∷ 1 ∷ 2 ∷ []; data_read = 1; size = 2 }

abbrev unread : QueueElem
unread = record { data_start = 3 ∷ 4 ∷ 5 ∷ []; data_read = 0; size = 3 }

abbrev two_elements : BufferQueue
two_elements = record {
  queue_name = [];
  elements = part_read ∷ unread ∷ [];
  element_num = 2;
  total_data_size = 5;
}

abbrev part_read-IsElem : IsElem part_read
part_read-IsElem = record { nonempty = omega arith; extent = refl }

abbrev unread-IsElem : IsElem unread
unread-IsElem = record { nonempty = omega arith; extent = refl }

abbrev two_elements-IsValid : IsValid two_elements
two_elements-IsValid = record {
  counted = refl;
  totalled = refl;
  fits = omega arith;
  sound = (part_read-IsElem, (unread-IsElem, tt));
}

push_refines_example :
    let f = push_element_to_front true true (some (6 ∷ 7 ∷ [])) 2 two_elements in
    let l = push_element_to_last true true (some (6 ∷ 7 ∷ [])) 2 two_elements in
    (f.1 ≡ true)
    × IsValid f.0
    × (messages f.0 ≡ (6 ∷ 7 ∷ []) ∷ messages two_elements)
    × (l.1 ≡ true)
    × IsValid l.0
    × (messages l.0 ≡ messages two_elements ++ (6 ∷ 7 ∷ []) ∷ [])
push_refines_example =
    push_refines two_elements (6 ∷ 7 ∷ []) 2 two_elements-IsValid (omega arith) (omega arith)
      (omega arith)

pop_refines_example :
    Pops at_front true 1 two_elements (pop_element_from_front true 1 two_elements)
    × Pops at_last true 1 two_elements (pop_element_from_last true 1 two_elements)
pop_refines_example = pop_refines true 1 two_elements two_elements-IsValid

-- The first message, cut to a buffer of one byte.
abbrev front_byte : Copied
front_byte = record {
  queue = record { queue_name = []; elements = unread ∷ []; element_num = 1; total_data_size = 3 };
  written = 1 ∷ [];
  rvalue = 1;
}

pops_first_byte : pop_element_from_front true 1 two_elements ≡ some front_byte
unfolding pop_element_from_front
pops_first_byte = refl

pop_data_cross_element-refines_example :
    (r : CrossResult) × (pop_data_cross_element 3 true two_elements ≡ some r)
    × ReadsStream 3 true two_elements r
pop_data_cross_element-refines_example =
    pop_data_cross_element-refines 3 true two_elements two_elements-IsValid

remove_data-refines_example :
    (p : BufferQueue) × (r : ℕ) × (remove_data 9 two_elements ≡ some (p, r))
    × IsValid p
    × (contents p ≡ drop 9 (contents two_elements))
    × (r ≡ removed_count 9 two_elements)
remove_data-refines_example = remove_data-refines 9 two_elements two_elements-IsValid

-- More is asked for than the two elements hold, and the result is 3.
removes_three : removed_count 9 two_elements ≡ 3
unfolding contents
removes_three = refl

-- A new queue, one message pushed and popped again.
abbrev pushed : BufferQueue
pushed = (push_element_to_last true true (some (7 ∷ 8 ∷ [])) 2 (create [])).0

abbrev popped : Copied
popped = record { queue = create []; written = 7 ∷ 8 ∷ []; rvalue = 2 }

pops_pushed : pop_element_from_front true 4 pushed ≡ some popped
unfolding pop_element_from_front push_element_to_last create link_last
pops_pushed = refl

pushed_fits : sizes (create []).elements + 2 < 2 ^ 64
unfolding create
pushed_fits = omega arith

Reach-IsValid_example : IsValid (create [])
Reach-IsValid_example = Reach-IsValid [] (
    next (next here (push_last true true (7 ∷ 8 ∷ []) 2 (omega arith) pushed_fits))
      (pop_front true 4 popped pops_pushed))
