-- ===== src/Buffer.antt =====
-- src/buffer_queue.cpp and include/ashe/buffer_queue.h: a queue of owned buffers that can also be
-- read as one stream of bytes. The doubly linked list from `first_element_` to `last_element_` is
-- the list of its elements; the recursive mutex makes each call one step. A failing `malloc` is an
-- argument of the call, a null dereference is `none`.
pub mod Invariant
pub mod Ends
pub mod Messages
pub mod History
pub mod Stream
pub mod Examples
use ashe.Base.{
  ℕ, ◌+◌, ◌-◌, ◌%◌, ◌^◌, Bool, true, false, ◌&&◌, not, List, [], ◌∷◌, ◌++◌, Option, none, some, ltb,
  ◌==◌, if◌then◌else◌, take, drop,
}

-- `dataStartAddress` is the allocated block, `dataReadAddress` an offset into it.
pub record QueueElem : Type 0 where
  pub data_start : List ℕ
  pub data_read : ℕ
  pub size : ℕ

pub record BufferQueue : Type 0 where
  pub queue_name : List ℕ
  pub elements : List QueueElem
  pub element_num : ℕ
  pub total_data_size : ℕ

-- The arithmetic of `size_t`.
abbrev pub size_mod : ℕ
size_mod = 2 ^ 64

abbrev pub add_size : ℕ → ℕ → ℕ
add_size a b = (a + b) % size_mod

abbrev pub sub_size : ℕ → ℕ → ℕ
sub_size a b = (a + size_mod - b) % size_mod

-- The bytes that `memcpy` takes from an element's read address.
abbrev pub readable : QueueElem → List ℕ
readable e = drop e.data_read e.data_start

-- What a call writes to the caller's buffer, and the number that it returns.
pub record Copied : Type 0 where
  pub queue : BufferQueue
  pub written : List ℕ
  pub rvalue : ℕ

pub create : List ℕ → BufferQueue
create name = record { queue_name = name; elements = []; element_num = 0; total_data_size = 0 }

-- The element that both push calls fill: `memcpy(data, pData, nDataSize)`.
pub fill_element : List ℕ → ℕ → QueueElem
fill_element bytes n = record { data_start = take n bytes; data_read = 0; size = n }

-- The block under the lock: the element is counted and linked at its end.
pub link_front : QueueElem → BufferQueue → BufferQueue
link_front e q = record q {
  elements = e ∷ q.elements;
  element_num = add_size q.element_num 1;
  total_data_size = add_size q.total_data_size e.size;
}

pub link_last : QueueElem → BufferQueue → BufferQueue
link_last e q = record q {
  elements = q.elements ++ e ∷ [];
  element_num = add_size q.element_num 1;
  total_data_size = add_size q.total_data_size e.size;
}

-- `pData` is null or points to bytes; the two Booleans are the outcomes of the two `malloc`s.
pub push_element_to_front : Bool → Bool → Option (List ℕ) → ℕ → BufferQueue → BufferQueue × Bool
unfolding fill_element
push_element_to_front elem_ok data_ok none n q = (q, false)
push_element_to_front elem_ok data_ok (some bytes) n q =
    if n == 0
    then (q, false)
    else if not elem_ok
    then (q, false)
    else if not data_ok
    then (q, false)
    else (link_front (fill_element bytes n) q, true)

pub push_element_to_last : Bool → Bool → Option (List ℕ) → ℕ → BufferQueue → BufferQueue × Bool
unfolding fill_element
push_element_to_last elem_ok data_ok none n q = (q, false)
push_element_to_last elem_ok data_ok (some bytes) n q =
    if n == 0
    then (q, false)
    else if not elem_ok
    then (q, false)
    else if not data_ok
    then (q, false)
    else (link_last (fill_element bytes n) q, true)

-- What is copied from one element to a buffer of `room` bytes, or to none where it is null.
abbrev pub copy_size : Bool → ℕ → QueueElem → ℕ
copy_size has_buffer room e =
    if has_buffer && ltb 0 room then (if ltb room e.size then room else e.size) else 0

-- The last element, and those before it.
abbrev pub split_last : QueueElem → List QueueElem → List QueueElem × QueueElem
split_last e [] = ([], e)
split_last e (f ∷ r) = (e ∷ (split_last f r).0, (split_last f r).1)

-- Off the front: the list starts at the next element.
pub drop_front : QueueElem → List QueueElem → BufferQueue → BufferQueue
drop_front e rest q = record q {
  elements = rest;
  element_num = sub_size q.element_num 1;
  total_data_size = sub_size q.total_data_size e.size;
}

pub pop_front_of : Bool → ℕ → List QueueElem → BufferQueue → Option Copied
unfolding drop_front
pop_front_of has_buffer room [] q = none
pop_front_of has_buffer room (e ∷ rest) q =
    let n = copy_size has_buffer room e in
    some (record { queue = drop_front e rest q; written = take n (readable e); rvalue = n })

-- `none` is a read through a null `first_element_`.
pub pop_element_from_front : Bool → ℕ → BufferQueue → Option Copied
unfolding pop_front_of
pop_element_from_front has_buffer room q =
    if ltb 0 q.element_num
    then pop_front_of has_buffer room q.elements q
    else some (record { queue = q; written = []; rvalue = 0 })

pub pop_last_of : Bool → ℕ → List QueueElem → BufferQueue → Option Copied
unfolding drop_front
pop_last_of has_buffer room [] q = none
pop_last_of has_buffer room (e ∷ rest) q =
    let before = (split_last e rest).0 in
    let last = (split_last e rest).1 in
    let n = copy_size has_buffer room last in
    some (record { queue = drop_front last before q; written = take n (readable last); rvalue = n })

pub pop_element_from_last : Bool → ℕ → BufferQueue → Option Copied
unfolding pop_last_of
pop_element_from_last has_buffer room q =
    if ltb 0 q.element_num
    then pop_last_of has_buffer room q.elements q
    else some (record { queue = q; written = []; rvalue = 0 })

pub get_front_of : Bool → ℕ → List QueueElem → BufferQueue → Option Copied
get_front_of has_buffer room [] q = none
get_front_of has_buffer room (e ∷ rest) q =
    let n = copy_size has_buffer room e in
    some (record { queue = q; written = take n (readable e); rvalue = n })

pub get_data_from_front_element : Bool → ℕ → BufferQueue → Option Copied
unfolding get_front_of
get_data_from_front_element has_buffer room q =
    if ltb 0 q.element_num
    then get_front_of has_buffer room q.elements q
    else some (record { queue = q; written = []; rvalue = 0 })

pub get_last_of : Bool → ℕ → List QueueElem → BufferQueue → Option Copied
get_last_of has_buffer room [] q = none
get_last_of has_buffer room (e ∷ rest) q =
    let last = (split_last e rest).1 in
    let n = copy_size has_buffer room last in
    some (record { queue = q; written = take n (readable last); rvalue = n })

pub get_data_from_last_element : Bool → ℕ → BufferQueue → Option Copied
unfolding get_last_of
get_data_from_last_element has_buffer room q =
    if q.element_num == 0
    then some (record { queue = q; written = []; rvalue = 0 })
    else get_last_of has_buffer room q.elements q

pub clear : BufferQueue → BufferQueue × ℕ
clear q = (record q { elements = []; element_num = 0; total_data_size = 0 }, q.element_num)
