-- ===== src/Buffer/Stream.antt =====
-- src/buffer_queue.cpp: the calls that read across elements, `popDataCrossElement`, `removeData`,
-- `toOneBuffer` and the element sizes. Each `while` loop runs on fuel; one round more than there
-- are elements is enough, since every round but the last takes an element away.
pub mod Rounds
pub mod Read
pub mod Removal
pub mod Remove
pub mod Sizes
use ashe.Base.{
  ℕ, zero, suc, ◌+◌, ◌-◌, Bool, false, ◌&&◌, ◌||◌, not, List, [], ◌∷◌, ◌++◌, Option, none, some,
  ltb, leb, ◌==◌, if◌then◌else◌, ◌>>=◌, length, take,
}
use ashe.Buffer.{
  QueueElem, BufferQueue, add_size, sub_size, readable, split_last, pop_element_from_front,
}

-- The variables of the loop in `popDataCrossElement`: the queue, the bytes written through
-- `pBuffer`, `nBytesRead`, `nByteNeed` and `nOutBufferNum`.
pub record Cross : Type 0 where
  pub queue : BufferQueue
  pub written : List ℕ
  pub bytes_read : ℕ
  pub byte_need : ℕ
  pub out_buffer_num : ℕ

-- `popElementFromFront(nullptr, 0)` inside the loops.
throw_front : BufferQueue → Option BufferQueue
throw_front q = do c ← pop_element_from_front false 0 q; some c.queue

-- The branch where the first element has enough data.
cross_enough : QueueElem → List QueueElem → Cross → Option Cross
unfolding throw_front
cross_enough e rest c =
    let left = e.size - c.byte_need in
    let total = sub_size c.queue.total_data_size c.byte_need in
    let taken : Cross = record {
      queue = record c.queue {
        elements = record e { size = left } ∷ rest;
        total_data_size = total;
      };
      written = c.written ++ take c.byte_need (readable e);
      bytes_read = add_size c.bytes_read c.byte_need;
      byte_need = 0;
      out_buffer_num = c.out_buffer_num;
    } in
    if left == 0
    then (do
      q ← throw_front taken.queue
      some (record taken { queue = q; out_buffer_num = c.out_buffer_num + 1 }))
    else some (record taken {
      queue = record taken.queue {
        elements = record e { size = left; data_read = e.data_read + c.byte_need } ∷ rest;
      };
    })

-- The branch where the first element is used up.
cross_short : QueueElem → List QueueElem → Cross → Option Cross
unfolding throw_front
cross_short e rest c = do
  q ← throw_front (record c.queue {
    elements = record e { size = 0 } ∷ rest;
    total_data_size = sub_size c.queue.total_data_size e.size;
  })
  some (record {
    queue = q;
    written = c.written ++ take e.size (readable e);
    bytes_read = add_size c.bytes_read e.size;
    byte_need = c.byte_need - e.size;
    out_buffer_num = c.out_buffer_num + 1;
  })

-- One round of the loop; `none` is a read through a null `first_element_`.
pub cross_round : List QueueElem → Cross → Option Cross
unfolding cross_enough cross_short
cross_round [] c = none
cross_round (e ∷ rest) c =
    if leb c.byte_need e.size then cross_enough e rest c else cross_short e rest c

cross_loop : ℕ → Cross → Option Cross
unfolding cross_round
cross_loop zero c = none
cross_loop (suc fuel) c =
    let step = cross_round c.queue.elements c in
    elim step [
      | none ↦ none
      | some d ↦
          let more = cross_loop fuel d in
          if d.byte_need == 0 || d.queue.element_num == 0 then some d else more
    ]

-- `thrown` is what is stored through `pBufferIsThrown`, if anything is.
pub record CrossResult : Type 0 where
  pub queue : BufferQueue
  pub written : List ℕ
  pub rvalue : ℕ
  pub thrown : Option ℕ

start_cross : BufferQueue → ℕ → Cross
start_cross q n = record {
  queue = q;
  written = [];
  bytes_read = 0;
  byte_need = n;
  out_buffer_num = 0;
}

pub pop_data_cross_element : ℕ → Bool → BufferQueue → Option CrossResult
unfolding cross_loop start_cross
pop_data_cross_element n wants_thrown q =
    if not (q.element_num == 0) && ltb 0 q.total_data_size && ltb 0 n
    then (do
      c ← cross_loop (suc (length q.elements)) (start_cross q n)
      some (record {
        queue = c.queue;
        written = c.written;
        rvalue = c.bytes_read;
        thrown = if wants_thrown then some c.out_buffer_num else none;
      }))
    else some (record { queue = q; written = []; rvalue = 0; thrown = none })

-- One round of `removeData`: `stop` is the `break`.
pub data RemoveRound : Type 0 where
  stop : BufferQueue → RemoveRound
  again : BufferQueue → ℕ → RemoveRound

pub remove_round : List QueueElem → ℕ → BufferQueue → Option RemoveRound
unfolding throw_front
remove_round [] need q = none
remove_round (e ∷ rest) need q =
    if leb need e.size
    then (if e.size == need
        then (do p ← throw_front q; some (stop p))
        else some (
            stop (record q {
              elements = record e { size = e.size - need; data_read = e.data_read + need } ∷ rest;
              total_data_size = sub_size q.total_data_size need;
            })))
    else (do p ← throw_front q; some (again p (need - e.size)))

remove_loop : ℕ → ℕ → ℕ → BufferQueue → Option (BufferQueue × ℕ)
unfolding remove_round
remove_loop zero need rvalue q = none
remove_loop (suc fuel) need rvalue q =
    let step = remove_round q.elements need q in
    let rest : Option (BufferQueue × ℕ) = elim step [
      | none ↦ none
      | some (stop p) ↦ some (p, rvalue)
      | some (again p left) ↦ remove_loop fuel left (rvalue + 1) p
    ] in
    if ltb 0 q.total_data_size then rest else some (q, rvalue)

pub remove_data : ℕ → BufferQueue → Option (BufferQueue × ℕ)
unfolding remove_loop
remove_data n q =
    if ltb 0 q.element_num && ltb 0 q.total_data_size && ltb 0 n
    then remove_loop (suc (length q.elements)) n 1 q
    else some (q, 0)

front_size_of : List QueueElem → Option ℕ
front_size_of [] = none
front_size_of (e ∷ rest) = some e.size

-- No test for an empty queue: `none` is the read through null.
pub get_front_element_data_size : BufferQueue → Option ℕ
unfolding front_size_of
get_front_element_data_size q = front_size_of q.elements

last_size_of : List QueueElem → Option ℕ
last_size_of [] = none
last_size_of (e ∷ rest) = some (split_last e rest).1.size

pub get_last_element_data_size : BufferQueue → Option ℕ
unfolding last_size_of
get_last_element_data_size q = last_size_of q.elements

-- The bytes that the copying loop writes, from `remaind` and the element `p` on.
copy_all : ℕ → List QueueElem → List ℕ
copy_all remaind [] = []
copy_all remaind (e ∷ rest) =
    let more = copy_all (sub_size remaind e.size) rest in
    if ltb 0 remaind then take e.size (readable e) ++ more else []

-- What `*ppBuf` is set to, if it is set to a block, and the result.
pub to_one_buffer : Bool → Bool → BufferQueue → Option (List ℕ) × ℕ
unfolding copy_all
to_one_buffer has_pointer alloc_ok q =
    if not has_pointer
    then (none, 0)
    else if not alloc_ok
    then (none, 0)
    else (some (copy_all q.total_data_size q.elements), q.total_data_size)

pub to_one_buffer_with_null_ending : Bool → Bool → BufferQueue → Option (List ℕ) × ℕ
unfolding copy_all
to_one_buffer_with_null_ending has_pointer alloc_ok q =
    if not has_pointer
    then (none, 0)
    else if not alloc_ok
    then (none, 0)
    else (some (copy_all q.total_data_size q.elements ++ 0 ∷ []), add_size q.total_data_size 1)
