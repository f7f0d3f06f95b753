-- ===== src/Pool.antt =====
-- include/ashe/memory_pool.h: blocks of one size in two doubly linked lists, those in use and the
-- free ones. An address is a number, 0 the null pointer; the heap has the blocks that `operator new`
-- gave out and that are not deleted. `none` is an access through any other address. The template's
-- parameters are arguments, and so is what `operator new` returns. The mutex makes each call one
-- step.
pub mod Calls
pub mod Destroy
mod Examples
pub mod History
pub mod Links
pub mod Lists
use ashe.Base.{
  ℕ, zero, suc, ◌+◌, ◌-◌, ◌%◌, ◌^◌, Bool, true, false, not, List, Option, none, some, ◌==◌,
  if◌then◌else◌, ◌>>=◌, replicate,
}

-- `Element_` at the block's start, and the bytes behind it.
pub record Block : Type 0 where
  pub pre : ℕ
  pub next : ℕ
  pub body : List ℕ

abbrev pub Heap : Type 0
Heap = ℕ → Option Block

pub record Pool : Type 0 where
  pub data_element : ℕ
  pub free_element : ℕ

unfoldable pub write : Heap → ℕ → Option Block → Heap
write h p b a = if a == p then b else h a

unfoldable pub load : ℕ → Heap → Option Block
load p h = if p == 0 then none else h p

unfoldable pub set_pre : ℕ → ℕ → Heap → Option Heap
unfolding load write
set_pre p q h = do b ← load p h; some (write h p (some (record b { pre = q })))

unfoldable pub set_next : ℕ → ℕ → Heap → Option Heap
unfolding load write
set_next p q h = do b ← load p h; some (write h p (some (record b { next = q })))

-- `if (p) p->pre = q;`
unfoldable pub set_pre_of : ℕ → ℕ → Heap → Option Heap
unfolding set_pre
set_pre_of p q h = if p == 0 then some h else set_pre p q h

unfoldable pub set_next_of : ℕ → ℕ → Heap → Option Heap
unfolding set_next
set_next_of p q h = if p == 0 then some h else set_next p q h

unfoldable pub create : Pool
create = record { data_element = 0; free_element = 0 }

-- `sizeof(element_type)` and `alignof(element_type)`.
abbrev pub element_size : ℕ
element_size = 16

abbrev pub element_align : ℕ
element_align = 8

unfoldable pub pad_pointer : ℕ → ℕ → ℕ
pad_pointer p align = (align + 2 ^ 64 - p) % 2 ^ 64 % align

-- The pointer that the caller gets for a block.
unfoldable pub body_of : ℕ → ℕ
unfolding pad_pointer
body_of p = let body = p + element_size in body + pad_pointer body element_align

-- `fresh` and `body` are the address and the bytes of the block that `operator new` returns.
unfoldable pub allocate_block : ℕ → List ℕ → Pool → Heap → Option (Pool × Heap)
unfolding write set_pre_of set_next
allocate_block fresh body pool h = do
  let h = write h fresh (some (record { pre = 0; next = 0; body = body }))
  h ← set_pre_of pool.data_element fresh h
  h ← set_next fresh pool.data_element h
  some (record pool { data_element = fresh }, h)

-- The free block on top goes to the blocks in use.
unfoldable pub reuse : Pool → Heap → Option (Pool × Heap)
unfolding load set_pre_of set_next set_pre
reuse pool h = do
  let tmp = pool.free_element
  b ← load tmp h
  h ← set_pre_of b.next 0 h
  h ← set_next tmp pool.data_element h
  h ← set_pre_of pool.data_element tmp h
  h ← set_pre tmp 0 h
  some (record { data_element = tmp; free_element = b.next }, h)

unfoldable pub allocate : ℕ → List ℕ → Pool → Heap → Option (ℕ × Pool × Heap)
unfolding allocate_block reuse body_of
allocate fresh body pool h =
    if not (pool.free_element == 0)
    then (do (pool', h') ← reuse pool h; some (body_of pool.free_element, pool', h'))
    else (do
      (pool', h') ← allocate_block fresh body pool h
      some (body_of pool'.data_element, pool', h'))

-- `memset` over the body, if `ZeroOnDeallocate`.
unfoldable pub clear_body : ℕ → Bool → ℕ → Heap → Option Heap
unfolding load write
clear_body block_size zeroes p h =
    if zeroes
    then (do
      b ← load p h
      some (write h p (some (record b { body = replicate (block_size - element_size) 0 }))))
    else some h

-- Out of the list of blocks in use, and on top of the free ones.
unfoldable pub unlink : ℕ → Pool → Heap → Option (Pool × Heap)
unfolding load set_next_of set_pre_of
unlink p pool h = do
  b ← load p h
  h ← set_next_of b.pre b.next h
  h ← set_pre_of b.next b.pre h
  some (if b.pre == 0 then record pool { data_element = b.next } else pool, h)

unfoldable pub push_free : ℕ → Pool → Heap → Option (Pool × Heap)
unfolding set_pre set_next set_pre_of
push_free p pool h = do
  h ← set_pre p 0 h
  h ← set_next p pool.free_element h
  h ← set_pre_of pool.free_element p h
  some (record pool { free_element = p }, h)

unfoldable pub deallocate : ℕ → Bool → ℕ → Pool → Heap → Option (Pool × Heap)
unfolding clear_body unlink push_free
deallocate block_size zeroes p pool h = if p == 0 then some (pool, h) else (do
  let element = p - element_size
  h ← clear_body block_size zeroes element h
  (pool, h) ← unlink element pool h
  push_free element pool h)

-- `operator delete`.
unfoldable pub delete : ℕ → Heap → Option Heap
unfolding load write
delete p h = do b ← load p h; some (write h p none)

-- A loop of the destructor; `none` also where the fuel is used up.
unfoldable pub delete_list : ℕ → ℕ → Heap → Option Heap
unfolding load delete
delete_list zero curr h = none
delete_list (suc n) curr h =
    if curr == 0 then some h else (do b ← load curr h; h ← delete curr h; delete_list n b.next h)

unfoldable pub destroy : ℕ → Pool → Heap → Option Heap
unfolding delete_list
destroy fuel pool h = do
  h ← delete_list fuel pool.data_element h
  delete_list fuel pool.free_element h

-- The moves: the pool that takes over, and the one taken from.
unfoldable pub move_construct : Pool → Pool × Pool
unfolding create
move_construct from = (from, create)

unfoldable pub move_assign : Pool → Pool → Pool × Pool
move_assign pool from = (from, pool)
