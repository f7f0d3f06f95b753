-- ===== src/Pool/Examples.antt =====
-- A pool of include/ashe/memory_pool.h with one block in use and one free.
use mathlib.Core.Option
use ashe.Base.{
  ℕ, ◌+◌, ◌<◌, ◌≡◌, refl, true, false, [], ◌∷◌, Option, none, some, ◌==◌, if◌then◌else◌, arith,
  count, replicate,
}
use ashe.Pool.{Block, Heap, Pool, write, create, allocate, deallocate, destroy}
use ashe.Pool.Links.{block, bytes}
use ashe.Pool.Lists.{pool_of}
use ashe.Pool.Calls.{IsPool, zeroed, allocate_refines, deallocate_refines}
use ashe.Pool.Destroy.{destroy-deletes}
use ashe.Pool.History.{
  Held, Reach, fresh_pool, after, allocated, deallocated, IsSound, Reach-IsSound,
}

abbrev two_blocks : Heap
two_blocks a =
    if a == 64
    then some (block 0 0 (1 ∷ 2 ∷ []))
    else if a == 128
    then some (block 0 0 (3 ∷ 4 ∷ []))
    else none

two_blocks-IsPool : IsPool (64 ∷ []) (128 ∷ []) (pool_of (64 ∷ []) (128 ∷ [])) two_blocks
two_blocks-IsPool = record {
  top = refl;
  used_linked = (omega arith, (1 ∷ 2 ∷ []), refl, tt);
  free_linked = (omega arith, (3 ∷ 4 ∷ []), refl, tt);
  once = λ a. ground arith;
  placed = λ a k. ground (arith, k);
}

allocate_refines_example :
    (pool' : Pool) × (h' : Heap) × (allocate 192 (5 ∷ []) (pool_of (64 ∷ []) (128 ∷ [])) two_blocks
      ≡ some (144, pool', h'))
    × IsPool (128 ∷ 64 ∷ []) [] pool' h'
    × ((a : ℕ) → (a == 192) ≡ false → bytes (h' a) ≡ bytes (two_blocks a))
allocate_refines_example =
    allocate_refines (64 ∷ []) (128 ∷ []) (pool_of (64 ∷ []) (128 ∷ [])) two_blocks 192 (5 ∷ [])
      two_blocks-IsPool (omega arith, refl, omega arith) refl

deallocate_refines_example :
    (pool' : Pool) × (h' : Heap) × (deallocate 32 true 80 (pool_of (64 ∷ []) (128 ∷ [])) two_blocks
      ≡ some (pool', h'))
    × IsPool [] (64 ∷ 128 ∷ []) pool' h'
    × (bytes (h' 64) ≡ Option.map (zeroed 32 true) (bytes (two_blocks 64)))
    × ((a : ℕ) → (a == 64) ≡ false → bytes (h' a) ≡ bytes (two_blocks a))
deallocate_refines_example =
    deallocate_refines 32 true [] [] (128 ∷ []) 64 (pool_of (64 ∷ []) (128 ∷ [])) two_blocks
      two_blocks-IsPool

destroy-deletes_example :
    (g : Heap) × (destroy 2 (pool_of (64 ∷ []) (128 ∷ [])) two_blocks ≡ some g)
    × ((a : ℕ) → 0 < count a (64 ∷ []) + count a (128 ∷ []) → g a ≡ none)
    × ((a : ℕ) → count a (64 ∷ []) + count a (128 ∷ []) ≡ 0 → g a ≡ two_blocks a)
destroy-deletes_example =
    destroy-deletes 2 (64 ∷ []) (128 ∷ []) (pool_of (64 ∷ []) (128 ∷ [])) two_blocks
      two_blocks-IsPool (omega arith) (omega arith)

abbrev no_blocks : Heap
no_blocks a = none

abbrev cleared : Option Block
cleared = some (block 0 0 (replicate 16 0))

abbrev filled : Option Block
filled = some (block 0 0 (7 ∷ []))

abbrev one_block : Heap
one_block = write (write no_blocks 64 filled) 64 filled

abbrev one_free : Heap
one_free = write (write (write one_block 64 cleared) 64 cleared) 64 cleared

abbrev given_back : Held
given_back = record { pool = pool_of [] (64 ∷ []); heap = one_free; given = [] }

given_back-Reach : Reach 32 true given_back
unfolding allocate deallocate create
given_back-Reach =
    after (record { pool = pool_of (64 ∷ []) []; heap = one_block; given = 80 ∷ [] }) given_back
      (after (record { pool = create; heap = no_blocks; given = [] })
        (record { pool = pool_of (64 ∷ []) []; heap = one_block; given = 80 ∷ [] })
        (fresh_pool no_blocks)
        (allocated 64 (7 ∷ []) 80 create (pool_of (64 ∷ []) []) no_blocks one_block []
          (omega arith, refl, omega arith) refl refl))
      (deallocated 80 [] [] (pool_of (64 ∷ []) []) (pool_of [] (64 ∷ [])) one_block one_free refl)

Reach-IsSound_example : IsSound given_back
Reach-IsSound_example = Reach-IsSound 32 true given_back given_back-Reach
