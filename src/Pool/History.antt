-- ===== src/Pool/History.antt =====
-- The calls on one pool of include/ashe/memory_pool.h, in any order a client may make them.
use ashe.Base.{
  ℕ, ◌+◌, ◌≡◌, refl, ap, ap₂, sym, subst, ◌∙◌, Bool, List, [], ◌∷◌, ◌++◌, none, some, arith, map,
}
use mathlib.Core.List.{head-eq_of_cons-eq, tail-eq_of_cons-eq}
use mathlib.Core.Option.{some-injective}
use ashe.Pool.{Block, Heap, Pool, write, create, element_size, allocate, deallocate}
use ashe.Pool.Links.{first_or}
use ashe.Pool.Calls.{IsPlaced, IsPool, body-Linked, rest, allocate_refines, deallocate_refines}

-- A pool, the heap, and the pointers that the client has.
pub record Held : Type 0 where
  pub pool : Pool
  pub heap : Heap
  pub given : List ℕ

pub data Step (block_size : ℕ) (zeroes : Bool) : Held → Held → Type 0 where
  allocated :
      (fresh : ℕ) (body : List ℕ) (p : ℕ) (pool pool' : Pool) (h h' : Heap) (given : List ℕ)
      → IsPlaced fresh
      → h fresh ≡ none
      → allocate fresh body pool h ≡ some (p, pool', h')
      → Step block_size zeroes
          (record { pool = pool; heap = h; given = given })
          (record { pool = pool'; heap = h'; given = p ∷ given })
  deallocated :
      (p : ℕ) (xs ys : List ℕ) (pool pool' : Pool) (h h' : Heap)
      → deallocate block_size zeroes p pool h ≡ some (pool', h')
      → Step block_size zeroes
          (record { pool = pool; heap = h; given = xs ++ p ∷ ys })
          (record { pool = pool'; heap = h'; given = xs ++ ys })
  -- The client writes into a block that it has.
  written :
      (p : ℕ) (b : Block) (bytes : List ℕ) (pool : Pool) (h : Heap) (given : List ℕ)
      → h p ≡ some b
      → Step block_size zeroes
          (record { pool = pool; heap = h; given = given })
          (record {
            pool = pool;
            heap = write h p (some (record b { body = bytes }));
            given = given;
          })

pub data Reach (block_size : ℕ) (zeroes : Bool) : Held → Type 0 where
  fresh_pool : (h : Heap) → Reach block_size zeroes (record { pool = create; heap = h; given = [] })
  after :
      (s t : Held)
      → Reach block_size zeroes s
      → Step block_size zeroes s t
      → Reach block_size zeroes t

-- The pointer to a block's bytes.
abbrev pub handed : ℕ → ℕ
handed p = p + element_size

abbrev pub IsSound : Held → Type 0
IsSound s =
    (used : List ℕ) × (free : List ℕ) × (s.given ≡ map handed used) × IsPool used free s.pool s.heap

-- A pointer among those handed out is some block's.
map-split :
    (used xs ys : List ℕ) (p : ℕ)
    → xs ++ p ∷ ys ≡ map handed used
    → (us : List ℕ) × (q : ℕ) × (vs : List ℕ) × (used ≡ us ++ q ∷ vs)
      × (p ≡ handed q)
      × (xs ++ ys ≡ map handed (us ++ vs))
map-split [] [] ys p e = cc e
map-split [] (x ∷ xs) ys p e = cc e
map-split (q ∷ used) [] ys p e = ([], q, used, refl, head-eq_of_cons-eq e, tail-eq_of_cons-eq e)
map-split (u ∷ used) (x ∷ xs) ys p e =
    let (us, q, vs, s, h, m) = map-split used xs ys p (tail-eq_of_cons-eq e) in
    (u ∷ us, q, vs, ap (λ l. u ∷ l) s, h, ap₂ (λ a l. a ∷ l) (head-eq_of_cons-eq e) m)

Step-IsSound :
    (block_size : ℕ) (zeroes : Bool) (s t : Held)
    → Step block_size zeroes s t
    → IsSound s
    → IsSound t
Step-IsSound block_size zeroes s t (allocated fresh body p pool pool' h h' given new empty done)
      (used, free, g, w) =
    let (pool1, h1, r, w1, k) = allocate_refines used free pool h fresh body w new empty in
    subst
      (λ (q : ℕ × Pool × Heap). IsSound (record { pool = q.1; heap = q.2; given = q.0 ∷ given }))
      (some-injective (first_or fresh free + element_size, pool1, h1) (p, pool', h') (sym r ∙ done))
      (first_or fresh free ∷ used, rest free, ap (λ l. handed (first_or fresh free) ∷ l) g, w1)
Step-IsSound block_size zeroes s t (deallocated p xs ys pool pool' h h' done) (used, free, g, w) =
    let (us, q, vs, split, here, left) = map-split used xs ys p g in
    let (pool1, h1, r, w1, z, k) =
      deallocate_refines block_size zeroes us vs free q pool h
        (subst (λ l. IsPool l free pool h) split w) in
    subst (λ (o : Pool × Heap). IsSound (record { pool = o.0; heap = o.1; given = xs ++ ys }))
      (some-injective (pool1, h1) (pool', h')
        (sym r ∙ ap (λ a. deallocate block_size zeroes a pool h) (sym here) ∙ done))
      (us ++ vs, q ∷ free, left, w1)
Step-IsSound block_size zeroes s t (written p b bytes pool h given at_p) (used, free, g, w) = (
  used,
  free,
  g,
  record {
    top = w.top;
    used_linked = body-Linked h p b bytes 0 used 0 at_p w.used_linked;
    free_linked = body-Linked h p b bytes 0 free 0 at_p w.free_linked;
    once = w.once;
    placed = w.placed;
  },
)

-- However a client allocates, gives back pointers that it has, in any order, and writes into
-- blocks, from an empty pool on: the pointers that it has are those behind the headers of the
-- blocks in use, from the top of the list, and the pool's two lists of blocks in use and of free
-- ones are well linked both ways, with no block twice in them and all aligned.
pub Reach-IsSound :
    (block_size : ℕ) (zeroes : Bool) (s : Held) → Reach block_size zeroes s → IsSound s
unfolding create
Reach-IsSound block_size zeroes s (fresh_pool h) = (
  [],
  [],
  refl,
  record {
    top = refl;
    used_linked = tt;
    free_linked = tt;
    once = λ a. omega arith;
    placed = λ a k. absurd (omega (arith, k));
  },
)
Reach-IsSound block_size zeroes s (after m t r step) =
    Step-IsSound block_size zeroes m t step (Reach-IsSound block_size zeroes m r)
