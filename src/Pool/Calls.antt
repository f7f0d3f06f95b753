-- ===== src/Pool/Calls.antt =====
-- What `allocate` and `deallocate` of include/ashe/memory_pool.h do to the lists of a pool.
use ashe.Base.{
  ℕ, ◌+◌, ◌-◌, ◌%◌, ◌^◌, ◌≤◌, ◌<◌, ◌≡◌, refl, ap, sym, subst, ◌∙◌, Bool, true, false, Bool-cases,
  inl, inr, List, [], ◌∷◌, ◌++◌, none, some, ◌==◌, ==_iff, if◌then◌else◌, replicate, arith, count,
}
use mathlib.Core.Option
use mathlib.Core.Option.{some-injective}
use ashe.Pool.{
  Block, Heap, Pool, write, element_size, element_align, pad_pointer, body_of, allocate, reuse,
  clear_body, unlink, push_free, deallocate,
}
use ashe.Pool.Links.{
  block, first_or, last_or, Linked, Linked-some, Linked-split, bytes, count-append, count_self,
  load_block, write_same, write_other, no_null,
}
use ashe.Pool.Lists.{pool_of, reuse_lem, allocate_block_lem, unlink_lem, push_free_lem}

-- Where `operator new` puts a block: aligned for the header, and below the end of memory.
abbrev pub IsPlaced : ℕ → Type 0
IsPlaced p = (0 < p) × (p % element_align ≡ 0) × (p + element_size < 2 ^ 64)

-- A pool whose lists are `used` and `free`, from the top.
pub record IsPool (used free : List ℕ) (pool : Pool) (h : Heap) : Type 0 where
  pub top : pool ≡ pool_of used free
  pub used_linked : Linked h 0 used 0
  pub free_linked : Linked h 0 free 0
  pub once : (a : ℕ) → count a used + count a free ≤ 1
  pub placed : (a : ℕ) → 0 < count a used + count a free → IsPlaced a

pub body_of-placed : (p : ℕ) → IsPlaced p → body_of p ≡ p + element_size
unfolding body_of pad_pointer
body_of-placed p (k, m, b) = omega (arith, k, m, b)

abbrev pub rest : List ℕ → List ℕ
rest [] = []
rest (x ∷ xs) = xs

allocate-reuse :
    (fresh : ℕ) (body : List ℕ) (pool pool' : Pool) (h h' : Heap)
    → (pool.free_element == 0) ≡ false
    → reuse pool h ≡ some (pool', h')
    → allocate fresh body pool h ≡ some (body_of pool.free_element, pool', h')
unfolding allocate
allocate-reuse fresh body pool pool' h h' k r = rw (r, k) refl

new_once :
    (used : List ℕ) (fresh a : ℕ)
    → count a used ≤ 1
    → count fresh used ≡ 0
    → count a (fresh ∷ used) ≤ 1
new_once used fresh a once out = elim (Bool-cases (fresh == a)) [
  | inl k ↦
      let same = ap (λ n. count n used) ((==_iff fresh a).0 k) in rw k (omega (arith, same, out))
  | inr k ↦ rw k (omega (arith, once))
]

new-IsPlaced :
    (used : List ℕ) (fresh a : ℕ)
    → IsPlaced fresh
    → ((a : ℕ) → 0 < count a used + 0 → IsPlaced a)
    → 0 < count a (fresh ∷ used) + 0
    → IsPlaced a
new-IsPlaced used fresh a new placed in_use = elim (Bool-cases (fresh == a)) [
  | inl k ↦ subst IsPlaced ((==_iff fresh a).0 k) new
  | inr k ↦ placed a (omega (arith, rw k at in_use))
]

-- A pool whose lists of blocks in use and of free blocks are `used` and `free`, on a heap that
-- has nothing at the address `operator new` would give, which is not null, aligned to 8 bytes
-- and below the end of memory: `allocate` returns the pointer behind the header of the free
-- block on top, or of the new one if there is none. The pool's lists are then `used` with that
-- block on top and `free` without it, well linked both ways, with no block twice and all
-- aligned; and no block's bytes have changed, but for the new block's.
pub allocate_refines :
    (used free : List ℕ) (pool : Pool) (h : Heap) (fresh : ℕ) (body : List ℕ)
    → IsPool used free pool h
    → IsPlaced fresh
    → h fresh ≡ none
    → (pool' : Pool) × (h' : Heap) × (allocate fresh body pool h
        ≡ some (first_or fresh free + element_size, pool', h'))
      × IsPool (first_or fresh free ∷ used) (rest free) pool' h'
      × ((a : ℕ) → (a == fresh) ≡ false → bytes (h' a) ≡ bytes (h a))
unfolding allocate
allocate_refines used [] pool h fresh body w new empty =
    let not_used = Linked-some h 0 used 0 fresh w.used_linked empty in
    let (g, r, l, m, keeps) =
      allocate_block_lem h used [] fresh body w.used_linked tt w.once new.0 not_used refl in
    (
      pool_of (fresh ∷ used) [],
      g,
      rw (w.top, r, body_of-placed fresh new) refl,
      record {
        top = refl;
        used_linked = l;
        free_linked = m;
        once = λ a. omega (arith, new_once used fresh a (omega (arith, w.once a)) not_used);
        placed = λ a k. new-IsPlaced used fresh a new w.placed k;
      },
      keeps,
    )
allocate_refines used (f ∷ fs) pool h fresh body w new empty =
    let (g, r, l, m, keeps) = reuse_lem h used fs f w.used_linked w.free_linked w.once in
    let here : IsPlaced f = w.placed f (omega (arith, count_self f fs)) in
    (
      pool_of (f ∷ used) fs,
      g,
      rw w.top (
          allocate-reuse fresh body (pool_of used (f ∷ fs)) (pool_of (f ∷ used) fs) h g
            (no_null f here.0) r
          ∙ ap (λ q. some (q, pool_of (f ∷ used) fs, g)) (body_of-placed f here)),
      record {
        top = refl;
        used_linked = l;
        free_linked = m;
        once = λ a. omega (arith, w.once a);
        placed = λ a k. w.placed a (omega (arith, k));
      },
      λ a d. keeps a,
    )

-- The bytes of a block are no part of a segment.
pub body-Linked :
    (h : Heap) (p : ℕ) (b : Block) (c : List ℕ) (prev : ℕ) (xs : List ℕ) (stop : ℕ)
    → h p ≡ some b
    → Linked h prev xs stop
    → Linked (write h p (some (record b { body = c }))) prev xs stop
body-Linked h p b c prev [] stop at_p l = tt
body-Linked h p b c prev (x ∷ xs) stop at_p (k, d, e, l) =
    let more = body-Linked h p b c x xs stop at_p l in
    elim (Bool-cases (x == p)) [
      | inl s ↦
          let same =
            some-injective b (block prev (first_or stop xs) d)
              (sym at_p ∙ sym (ap h ((==_iff x p).0 s)) ∙ e) in
          (
            k,
            c,
            simp ((==_iff x p).0 s) (write_same h p (some (record b { body = c })))
                ∙ ap (λ (n : Block). some (record n { body = c })) same,
            more,
          )
      | inr s ↦ (k, d, write_other h p (some (record b { body = c })) x s ∙ e, more)
    ]

abbrev pub zeroed : ℕ → Bool → List ℕ → List ℕ
zeroed block_size zeroes bytes = if zeroes then replicate (block_size - element_size) 0 else bytes

pub clear_lem :
    (block_size : ℕ) (zeroes : Bool) (h : Heap) (p : ℕ) (b : Block) (xs ys : List ℕ)
    → 0 < p
    → h p ≡ some b
    → Linked h 0 xs 0
    → Linked h 0 ys 0
    → (g : Heap) × (clear_body block_size zeroes p h ≡ some g)
      × Linked g 0 xs 0
      × Linked g 0 ys 0
      × (bytes (g p) ≡ some (zeroed block_size zeroes b.body))
      × ((a : ℕ) → (a == p) ≡ false → bytes (g a) ≡ bytes (h a))
unfolding clear_body
clear_lem block_size false h p b xs ys k e l m = (h, refl, l, m, ap bytes e, λ a d. refl)
clear_lem block_size true h p b xs ys k e l m =
    let zeros = replicate (block_size - element_size) 0 in
    let new = some (record b { body = zeros }) in
    (
      write h p new,
      simp (load_block h p b k e) refl,
      body-Linked h p b zeros 0 xs 0 e l,
      body-Linked h p b zeros 0 ys 0 e m,
      ap bytes (write_same h p new),
      λ a d. ap bytes (write_other h p new a d),
    )

deallocate-some :
    (block_size : ℕ) (zeroes : Bool) (p : ℕ) (pool pool1 pool2 : Pool) (h h1 h2 h3 : Heap)
    → clear_body block_size zeroes p h ≡ some h1
    → unlink p pool h1 ≡ some (pool1, h2)
    → push_free p pool1 h2 ≡ some (pool2, h3)
    → deallocate block_size zeroes (p + element_size) pool h ≡ some (pool2, h3)
unfolding deallocate
deallocate-some block_size zeroes p pool pool1 pool2 h h1 h2 h3 c u f =
    let back : p + element_size - element_size ≡ p = omega arith in
    simp (no_null (p + element_size) (omega arith), back, c, u) f

-- A pool that has a block in use, with `xs` in front of it in the list and `ys` behind:
-- `deallocate` of the pointer behind its header returns. The lists are then `xs ++ ys`, and the
-- free blocks with this one on top, well linked both ways, with no block twice and all aligned.
-- The block's bytes are zeros where the pool zeroes on deallocation and unchanged where it does
-- not, and no other block's bytes have changed.
pub deallocate_refines :
    (block_size : ℕ) (zeroes : Bool) (xs ys free : List ℕ) (p : ℕ) (pool : Pool) (h : Heap)
    → IsPool (xs ++ p ∷ ys) free pool h
    → (pool' : Pool) × (h' : Heap) × (deallocate block_size zeroes (p + element_size) pool h
        ≡ some (pool', h'))
      × IsPool (xs ++ ys) (p ∷ free) pool' h'
      × (bytes (h' p) ≡ Option.map (zeroed block_size zeroes) (bytes (h p)))
      × ((a : ℕ) → (a == p) ≡ false → bytes (h' a) ≡ bytes (h a))
deallocate_refines block_size zeroes xs ys free p pool h w =
    let split : (a : ℕ)
        → count a (xs ++ ys) + count a (p ∷ free) ≡ count a (xs ++ p ∷ ys) + count a free =
      λ a. omega (arith, count-append a xs ys, count-append a xs (p ∷ ys)) in
    let (lx, (k, d, e, ly)) = Linked-split h 0 xs (p ∷ ys) 0 w.used_linked in
    let (h1, r1, l1, m1, z1, k1) =
      clear_lem block_size zeroes h p (block (last_or 0 xs) (first_or 0 ys) d) (xs ++ p ∷ ys) free k
        e w.used_linked w.free_linked in
    let (h2, r2, l2, m2, (b, e2), k2) = unlink_lem h1 xs ys free p l1 m1 w.once in
    let alone : count p (xs ++ ys) + count p free ≡ 0 =
      omega (arith, w.once p, split p, count_self p free) in
    let (h3, r3, l3, m3, k3) =
      push_free_lem h2 (xs ++ ys) free p b l2 m2 (λ a. omega (arith, w.once a, split a)) k
        (omega (arith, alone)) (omega (arith, alone)) e2 in
    (
      pool_of (xs ++ ys) (p ∷ free),
      h3,
      rw w.top (
          deallocate-some block_size zeroes p (pool_of (xs ++ p ∷ ys) free)
            (pool_of (xs ++ ys) free) (pool_of (xs ++ ys) (p ∷ free)) h h1 h2 h3 r1 r2 r3),
      record {
        top = refl;
        used_linked = l3;
        free_linked = m3;
        once = λ a. omega (arith, w.once a, split a);
        placed = λ a in_pool. w.placed a (omega (arith, in_pool, split a));
      },
      k3 p ∙ k2 p ∙ z1 ∙ ap (λ o. Option.map (zeroed block_size zeroes) (bytes o)) (sym e),
      λ a other. k3 a ∙ k2 a ∙ k1 a other,
    )
