-- ===== src/Pool/Lists.antt =====
-- The two lists of a pool of include/ashe/memory_pool.h, and what moving a block between them does.
use ashe.Base.{
  ℕ, ◌+◌, ◌≤◌, ◌<◌, ◌≡◌, refl, ap, sym, ◌∙◌, false, List, [], ◌∷◌, ◌++◌, some, arith, count, ◌==◌,
  if◌then◌else◌,
}
use ashe.Pool.{Block, Heap, Pool, write, allocate_block, reuse, unlink, push_free}
use ashe.Pool.Links.{
  block, first_or, last_or, Linked, count-append, count_self, Linked-frame, Linked-append,
  Linked-split, bytes, Keeps, Kept, write_same, write_other, write-Keeps, write-Linked, load_block,
  set_pre-some, set_next-some, set_first_of, set_last_of, no_null,
}

abbrev pub pool_of : List ℕ → List ℕ → Pool
pool_of used free = record { data_element = first_or 0 used; free_element = first_or 0 free }

-- A write at other blocks.
pub Kept-Linked :
    (h g : Heap) (ys : List ℕ) (prev : ℕ) (xs : List ℕ) (stop : ℕ)
    → Kept h g ys
    → ((a : ℕ) → count a xs + count a ys ≤ 1)
    → Linked h prev xs stop
    → Linked g prev xs stop
Kept-Linked h g ys prev xs stop (keeps, frame) once =
    Linked-frame h g prev xs stop (λ a k. frame a (omega (arith, k, once a)))

pub reuse_lem :
    (h : Heap) (used fs : List ℕ) (f : ℕ)
    → Linked h 0 used 0
    → Linked h 0 (f ∷ fs) 0
    → ((a : ℕ) → count a used + count a (f ∷ fs) ≤ 1)
    → (g : Heap) × (reuse (pool_of used (f ∷ fs)) h ≡ some (pool_of (f ∷ used) fs, g))
      × Linked g 0 (f ∷ used) 0
      × Linked g 0 fs 0
      × Keeps h g
unfolding reuse
reuse_lem h used fs f l (p, b, e, m) once =
    let not_used : count f used ≡ 0 = omega (arith, once f, count_self f fs) in
    let not_free : count f fs ≡ 0 = omega (arith, once f, count_self f fs) in
    let (h1, r1, m1, k1) = set_first_of h f 0 fs m (λ a. omega (arith, once a)) in
    let e1 : h1 f ≡ some (block 0 (first_or 0 fs) b) = k1.1 f not_free ∙ e in
    let l1 = Kept-Linked h h1 fs 0 used 0 k1 (λ a. omega (arith, once a)) l in
    let top = block 0 (first_or 0 used) b in
    let h2 = write h1 f (some top) in
    let (h3, r3, l3, k3) =
      set_first_of h2 0 f used (write-Linked h1 f (some top) 0 used 0 not_used l1)
        (λ a. omega (arith, once a)) in
    let e3 : h3 f ≡ some top = k3.1 f not_used ∙ write_same h1 f (some top) in
    let m3 =
      Kept-Linked h2 h3 used 0 fs 0 k3 (λ a. omega (arith, once a))
        (write-Linked h1 f (some top) 0 fs 0 not_free m1) in
    (
      write h3 f (some top),
      simp
          (
            load_block h f (block 0 (first_or 0 fs) b) p e,
            r1,
            set_next-some h1 f (first_or 0 used) (block 0 (first_or 0 fs) b) p e1,
            r3,
            set_pre-some h3 f 0 top p e3,
          )
          refl,
      (p, b, write_same h3 f (some top), write-Linked h3 f (some top) f used 0 not_used l3),
      write-Linked h3 f (some top) 0 fs 0 not_free m3,
      λ a.
          write-Keeps h3 f (some top) (ap bytes (sym e3)) a
          ∙ k3.0 a
          ∙ write-Keeps h1 f (some top) (ap bytes (sym e1)) a
          ∙ k1.0 a,
    )

-- A new block on top of those in use.
pub allocate_block_lem :
    (h : Heap) (used free : List ℕ) (fresh : ℕ) (body : List ℕ)
    → Linked h 0 used 0
    → Linked h 0 free 0
    → ((a : ℕ) → count a used + count a free ≤ 1)
    → 0 < fresh
    → count fresh used ≡ 0
    → count fresh free ≡ 0
    → (g : Heap) × (allocate_block fresh body (pool_of used free) h
        ≡ some (pool_of (fresh ∷ used) free, g))
      × Linked g 0 (fresh ∷ used) 0
      × Linked g 0 free 0
      × ((a : ℕ) → (a == fresh) ≡ false → bytes (g a) ≡ bytes (h a))
unfolding allocate_block
allocate_block_lem h used free fresh body l m once p not_used not_free =
    let raw = block 0 0 body in
    let h0 = write h fresh (some raw) in
    let (h1, r1, l1, k1) =
      set_first_of h0 0 fresh used (write-Linked h fresh (some raw) 0 used 0 not_used l)
        (λ a. omega (arith, once a)) in
    let m1 =
      Kept-Linked h0 h1 used 0 free 0 k1 (λ a. omega (arith, once a))
        (write-Linked h fresh (some raw) 0 free 0 not_free m) in
    let e1 : h1 fresh ≡ some raw = k1.1 fresh not_used ∙ write_same h fresh (some raw) in
    let top = block 0 (first_or 0 used) body in
    (
      write h1 fresh (some top),
      simp (r1, set_next-some h1 fresh (first_or 0 used) raw p e1) refl,
      (
        p,
        body,
        write_same h1 fresh (some top),
        write-Linked h1 fresh (some top) fresh used 0 not_used l1,
      ),
      write-Linked h1 fresh (some top) 0 free 0 not_free m1,
      λ a d.
          ap bytes (write_other h1 fresh (some top) a d)
          ∙ k1.0 a
          ∙ ap bytes (write_other h fresh (some raw) a d),
    )

last_some :
    (h : Heap) (x : ℕ) (xs : List ℕ) (stop : ℕ) → 0 < x → Linked h x xs stop → 0 < last_or x xs
last_some h x [] stop p l = p
last_some h x (y ∷ ys) stop p (k, b, e, l) = last_some h y ys stop k l

unlinked_pool :
    (h : Heap) (xs ys free : List ℕ) (p stop : ℕ)
    → Linked h 0 xs stop
    → (if last_or 0 xs == 0
        then record { data_element = first_or 0 ys; free_element = first_or 0 free }
        else pool_of (xs ++ p ∷ ys) free)
      ≡ pool_of (xs ++ ys) free
unlinked_pool h [] ys free p stop l = refl
unlinked_pool h (x ∷ xs) ys free p stop (k, b, e, l) =
    simp (no_null (last_or x xs) (last_some h x xs stop k l)) refl

-- A block out of the middle of those in use: its neighbours point at each other.
pub unlink_lem :
    (h : Heap) (xs ys free : List ℕ) (p : ℕ)
    → Linked h 0 (xs ++ p ∷ ys) 0
    → Linked h 0 free 0
    → ((a : ℕ) → count a (xs ++ p ∷ ys) + count a free ≤ 1)
    → (g : Heap) × (unlink p (pool_of (xs ++ p ∷ ys) free) h ≡ some (pool_of (xs ++ ys) free, g))
      × Linked g 0 (xs ++ ys) 0
      × Linked g 0 free 0
      × ((b : Block) × (g p ≡ some b))
      × Keeps h g
unfolding unlink
unlink_lem h xs ys free p l m once =
    let (lx, (k, b, e, ly)) = Linked-split h 0 xs (p ∷ ys) 0 l in
    let here = block (last_or 0 xs) (first_or 0 ys) b in
    let split : (a : ℕ) → count a xs + count a (p ∷ ys) + count a free ≤ 1 =
      λ a. omega (arith, once a, count-append a xs (p ∷ ys)) in
    let not_x : count p xs ≡ 0 = omega (arith, split p, count_self p ys) in
    let not_y : count p ys ≡ 0 = omega (arith, split p, count_self p ys) in
    let (h1, r1, lx1, k1) = set_last_of h 0 p (first_or 0 ys) xs lx (λ a. omega (arith, split a)) in
    let ly1 = Kept-Linked h h1 xs p ys 0 k1 (λ a. omega (arith, split a)) ly in
    let m1 = Kept-Linked h h1 xs 0 free 0 k1 (λ a. omega (arith, split a)) m in
    let (h2, r2, ly2, k2) = set_first_of h1 p (last_or 0 xs) ys ly1 (λ a. omega (arith, split a)) in
    let lx2 = Kept-Linked h1 h2 ys 0 xs (first_or 0 ys) k2 (λ a. omega (arith, split a)) lx1 in
    let m2 = Kept-Linked h1 h2 ys 0 free 0 k2 (λ a. omega (arith, split a)) m1 in
    (
      h2,
      simp (load_block h p here k e, r1, r2)
          (ap (λ q. some (q, h2)) (unlinked_pool h xs ys free p p lx)),
      Linked-append h2 0 xs ys 0 lx2 ly2,
      m2,
      (here, k2.1 p not_y ∙ k1.1 p not_x ∙ e),
      λ a. k2.0 a ∙ k1.0 a,
    )

-- A block on top of the free ones.
pub push_free_lem :
    (h : Heap) (used free : List ℕ) (p : ℕ) (b : Block)
    → Linked h 0 used 0
    → Linked h 0 free 0
    → ((a : ℕ) → count a used + count a free ≤ 1)
    → 0 < p
    → count p used ≡ 0
    → count p free ≡ 0
    → h p ≡ some b
    → (g : Heap) × (push_free p (pool_of used free) h ≡ some (pool_of used (p ∷ free), g))
      × Linked g 0 used 0
      × Linked g 0 (p ∷ free) 0
      × Keeps h g
unfolding push_free
push_free_lem h used free p b l m once k not_used not_free e =
    let b1 = record b { pre = 0 } in
    let h1 = write h p (some b1) in
    let b2 = record b1 { next = first_or 0 free } in
    let h2 = write h1 p (some b2) in
    let m2 =
      write-Linked h1 p (some b2) 0 free 0 not_free
        (write-Linked h p (some b1) 0 free 0 not_free m) in
    let l2 =
      write-Linked h1 p (some b2) 0 used 0 not_used
        (write-Linked h p (some b1) 0 used 0 not_used l) in
    let (h3, r3, m3, k3) = set_first_of h2 0 p free m2 (λ a. omega (arith, once a)) in
    let e1 = write_same h p (some b1) in
    (
      h3,
      simp (set_pre-some h p 0 b k e, set_next-some h1 p (first_or 0 free) b1 k e1, r3) refl,
      Kept-Linked h2 h3 free 0 used 0 k3 (λ a. omega (arith, once a)) l2,
      (k, b.body, k3.1 p not_free ∙ write_same h1 p (some b2), m3),
      λ a.
          k3.0 a
          ∙ write-Keeps h1 p (some b2) (ap bytes (sym e1)) a
          ∙ write-Keeps h p (some b1) (ap bytes (sym e)) a,
    )
