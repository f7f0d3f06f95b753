-- ===== src/Pool/Links.antt =====
-- Doubly linked segments of blocks, and what the writes of include/ashe/memory_pool.h do to them.
use ashe.Base.{
  ℕ, ◌+◌, ◌≤◌, ◌<◌, ◌≡◌, refl, ap, sym, ◌∙◌, false, List, [], ◌∷◌, ◌++◌, Option, none, some, ◌==◌,
  arith, count, Bool-cases, inl, inr, ==_iff,
}
use ashe.Pool.{Block, Heap, write, load, set_pre, set_next, set_pre_of, set_next_of}

abbrev pub block : ℕ → ℕ → List ℕ → Block
block pre next body = record { pre = pre; next = next; body = body }

abbrev pub first_or : ℕ → List ℕ → ℕ
first_or d [] = d
first_or d (x ∷ xs) = x

abbrev pub last_or : ℕ → List ℕ → ℕ
last_or d [] = d
last_or d (x ∷ xs) = last_or x xs

-- From the block behind `prev` on, the pointers lead through these blocks to `stop` and back.
abbrev pub Linked : Heap → ℕ → List ℕ → ℕ → Type 0
Linked h prev [] stop = Unit
Linked h prev (x ∷ xs) stop =
    (0 < x) × (b : List ℕ) × (h x ≡ some (block prev (first_or stop xs) b)) × Linked h x xs stop

pub count-append : (i : ℕ) (us vs : List ℕ) → count i us + count i vs ≡ count i (us ++ vs)
count-append i [] vs = omega arith
count-append i (u ∷ us) vs = let behind = count-append i us vs in omega (arith, behind)

pub count_self : (a : ℕ) (xs : List ℕ) → count a (a ∷ xs) ≡ 1 + count a xs
count_self a xs = ground arith

pub first_or-append : (d : ℕ) (xs ys : List ℕ) → first_or d (xs ++ ys) ≡ first_or (first_or d ys) xs
first_or-append d [] ys = refl
first_or-append d (x ∷ xs) ys = refl

-- A heap that is the same at the blocks of a segment.
pub Linked-frame :
    (h g : Heap) (prev : ℕ) (xs : List ℕ) (stop : ℕ)
    → ((a : ℕ) → 0 < count a xs → g a ≡ h a)
    → Linked h prev xs stop
    → Linked g prev xs stop
Linked-frame h g prev [] stop same l = tt
Linked-frame h g prev (x ∷ xs) stop same (p, b, e, l) = (
  p,
  b,
  same x (omega (arith, count_self x xs)) ∙ e,
  Linked-frame h g x xs stop (λ a k. same a (omega (arith, k))) l,
)

pub Linked-append :
    (h : Heap) (prev : ℕ) (xs ys : List ℕ) (stop : ℕ)
    → Linked h prev xs (first_or stop ys)
    → Linked h (last_or prev xs) ys stop
    → Linked h prev (xs ++ ys) stop
Linked-append h prev [] ys stop l m = m
Linked-append h prev (x ∷ xs) ys stop (p, b, e, l) m = (
  p,
  b,
  e ∙ ap (λ n. some (block prev n b)) (sym (first_or-append stop xs ys)),
  Linked-append h x xs ys stop l m,
)

pub Linked-split :
    (h : Heap) (prev : ℕ) (xs ys : List ℕ) (stop : ℕ)
    → Linked h prev (xs ++ ys) stop
    → Linked h prev xs (first_or stop ys) × Linked h (last_or prev xs) ys stop
Linked-split h prev [] ys stop l = (tt, l)
Linked-split h prev (x ∷ xs) ys stop (p, b, e, l) =
    let (f, s) = Linked-split h x xs ys stop l in
    ((p, b, e ∙ ap (λ n. some (block prev n b)) (first_or-append stop xs ys), f), s)

-- A block of a segment is in the heap, and null is not in it.
pub Linked-some :
    (h : Heap) (prev : ℕ) (xs : List ℕ) (stop a : ℕ)
    → Linked h prev xs stop
    → h a ≡ none
    → count a xs ≡ 0
Linked-some h prev [] stop a l n = refl
Linked-some h prev (x ∷ xs) stop a (p, b, e, l) n = elim (Bool-cases (x == a)) [
  | inl k ↦
      let same = (==_iff x a).0 k in
      let none_some : none ≡ some (block prev (first_or stop xs) b) = sym n ∙ ap h (sym same) ∙ e in
      cc none_some
  | inr k ↦ simp k (omega (arith, Linked-some h x xs stop a l n))
]

pub count_null :
    (h : Heap) (prev : ℕ) (xs : List ℕ) (stop : ℕ) → Linked h prev xs stop → count 0 xs ≡ 0
count_null h prev [] stop l = refl
count_null h prev (x ∷ xs) stop (p, b, e, l) = ground (arith, count_null h x xs stop l)

-- The blocks' bytes, without their pointers.
abbrev pub bytes : Option Block → Option (List ℕ)
bytes none = none
bytes (some b) = some b.body

abbrev pub Keeps : Heap → Heap → Type 0
Keeps h g = (a : ℕ) → bytes (g a) ≡ bytes (h a)

pub write_same : (h : Heap) (p : ℕ) (v : Option Block) → write h p v p ≡ v
unfolding write
write_same h p v = simp ((==_iff p p).1 refl) refl

pub write_other :
    (h : Heap) (p : ℕ) (v : Option Block) (a : ℕ) → (a == p) ≡ false → write h p v a ≡ h a
unfolding write
write_other h p v a d = simp (d) refl

pub write-none : (h : Heap) (p a : ℕ) → h a ≡ none → write h p none a ≡ none
unfolding write
write-none h p a gone = elim (Bool-cases (a == p)) [ inl k ↦ rw k refl | inr k ↦ rw k gone ]

pub write-Keeps :
    (h : Heap) (p : ℕ) (v : Option Block) → bytes v ≡ bytes (h p) → Keeps h (write h p v)
unfolding write
write-Keeps h p v same a = elim (Bool-cases (a == p)) [
  | inl k ↦ simp (k) (same ∙ ap (λ x. bytes (h x)) (sym ((==_iff a p).0 k)))
  | inr k ↦ simp (k) refl
]

pub no_null : (p : ℕ) → 0 < p → (p == 0) ≡ false
no_null p k = ground arith

pub differ : (a x : ℕ) (xs : List ℕ) → count a (x ∷ xs) ≡ 0 → (a == x) ≡ false
differ a x xs k = ground arith

pub elsewhere : (x a : ℕ) (xs : List ℕ) → count x xs ≡ 0 → 0 < count a xs → (a == x) ≡ false
elsewhere x a xs out in_xs = elim (Bool-cases (a == x)) [
  | inl k ↦
      let same = ap (λ n. count n xs) ((==_iff a x).0 k) in absurd (omega (arith, same, out, in_xs))
  | inr k ↦ k
]

pub load_block : (h : Heap) (p : ℕ) (b : Block) → 0 < p → h p ≡ some b → load p h ≡ some b
unfolding load
load_block h p b k e = simp (no_null p k) e

pub set_pre-some :
    (h : Heap) (p q : ℕ) (b : Block)
    → 0 < p
    → h p ≡ some b
    → set_pre p q h ≡ some (write h p (some (record b { pre = q })))
unfolding set_pre
set_pre-some h p q b k e = simp (load_block h p b k e) refl

pub set_next-some :
    (h : Heap) (p q : ℕ) (b : Block)
    → 0 < p
    → h p ≡ some b
    → set_next p q h ≡ some (write h p (some (record b { next = q })))
unfolding set_next
set_next-some h p q b k e = simp (load_block h p b k e) refl

-- What a write to some block of a segment leaves as it was.
abbrev pub Kept : Heap → Heap → List ℕ → Type 0
Kept h g xs = Keeps h g × ((a : ℕ) → count a xs ≡ 0 → g a ≡ h a)

pub write-Kept :
    (h : Heap) (x : ℕ) (xs : List ℕ) (b c : Block)
    → h x ≡ some b
    → b.body ≡ c.body
    → Kept h (write h x (some c)) (x ∷ xs)
write-Kept h x xs b c e same = (
  write-Keeps h x (some c) (ap some (sym same) ∙ ap bytes (sym e)),
  λ a k. write_other h x (some c) a (differ a x xs k),
)

-- A write at a block that the segment does not have.
pub write-Linked :
    (h : Heap) (x : ℕ) (v : Option Block) (prev : ℕ) (xs : List ℕ) (stop : ℕ)
    → count x xs ≡ 0
    → Linked h prev xs stop
    → Linked (write h x v) prev xs stop
write-Linked h x v prev xs stop out =
    Linked-frame h (write h x v) prev xs stop (λ a k. write_other h x v a (elsewhere x a xs out k))

-- `if (p) p->pre = q;` at the first block of a segment.
pub set_first_of :
    (h : Heap) (prev q : ℕ) (ys : List ℕ)
    → Linked h prev ys 0
    → ((a : ℕ) → count a ys ≤ 1)
    → (g : Heap) × (set_pre_of (first_or 0 ys) q h ≡ some g) × Linked g q ys 0 × Kept h g ys
unfolding set_pre_of
set_first_of h prev q [] l once = (h, refl, tt, (λ a. refl, λ a n. refl))
set_first_of h prev q (y ∷ ys) (p, b, e, l) once =
    let new = block q (first_or 0 ys) b in
    (
      write h y (some new),
      simp (no_null y p, e) refl,
      (
        p,
        b,
        write_same h y (some new),
        write-Linked h y (some new) y ys 0 (omega (arith, once y, count_self y ys)) l,
      ),
      write-Kept h y ys (block prev (first_or 0 ys) b) new e refl,
    )

-- `if (p) p->next = q;` at the last block of a segment.
pub set_last_of :
    (h : Heap) (prev stop q : ℕ) (xs : List ℕ)
    → Linked h prev xs stop
    → ((a : ℕ) → count a xs ≤ 1)
    → (g : Heap) × (set_next_of (last_or 0 xs) q h ≡ some g) × Linked g prev xs q × Kept h g xs
unfolding set_next_of
set_last_of h prev stop q [] l once = (h, refl, tt, (λ a. refl, λ a n. refl))
set_last_of h prev stop q (x ∷ []) (p, b, e, l) once =
    let new = block prev q b in
    (
      write h x (some new),
      simp (no_null x p, e) refl,
      (p, b, write_same h x (some new), tt),
      write-Kept h x [] (block prev stop b) new e refl,
    )
set_last_of h prev stop q (x ∷ y ∷ ys) (p, b, e, l) once =
    let (g, r, m, (keeps, frame)) =
      set_last_of h x stop q (y ∷ ys) l (λ a. omega (arith, once a)) in
    (
      g,
      r,
      (p, b, frame x (omega (arith, once x, count_self x (y ∷ ys))) ∙ e, m),
      (keeps, λ a k. frame a (omega (arith, k))),
    )
