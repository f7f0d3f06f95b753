-- ===== src/Pool/Destroy.antt =====
-- The destructor of the pool in include/ashe/memory_pool.h.
use ashe.Base.{
  ℕ, zero, suc, ◌+◌, ◌≤◌, ◌<◌, ◌≡◌, refl, ap, sym, ◌∙◌, Bool-cases, inl, inr, List, [], ◌∷◌, none,
  some, ◌==◌, ==_iff, arith, count, length, ◌⊎◌,
}
use ashe.Pool.{Heap, Pool, write, delete, delete_list, destroy}
use ashe.Pool.Links.{
  first_or, Linked, Linked-frame, count_self, differ, write-none, write_same, write_other,
  write-Linked, no_null,
}
use ashe.Pool.Calls.{IsPool}

-- The heap without these blocks.
abbrev pub without : List ℕ → Heap → Heap
without [] h = h
without (x ∷ xs) h = without xs (write h x none)

delete_list_lem :
    (n : ℕ) (h : Heap) (prev : ℕ) (xs : List ℕ)
    → length xs < n
    → Linked h prev xs 0
    → ((a : ℕ) → count a xs ≤ 1)
    → delete_list n (first_or 0 xs) h ≡ some (without xs h)
unfolding delete_list delete
delete_list_lem zero h prev xs fuel l once = absurd (omega (arith, fuel))
delete_list_lem (suc n) h prev [] fuel l once = refl
delete_list_lem (suc n) h prev (x ∷ xs) fuel (k, b, e, l) once =
    simp (no_null x k, e)
      (delete_list_lem n (write h x none) x xs (omega (arith, fuel))
        (write-Linked h x none x xs 0 (omega (arith, once x, count_self x xs)) l)
        (λ a. omega (arith, once a)))

without-other : (xs : List ℕ) (h : Heap) (a : ℕ) → count a xs ≡ 0 → without xs h a ≡ h a
without-other [] h a out = refl
without-other (x ∷ xs) h a out =
    without-other xs (write h x none) a (omega (arith, out))
    ∙ write_other h x none a (differ a x xs out)

without-none : (xs : List ℕ) (h : Heap) (a : ℕ) → h a ≡ none → without xs h a ≡ none
without-none [] h a gone = gone
without-none (x ∷ xs) h a gone = without-none xs (write h x none) a (write-none h x a gone)

without_lem : (xs : List ℕ) (h : Heap) (a : ℕ) → 0 < count a xs → without xs h a ≡ none
without_lem [] h a in_xs = absurd (omega (arith, in_xs))
without_lem (x ∷ xs) h a in_xs = elim (Bool-cases (x == a)) [
  | inl s ↦
      without-none xs (write h x none) a
        (ap (write h x none) (sym ((==_iff x a).0 s)) ∙ write_same h x none)
  | inr s ↦ without_lem xs (write h x none) a (omega (arith, rw s at in_xs))
]

positive : (m n : ℕ) → 0 < m + n → (0 < m) ⊎ (0 < n)
positive zero n k = inr (omega (arith, k))
positive (suc m) n k = inl (omega arith)

-- The destructor of a pool, with fuel for more blocks than either list has, returns, so it
-- deletes no block twice and none that is not there. Every block of the two lists is then gone
-- from the heap, and what was at any other address is as it was.
pub destroy-deletes :
    (fuel : ℕ) (used free : List ℕ) (pool : Pool) (h : Heap)
    → IsPool used free pool h
    → length used < fuel
    → length free < fuel
    → (g : Heap) × (destroy fuel pool h ≡ some g)
      × ((a : ℕ) → 0 < count a used + count a free → g a ≡ none)
      × ((a : ℕ) → count a used + count a free ≡ 0 → g a ≡ h a)
unfolding destroy
destroy-deletes fuel used free pool h w enough_used enough_free =
    let once_free : (a : ℕ) → count a free ≤ 1 = λ a. omega (arith, w.once a) in
    let l =
      Linked-frame h (without used h) 0 free 0
        (λ a k. without-other used h a (omega (arith, k, w.once a))) w.free_linked in
    let e1 =
      delete_list_lem fuel h 0 used enough_used w.used_linked (λ a. omega (arith, w.once a)) in
    let e2 = delete_list_lem fuel (without used h) 0 free enough_free l once_free in
    (
      without free (without used h),
      rw (w.top, e1) e2,
      (λ a k. elim (positive (count a used) (count a free) k) [
        | inl u ↦ without-none free (without used h) a (without_lem used h a u)
        | inr f ↦ without_lem free (without used h) a f
      ]),
      λ a k.
          without-other free (without used h) a (omega (arith, k))
          ∙ without-other used h a (omega (arith, k)),
    )
