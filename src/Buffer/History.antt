-- ===== src/Buffer/History.antt =====
-- Any history of calls on one queue. The mutex makes each call one step.
use mathlib.Core.Option.{some-injective}
use ashe.Base.{
  ℕ, zero, suc, ◌+◌, ◌≤◌, ◌<◌, ◌^◌, ◌≡◌, refl, sym, ◌∙◌, subst, Bool, true, false, inl, inr, List,
  Option, some, arith, length,
}
use ashe.Buffer.{
  BufferQueue, Copied, create, clear, push_element_to_front, push_element_to_last,
  pop_element_from_front, pop_element_from_last,
}
use ashe.Buffer.Invariant.{IsValid, sizes}
use ashe.Buffer.Ends.{create-IsValid, clear-IsValid}
use ashe.Buffer.Messages.{push_refines, push_refused, pop_refines, Pops, Rejects, at_front, at_last}
use ashe.Buffer.Stream.{CrossResult, pop_data_cross_element, remove_data}
use ashe.Buffer.Stream.Read.{pop_data_cross_element-refines}
use ashe.Buffer.Stream.Remove.{remove_data-refines}

-- One call. A push reads no more than its caller owns, and all the bytes held fit the memory.
pub data Step (q : BufferQueue) : BufferQueue → Type 0 where
  push_front :
      (elem_ok data_ok : Bool) (bytes : List ℕ) (n : ℕ)
      → n ≤ length bytes
      → sizes q.elements + n < 2 ^ 64
      → Step q (push_element_to_front elem_ok data_ok (some bytes) n q).0
  push_last :
      (elem_ok data_ok : Bool) (bytes : List ℕ) (n : ℕ)
      → n ≤ length bytes
      → sizes q.elements + n < 2 ^ 64
      → Step q (push_element_to_last elem_ok data_ok (some bytes) n q).0
  pop_front :
      (has_buffer : Bool) (room : ℕ) (c : Copied)
      → pop_element_from_front has_buffer room q ≡ some c
      → Step q c.queue
  pop_last :
      (has_buffer : Bool) (room : ℕ) (c : Copied)
      → pop_element_from_last has_buffer room q ≡ some c
      → Step q c.queue
  pop_across :
      (n : ℕ) (wants_thrown : Bool) (r : CrossResult)
      → pop_data_cross_element n wants_thrown q ≡ some r
      → Step q r.queue
  remove : (n : ℕ) (p : BufferQueue) (r : ℕ) → remove_data n q ≡ some (p, r) → Step q p
  clear_all : Step q (clear q).0

pub data Reach (q : BufferQueue) : BufferQueue → Type 0 where
  here : Reach q q
  next : {p r : BufferQueue} → Reach q p → Step p r → Reach q r

refused-IsValid :
    (elem_ok data_ok : Bool) (bytes : List ℕ) (n : ℕ) (q : BufferQueue)
    → IsValid q
    → Rejects elem_ok data_ok (some bytes) n
    → IsValid (push_element_to_front elem_ok data_ok (some bytes) n q).0
      × IsValid (push_element_to_last elem_ok data_ok (some bytes) n q).0
refused-IsValid e d bytes n q v f =
    let (a, b) = (push_refused e d (some bytes) n q).0 f in
    (subst (λ r. IsValid r.0) (sym a) v, subst (λ r. IsValid r.0) (sym b) v)

push-IsValid :
    (elem_ok data_ok : Bool) (bytes : List ℕ) (n : ℕ) (q : BufferQueue)
    → IsValid q
    → n ≤ length bytes
    → sizes q.elements + n < 2 ^ 64
    → IsValid (push_element_to_front elem_ok data_ok (some bytes) n q).0
      × IsValid (push_element_to_last elem_ok data_ok (some bytes) n q).0
push-IsValid e d bytes zero q v h k = refused-IsValid e d bytes zero q v (inr (inl refl))
push-IsValid false d bytes (suc n) q v h k =
    refused-IsValid false d bytes (suc n) q v (inr (inr (inl refl)))
push-IsValid true false bytes (suc n) q v h k =
    refused-IsValid true false bytes (suc n) q v (inr (inr (inr refl)))
push-IsValid true true bytes (suc n) q v h k =
    let r = push_refines q bytes (suc n) v (omega arith) h k in (r.1, r.4)

pop-IsValid :
    (joins : List (List ℕ) → List ℕ → List (List ℕ)) (has_buffer : Bool) (room : ℕ)
    (q : BufferQueue) (c : Copied) (r : Option Copied)
    → IsValid q
    → Pops joins has_buffer room q r
    → r ≡ some c
    → IsValid c.queue
pop-IsValid joins b room q c r v (inl (_, e)) h =
    subst (λ (x : Copied). IsValid x.queue) (some-injective _ c (sym e ∙ h)) v
pop-IsValid joins b room q c r v (inr (m, d, e, _, t)) h =
    subst (λ (x : Copied). IsValid x.queue) (some-injective d c (sym e ∙ h)) t.valid

across-IsValid :
    (n : ℕ) (b : Bool) (q : BufferQueue) (r : CrossResult)
    → IsValid q
    → pop_data_cross_element n b q ≡ some r
    → IsValid r.queue
across-IsValid n b q r v h =
    let (s, e, t) = pop_data_cross_element-refines n b q v in
    subst (λ (x : CrossResult). IsValid x.queue) (some-injective s r (sym e ∙ h)) t.valid

remove-IsValid :
    (n : ℕ) (q p : BufferQueue) (r : ℕ) → IsValid q → remove_data n q ≡ some (p, r) → IsValid p
remove-IsValid n q p r v h =
    let (s, k, e, t, _, _) = remove_data-refines n q v in
    subst (λ (x : BufferQueue × ℕ). IsValid x.0) (some-injective (s, k) (p, r) (sym e ∙ h)) t

Step-IsValid : {q p : BufferQueue} → Step q p → IsValid q → IsValid p
Step-IsValid {q} (push_front e d bytes n h k) v = (push-IsValid e d bytes n q v h k).0
Step-IsValid {q} (push_last e d bytes n h k) v = (push-IsValid e d bytes n q v h k).1
Step-IsValid {q} (pop_front b room c h) v =
    pop-IsValid at_front b room q c _ v (pop_refines b room q v).0 h
Step-IsValid {q} (pop_last b room c h) v =
    pop-IsValid at_last b room q c _ v (pop_refines b room q v).1 h
Step-IsValid {q} (pop_across n b r h) v = across-IsValid n b q r v h
Step-IsValid {q} (remove n p r h) v = remove-IsValid n q p r v h
Step-IsValid {q} clear_all v = clear-IsValid q

-- The queue is well formed after any history of calls on a new one, where each push reads no more
-- than its caller owns and the bytes held fit `size_t`.
pub Reach-IsValid : (name : List ℕ) {q : BufferQueue} → Reach (create name) q → IsValid q
Reach-IsValid name here = create-IsValid name
Reach-IsValid name (next r s) = Step-IsValid s (Reach-IsValid name r)
