-- ===== src/Buffer/Messages.antt =====
-- The calls at the two ends of the queue, against a sequence of messages: `pushElementToFront`,
-- `pushElementToLast`, `popElementFromFront`, `popElementFromLast` and the two `getDataFrom` calls.
use mathlib.Core.List.{map-append}
use ashe.Base.{
  ℕ, ◌+◌, ◌≤◌, ◌<◌, ◌^◌, ◌≡◌, refl, sym, ap, ◌∙◌, Bool, true, false, ◌⊎◌, inl, inr, List, [], ◌∷◌,
  ◌++◌, Option, none, some, arith, length, length-append, take, min, length-take, take_all,
  take-take, map, All, if◌then◌else◌, lt→ltb,
}
use ashe.Buffer.{
  QueueElem, BufferQueue, Copied, fill_element, push_element_to_front, push_element_to_last,
  pop_element_from_front, pop_element_from_last, get_data_from_front_element,
  get_data_from_last_element, readable, split_last, drop_front, pop_front_of, pop_last_of,
  link_last, link_front, copy_size,
}
use ashe.Buffer.Invariant.{
  IsElem, IsValid, messages, sizes, length-le-sizes, sizes-append, All-init, length-readable,
}
use ashe.Buffer.Ends.{
  fill_element-IsElem, push_element_to_last-eq, push_element_to_front-eq, link_last-IsValid,
  link_front-IsValid, pop_last_of-append, pop_last-link_last, pop_front-link_front,
}

-- How many bytes a caller's buffer takes.
abbrev pub room_of : Bool → ℕ → ℕ
room_of has_buffer room = if has_buffer then room else 0

-- A call that took the message `m` off and left the queue `c.queue`.
pub record IsTaken (has_buffer : Bool) (room : ℕ) (m : List ℕ) (c : Copied) : Type 0 where
  pub valid : IsValid c.queue
  pub copied : c.written ≡ take (room_of has_buffer room) m
  pub counted : c.rvalue ≡ length c.written

drop_front-IsValid :
    (e : QueueElem) (es : List QueueElem) (q : BufferQueue)
    → IsValid q
    → length q.elements ≡ length es + 1
    → sizes q.elements ≡ e.size + sizes es
    → All IsElem es
    → IsValid (drop_front e es q)
unfolding drop_front
drop_front-IsValid e es q v n t s = record {
  counted = omega (arith, v.counted, length-le-sizes q.elements v.sound, v.fits);
  totalled = omega (arith, v.totalled, v.fits);
  fits = omega (arith, v.fits);
  sound = s;
}

-- The bytes copied from a sound element.
copy_size-take :
    (has_buffer : Bool) (room : ℕ) (e : QueueElem)
    → IsElem e
    → take (copy_size has_buffer room e) (readable e) ≡ take (room_of has_buffer room) (readable e)
copy_size-take false room e w = refl
copy_size-take true room e w =
    ground (arith, length-readable e w, take_all room (readable e), take_all e.size (readable e))

copy_size-length :
    (has_buffer : Bool) (room : ℕ) (e : QueueElem)
    → IsElem e
    → copy_size has_buffer room e ≡ length (take (copy_size has_buffer room e) (readable e))
copy_size-length b room e w =
    ground (arith, length-take (copy_size b room e) (readable e), length-readable e w)

-- On a valid queue, where both allocations succeed, `n` is positive and no more than the bytes
-- given, and the bytes held with these `n` fit `size_t`: both pushes return true, add the first
-- `n` bytes as one message at their end of the queue, and leave it valid.
pub push_refines :
    (q : BufferQueue) (bytes : List ℕ) (n : ℕ)
    → IsValid q
    → 0 < n
    → n ≤ length bytes
    → sizes q.elements + n < 2 ^ 64
    → let f = push_element_to_front true true (some bytes) n q in
      let l = push_element_to_last true true (some bytes) n q in
      (f.1 ≡ true)
      × IsValid f.0
      × (messages f.0 ≡ take n bytes ∷ messages q)
      × (l.1 ≡ true)
      × IsValid l.0
      × (messages l.0 ≡ messages q ++ take n bytes ∷ [])
push_refines q bytes n v pos h room =
    rw (push_element_to_front-eq q bytes n pos, push_element_to_last-eq q bytes n pos)
      (
        refl,
        link_front-IsValid q _ v (fill_element-IsElem bytes n pos h) (unfold fill_element in room),
        (unfold messages link_front fill_element in refl),
        refl,
        link_last-IsValid q _ v (fill_element-IsElem bytes n pos h) (unfold fill_element in room),
        (unfold messages link_last fill_element in map-append readable q.elements _),
      )

-- What a push is refused for.
abbrev pub Rejects : Bool → Bool → Option (List ℕ) → ℕ → Type 0
Rejects elem_ok data_ok p n = (p ≡ none) ⊎ ((n ≡ 0) ⊎ ((elem_ok ≡ false) ⊎ (data_ok ≡ false)))

-- A push that is refused returns false and leaves the queue as it was, at either end; any other
-- returns true.
pub push_refused :
    (elem_ok data_ok : Bool) (p : Option (List ℕ)) (n : ℕ) (q : BufferQueue)
    → (Rejects elem_ok data_ok p n
        → (push_element_to_front elem_ok data_ok p n q ≡ (q, false))
          × (push_element_to_last elem_ok data_ok p n q ≡ (q, false)))
      × (¬ Rejects elem_ok data_ok p n
          → ((push_element_to_front elem_ok data_ok p n q).1 ≡ true)
            × ((push_element_to_last elem_ok data_ok p n q).1 ≡ true))
unfolding push_element_to_front push_element_to_last
push_refused e d none n q = (λ h. ground arith, λ h. absurd (h (inl refl)))
push_refused e d (some bytes) n q = (λ h. ground arith, λ h. ground arith)

-- The first message comes off the front.
pop_front_takes :
    (has_buffer : Bool) (room : ℕ) (q : BufferQueue) (e : QueueElem) (es : List QueueElem)
    → IsValid q
    → q.elements ≡ e ∷ es
    → (c : Copied) × (pop_element_from_front has_buffer room q ≡ some c)
      × IsTaken has_buffer room (readable e) c
      × (c.queue.elements ≡ es)
unfolding pop_element_from_front
pop_front_takes b room q e es v h =
    let w : All IsElem (e ∷ es) = rw h at v.sound in
    let n = copy_size b room e in
    (
      record { queue = drop_front e es q; written = take n (readable e); rvalue = n },
      rw (h, pop_front_of) (rw (lt→ltb 0 q.element_num (omega (arith, v.counted, ap length h)))),
      record {
        valid =
            drop_front-IsValid e es q v (omega (arith, ap length h)) (omega (arith, ap sizes h))
              w.1;
        copied = copy_size-take b room e w.0;
        counted = copy_size-length b room e w.0;
      },
      (unfold drop_front in refl),
    )

-- The list of a valid queue that is not empty, seen from its end.
pub split_last-eq :
    (e : QueueElem) (es : List QueueElem) → e ∷ es ≡ (split_last e es).0 ++ (split_last e es).1 ∷ []
split_last-eq e [] = refl
split_last-eq e (f ∷ es) = ap (◌∷◌ e) (split_last-eq f es)

pop_last_takes :
    (has_buffer : Bool) (room : ℕ) (q : BufferQueue) (es : List QueueElem) (e : QueueElem)
    → IsValid q
    → q.elements ≡ es ++ e ∷ []
    → (c : Copied) × (pop_element_from_last has_buffer room q ≡ some c)
      × IsTaken has_buffer room (readable e) c
      × (c.queue.elements ≡ es)
unfolding pop_element_from_last
pop_last_takes b room q es e v h =
    let w : All IsElem (es ++ e ∷ []) = rw h at v.sound in
    let n = copy_size b room e in
    (
      record { queue = drop_front e es q; written = take n (readable e); rvalue = n },
      rw (lt→ltb 0 q.element_num (omega (arith, v.counted, ap length h, length-append es (e ∷ []))))
          (ap (λ l. pop_last_of b room l q) h ∙ pop_last_of-append b room es e q),
      record {
        valid =
            drop_front-IsValid e es q v (omega (arith, ap length h, length-append es (e ∷ [])))
              (omega (arith, ap sizes h, sizes-append es (e ∷ []))) (All-init es (e ∷ []) w).0;
        copied = copy_size-take b room e (All-init es (e ∷ []) w).1.0;
        counted = copy_size-length b room e (All-init es (e ∷ []) w).1.0;
      },
      (unfold drop_front in refl),
    )

-- A pop finds the queue empty, or takes a message off; `joins` says at which end.
abbrev pub Pops :
    (List (List ℕ) → List ℕ → List (List ℕ)) → Bool → ℕ → BufferQueue → Option Copied → Type 0
Pops joins has_buffer room q r =
    ((messages q ≡ []) × (r ≡ some (record { queue = q; written = []; rvalue = 0 })))
    ⊎ ((m : List ℕ) × (c : Copied) × (r ≡ some c)
        × (messages q ≡ joins (messages c.queue) m)
        × IsTaken has_buffer room m c)

abbrev pub at_front : List (List ℕ) → List ℕ → List (List ℕ)
at_front ms m = m ∷ ms

abbrev pub at_last : List (List ℕ) → List ℕ → List (List ℕ)
at_last ms m = ms ++ m ∷ []

-- On an empty queue a pop from either end returns 0 and changes nothing. On any other valid queue
-- a pop from the front takes the first message off, a pop from the end the last; what is written
-- is the start of the message that fits the caller's buffer, its length is returned, and the queue
-- left is valid.
pub pop_refines :
    (has_buffer : Bool) (room : ℕ) (q : BufferQueue)
    → IsValid q
    → Pops at_front has_buffer room q (pop_element_from_front has_buffer room q)
      × Pops at_last has_buffer room q (pop_element_from_last has_buffer room q)
pop_refines b room q v = go q.elements refl
  where
    go :
        (es : List QueueElem)
        → q.elements ≡ es
        → Pops at_front b room q (pop_element_from_front b room q)
          × Pops at_last b room q (pop_element_from_last b room q)
    go [] h =
        let z : q.element_num ≡ 0 = v.counted ∙ ap length h in
        (
          inl ((unfold messages in rw h), (unfold pop_element_from_front in rw z)),
          inl ((unfold messages in rw h), (unfold pop_element_from_last in rw z)),
        )
    go (e ∷ es) h =
        let (c, p, t, k) = pop_front_takes b room q e es v h in
        let seen = h ∙ split_last-eq e es in
        let (c', p', t', k') = pop_last_takes b room q _ _ v seen in
        (
          inr (
            readable e,
            c,
            p,
            (unfold messages in
                ap (map readable) h ∙ ap (λ l. readable e ∷ map readable l) (sym k)),
            t,
          ),
          inr (
            readable (split_last e es).1,
            c',
            p',
            (unfold messages in
                ap (map readable) seen
                ∙ map-append readable (split_last e es).0 _
                ∙ ap (λ l. map readable l ++ readable (split_last e es).1 ∷ []) (sym k')),
            t',
          ),
        )

-- On a valid queue, copying the first or the last message out writes and returns what the pop at
-- that end does, and changes nothing.
get_data_same :
    (has_buffer : Bool) (room : ℕ) (q : BufferQueue) (c : Copied)
    → IsValid q
    → (pop_element_from_front has_buffer room q ≡ some c
        → get_data_from_front_element has_buffer room q ≡ some (record c { queue = q }))
      × (pop_element_from_last has_buffer room q ≡ some c
          → get_data_from_last_element has_buffer room q ≡ some (record c { queue = q }))
get_data_same b room q c v = go q.elements refl
  where
    go :
        (es : List QueueElem)
        → q.elements ≡ es
        → (pop_element_from_front b room q ≡ some c
            → get_data_from_front_element b room q ≡ some (record c { queue = q }))
          × (pop_element_from_last b room q ≡ some c
              → get_data_from_last_element b room q ≡ some (record c { queue = q }))
    go [] h =
        unfold pop_element_from_front pop_element_from_last get_data_from_front_element
          get_data_from_last_element in
        (λ p. ground arith, λ p. ground arith)
    go (e ∷ es) h =
        unfold pop_element_from_front pop_element_from_last get_data_from_front_element
          get_data_from_last_element in
        (λ p. ground arith, λ p. ground arith)

-- On a valid queue, where `n` is positive and no more than the bytes given, and the bytes held
-- with these `n` fit `size_t`: a message pushed at an end and popped there comes back, cut to the
-- caller's buffer, and the queue is as it was.
pop-push :
    (q : BufferQueue) (bytes : List ℕ) (n room : ℕ)
    → IsValid q
    → 0 < n
    → n ≤ length bytes
    → sizes q.elements + n < 2 ^ 64
    → let r : Option Copied =
        some (record { queue = q; written = take (min room n) bytes; rvalue = min room n }) in
      (pop_element_from_front true room (push_element_to_front true true (some bytes) n q).0 ≡ r)
      × (pop_element_from_last true room (push_element_to_last true true (some bytes) n q).0 ≡ r)
pop-push q bytes n room v pos h fit =
    rw (push_element_to_front-eq q bytes n pos, push_element_to_last-eq q bytes n pos)
      (
        pop_front-link_front true room q _ v w (unfold fill_element in fit) ∙ same,
        pop_last-link_last true room q _ v w (unfold fill_element in fit) ∙ same,
      )
  where
    w : IsElem (fill_element bytes n)
    w = fill_element-IsElem bytes n pos h

    k : ℕ
    k = copy_size true room (fill_element bytes n)

    k-min : k ≡ min room n
    k-min = unfold fill_element in ground arith

    taken : take (min room n) (take n bytes) ≡ take (min room n) bytes
    taken = take-take (min room n) n bytes ∙ ap (λ j. take j bytes) (omega arith)

    same :
        ◌≡◌ {A = Option Copied}
          (some
            (record { queue = q; written = take k (readable (fill_element bytes n)); rvalue = k }))
          (some (record { queue = q; written = take (min room n) bytes; rvalue = min room n }))
    same = unfold fill_element in rw (k-min, taken)
