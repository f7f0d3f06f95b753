-- ===== src/Loop/Pump/Delays.antt =====
-- The order of the delayed tasks.
use ashe.Base.{
  ℕ, ◌+◌, ◌-◌, ◌%◌, ◌^◌, ◌≤◌, ◌<◌, ap, length, length-append, ◌≡◌, refl, subst, true, false, List,
  [], ◌∷◌, leb, if◌then◌else◌, All, arith,
}
use ashe.Loop.{
  PendingTask, MessageLoop, create_loop, task_less, push_delayed, add_to_incoming_queue,
  add_to_delayed_work_queue,
}
use ashe.Loop.Pump.{World, create, Reach}
use ashe.Loop.Pump.Rule.{Books, Keeps, Reach-Holds}

-- `a` is due before `b`, or at the same time and was put with the delayed tasks earlier.
abbrev pub Precedes : PendingTask → PendingTask → Type 0
Precedes a b =
    (leb a.delayed_run_time b.delayed_run_time ≡ true)
    × (a.delayed_run_time ≡ b.delayed_run_time → a.sequence_num < b.sequence_num)

abbrev pub IsOrdered : List PendingTask → Type 0
IsOrdered [] = Unit
IsOrdered (t ∷ ts) = All (Precedes t) ts × IsOrdered ts

abbrev Numbered : ℕ → List PendingTask → Type 0
Numbered n = All (λ t. t.sequence_num < n)

less-Precedes :
    (t x : PendingTask)
    → task_less x t ≡ true
    → x.sequence_num < t.sequence_num
    → t.sequence_num < 2 ^ 31
    → Precedes t x
unfolding task_less
less-Precedes t x h k small =
    let far : 2 ^ 31 ≤ (x.sequence_num + 2 ^ 32 - t.sequence_num) % 2 ^ 32 =
      omega (arith, k, small) in
    (ground (arith, h), λ e. ground (arith, h, e, far))

not_less-Precedes :
    (t x : PendingTask) → task_less x t ≡ false → x.sequence_num < t.sequence_num → Precedes x t
unfolding task_less
not_less-Precedes t x h k = (ground (arith, h), λ e. k)

Precedes-trans : (a b c : PendingTask) → Precedes a b → Precedes b c → Precedes a c
Precedes-trans a b c h k = (
  ground (arith, h.0, k.0),
  λ e.
      let ab : a.delayed_run_time ≡ b.delayed_run_time = ground (arith, e, h.0, k.0) in
      let bc : b.delayed_run_time ≡ c.delayed_run_time = omega (arith, e, ab) in
      omega (arith, h.1 ab, k.1 bc),
)

All-trans :
    (a b : PendingTask) (ts : List PendingTask)
    → Precedes a b
    → All (Precedes b) ts
    → All (Precedes a) ts
All-trans a b [] h k = tt
All-trans a b (c ∷ ts) h k = (Precedes-trans a b c h k.0, All-trans a b ts h k.1)

All-push_delayed :
    (P : PendingTask → Type 0) (t : PendingTask) (q : List PendingTask)
    → P t
    → All P q
    → All P (push_delayed t q)
unfolding push_delayed
All-push_delayed P t [] p h = (p, h)
All-push_delayed P t (x ∷ q) p h =
    elim (task_less x t) as (λ b. All P (if b then t ∷ x ∷ q else x ∷ push_delayed t q)) [
      | true ↦ (p, h)
      | false ↦ (h.0, All-push_delayed P t q p h.1)
    ]

push_delayed-IsOrdered :
    (t : PendingTask) (q : List PendingTask)
    → t.sequence_num < 2 ^ 31
    → Numbered t.sequence_num q
    → IsOrdered q
    → IsOrdered (push_delayed t q)
unfolding push_delayed
push_delayed-IsOrdered t [] small n h = (tt, tt)
push_delayed-IsOrdered t (x ∷ q) small n h =
    elim (task_less x t)
        as (λ b. task_less x t ≡ b → IsOrdered (if b then t ∷ x ∷ q else x ∷ push_delayed t q)) [
          | true ↦ λ e. let p = less-Precedes t x e n.0 small in ((p, All-trans t x q p h.0), h)
          | false ↦ λ e. (
            All-push_delayed (Precedes x) t q (not_less-Precedes t x e n.0) h.0,
            push_delayed-IsOrdered t q small n.1 h.1,
          )
        ]
      refl

Numbered-suc : (n : ℕ) (q : List PendingTask) → Numbered n q → Numbered (n + 1) q
Numbered-suc n [] h = tt
Numbered-suc n (t ∷ q) h = (omega (arith, h.0), Numbered-suc n q h.1)

-- While fewer than 2 ^ 31 tasks were posted, and so numbered.
abbrev Lined : Books
Lined l p r =
    length p < 2 ^ 31
    → IsOrdered l.delayed_work_queue
      × Numbered l.next_sequence_num l.delayed_work_queue
      × (l.next_sequence_num + (length l.work_queue + length l.incoming_queue) ≤ length p)

Lined-Keeps : Keeps Lined
unfolding create create_loop add_to_incoming_queue add_to_delayed_work_queue
Lined-Keeps = record {
  new = λ few. (tt, tt, omega arith);
  flags = λ a n l p r h. h;
  posts = λ t l p r h few.
      let longer = length-append p (t ∷ []) in
      let (o, n, c) = h (omega (arith, few, longer)) in
      (o, n, omega (arith, c, longer, length-append l.incoming_queue (t ∷ [])));
  swaps = λ l p r e h few. let (o, n, c) = h few in (o, n, omega (arith, c));
  delays = λ t ts l p r e d h few.
      let n = l.next_sequence_num in
      let t' : PendingTask = record t { sequence_num = n } in
      let (o, numbers, c) = h few in
      let rest : n + 1 + (length ts + length l.incoming_queue) ≤ length p =
        omega (arith, c, ap length e) in
      let next : n + 1 ≡ (n + 1) % 2 ^ 32 = omega (arith, few, rest) in
      (
        push_delayed-IsOrdered t' l.delayed_work_queue (omega (arith, few, rest)) numbers o,
        subst (λ k. Numbered k (push_delayed t' l.delayed_work_queue)) next
            (All-push_delayed (λ u. u.sequence_num < n + 1) t' l.delayed_work_queue (omega arith)
              (Numbered-suc n l.delayed_work_queue numbers)),
        omega (arith, rest, next),
      );
  defers = λ t ts l p r e d h few. let (o, n, c) = h few in (o, n, omega (arith, c, ap length e));
  runs = λ t ts l p r e d n h few. let (o, k, c) = h few in (o, k, omega (arith, c, ap length e));
  defers_delayed = λ t ts l p r e d h. popped t ts l p e h;
  runs_delayed = λ t ts l p r e h. popped t ts l p e h;
  runs_deferred = λ t ts l p r e h. h;
}
  where
    popped :
        (t : PendingTask) (ts : List PendingTask) (l : MessageLoop) (p : List PendingTask)
        → l.delayed_work_queue ≡ t ∷ ts
        → Lined l p []
        → Lined (record l { delayed_work_queue = ts }) p []
    popped t ts l p e h few =
        let (o, n, c) = h few in
        let k = subst (λ q. IsOrdered q × Numbered l.next_sequence_num q) e (o, n) in
        (k.0.1, k.1.1, c)

-- In every world that the loop reaches from its start while fewer than 2 ^ 31 tasks are posted, so
-- that the sequence numbers do not roll over, the queue of delayed tasks is in the order in which
-- they are due, and of tasks due at the same time the one that was put there earlier stands first.
pub Reach-IsOrdered :
    {w : World} → Reach create w → length w.posted < 2 ^ 31 → IsOrdered w.loop.delayed_work_queue
Reach-IsOrdered r few = (Reach-Holds Lined Lined-Keeps r few).0
