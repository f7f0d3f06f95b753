-- ===== src/Loop/Pump/Places.antt =====
-- Where the posted tasks are: none is lost, and none is run twice.
use ashe.Base.{ℕ, ◌+◌, ◌≡◌, refl, ap, Bool, true, false, List, [], ◌∷◌, ◌++◌, if◌then◌else◌, arith}
use ashe.Loop.{
  PendingTask, MessageLoop, create_loop, task_less, push_delayed, add_to_incoming_queue,
  add_to_delayed_work_queue,
}
use ashe.Loop.Pump.{World, create, Reach}
use ashe.Loop.Pump.Rule.{Books, Keeps, Reach-Holds}

-- A test of a task that does not see its sequence number, which the loop gives.
abbrev pub Pick : Type 0
Pick = ℕ → ℕ → Bool → Bool

module _ (f : Pick) where
  abbrev picks : PendingTask → ℕ
  picks t = if f t.callback t.delayed_run_time t.nestable then 1 else 0

  abbrev pub count : List PendingTask → ℕ
  count [] = 0
  count (t ∷ ts) = picks t + count ts

  count-append : (a b : List PendingTask) → count (a ++ b) ≡ count a + count b
  count-append [] b = omega arith
  count-append (t ∷ a) b = omega (arith, count-append a b)

  count-push_delayed :
      (t : PendingTask) (q : List PendingTask) → count (push_delayed t q) ≡ picks t + count q
  unfolding push_delayed
  count-push_delayed t [] = omega arith
  count-push_delayed t (x ∷ q) =
      elim (task_less x t)
        as (λ b.
          count (if b then t ∷ x ∷ q else x ∷ push_delayed t q) ≡ picks t + (picks x + count q)) [
            | true ↦ refl
            | false ↦ omega (arith, count-push_delayed t q)
          ]

  abbrev pub waiting : MessageLoop → ℕ
  waiting l =
      count l.incoming_queue
      + count l.work_queue
      + count l.delayed_work_queue
      + count l.deferred_queue

  abbrev Accounts : Books
  Accounts l p r = waiting l + count r ≡ count p

  Accounts-Keeps : Keeps Accounts
  unfolding create create_loop add_to_incoming_queue add_to_delayed_work_queue
  Accounts-Keeps = record {
    new = omega arith;
    flags = λ a n l p r h. h;
    posts = λ t l p r h.
        omega (arith, h, count-append p (t ∷ []), count-append l.incoming_queue (t ∷ []));
    swaps = λ l p r e h. omega (arith, h);
    delays = λ t ts l p r e d h. omega (
      arith,
      h,
      ap count e,
      count-push_delayed (record t { sequence_num = l.next_sequence_num }) l.delayed_work_queue,
    );
    defers =
        λ t ts l p r e d h. omega (arith, h, ap count e, count-append l.deferred_queue (t ∷ []));
    runs = λ t ts l p r e d n h. omega (arith, h, ap count e, count-append r (t ∷ []));
    defers_delayed =
        λ t ts l p r e d h. omega (arith, h, ap count e, count-append l.deferred_queue (t ∷ []));
    runs_delayed = λ t ts l p r e h. omega (arith, h, ap count e, count-append r (t ∷ []));
    runs_deferred = λ t ts l p r e h. omega (arith, h, ap count e, count-append r (t ∷ []));
  }

-- No task is lost and none is run twice: in every world that the loop reaches from its start, under
-- any posts of other threads, among the tasks that a test of callback, time and nestability picks,
-- those that wait in one of the four queues and those that were run are together as many as those
-- that were posted.
pub Reach-waiting :
    (f : Pick) {w : World} → Reach create w → waiting f w.loop + count f w.ran ≡ count f w.posted
Reach-waiting f r = Reach-Holds (Accounts f) (Accounts-Keeps f) r
