-- ===== src/Loop/Destroy.antt =====
-- src/message_loop/message_loop.cpp, the destructor of `MessageLoop`. `posts` are the tasks that the
-- deletion of a task posts.
use ashe.Base.{
  ℕ, zero, suc, ◌≡◌, refl, ap, sym, ◌∙◌, Bool, true, false, not, List, [], ◌∷◌, ◌++◌, append_assoc,
  append-nil, if◌then◌else◌, ◌==◌,
}
use ashe.Loop.{
  PendingTask, MessageLoop, is_empty, reload_work_queue, add_to_delayed_work_queue, delete_task,
  order_delayed, delete_tasks, delete_pending_tasks,
}

-- The rounds of its loop: the state and `did_work` behind them.
unfoldable pub destroy_loop :
    (PendingTask → List PendingTask) → ℕ → Bool → MessageLoop → MessageLoop × Bool
unfolding reload_work_queue delete_pending_tasks
destroy_loop posts zero did_work l = (l, did_work)
destroy_loop posts (suc n) did_work l =
    let once = (delete_pending_tasks posts (reload_work_queue l)).0 in
    let again = delete_pending_tasks posts once in
    let rest = destroy_loop posts n again.1 again.0 in if not again.1 then again else rest

unfoldable pub destroy : (PendingTask → List PendingTask) → MessageLoop → MessageLoop × Bool
unfolding destroy_loop
destroy posts l = destroy_loop posts 100 false l

-- The tasks without a delay, which are deleted first, and the delayed ones in the order in which
-- they would run.
abbrev pub prompt_ones : List PendingTask → List PendingTask
prompt_ones [] = []
prompt_ones (t ∷ ts) = if not (t.delayed_run_time == 0) then prompt_ones ts else t ∷ prompt_ones ts

abbrev pub with_delayed : List PendingTask → MessageLoop → MessageLoop
with_delayed [] l = l
with_delayed (t ∷ ts) l =
    with_delayed ts (if not (t.delayed_run_time == 0) then add_to_delayed_work_queue t l else l)

with_delayed-deferred :
    (ts : List PendingTask) (l : MessageLoop)
    → (with_delayed ts l).deferred_queue ≡ l.deferred_queue
unfolding add_to_delayed_work_queue
with_delayed-deferred [] l = refl
with_delayed-deferred (t ∷ ts) l =
    elim (t.delayed_run_time == 0)
      as (λ b.
        (with_delayed ts (if not b then add_to_delayed_work_queue t l else l)).deferred_queue
        ≡ l.deferred_queue) [
          | false ↦ with_delayed-deferred ts (add_to_delayed_work_queue t l)
          | true ↦ with_delayed-deferred ts l
        ]

module _ (posts : PendingTask → List PendingTask) where
  -- What the deletion of these tasks posts, in their order.
  abbrev pub all_posts : List PendingTask → List PendingTask
  all_posts [] = []
  all_posts (t ∷ ts) = posts t ++ all_posts ts

  delete_tasks-posts :
      (ts : List PendingTask) (l : MessageLoop)
      → delete_tasks posts ts l ≡ record l { incoming_queue = l.incoming_queue ++ all_posts ts }
  unfolding delete_tasks
  delete_tasks-posts [] l =
      ap (λ q. record l { incoming_queue = q }) (sym (append-nil l.incoming_queue))
  delete_tasks-posts (t ∷ ts) l =
      delete_tasks-posts ts (delete_task posts t l)
      ∙ ap (λ q. record l { incoming_queue = q })
          (append_assoc l.incoming_queue (posts t) (all_posts ts))

  order_delayed-posts :
      (ts : List PendingTask) (l : MessageLoop) (q : List PendingTask)
      → order_delayed posts ts (record l { incoming_queue = q })
        ≡ record (with_delayed ts l) { incoming_queue = q ++ all_posts (prompt_ones ts) }
  unfolding order_delayed add_to_delayed_work_queue
  order_delayed-posts [] l q = ap (λ q. record l { incoming_queue = q }) (sym (append-nil q))
  order_delayed-posts (t ∷ ts) l q =
      elim (t.delayed_run_time == 0)
        as (λ b.
          order_delayed posts ts (
            if not b
            then add_to_delayed_work_queue t (record l { incoming_queue = q })
            else delete_task posts t (record l { incoming_queue = q }))
          ≡ record (with_delayed ts (if not b then add_to_delayed_work_queue t l else l)) {
            incoming_queue = q ++ all_posts (if not b then prompt_ones ts else t ∷ prompt_ones ts);
          }) [
            | false ↦ order_delayed-posts ts (add_to_delayed_work_queue t l) q
            | true ↦
                order_delayed-posts ts l (q ++ posts t)
                ∙ ap (λ i. record (with_delayed ts l) { incoming_queue = i })
                    (append_assoc q (posts t) (all_posts (prompt_ones ts)))
          ]

  -- The loop with all that it deletes gone, and these tasks posted.
  abbrev cleared : MessageLoop → List PendingTask → MessageLoop
  cleared l i = record l {
    incoming_queue = i;
    work_queue = [];
    deferred_queue = [];
    delayed_work_queue = [];
  }

  delete_pending_tasks-cleared :
      (l : MessageLoop)
      → let m = with_delayed l.work_queue l in
        (delete_pending_tasks posts l).0
        ≡ cleared m (
            ((l.incoming_queue ++ all_posts (prompt_ones l.work_queue))
              ++ all_posts m.deferred_queue)
            ++ all_posts m.delayed_work_queue)
  unfolding delete_pending_tasks
  delete_pending_tasks-cleared l =
      let m = with_delayed l.work_queue l in
      let i = l.incoming_queue ++ all_posts (prompt_ones l.work_queue) in
      let l1 : MessageLoop = record m { incoming_queue = i; work_queue = [] } in
      let l2 : MessageLoop = record l1 {
        incoming_queue = i ++ all_posts m.deferred_queue;
        deferred_queue = [];
      } in
      let end = λ (y : MessageLoop). record (delete_tasks posts y.delayed_work_queue y) {
        delayed_work_queue = [];
      } in
      let middle = λ (y : MessageLoop). record (delete_tasks posts y.deferred_queue y) {
        deferred_queue = [];
      } in
      ap (λ (y : MessageLoop). end (middle (record y { work_queue = [] })))
        (order_delayed-posts l.work_queue l l.incoming_queue)
      ∙ ap (λ (y : MessageLoop). end (record y { deferred_queue = [] }))
          (delete_tasks-posts m.deferred_queue l1)
      ∙ ap (λ (y : MessageLoop). record y { delayed_work_queue = [] })
          (delete_tasks-posts m.delayed_work_queue l2)

-- Whatever tasks the deletion of tasks posts, the destructor's loop takes one round, and ends with
-- nothing left of the work queue, the deferred and the delayed tasks and with `did_work` false, as
-- it asserts. The incoming tasks are deleted too if the work queue was empty; and behind those that
-- are left stand the tasks that the deletions posted, which no round deletes: those of the work
-- queue's tasks without delay, then of the deferred tasks, then of the delayed ones in their order.
pub destroy-clears :
    (posts : PendingTask → List PendingTask) (l : MessageLoop)
    → let r = destroy posts l in
      let m = reload_work_queue l in
      (r ≡ destroy_loop posts 1 false l)
      × (r.1 ≡ false)
      × (r.0.work_queue ≡ [])
      × (r.0.deferred_queue ≡ [])
      × (r.0.delayed_work_queue ≡ [])
      × (r.0.incoming_queue
          ≡ ((m.incoming_queue ++ all_posts posts (prompt_ones m.work_queue))
              ++ all_posts posts l.deferred_queue)
            ++ all_posts posts (with_delayed m.work_queue m).delayed_work_queue)
      × (m.incoming_queue ≡ (if is_empty l.work_queue then [] else l.incoming_queue))
unfolding destroy delete_pending_tasks reload_work_queue
destroy-clears posts l =
    let m = reload_work_queue l in
    let d = with_delayed m.work_queue m in
    let i =
      ((m.incoming_queue ++ all_posts posts (prompt_ones m.work_queue))
        ++ all_posts posts d.deferred_queue)
      ++ all_posts posts d.delayed_work_queue in
    let ends : destroy posts l ≡ (cleared posts d i, false) =
      ap (round 99) (delete_pending_tasks-cleared posts m) ∙ round-cleared 99 d i in
    let once : destroy_loop posts 1 false l ≡ (cleared posts d i, false) =
      ap (round 0) (delete_pending_tasks-cleared posts m) ∙ round-cleared 0 d i in
    (
      ends ∙ sym once,
      ap (λ (r : MessageLoop × Bool). r.1) ends,
      ap (λ (r : MessageLoop × Bool). r.0.work_queue) ends,
      ap (λ (r : MessageLoop × Bool). r.0.deferred_queue) ends,
      ap (λ (r : MessageLoop × Bool). r.0.delayed_work_queue) ends,
      ap (λ (r : MessageLoop × Bool). r.0.incoming_queue) ends
          ∙ ap
              (λ q.
                ((m.incoming_queue ++ all_posts posts (prompt_ones m.work_queue))
                  ++ all_posts posts q)
                ++ all_posts posts d.delayed_work_queue)
              (with_delayed-deferred m.work_queue m ∙ reloaded.1),
      reloaded.0,
    )
  where
    -- What is behind the first deletion of a round.
    round : ℕ → MessageLoop → MessageLoop × Bool
    round n once =
        let again = delete_pending_tasks posts once in
        let rest = destroy_loop posts n again.1 again.0 in if not again.1 then again else rest

    round-cleared :
        (n : ℕ) (d : MessageLoop) (i : List PendingTask)
        → round n (cleared posts d i) ≡ (cleared posts d i, false)
    round-cleared n d i = refl

    reloaded :
        ((reload_work_queue l).incoming_queue
          ≡ (if is_empty l.work_queue then [] else l.incoming_queue))
        × ((reload_work_queue l).deferred_queue ≡ l.deferred_queue)
    reloaded = go l.work_queue l.incoming_queue
      where
        go :
            (q i : List PendingTask)
            → let m = reload_work_queue (record l { work_queue = q; incoming_queue = i }) in
              (m.incoming_queue ≡ (if is_empty q then [] else i))
              × (m.deferred_queue ≡ l.deferred_queue)
        go [] [] = (refl, refl)
        go [] (t ∷ i) = (refl, refl)
        go (t ∷ q) i = (refl, refl)
