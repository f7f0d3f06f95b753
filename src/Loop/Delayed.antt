-- ===== src/Loop/Delayed.antt =====
-- The delayed tasks: `doDelayedWork` reads the clock only when it has to, and the queue is ordered.
use ashe.Base.{
  ℕ, ◌≤◌, ◌≡◌, true, false, not, List, [], ◌∷◌, ◌++◌, Option, none, some, ltb, if◌then◌else◌, arith,
}
use ashe.Loop.{
  PendingTask, MessageLoop, top_time, start_task, defer_or_run_pending_task, run_top, do_delayed_of,
  do_delayed_work,
}

-- The call as it is meant: the first delayed task is taken if its time has come by now.
abbrev pub due_work_of :
    ℕ → ℕ → List PendingTask → MessageLoop → MessageLoop × ℕ × Option PendingTask
due_work_of now next [] l = (l, 0, none)
due_work_of now next (t ∷ ts) l =
    if ltb now t.delayed_run_time
    then (l, t.delayed_run_time, none)
    else if t.nestable
    then (
      record l { delayed_work_queue = ts; nestable_tasks_allowed = false },
      top_time ts next,
      some t,
    )
    else (
      record l { delayed_work_queue = ts; deferred_queue = l.deferred_queue ++ t ∷ [] },
      top_time ts next,
      none,
    )

abbrev pub forget_time : MessageLoop × ℕ × Option PendingTask → MessageLoop × ℕ × Option PendingTask
forget_time (l, next, o) = (record l { recent_time = 0 }, next, o)

-- The clock's reading that `doDelayedWork` keeps and reads again only if the first task's time lies
-- behind it makes no difference: if that reading is not in the future and tasks may be run, the
-- call does, but for the reading, what it does with the clock read at every call.
pub do_delayed_work-due :
    (now next : ℕ) (l : MessageLoop)
    → l.nestable_tasks_allowed ≡ true
    → l.recent_time ≤ now
    → forget_time (do_delayed_work now next l)
      ≡ forget_time (due_work_of now next l.delayed_work_queue l)
unfolding do_delayed_work do_delayed_of run_top defer_or_run_pending_task start_task
do_delayed_work-due now next l a h = go l.delayed_work_queue
  where
    go :
        (q : List PendingTask)
        → forget_time (
            if not l.nestable_tasks_allowed
            then (record l { recent_time = 0 }, 0, none)
            else do_delayed_of now next q l)
          ≡ forget_time (due_work_of now next q l)
    go [] = ground (arith, a)
    go (t ∷ ts) = ground (arith, a, h)
