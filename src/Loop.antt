-- ===== src/Loop.antt =====
-- src/message_loop/message_loop.cpp, pending_task.cpp and message_pump_default.cpp: a thread's loop
-- over tasks that any thread posts. A callback is named by a number. Times are milliseconds, 0 the
-- `TimePoint()` of a task without delay; sequence numbers are `int`s that
-- roll over, modulo 2 ^ 32. The priority queue is the list of its tasks, the greatest by `operator<` first.
pub mod Pump
pub mod Delayed
pub mod Destroy
pub mod Examples
use ashe.Base.{
  ℕ, ◌+◌, ◌-◌, ◌%◌, ◌^◌, Bool, true, false, not, ◌&&◌, ◌||◌, List, [], ◌∷◌, ◌++◌, Option, none,
  some, ltb, leb, ◌==◌, if◌then◌else◌,
}

pub record PendingTask : Type 0 where
  pub callback : ℕ
  pub sequence_num : ℕ
  pub delayed_run_time : ℕ
  pub nestable : Bool

pub record MessageLoop : Type 0 where
  pub incoming_queue : List PendingTask
  pub work_queue : List PendingTask
  pub delayed_work_queue : List PendingTask
  pub deferred_queue : List PendingTask
  pub next_sequence_num : ℕ
  pub nestable_tasks_allowed : Bool
  pub recent_time : ℕ

unfoldable pub create_loop : MessageLoop
create_loop = record {
  incoming_queue = [];
  work_queue = [];
  delayed_work_queue = [];
  deferred_queue = [];
  next_sequence_num = 0;
  nestable_tasks_allowed = true;
  recent_time = 0;
}

-- Whether an `int` is positive, from its 32 bits.
abbrev pub is_positive : ℕ → Bool
is_positive d = ltb 0 d && ltb d (2 ^ 31)

-- `operator<`: a later task is the smaller one.
unfoldable pub task_less : PendingTask → PendingTask → Bool
task_less a b =
    if ltb a.delayed_run_time b.delayed_run_time
    then false
    else if ltb b.delayed_run_time a.delayed_run_time
    then true
    else is_positive ((a.sequence_num + 2 ^ 32 - b.sequence_num) % 2 ^ 32)

unfoldable pub push_delayed : PendingTask → List PendingTask → List PendingTask
unfolding task_less
push_delayed t [] = t ∷ []
push_delayed t (x ∷ xs) = if task_less x t then t ∷ x ∷ xs else x ∷ push_delayed t xs

unfoldable pub calculate_delayed_runtime : ℕ → ℕ → ℕ
calculate_delayed_runtime now delay = if ltb 0 delay then now + delay else 0

abbrev pub is_empty : List PendingTask → Bool
is_empty [] = true
is_empty (t ∷ ts) = false

-- Under the lock; the second part says whether the pump is to be told.
unfoldable pub add_to_incoming_queue : PendingTask → MessageLoop → MessageLoop × Bool
add_to_incoming_queue t l =
    (record l { incoming_queue = l.incoming_queue ++ t ∷ [] }, is_empty l.incoming_queue)

-- `Swap` with a work queue that is empty.
unfoldable pub reload_work_queue : MessageLoop → MessageLoop
reload_work_queue l =
    if not (is_empty l.work_queue)
    then l
    else if is_empty l.incoming_queue
    then l
    else record l { incoming_queue = l.work_queue; work_queue = l.incoming_queue }

unfoldable pub add_to_delayed_work_queue : PendingTask → MessageLoop → MessageLoop
unfolding push_delayed
add_to_delayed_work_queue t l = record l {
  delayed_work_queue =
      push_delayed (record t { sequence_num = l.next_sequence_num }) l.delayed_work_queue;
  next_sequence_num = (l.next_sequence_num + 1) % 2 ^ 32;
}

-- `runTask` up to the callback's call, and behind it.
unfoldable pub start_task : MessageLoop → MessageLoop
start_task l = record l { nestable_tasks_allowed = false }

unfoldable pub finish_task : MessageLoop → MessageLoop
finish_task l = record l { nestable_tasks_allowed = true }

-- The task that is to be run, if it is not deferred.
unfoldable pub defer_or_run_pending_task :
    PendingTask → MessageLoop → MessageLoop × Option PendingTask
unfolding start_task
defer_or_run_pending_task t l =
    if t.nestable
    then (start_task l, some t)
    else (record l { deferred_queue = l.deferred_queue ++ t ∷ [] }, none)

-- What the body of the inner loop of `doWork` did with the front task: put it with the delayed
-- ones, and maybe told the pump its time, ran it, or put it off.
pub data Taken : Type 0 where
  delayed : Option ℕ → Taken
  started : PendingTask → Taken
  deferred : Taken

unfoldable pub take_task : PendingTask → MessageLoop → MessageLoop × Taken
unfolding add_to_delayed_work_queue defer_or_run_pending_task
take_task t l =
    if not (t.delayed_run_time == 0)
    then (
      add_to_delayed_work_queue t l,
      delayed (if is_empty l.delayed_work_queue then some t.delayed_run_time else none),
    )
    else let (l', o) = defer_or_run_pending_task t l in
      elim o [ some r ↦ (l', started r) | none ↦ (l', deferred) ]

abbrev pub top_time : List PendingTask → ℕ → ℕ
top_time [] d = d
top_time (t ∷ ts) d = t.delayed_run_time

-- With `recent_time_` up to date: the first delayed task, if its time has come.
unfoldable pub run_top :
    ℕ → PendingTask → List PendingTask → MessageLoop → MessageLoop × ℕ × Option PendingTask
unfolding defer_or_run_pending_task
run_top next t ts l =
    if ltb l.recent_time t.delayed_run_time
    then (l, t.delayed_run_time, none)
    else let (l', o) = defer_or_run_pending_task t (record l { delayed_work_queue = ts }) in
      (l', top_time ts next, o)

unfoldable pub do_delayed_of :
    ℕ → ℕ → List PendingTask → MessageLoop → MessageLoop × ℕ × Option PendingTask
unfolding run_top
do_delayed_of now next [] l = (record l { recent_time = 0 }, 0, none)
do_delayed_of now next (t ∷ ts) l =
    let recent = if ltb l.recent_time t.delayed_run_time then now else l.recent_time in
    run_top next t ts (record l { recent_time = recent })

-- `doDelayedWork`: `next` is `*nextDelayedWorkTime`, before and after.
unfoldable pub do_delayed_work : ℕ → ℕ → MessageLoop → MessageLoop × ℕ × Option PendingTask
unfolding do_delayed_of
do_delayed_work now next l =
    if not l.nestable_tasks_allowed
    then (record l { recent_time = 0 }, 0, none)
    else do_delayed_of now next l.delayed_work_queue l

unfoldable pub do_idle_of : List PendingTask → MessageLoop → MessageLoop × Option PendingTask
unfolding start_task
do_idle_of [] l = (l, none)
do_idle_of (t ∷ ts) l = (start_task (record l { deferred_queue = ts }), some t)

unfoldable pub do_idle_work : MessageLoop → MessageLoop × Option PendingTask
unfolding do_idle_of
do_idle_work l = do_idle_of l.deferred_queue l

-- The deletion of a task, which may post others: `posts` says which ones, a parameter.
unfoldable pub delete_task :
    (PendingTask → List PendingTask) → PendingTask → MessageLoop → MessageLoop
delete_task posts t l = record l { incoming_queue = l.incoming_queue ++ posts t }

-- The loops of `deletePendingTasks`: the delayed tasks of the work queue are ordered first.
unfoldable pub order_delayed :
    (PendingTask → List PendingTask) → List PendingTask → MessageLoop → MessageLoop
unfolding add_to_delayed_work_queue delete_task
order_delayed posts [] l = l
order_delayed posts (t ∷ ts) l =
    order_delayed posts ts (
      if not (t.delayed_run_time == 0)
      then add_to_delayed_work_queue t l
      else delete_task posts t l)

unfoldable pub delete_tasks :
    (PendingTask → List PendingTask) → List PendingTask → MessageLoop → MessageLoop
unfolding delete_task
delete_tasks posts [] l = l
delete_tasks posts (t ∷ ts) l = delete_tasks posts ts (delete_task posts t l)

unfoldable pub delete_pending_tasks :
    (PendingTask → List PendingTask) → MessageLoop → MessageLoop × Bool
unfolding order_delayed delete_tasks
delete_pending_tasks posts l =
    let l1 = record (order_delayed posts l.work_queue l) { work_queue = [] } in
    let l2 = record (delete_tasks posts l1.deferred_queue l1) { deferred_queue = [] } in
    let l3 = record (delete_tasks posts l2.delayed_work_queue l2) { delayed_work_queue = [] } in
    (
      l3,
      not (is_empty l.work_queue)
          || not (is_empty l1.deferred_queue)
          || not (is_empty l2.delayed_work_queue),
    )
