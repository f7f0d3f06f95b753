-- ===== src/Loop/Pump.antt =====
-- `MessagePumpDefault::run` over a message loop, as the steps that other threads' posts stand
-- between: a world is the loop, the pump, where the pump's thread is, and, to state theorems by,
-- every task that was posted and every task that was run, in order.
use ashe.Base.{
  ℕ, zero, suc, ◌+◌, ◌-◌, ◌<◌, ◌≡◌, Bool, true, false, not, ◌&&◌, ◌||◌, List, [], ◌∷◌, ◌++◌, Option,
  none, some, ltb, leb, ◌==◌, if◌then◌else◌,
}
use ashe.Loop.{
  PendingTask, MessageLoop, create_loop, calculate_delayed_runtime, add_to_incoming_queue, is_empty,
  reload_work_queue, finish_task, Taken, delayed, started, deferred, take_task, do_delayed_work,
  do_idle_work,
}
pub mod Rule
pub mod Places
pub mod Fifo
pub mod Delays
pub mod Calm
pub mod Wakeup

pub record Pump : Type 0 where
  pub have_work : Bool
  pub delayed_work_time : ℕ
  pub keep_running : Bool

-- Which call a task was started from.
pub data Caller : Type 0 where
  from_work : Caller
  from_delayed : Caller
  from_idle : Caller

-- Where the thread is: before `reloadWorkQueue`, before the inner loop of `doWork`, in a callback,
-- before `doDelayedWork` with `did_work`, before `doIdleWork`, behind it with nothing done, asleep,
-- or out of `run`.
pub data Phase : Type 0 where
  reloading draining idling pausing sleeping ended : Phase
  in_task : Caller → Phase
  delaying : Bool → Phase

-- `notified` says that the event was notified since the thread began to wait. `owed` counts the
-- threads that have put a task into the empty incoming queue and have not called `scheduleWork` yet.
pub record World : Type 0 where
  pub loop : MessageLoop
  pub pump : Pump
  pub phase : Phase
  pub notified : Bool
  pub owed : ℕ
  pub posted : List PendingTask
  pub ran : List PendingTask

unfoldable pub create : World
unfolding create_loop
create = record {
  loop = create_loop;
  pump = record { have_work = false; delayed_work_time = 0; keep_running = true };
  phase = reloading;
  notified = false;
  owed = 0;
  posted = [];
  ran = [];
}

-- The two halves of `addToIncomingQueue`, on any thread.
unfoldable pub post : ℕ → ℕ → ℕ → Bool → World → World
unfolding add_to_incoming_queue calculate_delayed_runtime
post callback now delay nestable w =
    let t : PendingTask = record {
      callback = callback;
      sequence_num = 0;
      delayed_run_time = calculate_delayed_runtime now delay;
      nestable = nestable;
    } in
    record w {
      loop = (add_to_incoming_queue t w.loop).0;
      owed = if (add_to_incoming_queue t w.loop).1 then w.owed + 1 else w.owed;
      posted = w.posted ++ t ∷ [];
    }

unfoldable pub schedule_work : World → World
schedule_work w = record w {
  pump = record w.pump { have_work = true };
  notified = true;
  owed = w.owed - 1;
}

-- `quit`, which a callback calls.
unfoldable pub quit : World → World
quit w = record w { pump = record w.pump { keep_running = false } }

-- `if (!keepRunning_) break;`, after which `run` sets the flag again.
unfoldable pub go_on : Phase → World → World
go_on p w =
    if w.pump.keep_running
    then record w { phase = p }
    else record w { phase = ended; pump = record w.pump { keep_running = true } }

abbrev pub next_phase : Bool → Phase → Phase
next_phase did p = if did then reloading else p

-- A callback begins.
unfoldable pub start : Caller → PendingTask → World → World
start c t w = record w { phase = in_task c; ran = w.ran ++ t ∷ [] }

-- `doWork` up to the inner loop, and its test of `nestableTasksAllowed_`.
unfoldable pub reload : World → World
unfolding reload_work_queue go_on
reload w =
    let l = reload_work_queue w.loop in
    if is_empty l.work_queue
    then go_on (delaying false) (record w { loop = l })
    else record w { loop = l; phase = draining }

unfoldable pub begin_work : World → World
unfolding reload go_on
begin_work w = if not w.loop.nestable_tasks_allowed then go_on (delaying false) w else reload w

-- The inner loop of `doWork` with the front task taken off.
unfoldable pub after_take : MessageLoop → Taken → World → World
unfolding start
after_take l (delayed none) w = record w { loop = l }
after_take l (delayed (some time)) w = record w {
  loop = l;
  pump = record w.pump { delayed_work_time = time };
}
after_take l (started t) w = start from_work t (record w { loop = l })
after_take l deferred w = record w { loop = l }

unfoldable pub drain : List PendingTask → World → World
unfolding take_task after_take
drain [] w = record w { phase = reloading }
drain (t ∷ ts) w =
    let (l, taken) = take_task t (record w.loop { work_queue = ts }) in after_take l taken w

unfoldable pub after_delayed : Bool → MessageLoop × ℕ × Option PendingTask → World → World
unfolding start go_on
after_delayed did (l, next, some t) w =
    start from_delayed t (record w { loop = l; pump = record w.pump { delayed_work_time = next } })
after_delayed did (l, next, none) w =
    go_on (next_phase did idling)
      (record w { loop = l; pump = record w.pump { delayed_work_time = next } })

unfoldable pub run_delayed : ℕ → Bool → World → World
unfolding do_delayed_work after_delayed
run_delayed now did w = after_delayed did (do_delayed_work now w.pump.delayed_work_time w.loop) w

unfoldable pub after_idle : MessageLoop × Option PendingTask → World → World
unfolding start go_on
after_idle (l, some t) w = start from_idle t (record w { loop = l })
after_idle (l, none) w = go_on pausing (record w { loop = l })

unfoldable pub run_idle : World → World
unfolding do_idle_work after_idle
run_idle w = after_idle (do_idle_work w.loop) w

-- A callback returns.
unfoldable pub finish : Caller → World → World
unfolding finish_task go_on
finish from_work w = go_on (delaying true) (record w { loop = finish_task w.loop })
finish from_delayed w = go_on reloading (record w { loop = finish_task w.loop })
finish from_idle w = go_on reloading (record w { loop = finish_task w.loop })

-- Before the wait: a time in the past is forgotten.
unfoldable pub pause : ℕ → World → World
pause now w =
    let time = w.pump.delayed_work_time in
    if time == 0
    then record w { phase = sleeping; notified = false }
    else if leb time now
    then record w { phase = reloading; pump = record w.pump { delayed_work_time = 0 } }
    else record w { phase = sleeping; notified = false }

abbrev leave : World → World
leave w = record w { phase = reloading; pump = record w.pump { have_work = false } }

-- The wait. Without a time it tests `have_work_` before it waits and behind each notification; with
-- one it ends when the time has come, and tests `have_work_` only behind a notification.
unfoldable pub wake : ℕ → World → World
wake now w =
    let time = w.pump.delayed_work_time in
    if time == 0
    then if w.pump.have_work then leave w else w
    else if leb time now
    then leave w
    else if w.notified && w.pump.have_work
    then leave w
    else record w { notified = false }

-- A wait may end without a notification.
unfoldable pub stir : World → World
stir w = record w { notified = true }

-- One step of the pump's thread.
unfoldable pub advance_at : Phase → ℕ → World → World
unfolding begin_work drain run_delayed run_idle finish pause wake
advance_at reloading now w = begin_work w
advance_at draining now w = drain w.loop.work_queue w
advance_at (in_task c) now w = finish c w
advance_at (delaying did) now w = run_delayed now did w
advance_at idling now w = run_idle w
advance_at pausing now w = pause now w
advance_at sleeping now w = wake now w
advance_at ended now w = w

unfoldable pub advance : ℕ → World → World
unfolding advance_at
advance now w = advance_at w.phase now w

pub data Step (w : World) : World → Type 0 where
  advanced : (now : ℕ) → Step w (advance now w)
  posted : (callback now delay : ℕ) (nestable : Bool) → Step w (post callback now delay nestable w)
  scheduled : 0 < w.owed → Step w (schedule_work w)
  stirred : Step w (stir w)
  quitted : (c : Caller) → w.phase ≡ in_task c → Step w (quit w)

pub data Reach (w : World) : World → Type 0 where
  here : Reach w w
  more : {u v : World} → Reach w u → Step u v → Reach w v
